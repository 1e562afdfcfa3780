-- ===== src/Codex/Serial.antt =====
-- codex/parser.go: what a parser carries across a restart, State and Restore. The encoder of
-- encoding/gob is given; `none` is an error.
use mathlib.Core.Option
use peek_mcp.Prelude.{ℕ, String, ◌≡◌, refl, List, Option, some}
use peek_mcp.Prelude.Assoc.{Assoc}
use peek_mcp.Prelude.Gob.{Codec, Carries}
use peek_mcp.Codex.State.{EscalatedCall, Parser}

-- `parserState`; `none` is the nil map.
pub record ParserState : Type 0 where
  pub model : String
  pub pending_escalated : Option (Assoc EscalatedCall)
  pub session_id : String
  pub subagent_actor : String

-- `p.State()`; the map of a parser is never nil.
unfoldable pub state : Codec (List ℕ) ParserState → Parser → Option (List ℕ)
state gob p = gob.encode (record {
  model = p.model;
  pending_escalated = some p.pending_escalated;
  session_id = p.session_id;
  subagent_actor = p.subagent_actor;
})

-- `p.Restore(data)`: the parser afterwards.
unfoldable pub restore : Codec (List ℕ) ParserState → Parser → List ℕ → Option Parser
restore gob p bytes =
    Option.map
      (λ state. record p {
        model = state.model;
        session_id = state.session_id;
        subagent_actor = state.subagent_actor;
        pending_escalated = Option.get_or state.pending_escalated p.pending_escalated;
      })
      (gob.decode bytes)

-- Whatever a parser held before, it holds after Restore what State saved.
pub restore-state :
    (gob : Codec (List ℕ) ParserState) (p receiver : Parser) (bytes : List ℕ)
    → Carries gob
    → state gob p ≡ some bytes
    → restore gob receiver bytes ≡ some p
unfolding state restore
restore-state gob p receiver bytes carries e = rw (carries _ bytes e) refl
