-- ===== src/Claude/Serial.antt =====
-- claude/parser.go: what a parser carries across a restart, State and Restore. The encoder of
-- encoding/gob is given; `none` is an error.
use mathlib.Core.Option
use peek_mcp.Prelude.{ℕ, String, ◌≡◌, refl, List, Option, some}
use peek_mcp.Prelude.Assoc.{Assoc}
use peek_mcp.Prelude.Gob.{Codec, Carries}
use peek_mcp.Claude.Content.{PendingToolUse}
use peek_mcp.Claude.State.{Parser}

-- `parserState`; `none` is the nil map.
pub record ParserState : Type 0 where
  pub pending_tools : Option (Assoc PendingToolUse)
  pub permission_mode : String

-- `p.State()`; the map of a parser is never nil.
unfoldable pub state : Codec (List ℕ) ParserState → Parser → Option (List ℕ)
state gob p =
    gob.encode
      (record { pending_tools = some p.pending_tools; permission_mode = p.permission_mode })

-- `p.Restore(data)`: the parser afterwards.
unfoldable pub restore : Codec (List ℕ) ParserState → Parser → List ℕ → Option Parser
restore gob p bytes =
    Option.map
      (λ state. record p {
        permission_mode = state.permission_mode;
        pending_tools = Option.get_or state.pending_tools p.pending_tools;
      })
      (gob.decode bytes)

-- Whatever a parser held before, it holds after Restore what State saved.
pub restore-state :
    (gob : Codec (List ℕ) ParserState) (p receiver : Parser) (bytes : List ℕ)
    → Carries gob
    → state gob p ≡ some bytes
    → restore gob receiver bytes ≡ some p
unfolding state restore
restore-state gob p receiver bytes carries e = rw (carries _ bytes e) refl
