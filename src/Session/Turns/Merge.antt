-- ===== src/Session/Turns/Merge.antt =====
-- session/session.go: `appendTurn` on the streamed chunks of one request.
use Prim.Native.String.{◌++◌ as append_text}
use text.Mathlib.TextLemmas.{append-nil as join_nil, append_assoc as text_append_assoc}
use mathlib.Core.List.{append-nil, append_assoc}
use peek_mcp.Prelude.{
  ◌≡◌, refl, sym, ◌∙◌, String, true, false, List, [], ◌∷◌, ◌++◌, Option, none, some, arith, eq_iff,
  is_empty,
}
use peek_mcp.Session.Turn.{Turn, ToolCall}
use peek_mcp.Session.TurnBuffer.{TurnBuffer}
use peek_mcp.Session.Turns.{merge, is_same_request, append_turn}

-- Chunks appended in a row; `none` is a panic.
pub append_turns : Option Turn → TurnBuffer → List Turn → Option (Option Turn × TurnBuffer)
append_turns active buffer [] = some (active, buffer)
append_turns active buffer (t ∷ ts) = elim (append_turn active buffer t) [
  | none ↦ none
  | some (next, buffer') ↦ append_turns (some next) buffer' ts
]

-- Every turn is a chunk of the request.
abbrev pub AllOf : String → List Turn → Type 0
AllOf id [] = Unit
AllOf id (t ∷ ts) = (t.request_id ≡ id) × AllOf id ts

pub texts : List Turn → String
texts [] = ""
texts (t ∷ ts) = append_text t.text (texts ts)

pub thoughts : List Turn → String
thoughts [] = ""
thoughts (t ∷ ts) = append_text t.thinking (thoughts ts)

pub calls : List Turn → List ToolCall
calls [] = []
calls (t ∷ ts) = t.tool_calls ++ calls ts

same_request :
    (active t : Turn) (id : String)
    → is_empty id ≡ false
    → active.request_id ≡ id
    → t.request_id ≡ id
    → is_same_request active t ≡ true
same_request active t id e h k = rw (h, k) (ground (arith, eq_iff id id, e))

append_turn-chunk :
    (active t : Turn) (buffer : TurnBuffer) (id : String)
    → is_empty id ≡ false
    → active.request_id ≡ id
    → t.request_id ≡ id
    → append_turn (some active) buffer t ≡ some (merge active t, buffer)
unfolding append_turn
append_turn-chunk active t buffer id e h k = rw (same_request active t id e h k)

-- However many chunks of a request with an id arrive after an active turn of that request: nothing
-- is pushed to the ring, and the active turn ends with the texts, the thoughts and the calls of all
-- of them joined in the order of their arrival.
pub append_turns-chunks :
    (active : Turn) (buffer : TurnBuffer) (id : String) (chunks : List Turn)
    → is_empty id ≡ false
    → active.request_id ≡ id
    → AllOf id chunks
    → (whole : Turn) × (append_turns (some active) buffer chunks ≡ some (some whole, buffer))
      × (whole.text ≡ append_text active.text (texts chunks))
      × (whole.thinking ≡ append_text active.thinking (thoughts chunks))
      × (whole.tool_calls ≡ active.tool_calls ++ calls chunks)
unfolding append_turns texts thoughts calls
append_turns-chunks active buffer id [] e h all = (
  active,
  refl,
  sym (join_nil active.text),
  sym (join_nil active.thinking),
  sym (append-nil active.tool_calls),
)
append_turns-chunks active buffer id (t ∷ ts) e h all =
    let (whole, ran, text, thinking, tool_calls) =
      append_turns-chunks (merge active t) buffer id ts e all.0 all.1 in
    (
      whole,
      rw (append_turn-chunk active t buffer id e h all.0, append_turns) ran,
      text ∙ text_append_assoc active.text t.text (texts ts),
      thinking ∙ text_append_assoc active.thinking t.thinking (thoughts ts),
      tool_calls ∙ append_assoc active.tool_calls t.tool_calls (calls ts),
    )
