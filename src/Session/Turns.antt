-- ===== src/Session/Turns.antt =====
-- session/session.go: the active turn, the finished turns and the results of tool calls. A `none`
-- where a turn is pushed is a panic of the ring.
pub mod Results
pub mod Merge
use Prim.Native.String.{◌++◌ as append_text}
use mathlib.Core.Option
use peek_mcp.Prelude.{
  ℕ, ◌-◌, String, Bool, true, false, not, ◌&&◌, ◌||◌, List, [], ◌∷◌, ◌++◌, Option, none, some,
  length, drop, keep, str_eq, is_empty, if◌then◌else◌,
}
use peek_mcp.Prelude.Words.{add64, is_negative, lt64}
use peek_mcp.Session.Turn.{Turn, ToolCall, ToolResult, is_filled, is_tool_only, tool_call_by_id}
use peek_mcp.Session.TurnBuffer
use peek_mcp.Session.TurnBuffer.{TurnBuffer}

-- `merged` of `appendTurn`: the new chunk with the texts and calls of both.
abbrev pub merge : Turn → Turn → Turn
merge active next = record next {
  text = append_text active.text next.text;
  thinking = append_text active.thinking next.thinking;
  tool_calls = active.tool_calls ++ next.tool_calls;
}

abbrev pub has_content : Turn → Bool
has_content active =
    not (is_empty active.text) || not (is_empty active.thinking) || is_filled active.tool_calls

-- `next.RequestId != "" && active.RequestId == next.RequestId`
abbrev pub is_same_request : Turn → Turn → Bool
is_same_request active next =
    not (is_empty next.request_id) && str_eq active.request_id next.request_id

-- `appendTurn(active, buffer, next)`: the new active turn and the ring.
unfoldable pub append_turn : Option Turn → TurnBuffer → Turn → Option (Turn × TurnBuffer)
append_turn none buffer next = some (next, buffer)
append_turn (some active) buffer next =
    if is_same_request active next
    then some (merge active next, buffer)
    else if has_content active
    then Option.map (λ b. (next, b)) (TurnBuffer.push buffer active)
    else some (next, buffer)

unfoldable pub find_newest : String → List Turn → Option ToolCall
unfolding tool_call_by_id
find_newest tool_use_id [] = none
find_newest tool_use_id (t ∷ ts) = elim (find_newest tool_use_id ts) [
  | some call ↦ some call
  | none ↦ tool_call_by_id (some t) tool_use_id
]

-- `findToolCall(active, finished, toolUseId)`: the active turn first, then the newest finished one.
unfoldable pub find_tool_call : Option Turn → TurnBuffer → String → Option ToolCall
unfolding find_newest tool_call_by_id
find_tool_call active finished tool_use_id = elim (tool_call_by_id active tool_use_id) [
  | some call ↦ some call
  | none ↦ find_newest tool_use_id finished.items
]

-- The write `call.IsError = isError` to the call that the search by id finds in a list of calls.
unfoldable pub mark_call : ToolResult → List ToolCall → Option (List ToolCall)
mark_call result [] = none
mark_call result (call ∷ calls) =
    if str_eq call.id result.tool_use_id
    then some (record call { is_error = result.is_error } ∷ calls)
    else Option.map (λ rest. call ∷ rest) (mark_call result calls)

unfoldable pub mark_turn : ToolResult → Turn → Option Turn
unfolding mark_call
mark_turn result t =
    Option.map (λ calls. record t { tool_calls = calls }) (mark_call result t.tool_calls)

unfoldable pub mark_newest : ToolResult → List Turn → Option (List Turn)
unfolding mark_turn
mark_newest result [] = none
mark_newest result (t ∷ ts) = elim (mark_newest result ts) [
  | some rest ↦ some (t ∷ rest)
  | none ↦ Option.map (λ t'. t' ∷ ts) (mark_turn result t)
]

unfoldable pub mark_finished : ToolResult → TurnBuffer → TurnBuffer
unfolding mark_newest
mark_finished result finished = elim (mark_newest result finished.items) [
  | none ↦ finished
  | some items ↦ record finished { items = items }
]

-- One round of `applyToolResults`: the call that `findToolCall` finds gets the error flag.
unfoldable pub apply_tool_result : Option Turn → TurnBuffer → ToolResult → Option Turn × TurnBuffer
unfolding mark_finished mark_turn
apply_tool_result none finished result = (none, mark_finished result finished)
apply_tool_result (some active) finished result = elim (mark_turn result active) [
  | some active' ↦ (some active', finished)
  | none ↦ (some active, mark_finished result finished)
]

-- `applyToolResults(active, finished, results)`
unfoldable pub apply_tool_results :
    Option Turn → TurnBuffer → List ToolResult → Option Turn × TurnBuffer
unfolding apply_tool_result
apply_tool_results active finished [] = (active, finished)
apply_tool_results active finished (result ∷ results) =
    let (active', finished') = apply_tool_result active finished result in
    apply_tool_results active' finished' results

-- `scopeTotal(active, pushed)`
unfoldable pub scope_total : Option Turn → ℕ → ℕ
unfolding add64
scope_total none pushed = pushed
scope_total (some active) pushed = add64 pushed 1

-- `conversationalTurns(finished)`
unfoldable pub conversational_turns : List Turn → List Turn
unfolding is_tool_only
conversational_turns finished = keep (λ t. not (is_tool_only t)) finished

unfoldable pub with_active : Option Turn → List Turn → List Turn
with_active none finished = finished
with_active (some active) finished = finished ++ active ∷ []

-- `lastTurns(active, finished, number)`; the slice panics at a negative number.
unfoldable pub last_turns : Option Turn → List Turn → ℕ → Option (List Turn)
unfolding with_active lt64 is_negative
last_turns active finished number =
    let turns = with_active active finished in
    if is_negative number
    then none
    else if lt64 number (length turns)
    then some (drop (length turns - number) turns)
    else some turns
