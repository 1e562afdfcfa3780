-- ===== src/Tests/Sessions.antt =====
-- The session's steps on a session that is new.
use mathlib.Core.Option
use Prim.Native.String.{◌++◌ as append_text}
use peek_mcp.Prelude.{◌≡◌, refl, String, ◌++◌, [], ◌∷◌, some, true, arith, str_eq, if◌then◌else◌}
use peek_mcp.Prelude.Assoc.{lookup}
use peek_mcp.Session.Usage.Laws.{plus}
use peek_mcp.Session.Requests.Targets.{usage_at}
use peek_mcp.Session.Requests.Charges.{charged}
use peek_mcp.Session.Sound.Reports.{report_of, add_turn-reports}
use peek_mcp.Session.Turn.{Turn, ToolResult}
use peek_mcp.Session.TurnBuffer.Window.{IsValid}
use peek_mcp.Session.State.{Session, UsageTarget, session_total}
use peek_mcp.Session.Usage.{zero_usage}
use peek_mcp.Session.Requests.{apply_request_usage}
use peek_mcp.Session.Requests.Ledger.{Balances, base_at, apply_request_usage-Balances}
use peek_mcp.Session.Skills.{add_event}
use peek_mcp.Session.Turns.{find_tool_call, apply_tool_result}
use peek_mcp.Session.Turns.Results.{flag, find_tool_call-apply_tool_result}
use peek_mcp.Session.Turns.Merge.{append_turns, texts, thoughts, calls, append_turns-chunks}
use peek_mcp.Session.AddTurn.{add_turn}
use peek_mcp.Session.Subagents.{add_subagent_turn}
use peek_mcp.Session.Sound.{IsSound}
use peek_mcp.Session.Sound.Events.{add_event-IsSound}
use peek_mcp.Session.Sound.Turns.{add_turn-IsSound}
use peek_mcp.Session.Sound.Subagents.{add_subagent_turn-IsSound}
use peek_mcp.Store.AddTurn.{new_session}
use peek_mcp.Store.Fresh.{new_session-IsSound}
use peek_mcp.Tests.Data.{
  sample_meta, sample_usage, chunk, later_chunk, subagent_chunk, empty_ring, denial,
}

empty_ring-IsValid : IsValid empty_ring
empty_ring-IsValid = record { positive = omega arith; signed = omega arith; within = omega arith }

abbrev fresh : Session
fresh = new_session "s1" "claude" empty_ring

fresh-IsSound : IsSound zero_usage fresh
fresh-IsSound = new_session-IsSound "s1" "claude" empty_ring empty_ring-IsValid

apply_request_usage-Balances_example :
    Balances zero_usage (apply_request_usage fresh "r1" sample_usage (session_total ∷ []))
apply_request_usage-Balances_example =
    apply_request_usage-Balances fresh "r1" sample_usage (session_total ∷ []) fresh-IsSound.balanced
      (tt, tt)

find_tool_call-apply_tool_result_example :
    let r : ToolResult = record { is_error = true; tool_use_id = "t1" } in
    let (active, finished) = apply_tool_result (some chunk) empty_ring r in
    find_tool_call active finished "t1" ≡ (
      if str_eq "t1" "t1"
      then Option.map (flag r) (find_tool_call (some chunk) empty_ring "t1")
      else find_tool_call (some chunk) empty_ring "t1")
find_tool_call-apply_tool_result_example =
    find_tool_call-apply_tool_result (some chunk) empty_ring
      (record { is_error = true; tool_use_id = "t1" }) "t1"

append_turns-chunks_example :
    (whole : Turn) × (append_turns (some chunk) empty_ring (later_chunk ∷ chunk ∷ [])
      ≡ some (some whole, empty_ring))
    × (whole.text ≡ append_text chunk.text (texts (later_chunk ∷ chunk ∷ [])))
    × (whole.thinking ≡ append_text chunk.thinking (thoughts (later_chunk ∷ chunk ∷ [])))
    × (whole.tool_calls ≡ chunk.tool_calls ++ calls (later_chunk ∷ chunk ∷ []))
append_turns-chunks_example =
    append_turns-chunks chunk empty_ring "r1" (later_chunk ∷ chunk ∷ []) refl refl
      (refl, (refl, tt))

add_event-IsSound_example : IsSound zero_usage (add_event fresh denial)
add_event-IsSound_example = add_event-IsSound fresh denial fresh-IsSound

add_turn-IsSound_example : (s : Session) × (add_turn fresh chunk ≡ some s) × IsSound zero_usage s
add_turn-IsSound_example = add_turn-IsSound fresh chunk sample_meta refl fresh-IsSound

-- A session in which the request was reported before.
abbrev again : Session
again = (add_turn-IsSound fresh chunk sample_meta refl fresh-IsSound).0

add_turn-reports_example :
    (s : Session) × (add_turn again chunk ≡ some s)
    × ((id : String)
        → lookup id s.usage_by_request_id ≡ (
            if str_eq "r1" id
            then some (report_of again sample_usage)
            else lookup id again.usage_by_request_id))
    × ((t : UsageTarget)
        → usage_at t s ≡ plus (base_at zero_usage t) (charged t s.usage_by_request_id))
add_turn-reports_example =
    add_turn-reports again chunk sample_meta sample_usage refl refl refl
      (add_turn-IsSound fresh chunk sample_meta refl fresh-IsSound).2

add_subagent_turn-IsSound_example :
    (s : Session) × (add_subagent_turn fresh subagent_chunk ≡ some s) × IsSound zero_usage s
add_subagent_turn-IsSound_example = add_subagent_turn-IsSound fresh subagent_chunk fresh-IsSound
