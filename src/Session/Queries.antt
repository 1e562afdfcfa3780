-- ===== src/Session/Queries.antt =====
-- session/session.go: what is read of a session, titles and phases. `none` where turns are listed
-- is the panic of a negative number.
use mathlib.Core.Option
use peek_mcp.Prelude.{
  ℕ, String, Bool, false, not, List, Option, none, some, length, last, leb, ltb, str_eq, is_empty,
  ◌==◌, if◌then◌else◌,
}
use peek_mcp.Prelude.Assoc.{lookup}
use peek_mcp.Session.Turn.{Turn}
use peek_mcp.Session.TurnBuffer
use peek_mcp.Session.Usage.{Usage}
use peek_mcp.Session.State.{Session, agent_codex, title_source_custom, title_source_index}
use peek_mcp.Session.Turns.{scope_total, conversational_turns, last_turns}

-- `s.TotalTurns()`
unfoldable pub total_turns : Session → ℕ
total_turns s = scope_total s.turn_active (TurnBuffer.pushed s.turns_finished)

-- `s.TotalTurnsWithToolCalls()`
unfoldable pub total_turns_with_tool_calls : Session → ℕ
total_turns_with_tool_calls s =
    scope_total s.turn_active (TurnBuffer.pushed_with_tool_calls s.turns_finished)

-- `s.Turns(number)`
unfoldable pub turns : Session → ℕ → Option (List Turn)
turns s number = last_turns s.turn_active (conversational_turns s.turns_finished.items) number

-- `s.TurnsWithToolCalls(number)`
unfoldable pub turns_with_tool_calls : Session → ℕ → Option (List Turn)
turns_with_tool_calls s number = last_turns s.turn_active s.turns_finished.items number

-- `s.SubagentTotalTurns(agentId)`
unfoldable pub subagent_total_turns : Session → String → ℕ
subagent_total_turns s agent_id = elim (lookup agent_id s.subagents) [
  | none ↦ 0
  | some stat ↦ scope_total stat.turn_active (TurnBuffer.pushed stat.turns)
]

-- `s.SubagentTotalTurnsWithToolCalls(agentId)`
unfoldable pub subagent_total_turns_with_tool_calls : Session → String → ℕ
subagent_total_turns_with_tool_calls s agent_id = elim (lookup agent_id s.subagents) [
  | none ↦ 0
  | some stat ↦ scope_total stat.turn_active (TurnBuffer.pushed_with_tool_calls stat.turns)
]

-- `s.SubagentTurns(agentId, number)`; the inner `none` is an unknown agent.
unfoldable pub subagent_turns : Session → String → ℕ → Option (Option (List Turn))
subagent_turns s agent_id number = elim (lookup agent_id s.subagents) [
  | none ↦ some none
  | some stat ↦
      Option.map some (last_turns stat.turn_active (conversational_turns stat.turns.items) number)
]

-- `s.SubagentTurnsWithToolCalls(agentId, number)`
unfoldable pub subagent_turns_with_tool_calls : Session → String → ℕ → Option (Option (List Turn))
subagent_turns_with_tool_calls s agent_id number = elim (lookup agent_id s.subagents) [
  | none ↦ some none
  | some stat ↦ Option.map some (last_turns stat.turn_active stat.turns.items number)
]

-- `s.CurrentUsage()`
abbrev pub current_usage : Session → Usage
current_usage s = s.total_usage

-- `titleSourceRank(source)`
unfoldable pub title_source_rank : String → ℕ
title_source_rank source =
    if str_eq source title_source_custom
    then 2
    else if str_eq source title_source_index
    then 1
    else 0

-- `s.HasNewTitle(title, source)`
unfoldable pub has_new_title : Session → String → String → Bool
unfolding title_source_rank
has_new_title s title source =
    if is_empty title
    then false
    else if ltb (title_source_rank source) (title_source_rank s.title_source)
    then false
    else not (str_eq s.title title)

-- `s.isAlterationPhase()`
unfoldable pub is_alteration_phase : Session → Bool
is_alteration_phase s =
    if str_eq s.agent agent_codex then leb 1 (length s.plan_revisions) else s.plan_exit_seen

-- `s.isPlanReplay(timestamp)`
unfoldable pub is_plan_replay : Session → ℕ → Bool
is_plan_replay s timestamp = elim (last s.plan_revisions) [
  | none ↦ false
  | some latest ↦ if timestamp == 0 then false else leb timestamp latest.timestamp
]
