-- ===== src/Session/State.antt =====
-- session/session.go and session/plan_revision.go: the state of a session. Times are in nanoseconds
-- since the zero time, which is 0; counts and durations are 64-bit patterns. A pointer to a skill
-- stat is its place in `skills`, and a pointer into a usage total is a `UsageTarget`: `skills` only
-- grows at its end and `subagents` never loses a key, so neither ever points to another object.
use peek_mcp.Prelude.{ℕ, String, Bool, List, Option}
use peek_mcp.Prelude.Assoc.{Assoc}
use peek_mcp.Session.Event.{Counters}
use peek_mcp.Session.EventBuffer.{EventBuffer}
use peek_mcp.Session.Meta.{Meta}
use peek_mcp.Session.Turn.{Turn}
use peek_mcp.Session.TurnBuffer.{TurnBuffer}
use peek_mcp.Session.Usage.{Usage}

abbrev pub agent_claude : String
agent_claude = "claude"

abbrev pub agent_codex : String
agent_codex = "codex"

abbrev pub title_source_custom : String
title_source_custom = "custom"

abbrev pub title_source_derived : String
title_source_derived = "derived"

abbrev pub title_source_index : String
title_source_index = "index"

abbrev pub event_buffer_capacity : ℕ
event_buffer_capacity = 3000

abbrev pub event_buffer_denial_budget : ℕ
event_buffer_denial_budget = 2000

-- Five minutes.
abbrev pub idle_threshold : ℕ
idle_threshold = 300000000000

abbrev pub max_touched_files : ℕ
max_touched_files = 2000

abbrev pub max_subagent_stats : ℕ
max_subagent_stats = 300

abbrev pub min_subagent_turn_depth : ℕ
min_subagent_turn_depth = 200

abbrev pub max_skill_stats : ℕ
max_skill_stats = 200

abbrev pub stop_reason_tool_use : String
stop_reason_tool_use = "tool_use"

-- The constants of `DiffSource`; `unset` is the empty text.
pub data DiffSource : Type 0 where
  unset live snapshot : DiffSource

pub record FileTouchCounts : Type 0 where
  pub reads : ℕ
  pub writes : ℕ

pub record SkillStat : Type 0 where
  pub agent_id : String
  pub skill : String
  pub args : String
  pub model : String
  pub started_at : ℕ
  pub ended_at : ℕ
  pub usage : Usage

pub record SubagentStat : Type 0 where
  pub agent_type : String
  pub description : String
  pub first_active : ℕ
  pub last_active : ℕ
  pub model : String
  pub touched_files : Assoc FileTouchCounts
  pub turn_active : Option Turn
  pub turns : TurnBuffer
  pub usage : Usage

pub record PlanRevision : Type 0 where
  pub content : String
  pub diff : String
  pub index : ℕ
  pub is_alteration : Bool
  pub timestamp : ℕ

-- What a `*Usage` of a `requestUsage` points to.
pub data UsageTarget : Type 0 where
  session_total : UsageTarget
  skill_usage : ℕ → UsageTarget
  subagent_usage : String → UsageTarget

pub record RequestUsage : Type 0 where
  pub counted : Usage
  pub targets : List UsageTarget

pub record Session : Type 0 where
  pub active_skills : Assoc ℕ
  pub current_prompt_id : String
  pub plan_exit_seen : Bool
  pub usage_by_request_id : Assoc RequestUsage
  pub agent : String
  pub counters : Counters
  pub diff_base : String
  pub diff_captured_at : ℕ
  pub diff_output : String
  pub diff_source : DiffSource
  pub diff_target : String
  pub events : EventBuffer
  pub file_path : String
  pub has_diff_snapshot : Bool
  pub idle : ℕ
  pub last_active : ℕ
  pub meta : Meta
  pub plan_content : String
  pub plan_file_path : String
  pub plan_revisions : List PlanRevision
  pub skills : List SkillStat
  pub started_at : ℕ
  pub subagents : Assoc SubagentStat
  pub title : String
  pub title_source : String
  pub total_usage : Usage
  pub touched_files : Assoc FileTouchCounts
  pub turn_active : Option Turn
  pub turns_finished : TurnBuffer
  pub uncommitted_diff : String
