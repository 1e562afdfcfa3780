-- ===== src/Session/Event.antt =====
-- session/event.go: events, their payloads and the counters of a session. A pointer to a payload
-- is an `Option`, and a Go `int` its 64-bit pattern.
use peek_mcp.Prelude.{ℕ, String, Bool, true, false, List, Option, none, some, is_empty}

-- The constants of `EventKind`; `other` is any other text, the empty one included.
pub data EventKind : Type 0 where
  model_changed permission_denied permission_granted permission_mode_changed : EventKind
  plan_approved plan_mode_enter plan_mode_exit plan_mode_reenter plan_rejected : EventKind
  plan_revised skill_invoked subagent_result subagent_spawned task_completed : EventKind
  user_answer : EventKind
  other : String → EventKind

abbrev pub denial_kind_cancelled : String
denial_kind_cancelled = "cancelled"

abbrev pub denial_kind_interrupted : String
denial_kind_interrupted = "interrupted"

abbrev pub skill_source_slash : String
skill_source_slash = "slash"

abbrev pub skill_source_tool : String
skill_source_tool = "tool"

pub record Counters : Type 0 where
  pub model_changes : ℕ
  pub permission_cancellations : ℕ
  pub permission_denials : ℕ
  pub permission_grants : ℕ
  pub permission_mode_changes : ℕ
  pub plan_alterations : ℕ
  pub plan_rejections : ℕ
  pub skills_invoked : ℕ
  pub subagents_spawned : ℕ
  pub turns : ℕ

pub record ModelPayload : Type 0 where
  pub from : String
  pub to : String

pub record PermissionModePayload : Type 0 where
  pub from : String
  pub to : String

pub record PermissionPayload : Type 0 where
  pub command : String
  pub justification : String
  pub kind : String
  pub tool : String
  pub tool_use_id : String

pub record PlanPayload : Type 0 where
  pub content : String
  pub revision : ℕ

pub record SkillPayload : Type 0 where
  pub args : String
  pub skill : String
  pub source : String

pub record SubagentPayload : Type 0 where
  pub agent_id : String
  pub agent_type : String
  pub content : String
  pub description : String
  pub is_error : Bool
  pub spawn_depth : ℕ
  pub tool_use_id : String

pub record TaskPayload : Type 0 where
  pub status : String
  pub summary : String
  pub task_id : String
  pub tool_use_id : String

pub record UserAnswerPayload : Type 0 where
  pub answers : String
  pub questions : List String

-- `timestamp` is a `time.Time` in nanoseconds since its zero value.
pub record Event : Type 0 where
  pub actor : String
  pub kind : EventKind
  pub model : Option ModelPayload
  pub permission : Option PermissionPayload
  pub permission_mode : Option PermissionModePayload
  pub plan : Option PlanPayload
  pub skill : Option SkillPayload
  pub subagent : Option SubagentPayload
  pub task : Option TaskPayload
  pub timestamp : ℕ
  pub user_answer : Option UserAnswerPayload

-- An event with a kind and a time, as the struct literals of the store begin it.
abbrev pub blank_event : EventKind → ℕ → Event
blank_event kind timestamp = record {
  actor = "";
  kind = kind;
  model = none;
  permission = none;
  permission_mode = none;
  plan = none;
  skill = none;
  subagent = none;
  task = none;
  timestamp = timestamp;
  user_answer = none;
}

-- `kind == EventKindPermissionDenied`
abbrev pub is_denied : EventKind → Bool
is_denied permission_denied = true
is_denied _ = false

-- `kind == EventKindSubagentSpawned`
abbrev pub is_spawned : EventKind → Bool
is_spawned subagent_spawned = true
is_spawned _ = false

-- `kind == EventKindSubagentResult`
abbrev pub is_result : EventKind → Bool
is_result subagent_result = true
is_result _ = false

is_blank : EventKind → Bool
is_blank (other text) = is_empty text
is_blank _ = false

-- `e.Validate()`: the message of the error, if there is one.
unfoldable pub validate : Option Event → Option String
unfolding is_blank
validate none = some "Event.Validate: Called on nil"
validate (some e) = elim (is_blank e.kind) [
  | true ↦ some "Event.Validate: Missing field Kind"
  | false ↦ none
]
