-- ===== src/Claude/Entry.antt =====
-- claude/entry.go, claude/content.go, claude/message.go, claude/usage.go, claude/attachment.go: what
-- a line of a transcript holds, with its checks. A raw part of the JSON is its text; an `int` is its
-- 64-bit pattern.
use peek_mcp.Prelude.{
  ℕ, String, Bool, not, ◌&&◌, ◌||◌, Option, none, some, str_eq, is_empty, if◌then◌else◌,
}
use peek_mcp.Prelude.Words.{is_negative}
use peek_mcp.Session.Meta.{role_user, role_assistant}

abbrev pub entry_type_user : String
entry_type_user = "user"

abbrev pub entry_type_queue_operation : String
entry_type_queue_operation = "queue-operation"

abbrev pub entry_type_assistant : String
entry_type_assistant = "assistant"

abbrev pub entry_type_attachment : String
entry_type_attachment = "attachment"

abbrev pub entry_type_custom_title : String
entry_type_custom_title = "custom-title"

pub record Entry : Type 0 where
  pub agent_id : String
  pub current_working_dir : String
  pub git_branch : String
  pub is_sidechain : Bool
  pub message : String
  pub attachment_raw : String
  pub permission_mode : String
  pub prompt_id : String
  pub request_id : String
  pub session_id : String
  pub timestamp : ℕ
  pub type : String
  pub custom_title : String
  pub version : String
  pub content : String
  pub operation : String
  pub tool_denial_kind : String

validate_present : Entry → Option String
validate_present e =
    if is_empty e.type
    then some "type must not be empty"
    else if (str_eq e.type entry_type_user
          || str_eq e.type entry_type_assistant
          || str_eq e.type entry_type_custom_title)
        && is_empty e.session_id
    then some "session_id must not be empty"
    else none

-- `e.Validate()` of an entry; the message of the error, if there is one.
unfoldable pub validate_entry : Option Entry → Option String
unfolding validate_present
validate_entry none = some "claude entry is nil"
validate_entry (some e) = validate_present e

pub record ContentBlock : Type 0 where
  pub id : String
  pub content : String
  pub input : String
  pub is_error : Bool
  pub name : String
  pub text : String
  pub thinking : String
  pub tool_use_id : String
  pub type : String

pub record CacheCreation : Type 0 where
  pub ephemeral_5m_input_tokens : ℕ
  pub ephemeral_1h_input_tokens : ℕ

pub record TokenUsage : Type 0 where
  pub input_tokens : ℕ
  pub output_tokens : ℕ
  pub cache_creation_input_tokens : ℕ
  pub cache_read_input_tokens : ℕ
  pub cache_creation : Option CacheCreation

validate_cache : Option CacheCreation → Option String
unfolding is_negative
validate_cache none = none
validate_cache (some c) =
    if is_negative c.ephemeral_5m_input_tokens
    then some "cache_creation.ephemeral_5m_input_tokens must be non-negative"
    else if is_negative c.ephemeral_1h_input_tokens
    then some "cache_creation.ephemeral_1h_input_tokens must be non-negative"
    else none

-- `u.Validate()` of a usage that is not nil.
unfoldable pub validate_usage : TokenUsage → Option String
unfolding validate_cache is_negative
validate_usage u =
    if is_negative u.input_tokens
    then some "input_tokens must be non-negative"
    else if is_negative u.output_tokens
    then some "output_tokens must be non-negative"
    else if is_negative u.cache_creation_input_tokens
    then some "cache_creation_input_tokens must be non-negative"
    else if is_negative u.cache_read_input_tokens
    then some "cache_read_input_tokens must be non-negative"
    else validate_cache u.cache_creation

pub record Message : Type 0 where
  pub role : String
  pub content : String
  pub model : String
  pub stop_reason : String
  pub usage : Option TokenUsage

validate_optional : Option TokenUsage → Option String
unfolding validate_usage
validate_optional none = none
validate_optional (some u) = validate_usage u

-- `m.Validate()` of a message that is not nil.
unfoldable pub validate_message : Message → Option String
unfolding validate_optional
validate_message m =
    if not (is_empty m.role)
      && (not (str_eq m.role role_user) && not (str_eq m.role role_assistant))
    then some "role must be empty, \"user\", or \"assistant\""
    else validate_optional m.usage

pub record Attachment : Type 0 where
  pub type : String
  pub plan_file_path : String
  pub plan_exists : Bool
  pub plan_content : String

abbrev pub attachment_type_plan_mode : String
attachment_type_plan_mode = "plan_mode"

abbrev pub attachment_type_plan_file_reference : String
attachment_type_plan_file_reference = "plan_file_reference"

abbrev pub attachment_type_plan_mode_exit : String
attachment_type_plan_mode_exit = "plan_mode_exit"

abbrev pub attachment_type_plan_mode_reentry : String
attachment_type_plan_mode_reentry = "plan_mode_reentry"
