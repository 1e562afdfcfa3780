-- ===== src/Codex/Entry.antt =====
-- codex/entry.go, content.go, event.go, response_item.go, session_meta.go, turn_context.go and
-- index_entry.go: what a line of a rollout holds, with its checks. A raw part of the JSON is its
-- text; an `int` is its 64-bit pattern.
use peek_mcp.Prelude.{
  ℕ, String, Bool, not, ◌&&◌, List, Option, none, some, str_eq, is_empty, if◌then◌else◌,
}
use peek_mcp.Prelude.Words.{is_negative}
use peek_mcp.Session.Meta.{role_user, role_assistant, role_developer}

abbrev pub entry_type_session_meta : String
entry_type_session_meta = "session_meta"

abbrev pub entry_type_turn_context : String
entry_type_turn_context = "turn_context"

abbrev pub entry_type_response_item : String
entry_type_response_item = "response_item"

abbrev pub entry_type_event_message : String
entry_type_event_message = "event_msg"

abbrev pub event_type_token_count : String
event_type_token_count = "token_count"

pub record Entry : Type 0 where
  pub timestamp : ℕ
  pub type : String
  pub payload : String

-- `e.Validate()` of an entry that is not nil; the message of the error, if there is one.
unfoldable pub validate_entry : Entry → Option String
validate_entry e =
    if is_empty e.type
    then some "type must not be empty"
    else if is_empty e.payload
    then some "payload must not be empty"
    else none

pub record ContentBlock : Type 0 where
  pub type : String
  pub text : String

pub record TokenUsage : Type 0 where
  pub input_tokens : ℕ
  pub cached_input_tokens : ℕ
  pub output_tokens : ℕ
  pub reasoning_output_tokens : ℕ
  pub total_tokens : ℕ

-- `u.Validate()` of a usage that is not nil.
unfoldable pub validate_usage : TokenUsage → Option String
unfolding is_negative
validate_usage u =
    if is_negative u.input_tokens
    then some "input_tokens must be non-negative"
    else if is_negative u.cached_input_tokens
    then some "cached_input_tokens must be non-negative"
    else if is_negative u.output_tokens
    then some "output_tokens must be non-negative"
    else if is_negative u.reasoning_output_tokens
    then some "reasoning_output_tokens must be non-negative"
    else if is_negative u.total_tokens
    then some "total_tokens must be non-negative"
    else none

pub record EventInfo : Type 0 where
  pub total_token_usage : Option TokenUsage

pub record EventMessage : Type 0 where
  pub type : String
  pub info : Option EventInfo

-- `m.Info.TotalTokenUsage`, if neither is nil.
abbrev pub total_of : Option EventInfo → Option TokenUsage
total_of none = none
total_of (some info) = info.total_token_usage

validate_total : Option TokenUsage → Option String
unfolding validate_usage
validate_total none = none
validate_total (some u) = validate_usage u

-- `m.Validate()` of a message that is not nil.
unfoldable pub validate_event_message : EventMessage → Option String
unfolding validate_total
validate_event_message m =
    if is_empty m.type
    then some "type must not be empty"
    else if str_eq m.type event_type_token_count
    then validate_total (total_of m.info)
    else none

pub record ResponseItem : Type 0 where
  pub arguments : String
  pub call_id : String
  pub content : List ContentBlock
  pub name : String
  pub output : String
  pub role : String
  pub type : String

-- `i.Validate()` of an item that is not nil.
unfoldable pub validate_response_item : ResponseItem → Option String
validate_response_item i =
    if is_empty i.type
    then some "type must not be empty"
    else if not (is_empty i.role)
        && (not (str_eq i.role role_user)
            && (not (str_eq i.role role_assistant) && not (str_eq i.role role_developer)))
    then some "role must be empty, \"user\", \"assistant\", or \"developer\""
    else none

pub record GitInfo : Type 0 where
  pub branch : String
  pub commit_hash : String
  pub repository_url : String

pub record Source : Type 0 where
  pub agent_nickname : String
  pub kind : String
  pub parent_thread_id : String

abbrev pub source_kind_subagent : String
source_kind_subagent = "subagent"

abbrev pub source_kind_unknown : String
source_kind_unknown = "unknown"

-- `s.IsSubagent()`
abbrev pub is_subagent : Source → Bool
is_subagent s = str_eq s.kind source_kind_subagent

pub record SessionMeta : Type 0 where
  pub id : String
  pub cli_version : String
  pub cwd : String
  pub forked_from_id : String
  pub git : Option GitInfo
  pub originator : String
  pub source : Source

-- `m.Validate()` of metadata that are not nil.
unfoldable pub validate_session_meta : SessionMeta → Option String
validate_session_meta m = if is_empty m.id then some "id must not be empty" else none

pub record TurnContext : Type 0 where
  pub turn_id : String
  pub model : String
  pub cwd : String

-- `c.Validate()` of a context that is not nil.
unfoldable pub validate_turn_context : TurnContext → Option String
validate_turn_context c =
    if is_empty c.turn_id && (is_empty c.model && is_empty c.cwd)
    then some "turn context must include turn_id, model, or cwd"
    else none

pub record IndexEntry : Type 0 where
  pub id : String
  pub thread_name : String
  pub updated_at : ℕ

-- `e.Validate()` of an index entry that is not nil.
unfoldable pub validate_index_entry : IndexEntry → Option String
validate_index_entry e =
    if is_empty e.id
    then some "id must not be empty"
    else if is_empty e.thread_name
    then some "thread_name must not be empty"
    else none
