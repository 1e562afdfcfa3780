-- ===== src/Session/Turn.antt =====
-- session/turn.go: one line of a transcript, as a turn or a signal. A pointer is an `Option`; a
-- time is in nanoseconds since the zero time, which is 0.
use Prim.Native.String.{◌++◌ as append_text}
use peek_mcp.Prelude.{
  ℕ, String, ◌≡◌, sym, ap, ◌∙◌, arith, Bool, true, false, not, ◌&&◌, ◌||◌, List, [], ◌∷◌, Option,
  none, some, str_eq, is_empty, is_some, ◌==◌, if◌then◌else◌,
}
use peek_mcp.Session.Event.{Event}
use peek_mcp.Session.Meta.{Meta, role_user, role_assistant}
use peek_mcp.Session.Usage
use peek_mcp.Session.Usage.{Usage}

pub record FileTouch : Type 0 where
  pub path : String
  pub write : Bool

pub record ToolCall : Type 0 where
  pub id : String
  pub input : String
  pub is_error : Bool
  pub name : String
  pub timestamp : ℕ

pub record ToolResult : Type 0 where
  pub is_error : Bool
  pub tool_use_id : String

pub record Turn : Type 0 where
  pub role : String
  pub text : String
  pub thinking : String
  pub timestamp : ℕ
  pub meta : Option Meta
  pub request_id : String
  pub usage : Option Usage
  pub events : List Event
  pub file_touches : List FileTouch
  pub file_path : String
  pub plan_file_path : String
  pub plan_content : String
  pub custom_title : String
  pub prompt_id : String
  pub stop_reason : String
  pub subagent_id : String
  pub title_source : String
  pub tool_calls : List ToolCall
  pub tool_results : List ToolResult

-- `len(l) > 0`
abbrev pub is_filled {ℓ} : {A : Type ℓ} → List A → Bool
is_filled [] = false
is_filled (x ∷ xs) = true

unfoldable pub find_call : String → List ToolCall → Option ToolCall
find_call tool_use_id [] = none
find_call tool_use_id (call ∷ calls) =
    if str_eq call.id tool_use_id then some call else find_call tool_use_id calls

-- `t.toolCallById(toolUseId)`; a nil turn has no calls.
unfoldable pub tool_call_by_id : Option Turn → String → Option ToolCall
unfolding find_call
tool_call_by_id none tool_use_id = none
tool_call_by_id (some t) tool_use_id = find_call tool_use_id t.tool_calls

-- `t.IsEventSignal()`
unfoldable pub is_event_signal : Turn → Bool
is_event_signal t =
    (is_filled t.events || is_filled t.file_touches || is_filled t.tool_results)
    && (is_empty t.role && is_empty t.plan_file_path && not (is_some t.usage))

-- `t.IsToolOnly()`
unfoldable pub is_tool_only : Turn → Bool
is_tool_only t = (is_empty t.text && is_empty t.thinking) && is_filled t.tool_calls

-- `t.IsUsageSignal()`
unfoldable pub is_usage_signal : Turn → Bool
is_usage_signal t = is_some t.usage && is_empty t.role

-- errors.Wrap of an error, which keeps nil.
abbrev pub wrap : Option String → String → Option String
wrap none prefix = none
wrap (some message) prefix = some (append_text prefix (append_text ": " message))

-- A signal needs the id of its session.
abbrev need_session : Meta → String → Option String → Option String
need_session meta message rest = if is_empty meta.session_id then some message else rest

validate_usage : Option Usage → Option String
unfolding Usage.validate
validate_usage none = none
validate_usage (some u) = wrap (Usage.validate (some u)) "Turn.Validate"

validate_title : Turn → Option String
validate_title t =
    if is_empty t.title_source
    then some "Turn.Validate: title signal turn requires title source"
    else none

validate_chat : Turn → Option String
unfolding validate_usage
validate_chat t =
    if not (str_eq t.role role_user) && not (str_eq t.role role_assistant)
    then some (append_text "Turn.Validate: role must be \"user\" or \"assistant\": " t.role)
    else if t.timestamp == 0
    then some "Turn.Validate: timestamp must not be zero"
    else validate_usage t.usage

-- The body of `Validate` for a turn with meta data, in the order of its tests.
validate_with : Turn → Meta → Option String
unfolding validate_usage validate_title validate_chat is_event_signal is_usage_signal
validate_with t meta =
    if not (is_empty t.subagent_id)
    then need_session meta "Turn.Validate: subagent signal turn requires session ID"
        (validate_usage t.usage)
    else if not (is_empty t.plan_file_path)
    then need_session meta "Turn.Validate: plan signal turn requires session ID" none
    else if not (is_empty t.custom_title)
    then need_session meta "Turn.Validate: title signal turn requires session ID" (validate_title t)
    else if is_event_signal t
    then need_session meta "Turn.Validate: event signal turn requires session ID" none
    else if is_usage_signal t
    then need_session meta "Turn.Validate: usage signal turn requires session ID"
        (validate_usage t.usage)
    else validate_chat t

-- `t.Validate()`: the message of the error, if there is one.
unfoldable pub validate : Option Turn → Option String
unfolding validate_with
validate none = some "Turn.Validate: called on nil"
validate (some t) = elim t.meta [
  | none ↦ some "Turn.Validate: meta must not be nil"
  | some meta ↦ validate_with t meta
]

-- A turn that passes `Validate` has meta data.
pub meta_of_validate : (t : Turn) → validate (some t) ≡ none → (meta : Meta) × (t.meta ≡ some meta)
unfolding validate
meta_of_validate t h = ground arith

-- The check reads of the metadata no more than the session, and no file path.
pub validate-restamped :
    (t : Turn) (path : String) (meta meta' : Meta)
    → t.meta ≡ some meta
    → meta'.session_id ≡ meta.session_id
    → validate (some (record t { file_path = path; meta = some meta' })) ≡ validate (some t)
unfolding validate validate_with validate_title validate_chat validate_usage is_event_signal
    is_usage_signal
validate-restamped t path meta meta' m h =
    ap
      (λ id.
        validate
          (some (record t { file_path = path; meta = some (record meta' { session_id = id }) })))
      h
    ∙ ap (λ given. validate (some (record t { meta = given }))) (sym m)

-- The zero value of a turn, with which the parsers' struct literals begin.
abbrev pub blank_turn : Turn
blank_turn = record {
  role = "";
  text = "";
  thinking = "";
  timestamp = 0;
  meta = none;
  request_id = "";
  usage = none;
  events = [];
  file_touches = [];
  file_path = "";
  plan_file_path = "";
  plan_content = "";
  custom_title = "";
  prompt_id = "";
  stop_reason = "";
  subagent_id = "";
  title_source = "";
  tool_calls = [];
  tool_results = [];
}
