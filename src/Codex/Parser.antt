-- ===== src/Codex/Parser.antt =====
-- codex/parser.go: `ParseLine` and its handlers. Each function gives the parser after its writes.
-- `State` and `Restore` are in Serial.antt.
use peek_mcp.Prelude.{
  ℕ, String, false, not, ◌||◌, List, [], ◌∷◌, Option, none, some, length, str_eq, is_empty, is_some,
  leb, if◌then◌else◌,
}
use peek_mcp.Prelude.Assoc.{lookup, insert, erase}
use peek_mcp.Prelude.Text.{contains}
use peek_mcp.Session.Event.{
  Event, EventKind, PermissionPayload, SubagentPayload, permission_denied, permission_granted,
  subagent_spawned, blank_event,
}
use peek_mcp.Session.Meta.{Origin, role_user, role_assistant, blank_meta}
use peek_mcp.Session.Turn.{Turn, blank_turn}
use peek_mcp.Codex.Entry.{
  Entry, GitInfo, ResponseItem, SessionMeta, TokenUsage, entry_type_event_message,
  entry_type_response_item, entry_type_session_meta, entry_type_turn_context,
  event_type_token_count, is_subagent, total_of, validate_entry, validate_event_message,
  validate_response_item, validate_session_meta, validate_turn_context,
}
use peek_mcp.Codex.Decoder.{Decoder, ExecCommandArgs, unmarshal_session_meta}
use peek_mcp.Codex.Plan.{extract_proposed_plan}
use peek_mcp.Codex.State.{
  plan_file_path_proposed_plan, codex_message_type, codex_input_text_type, codex_output_text_type,
  exec_command_tool, function_call_output_type, function_call_type, max_pending_calls,
  rejected_by_user_marker, sandbox_require_escalated, EscalatedCall, Parser, convert_usage,
  extract_text,
}

abbrev branch_of : Option GitInfo → String
branch_of none = ""
branch_of (some git) = git.branch

abbrev commit_of : Option GitInfo → String
commit_of none = ""
commit_of (some git) = git.commit_hash

abbrev repository_of : Option GitInfo → String
repository_of none = ""
repository_of (some git) = git.repository_url

abbrev pub origin_from_meta : SessionMeta → Origin
origin_from_meta meta = record {
  agent_nickname = meta.source.agent_nickname;
  cli_version = meta.cli_version;
  commit_hash = commit_of meta.git;
  forked_from_id = meta.forked_from_id;
  originator = meta.originator;
  parent_thread_id = meta.source.parent_thread_id;
  repository_url = repository_of meta.git;
  source_kind = meta.source.kind;
}

-- A turn with one event and nothing but the session in its metadata.
abbrev pub signal_turn : Parser → Event → Turn
signal_turn p event = record blank_turn {
  events = event ∷ [];
  subagent_id = p.subagent_actor;
  meta = some (blank_meta p.session_id);
}

-- `p.handleSubagentMeta(meta, ts)`
unfoldable pub handle_subagent_meta : Parser → SessionMeta → ℕ → Parser × Option Turn
handle_subagent_meta p meta ts =
    if is_empty meta.source.parent_thread_id
    then (p, none)
    else (let p' : Parser = record p {
      session_id = meta.source.parent_thread_id;
      subagent_actor =
          if is_empty meta.source.agent_nickname then meta.id else meta.source.agent_nickname;
    } in
        let payload : SubagentPayload = record {
          agent_id = meta.id;
          agent_type = meta.source.agent_nickname;
          content = "";
          description = "";
          is_error = false;
          spawn_depth = 0;
          tool_use_id = "";
        } in
        let event : Event = record (blank_event subagent_spawned ts) {
          actor = p'.subagent_actor;
          subagent = some payload;
        } in
        (p', some (signal_turn p' event)))

-- What `handleSessionMeta` does with valid metadata.
unfoldable pub take_session_meta : Parser → SessionMeta → ℕ → Parser × Option Turn
unfolding handle_subagent_meta
take_session_meta p meta ts = if is_subagent meta.source then handle_subagent_meta p meta ts else (
  record p { session_id = meta.id },
  some (record blank_turn {
    role = role_assistant;
    timestamp = ts;
    meta = some (record (blank_meta meta.id) {
      cwd = meta.cwd;
      git_branch = branch_of meta.git;
      origin = some (origin_from_meta meta);
    });
  }),
)

-- A payload that decodes and passes its checks.
abbrev pub checked {ℓ} : {A : Type ℓ} → (A → Option String) → Option A → Option A
checked validate none = none
checked validate (some x) = if is_some (validate x) then none else some x

-- `p.handleSessionMeta(payload, ts)`
unfoldable pub handle_session_meta : Decoder → Parser → String → ℕ → Parser × Option Turn
unfolding take_session_meta
handle_session_meta d p payload ts =
    elim (checked validate_session_meta (unmarshal_session_meta d payload)) [
      | none ↦ (p, none)
      | some meta ↦ take_session_meta p meta ts
    ]

-- `p.handleTurnContext(payload)`
unfoldable pub handle_turn_context : Decoder → Parser → String → Parser
handle_turn_context d p payload = elim (checked validate_turn_context (d.turn_context payload)) [
  | none ↦ p
  | some context ↦ if is_empty context.model then p else record p { model = context.model }
]

abbrev pub exec_args_of : Decoder → ResponseItem → Option ExecCommandArgs
exec_args_of d item = elim (d.text item.arguments) [
  | none ↦ none
  | some encoded ↦ d.exec_command_args encoded
]

-- The write of `rememberEscalatedCall`.
unfoldable pub store_call : Parser → String → EscalatedCall → Parser
store_call p call_id call = record p {
  pending_escalated =
      insert call_id call
        (if leb max_pending_calls (length p.pending_escalated) then [] else p.pending_escalated);
}

-- `p.rememberEscalatedCall(item)`
unfoldable pub remember_escalated_call : Decoder → Parser → ResponseItem → Parser
unfolding store_call
remember_escalated_call d p item =
    if not (str_eq item.name exec_command_tool) || is_empty item.call_id
    then p
    else elim (exec_args_of d item) [
      | none ↦ p
      | some args ↦
          if not (str_eq args.sandbox_permissions sandbox_require_escalated)
          then p
          else store_call p item.call_id
              (record { cmd = args.cmd; justification = args.justification })
    ]

-- The output, or its raw JSON if that is not a text.
abbrev pub output_text : Decoder → ResponseItem → String
output_text d item = elim (d.text item.output) [ none ↦ item.output | some output ↦ output ]

abbrev pub verdict_kind : String → EventKind
verdict_kind output =
    if contains output rejected_by_user_marker then permission_denied else permission_granted

-- The turn of an answered call, for the parser without it.
unfoldable pub verdict_turn : Decoder → Parser → ResponseItem → EscalatedCall → ℕ → Turn
verdict_turn d p item pending ts =
    let payload : PermissionPayload = record {
      command = pending.cmd;
      justification = pending.justification;
      kind = "";
      tool = exec_command_tool;
      tool_use_id = item.call_id;
    } in
    signal_turn p (record (blank_event (verdict_kind (output_text d item)) ts) {
      actor = p.subagent_actor;
      permission = some payload;
    })

-- `p.handleFunctionCallOutput(item, ts)`
unfoldable pub handle_function_call_output :
    Decoder → Parser → ResponseItem → ℕ → Parser × Option Turn
unfolding verdict_turn
handle_function_call_output d p item ts = elim (lookup item.call_id p.pending_escalated) [
  | none ↦ (p, none)
  | some pending ↦
      let p' = record p { pending_escalated = erase item.call_id p.pending_escalated } in
      (p', some (verdict_turn d p' item pending ts))
]

-- `p.handleFunctionItem(item, ts)`
unfoldable pub handle_function_item : Decoder → Parser → ResponseItem → ℕ → Parser × Option Turn
unfolding remember_escalated_call handle_function_call_output
handle_function_item d p item ts =
    if str_eq item.type function_call_type
    then (remember_escalated_call d p item, none)
    else if str_eq item.type function_call_output_type
    then handle_function_call_output d p item ts
    else (p, none)

-- `p.handleUserMessage(item, ts)`
unfoldable pub handle_user_message : Parser → ResponseItem → ℕ → Option Turn
handle_user_message p item ts =
    let text = extract_text item.content codex_input_text_type in
    if is_empty text
    then none
    else some (record blank_turn {
      role = role_user;
      text = text;
      timestamp = ts;
      meta = some (blank_meta p.session_id);
    })

-- `p.handleAssistantMessage(item, ts)`
unfoldable pub handle_assistant_message : Parser → ResponseItem → ℕ → Option Turn
handle_assistant_message p item ts =
    let text = extract_text item.content codex_output_text_type in
    let plan = extract_proposed_plan text in
    let turn : Turn = record blank_turn {
      role = role_assistant;
      text = text;
      timestamp = ts;
      meta = some (record (blank_meta p.session_id) { model = p.model });
    } in
    if is_empty text
    then none
    else if is_empty plan
    then some turn
    else some (record turn { plan_content = plan; plan_file_path = plan_file_path_proposed_plan })

-- What `handleResponseItem` does with a valid item.
unfoldable pub take_response_item : Decoder → Parser → ResponseItem → ℕ → Parser × Option Turn
unfolding handle_function_item handle_user_message handle_assistant_message
take_response_item d p item ts =
    if not (str_eq item.type codex_message_type)
    then handle_function_item d p item ts
    else if not (is_empty p.subagent_actor)
    then (p, none)
    else if str_eq item.role role_user
    then (p, handle_user_message p item ts)
    else if str_eq item.role role_assistant
    then (p, handle_assistant_message p item ts)
    else (p, none)

-- `p.handleResponseItem(payload, ts)`
unfoldable pub handle_response_item : Decoder → Parser → String → ℕ → Parser × Option Turn
unfolding take_response_item
handle_response_item d p payload ts =
    if is_empty p.session_id
    then (p, none)
    else elim (checked validate_response_item (d.response_item payload)) [
      | none ↦ (p, none)
      | some item ↦ take_response_item d p item ts
    ]

-- The turn of the total usage of a message.
abbrev pub usage_turn : Parser → ℕ → Option TokenUsage → Option Turn
usage_turn p ts none = none
usage_turn p ts (some total) = some (record blank_turn {
  timestamp = ts;
  usage = some (convert_usage total);
  meta = some (blank_meta p.session_id);
})

-- `p.handleEventMessage(payload, timestamp)`
unfoldable pub handle_event_message : Decoder → Parser → String → ℕ → Option Turn
handle_event_message d p payload ts =
    if is_empty p.session_id || not (is_empty p.subagent_actor)
    then none
    else elim (checked validate_event_message (d.event_message payload)) [
      | none ↦ none
      | some message ↦
          if str_eq message.type event_type_token_count
          then usage_turn p ts (total_of message.info)
          else none
    ]

-- The `switch` of `ParseLine`.
unfoldable pub handle_entry : Decoder → Parser → Entry → Parser × Option Turn
unfolding handle_session_meta handle_turn_context handle_response_item handle_event_message
handle_entry d p entry =
    if str_eq entry.type entry_type_session_meta
    then handle_session_meta d p entry.payload entry.timestamp
    else if str_eq entry.type entry_type_turn_context
    then (handle_turn_context d p entry.payload, none)
    else if str_eq entry.type entry_type_response_item
    then handle_response_item d p entry.payload entry.timestamp
    else if str_eq entry.type entry_type_event_message
    then (p, handle_event_message d p entry.payload entry.timestamp)
    else (p, none)

-- `p.ParseLine(line)`
unfoldable pub parse_line : Decoder → Parser → List ℕ → Parser × Option Turn
unfolding handle_entry
parse_line d p line = elim (checked validate_entry (d.entry line)) [
  | none ↦ (p, none)
  | some entry ↦ handle_entry d p entry
]
