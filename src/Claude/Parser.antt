-- ===== src/Claude/Parser.antt =====
-- claude/parser.go: `ParseLine` and its handlers. Each function gives the parser after its writes.
-- `State` and `Restore` are in Serial.antt.
use peek_mcp.Prelude.{
  ℕ, String, not, ◌&&◌, ◌||◌, List, [], ◌∷◌, ◌++◌, Option, none, some, str_eq, is_empty, is_some,
  if◌then◌else◌,
}
use peek_mcp.Prelude.Text.{has_prefix, trim_space}
use peek_mcp.Session.Event.{Event}
use peek_mcp.Session.Meta.{Meta, Origin, role_user, role_assistant, blank_meta, blank_origin}
use peek_mcp.Session.State.{title_source_custom}
use peek_mcp.Session.Turn
use peek_mcp.Session.Turn.{Turn, FileTouch, ToolResult, blank_turn, is_filled}
use peek_mcp.Claude.Entry.{
  Entry, Message, Attachment, validate_entry, validate_message, entry_type_user,
  entry_type_queue_operation, entry_type_assistant, entry_type_attachment, entry_type_custom_title,
}
use peek_mcp.Claude.Decoder.{Decoder}
use peek_mcp.Claude.Content.{
  extract_text_blocks, extract_thinking_blocks, to_session_usage, tool_calls_from_content,
  tool_results_from_content,
}
use peek_mcp.Claude.Events.{
  is_plan_attachment, plan_mode_events, slash_command_event, task_completed_event,
}
use peek_mcp.Claude.State.{
  Parser, events_from_assistant_content, cons_some, events_from_user_content, permission_mode_event,
}

abbrev pub synthetic_model : String
synthetic_model = "<synthetic>"

-- `originFromEntry(entry)`
unfoldable pub origin_from_entry : Entry → Option Origin
origin_from_entry entry =
    if is_empty entry.version
    then none
    else some (record blank_origin { cli_version = entry.version })

abbrev pub entry_meta : Entry → Meta
entry_meta entry = record (blank_meta entry.session_id) { cwd = entry.current_working_dir }

-- `eventTurn(entry, events, results, touches)`
unfoldable pub event_turn : Entry → List Event → List ToolResult → List FileTouch → Option Turn
event_turn entry events results touches =
    if not (is_filled events) && not (is_filled touches) && not (is_filled results)
    then none
    else some (record blank_turn {
      events = events;
      file_touches = touches;
      tool_results = results;
      meta = some (entry_meta entry);
    })

-- `if err := turn.Validate(); err != nil { return nil }`
abbrev pub if_valid : Turn → Option Turn
if_valid turn = if is_some (Turn.validate (some turn)) then none else some turn

-- The message of an entry that decodes and passes its checks.
abbrev pub checked_message : Decoder → Entry → Option Message
checked_message d entry = elim (d.message entry.message) [
  | none ↦ none
  | some message ↦ if is_some (validate_message message) then none else some message
]

-- What `handleUser` does with a valid message.
unfoldable pub handle_user_message : Decoder → Parser → Entry → Message → Parser × Option Turn
unfolding permission_mode_event
handle_user_message d p entry message =
    let (p₁, found, touches) = events_from_user_content d p entry message in
    let results = tool_results_from_content d message in
    let (p₂, mode_event) = permission_mode_event p₁ entry in
    let text = extract_text_blocks d message.content in
    let events = found ++ cons_some mode_event (cons_some (slash_command_event entry text) []) in
    let turn : Turn = record blank_turn {
      events = events;
      file_touches = touches;
      prompt_id = entry.prompt_id;
      role = role_user;
      text = text;
      timestamp = entry.timestamp;
      tool_results = results;
      meta = some (record (entry_meta entry) {
        git_branch = entry.git_branch;
        origin = origin_from_entry entry;
      });
    } in
    (
      p₂,
      if not (is_empty entry.prompt_id) && not (is_empty (trim_space text))
          then if_valid turn
          else event_turn entry events results touches,
    )

-- `p.handleUser(entry)`
unfoldable pub handle_user : Decoder → Parser → Entry → Parser × Option Turn
unfolding handle_user_message
handle_user d p entry =
    if is_empty entry.message then (p, none) else elim (checked_message d entry) [
      | none ↦ (p, none)
      | some message ↦ handle_user_message d p entry message
    ]

-- The model of a message, but for a synthetic one.
abbrev pub real_model : Message → String
real_model message = if str_eq message.model synthetic_model then "" else message.model

-- What `handleAssistant` does with a valid message.
unfoldable pub handle_assistant_message : Decoder → Parser → Entry → Message → Parser × Option Turn
handle_assistant_message d p entry message =
    let (p', events) = events_from_assistant_content d p entry message in
    let turn : Turn = record blank_turn {
      events = events;
      role = role_assistant;
      text = extract_text_blocks d message.content;
      thinking = extract_thinking_blocks d message.content;
      timestamp = entry.timestamp;
      tool_calls = tool_calls_from_content d entry message;
      request_id = entry.request_id;
      stop_reason = message.stop_reason;
      usage = to_session_usage message.usage;
      meta = some (record (entry_meta entry) {
        git_branch = entry.git_branch;
        model = real_model message;
        origin = origin_from_entry entry;
      });
    } in
    (p', if_valid turn)

-- `p.handleAssistant(entry)`
unfoldable pub handle_assistant : Decoder → Parser → Entry → Parser × Option Turn
unfolding handle_assistant_message
handle_assistant d p entry = elim (checked_message d entry) [
  | none ↦ (p, none)
  | some message ↦ handle_assistant_message d p entry message
]

abbrev pub attachment_turn : Entry → Option Attachment → Option Turn
attachment_turn entry none = none
attachment_turn entry (some attachment) =
    if not (is_plan_attachment attachment.type)
    then none
    else (let events = plan_mode_events attachment.type entry in
        if is_empty attachment.plan_file_path
        then event_turn entry events [] []
        else some (record blank_turn {
          events = events;
          plan_file_path = attachment.plan_file_path;
          plan_content = attachment.plan_content;
          timestamp = entry.timestamp;
          meta = some (entry_meta entry);
        }))

-- `p.handleAttachment(entry)`
unfoldable pub handle_attachment : Decoder → Entry → Option Turn
unfolding event_turn
handle_attachment d entry =
    if is_empty entry.session_id || is_empty entry.attachment_raw
    then none
    else attachment_turn entry (d.attachment entry.attachment_raw)

-- `p.handleCustomTitle(entry)`
unfoldable pub handle_custom_title : Entry → Option Turn
handle_custom_title entry =
    if is_empty entry.custom_title
    then none
    else some (record blank_turn {
      custom_title = entry.custom_title;
      title_source = title_source_custom;
      meta = some (blank_meta entry.session_id);
    })

-- `p.handleQueueOperation(entry)`
unfoldable pub handle_queue_operation : Entry → Option Turn
unfolding event_turn
handle_queue_operation entry =
    if not (str_eq entry.operation "enqueue")
      || not (has_prefix entry.content "<task-notification>")
    then none
    else event_turn entry (task_completed_event entry ∷ []) [] []

-- What every branch of `handleSidechain` puts in its turn.
abbrev pub sidechain_turn : Entry → Turn
sidechain_turn entry = record blank_turn {
  request_id = entry.request_id;
  subagent_id = entry.agent_id;
  timestamp = entry.timestamp;
  meta = some (entry_meta entry);
}

-- What `handleSidechain` does with a message.
unfoldable pub handle_sidechain_message : Decoder → Parser → Entry → Message → Parser × Turn
handle_sidechain_message d p entry message =
    if str_eq entry.type entry_type_user
    then (let (p', events, touches) = events_from_user_content d p entry message in
        (
          p',
          record (sidechain_turn entry) {
            events = events;
            file_touches = touches;
            role = role_user;
            text = extract_text_blocks d message.content;
            tool_results = tool_results_from_content d message;
          },
        ))
    else if str_eq entry.type entry_type_assistant
    then (let (p', events) = events_from_assistant_content d p entry message in
        (
          p',
          record (sidechain_turn entry) {
            events = events;
            role = role_assistant;
            text = extract_text_blocks d message.content;
            thinking = extract_thinking_blocks d message.content;
            tool_calls = tool_calls_from_content d entry message;
            usage = to_session_usage message.usage;
            meta = some (record (entry_meta entry) { model = real_model message });
          },
        ))
    else (p, sidechain_turn entry)

-- `p.handleSidechain(entry)`
unfoldable pub handle_sidechain : Decoder → Parser → Entry → Parser × Option Turn
unfolding handle_sidechain_message
handle_sidechain d p entry =
    if is_empty entry.agent_id then (p, none) else elim (d.message entry.message) [
      | none ↦ (p, none)
      | some message ↦
          let (p', turn) = handle_sidechain_message d p entry message in (p', some turn)
    ]

-- The `switch` of `ParseLine`.
unfoldable pub handle_entry : Decoder → Parser → Entry → Parser × Option Turn
unfolding handle_sidechain handle_user handle_assistant handle_attachment handle_queue_operation
handle_entry d p entry =
    if entry.is_sidechain
    then handle_sidechain d p entry
    else if str_eq entry.type entry_type_user
    then handle_user d p entry
    else if str_eq entry.type entry_type_queue_operation
    then (p, handle_queue_operation entry)
    else if str_eq entry.type entry_type_assistant
    then handle_assistant d p entry
    else if str_eq entry.type entry_type_attachment
    then (p, handle_attachment d entry)
    else if str_eq entry.type entry_type_custom_title
    then (p, handle_custom_title entry)
    else (p, none)

-- An entry that decodes and passes its checks; `none` where `ParseLine` gives nil at once.
abbrev pub checked_entry : Decoder → List ℕ → Option Entry
checked_entry d line = elim (d.entry line) [
  | none ↦ none
  | some o ↦ elim o [
    | none ↦ none
    | some entry ↦ if is_some (validate_entry (some entry)) then none else some entry
  ]
]

-- `p.ParseLine(line)`
unfoldable pub parse_line : Decoder → Parser → List ℕ → Parser × Option Turn
unfolding handle_entry
parse_line d p line = elim (checked_entry d line) [
  | none ↦ (p, none)
  | some entry ↦ handle_entry d p entry
]
