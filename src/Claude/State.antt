-- ===== src/Claude/State.antt =====
-- claude/parser.go: the parser, which remembers the tool uses that wait for their results and the
-- permission mode, and what the blocks of a message and the mode of an entry do to it.
use peek_mcp.Prelude.{
  ℕ, String, Bool, false, not, ◌&&◌, ◌||◌, List, [], ◌∷◌, Option, none, some, length, str_eq,
  is_empty, leb, if◌then◌else◌,
}
use peek_mcp.Prelude.Assoc.{Assoc, lookup, insert, erase}
use peek_mcp.Session.Event.{Event, permission_mode_changed, blank_event}
use peek_mcp.Session.Turn.{FileTouch}
use peek_mcp.Claude.Entry.{Entry, ContentBlock, Message}
use peek_mcp.Claude.Decoder.{Decoder}
use peek_mcp.Claude.Content.{
  PendingToolUse, content_blocks, content_type_tool_result, content_type_tool_use,
  file_touch_from_result,
}
use peek_mcp.Claude.Events.{
  denied_tool_event, skill_event, tool_name_exit_plan_mode, tool_result_event,
}

abbrev pub max_pending_tools : ℕ
max_pending_tools = 64

abbrev pub tool_name_skill : String
tool_name_skill = "Skill"

abbrev pub permission_mode_default : String
permission_mode_default = "default"

pub record Parser : Type 0 where
  pub pending_tools : Assoc PendingToolUse
  pub permission_mode : String

-- `NewParser()`
abbrev pub new_parser : Parser
new_parser = record { pending_tools = []; permission_mode = "" }

-- `p.rememberToolUse(block)`
unfoldable pub remember_tool_use : Parser → ContentBlock → Parser
remember_tool_use p block = if is_empty block.id then p else record p {
  pending_tools =
      insert block.id (record { input = block.input; name = block.name })
        (if leb max_pending_tools (length p.pending_tools) then [] else p.pending_tools);
}

-- The loop of `eventsFromAssistantContent`.
unfoldable pub events_from_assistant_blocks :
    Decoder → Entry → Parser → List ContentBlock → Parser × List Event
unfolding remember_tool_use
events_from_assistant_blocks d entry p [] = (p, [])
events_from_assistant_blocks d entry p (block ∷ blocks) =
    let is_use = str_eq block.type content_type_tool_use in
    let (p', events) =
      events_from_assistant_blocks d entry (if is_use then remember_tool_use p block else p)
        blocks in
    (
      p',
      if is_use && str_eq block.name tool_name_skill
          then skill_event d block entry ∷ events
          else events,
    )

-- `p.eventsFromAssistantContent(entry, message)`
abbrev pub events_from_assistant_content : Decoder → Parser → Entry → Message → Parser × List Event
events_from_assistant_content d p entry message =
    events_from_assistant_blocks d entry p (content_blocks d message.content)

-- `if x != nil { xs = append(xs, x) }`, before the rest.
abbrev pub cons_some {ℓ} : {A : Type ℓ} → Option A → List A → List A
cons_some none xs = xs
cons_some (some x) xs = x ∷ xs

abbrev pub is_plan_verdict : Option PendingToolUse → Bool
is_plan_verdict none = false
is_plan_verdict (some pending) = str_eq pending.name tool_name_exit_plan_mode

abbrev pub result_touch : Decoder → ContentBlock → Option PendingToolUse → Option FileTouch
result_touch d block none = none
result_touch d block (some pending) = file_touch_from_result d block pending

abbrev pub result_event : Decoder → Entry → ContentBlock → Option PendingToolUse → Option Event
result_event d entry block none = none
result_event d entry block (some pending) = tool_result_event d block entry pending

-- One round of the loop of `eventsFromUserContent`, after its `delete`: what a tool result adds.
unfoldable pub of_tool_result :
    Decoder → Entry → ContentBlock → Option PendingToolUse → Option Event × Option FileTouch
of_tool_result d entry block pending =
    if not (is_empty entry.tool_denial_kind) && not (is_plan_verdict pending)
    then (some (denied_tool_event d block entry pending), none)
    else (result_event d entry block pending, result_touch d block pending)

-- The loop of `eventsFromUserContent`.
unfoldable pub events_from_user_blocks :
    Decoder → Entry → Parser → List ContentBlock → Parser × List Event × List FileTouch
unfolding of_tool_result
events_from_user_blocks d entry p [] = (p, [], [])
events_from_user_blocks d entry p (block ∷ blocks) =
    let is_result = str_eq block.type content_type_tool_result in
    let pending = lookup block.tool_use_id p.pending_tools in
    let taken = record p { pending_tools = erase block.tool_use_id p.pending_tools } in
    let (p', events, touches) =
      events_from_user_blocks d entry (if is_result then taken else p) blocks in
    let (event, touch) = of_tool_result d entry block pending in
    if is_result
    then (p', cons_some event events, cons_some touch touches)
    else (p', events, touches)

-- `p.eventsFromUserContent(entry, message)`
abbrev pub events_from_user_content :
    Decoder → Parser → Entry → Message → Parser × List Event × List FileTouch
events_from_user_content d p entry message =
    events_from_user_blocks d entry p (content_blocks d message.content)

-- `p.permissionModeEvent(entry)`
unfoldable pub permission_mode_event : Parser → Entry → Parser × Option Event
permission_mode_event p entry =
    let mode = entry.permission_mode in
    if is_empty mode || str_eq mode p.permission_mode
    then (p, none)
    else (let from = p.permission_mode in
        let p' = record p { permission_mode = mode } in
        if is_empty from && str_eq mode permission_mode_default then (p', none) else (
          p',
          some (record (blank_event permission_mode_changed entry.timestamp) {
            actor = entry.agent_id;
            permission_mode = some (record { from = from; to = mode });
          }),
        ))
