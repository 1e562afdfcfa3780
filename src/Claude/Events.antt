-- ===== src/Claude/Events.antt =====
-- claude/parser.go: the events of a line. `none` is a nil event.
use Prim.Native.String.{len, slice, ◌++◌ as append_text}
use mathlib.Core.Option
use peek_mcp.Prelude.{
  ℕ, ◌*◌, String, Bool, not, ◌||◌, List, [], ◌∷◌, Option, none, some, str_eq, is_empty, ltb,
  if◌then◌else◌,
}
use peek_mcp.Prelude.Text.{contains, trim_space, trim_prefix}
use peek_mcp.Session.Event.{
  Event, EventKind, blank_event, permission_denied, plan_mode_enter, plan_mode_exit,
  plan_mode_reenter, plan_rejected, plan_approved, skill_invoked, subagent_result, task_completed,
  user_answer, skill_source_slash, skill_source_tool,
}
use peek_mcp.Claude.Entry.{
  Entry, ContentBlock, attachment_type_plan_mode, attachment_type_plan_file_reference,
  attachment_type_plan_mode_exit, attachment_type_plan_mode_reentry,
}
use peek_mcp.Claude.Decoder.{Decoder}
use peek_mcp.Claude.Content.{
  PendingToolUse, command_from_input, text_between, resolve_persisted_output, extract_text_blocks,
}

abbrev pub tool_name_agent : String
tool_name_agent = "Agent"

abbrev pub tool_name_ask_user_question : String
tool_name_ask_user_question = "AskUserQuestion"

abbrev pub tool_name_exit_plan_mode : String
tool_name_exit_plan_mode = "ExitPlanMode"

abbrev pub approval_prefix : String
approval_prefix = "User has approved your plan"

abbrev pub builtin_command_model : String
builtin_command_model = "model"

abbrev pub max_approved_plan_bytes : ℕ
max_approved_plan_bytes = 64 * 1024

abbrev pub max_subagent_result_bytes : ℕ
max_subagent_result_bytes = 32 * 1024

-- `if len(content) > limit { content = content[:limit] + note }`
abbrev pub cut_off : ℕ → String → String → String
cut_off limit note content =
    if ltb limit (len content) then append_text (slice content 0 limit) note else content

-- `isPlanAttachment(t)`
unfoldable pub is_plan_attachment : String → Bool
is_plan_attachment t =
    str_eq t attachment_type_plan_mode
    || str_eq t attachment_type_plan_file_reference
    || str_eq t attachment_type_plan_mode_exit
    || str_eq t attachment_type_plan_mode_reentry

-- The kind that `planModeEvents` takes from an attachment's type.
abbrev pub plan_mode_kind : String → Option EventKind
plan_mode_kind attachment_type =
    if str_eq attachment_type attachment_type_plan_mode
    then some plan_mode_enter
    else if str_eq attachment_type attachment_type_plan_mode_exit
    then some plan_mode_exit
    else if str_eq attachment_type attachment_type_plan_mode_reentry
    then some plan_mode_reenter
    else none

-- `planModeEvents(attachmentType, entry)`
unfoldable pub plan_mode_events : String → Entry → List Event
plan_mode_events attachment_type entry = elim (plan_mode_kind attachment_type) [
  | none ↦ []
  | some kind ↦ record (blank_event kind entry.timestamp) { actor = entry.agent_id } ∷ []
]

-- `permissionDeniedEvent(block, command, entry, kind, tool)`
unfoldable pub permission_denied_event : ContentBlock → String → Entry → String → String → Event
permission_denied_event block command entry kind tool =
    record (blank_event permission_denied entry.timestamp) {
      actor = entry.agent_id;
      permission = some (record {
        command = command;
        justification = "";
        kind = kind;
        tool = tool;
        tool_use_id = block.tool_use_id;
      });
    }

-- `deniedToolEvent(block, entry, pending)`
unfoldable pub denied_tool_event : Decoder → ContentBlock → Entry → Option PendingToolUse → Event
unfolding permission_denied_event
denied_tool_event d block entry none =
    permission_denied_event block "" entry entry.tool_denial_kind ""
denied_tool_event d block entry (some pending) =
    permission_denied_event block (command_from_input d pending) entry entry.tool_denial_kind
      pending.name

-- `planVerdictEvent(block, entry, text)`
unfoldable pub plan_verdict_event : Decoder → ContentBlock → Entry → String → Option Event
plan_verdict_event d block entry text =
    if block.is_error
    then some (record (blank_event plan_rejected entry.timestamp) { actor = entry.agent_id })
    else (let content = resolve_persisted_output d entry.session_id text block.tool_use_id in
        if not (contains content approval_prefix)
        then none
        else some (record (blank_event plan_approved entry.timestamp) {
          actor = entry.agent_id;
          plan = some (record {
            content =
                cut_off max_approved_plan_bytes "\n[peek: approved plan truncated at 64 KB]\n"
                  content;
            revision = 0;
          });
        }))

-- `skillEvent(block, entry)`
unfoldable pub skill_event : Decoder → ContentBlock → Entry → Event
skill_event d block entry =
    let input = d.skill_input block.input in
    record (blank_event skill_invoked entry.timestamp) {
      actor = entry.agent_id;
      skill = some (record { args = input.args; skill = input.skill; source = skill_source_tool });
    }

-- `slashCommandEvent(entry, text)`
unfoldable pub slash_command_event : Entry → String → Option Event
slash_command_event entry text =
    let named = text_between "</command-name>" "<command-name>" text in
    let name = trim_prefix (trim_space named) "/" in
    if is_empty name || str_eq name builtin_command_model
    then none
    else some (record (blank_event skill_invoked entry.timestamp) {
      actor = entry.agent_id;
      skill = some (record {
        args = trim_space (text_between "</command-args>" "<command-args>" text);
        skill = name;
        source = skill_source_slash;
      });
    })

-- `subagentResultEvent(block, entry, text)`
unfoldable pub subagent_result_event : Decoder → ContentBlock → Entry → String → Event
subagent_result_event d block entry text =
    let content = resolve_persisted_output d entry.session_id text block.tool_use_id in
    record (blank_event subagent_result entry.timestamp) {
      actor = entry.agent_id;
      subagent = some (record {
        agent_id = "";
        agent_type = "";
        content =
            cut_off max_subagent_result_bytes "\n[peek: subagent result truncated at 32 KB]\n"
              content;
        description = "";
        is_error = block.is_error;
        spawn_depth = 0;
        tool_use_id = block.tool_use_id;
      });
    }

-- `taskCompletedEvent(entry)`
unfoldable pub task_completed_event : Entry → Event
task_completed_event entry = record (blank_event task_completed entry.timestamp) {
  task = some (record {
    status = text_between "</status>" "<status>" entry.content;
    summary = text_between "</summary>" "<summary>" entry.content;
    task_id = text_between "</task-id>" "<task-id>" entry.content;
    tool_use_id = text_between "</tool-use-id>" "<tool-use-id>" entry.content;
  });
}

-- `userAnswerEvent(block, entry, pending, text)`
unfoldable pub user_answer_event : Decoder → ContentBlock → Entry → PendingToolUse → String → Event
user_answer_event d block entry pending text = record (blank_event user_answer entry.timestamp) {
  actor = entry.agent_id;
  user_answer = some (record { answers = text; questions = d.questions pending.input });
}

-- `toolResultEvent(block, entry, pending)`
unfoldable pub tool_result_event : Decoder → ContentBlock → Entry → PendingToolUse → Option Event
unfolding plan_verdict_event
tool_result_event d block entry pending =
    let text = Option.get_or (d.text block.content) (extract_text_blocks d block.content) in
    if str_eq pending.name tool_name_exit_plan_mode
    then plan_verdict_event d block entry text
    else if str_eq pending.name tool_name_agent
    then some (subagent_result_event d block entry text)
    else if str_eq pending.name tool_name_ask_user_question
    then some (user_answer_event d block entry pending text)
    else none
