-- ===== src/Claude/Content.antt =====
-- claude/parser.go: the content blocks of a message, and the files that keep long outputs.
use Prim.Native.String.{◌++◌ as append_text}
use mathlib.Core.Option
use peek_mcp.Prelude.{
  ℕ, ◌*◌, String, Bool, true, false, not, ◌||◌, List, [], ◌∷◌, Option, none, some, str_eq, is_empty,
  if◌then◌else◌,
}
use peek_mcp.Prelude.Text.{has_prefix, cut, trim_space}
use peek_mcp.Session.Turn.{ToolCall, ToolResult, FileTouch}
use peek_mcp.Session.Usage.{Usage, zero_usage}
use peek_mcp.Claude.Entry.{Entry, Message, ContentBlock, TokenUsage, CacheCreation}
use peek_mcp.Claude.Decoder.{Decoder, FileToolInput, DeniedToolInput}

abbrev pub content_type_tool_result : String
content_type_tool_result = "tool_result"

abbrev pub content_type_tool_use : String
content_type_tool_use = "tool_use"

abbrev pub tool_name_edit : String
tool_name_edit = "Edit"

abbrev pub tool_name_multi_edit : String
tool_name_multi_edit = "MultiEdit"

abbrev pub tool_name_notebook_edit : String
tool_name_notebook_edit = "NotebookEdit"

abbrev pub tool_name_read : String
tool_name_read = "Read"

abbrev pub tool_name_write : String
tool_name_write = "Write"

abbrev pub persisted_output_marker : String
persisted_output_marker = "<persisted-output>"

abbrev pub tool_results_dir : String
tool_results_dir = "tool-results"

abbrev pub max_persisted_read_bytes : ℕ
max_persisted_read_bytes = 256 * 1024

-- `pendingToolUse`
pub record PendingToolUse : Type 0 where
  pub input : String
  pub name : String

-- `contentBlocks(raw)`; an error gives no blocks.
abbrev pub content_blocks : Decoder → String → List ContentBlock
content_blocks d raw = Option.get_or (d.blocks raw) []

-- The text of the blocks of type "text", a line each.
unfoldable pub join_texts : List ContentBlock → String
join_texts [] = ""
join_texts (block ∷ blocks) =
    let rest = join_texts blocks in
    if not (str_eq block.type "text") || is_empty block.text
    then rest
    else append_text block.text (append_text "\n" rest)

unfoldable pub join_thinking : List ContentBlock → String
join_thinking [] = ""
join_thinking (block ∷ blocks) =
    let rest = join_thinking blocks in
    if not (str_eq block.type "thinking") || is_empty block.thinking
    then rest
    else append_text block.thinking (append_text "\n" rest)

-- `extractTextBlocks(raw)`: a user message may carry a plain text instead of blocks.
unfoldable pub extract_text_blocks : Decoder → String → String
unfolding join_texts
extract_text_blocks d raw = elim (d.blocks raw) [
  | some blocks ↦ join_texts blocks
  | none ↦ Option.get_or (d.text raw) ""
]

-- `extractThinkingBlocks(raw)`
unfoldable pub extract_thinking_blocks : Decoder → String → String
unfolding join_thinking
extract_thinking_blocks d raw = join_thinking (content_blocks d raw)

-- `toolCallsFromContent(entry, message)`
unfoldable pub tool_calls_of : Entry → List ContentBlock → List ToolCall
tool_calls_of entry [] = []
tool_calls_of entry (block ∷ blocks) =
    let rest = tool_calls_of entry blocks in
    if not (str_eq block.type content_type_tool_use)
    then rest
    else record {
      id = block.id;
      input = block.input;
      is_error = false;
      name = block.name;
      timestamp = entry.timestamp;
    }
      ∷ rest

abbrev pub tool_calls_from_content : Decoder → Entry → Message → List ToolCall
tool_calls_from_content d entry message = tool_calls_of entry (content_blocks d message.content)

-- `toolResultsFromContent(message)`
unfoldable pub tool_results_of : List ContentBlock → List ToolResult
tool_results_of [] = []
tool_results_of (block ∷ blocks) =
    let rest = tool_results_of blocks in
    if not (str_eq block.type content_type_tool_result)
    then rest
    else record { is_error = block.is_error; tool_use_id = block.tool_use_id } ∷ rest

abbrev pub tool_results_from_content : Decoder → Message → List ToolResult
tool_results_from_content d message = tool_results_of (content_blocks d message.content)

abbrev with_cache : Usage → Option CacheCreation → Usage
with_cache out none = out
with_cache out (some c) = record out {
  cache_creation_5m_input_tokens = c.ephemeral_5m_input_tokens;
  cache_creation_1h_input_tokens = c.ephemeral_1h_input_tokens;
}

-- `toSessionUsage(usage)`
unfoldable pub to_session_usage : Option TokenUsage → Option Usage
to_session_usage none = none
to_session_usage (some usage) = some (
    with_cache
      (record zero_usage {
        input_tokens = usage.input_tokens;
        output_tokens = usage.output_tokens;
        cache_creation_input_tokens = usage.cache_creation_input_tokens;
        cache_read_input_tokens = usage.cache_read_input_tokens;
      })
      usage.cache_creation)

-- The `switch` of `fileTouchFromResult`: whether the tool writes; `none` for another tool.
unfoldable pub touches_as_write : String → Option Bool
touches_as_write name =
    if str_eq name tool_name_edit
      || str_eq name tool_name_multi_edit
      || str_eq name tool_name_notebook_edit
      || str_eq name tool_name_write
    then some true
    else if str_eq name tool_name_read
    then some false
    else none

abbrev touch_of_input : Bool → Option FileToolInput → Option FileTouch
touch_of_input write none = none
touch_of_input write (some input) =
    let path = if is_empty input.file_path then input.notebook_path else input.file_path in
    if is_empty path then none else some (record { path = path; write = write })

-- `fileTouchFromResult(block, pending)`
unfoldable pub file_touch_from_result : Decoder → ContentBlock → PendingToolUse → Option FileTouch
unfolding touches_as_write
file_touch_from_result d block pending =
    if block.is_error then none else elim (touches_as_write pending.name) [
      | none ↦ none
      | some write ↦ touch_of_input write (d.file_tool_input pending.input)
    ]

abbrev command_of_input : Option DeniedToolInput → String
command_of_input none = ""
command_of_input (some input) =
    if not (is_empty input.command)
    then input.command
    else if not (is_empty input.file_path)
    then input.file_path
    else input.notebook_path

-- `commandFromInput(pending)`
unfoldable pub command_from_input : Decoder → PendingToolUse → String
command_from_input d pending = command_of_input (d.denied_tool_input pending.input)

abbrev before : Option (String × String) → String
before none = ""
before (some (inner, rest)) = inner

-- `textBetween(closeTag, openTag, text)`
unfoldable pub text_between : String → String → String → String
unfolding cut
text_between close_tag open_tag text = elim (cut text open_tag) [
  | none ↦ ""
  | some (head, after) ↦ before (cut after close_tag)
]

abbrev first_part : String → Option (String × String) → String
first_part text none = text
first_part text (some (line, rest)) = line

-- `persistedOutputPath(text)`
unfoldable pub persisted_output_path : String → String
unfolding cut
persisted_output_path text = elim (cut text "Full output saved to: ") [
  | none ↦ ""
  | some (head, after) ↦ trim_space (first_part after (cut after "\n"))
]

-- `isSessionToolResultPath(path, sessionId, toolUseId)`
unfoldable pub is_session_tool_result_path : Decoder → String → String → String → Bool
is_session_tool_result_path d path session_id tool_use_id =
    if is_empty path || is_empty session_id
    then false
    else if not (str_eq (d.base path) (append_text tool_use_id ".txt"))
    then false
    else (let parent = d.dir path in
        if not (str_eq (d.base parent) tool_results_dir)
        then false
        else str_eq (d.base (d.dir parent)) session_id)

-- `resolvePersistedOutput(sessionId, text, toolUseId)`
unfoldable pub resolve_persisted_output : Decoder → String → String → String → String
unfolding persisted_output_path is_session_tool_result_path
resolve_persisted_output d session_id text tool_use_id =
    if not (has_prefix text persisted_output_marker)
    then text
    else (let path = persisted_output_path text in
        if not (is_session_tool_result_path d path session_id tool_use_id)
        then text
        else Option.get_or (d.read_limited path max_persisted_read_bytes) text)
