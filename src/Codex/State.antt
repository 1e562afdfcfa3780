-- ===== src/Codex/State.antt =====
-- codex/parser.go: the constants and the parser, which remembers the session, the model and the calls
-- that wait for an escalated permission; the usage and the text of a message.
use Prim.Native.String.{◌++◌ as append_text}
use peek_mcp.Prelude.{ℕ, String, not, ◌&&◌, List, [], ◌∷◌, str_eq, is_empty, if◌then◌else◌}
use peek_mcp.Prelude.Assoc.{Assoc}
use peek_mcp.Session.Usage.{Usage}
use peek_mcp.Codex.Entry.{ContentBlock, TokenUsage}

abbrev pub plan_file_path_proposed_plan : String
plan_file_path_proposed_plan = "codex:proposed_plan"

abbrev pub codex_message_type : String
codex_message_type = "message"

abbrev pub codex_input_text_type : String
codex_input_text_type = "input_text"

abbrev pub codex_output_text_type : String
codex_output_text_type = "output_text"

abbrev pub exec_command_tool : String
exec_command_tool = "exec_command"

abbrev pub function_call_output_type : String
function_call_output_type = "function_call_output"

abbrev pub function_call_type : String
function_call_type = "function_call"

abbrev pub max_pending_calls : ℕ
max_pending_calls = 64

abbrev pub rejected_by_user_marker : String
rejected_by_user_marker = "Rejected(\"rejected by user\")"

abbrev pub sandbox_require_escalated : String
sandbox_require_escalated = "require_escalated"

pub record EscalatedCall : Type 0 where
  pub cmd : String
  pub justification : String

pub record Parser : Type 0 where
  pub model : String
  pub pending_escalated : Assoc EscalatedCall
  pub session_id : String
  pub subagent_actor : String

-- `NewParser()`
abbrev pub new_parser : Parser
new_parser = record { model = ""; pending_escalated = []; session_id = ""; subagent_actor = "" }

-- `convertUsage(codexUsage)` of a usage that is not nil; the fields that it leaves out are 0.
abbrev pub convert_usage : TokenUsage → Usage
convert_usage u = record {
  cache_creation_input_tokens = 0;
  cache_read_input_tokens = 0;
  cached_input_tokens = u.cached_input_tokens;
  cache_creation_1h_input_tokens = 0;
  cache_creation_5m_input_tokens = 0;
  input_tokens = u.input_tokens;
  output_tokens = u.output_tokens;
  reasoning_output_tokens = u.reasoning_output_tokens;
  total_tokens = u.total_tokens;
}

-- The loop of `extractText`: what the builder holds after the blocks.
unfoldable pub write_blocks : String → String → List ContentBlock → String
write_blocks target built [] = built
write_blocks target built (block ∷ blocks) =
    write_blocks target
      (if str_eq block.type target && not (is_empty block.text)
        then append_text built (if is_empty built then block.text else append_text "\n" block.text)
        else built)
      blocks

-- `p.extractText(blocks, targetType)`
abbrev pub extract_text : List ContentBlock → String → String
extract_text blocks target = write_blocks target "" blocks
