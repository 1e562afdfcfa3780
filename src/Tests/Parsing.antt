-- ===== src/Tests/Parsing.antt =====
-- Lines that are parsed, and models that are priced.
use mathlib.Core.Option
use mathlib.Core.Option.{some-injective}
use mathlib.Core.Path.{subst}
use peek_mcp.Prelude.{
  ℕ, ◌≤◌, ◌≡◌, refl, sym, ap, ◌∙◌, inl, inr, String, true, false, List, [], ◌∷◌, none, some, length,
  arith,
}
use peek_mcp.Prelude.Text.{has_prefix, drop_prefix, rune_count}
use peek_mcp.Session.Turn.{Turn}
use peek_mcp.Store.Sound.AddTurn.{UsageIsWords}
use peek_mcp.Codex.State as CodexState
use peek_mcp.Codex.Parser as CodexParser
use peek_mcp.Codex.Fine as CodexFine
use peek_mcp.Claude.Entry as ClaudeEntry
use peek_mcp.Claude.Decoder as ClaudeDecoder
use peek_mcp.Claude.Content.{to_session_usage}
use peek_mcp.Claude.State as ClaudeState
use peek_mcp.Claude.Parser as ClaudeParser
use peek_mcp.Claude.Fine as ClaudeFine
use peek_mcp.Pricing.{Rates, rates, matches, boundary_after, scan_rows, lookup_in, rate_table}
use peek_mcp.Pricing.Longest.{Row, SameRows, OneRow, lookup_in-longest, lookup_in-order}
use peek_mcp.Tests.Watching as Watching

parse_line-keeps_calls_example :
    let ran = CodexParser.parse_line Watching.decoder CodexState.new_parser (117 ∷ []) in
    (length ran.0.pending_escalated ≤ CodexState.max_pending_calls)
    × ((turn : Turn)
        → ran.1 ≡ some turn
        → (Option.map (λ meta. meta.session_id) turn.meta ≡ some ran.0.session_id)
          × UsageIsWords turn.usage)
parse_line-keeps_calls_example =
    CodexFine.parse_line-keeps_calls Watching.decoder CodexState.new_parser (117 ∷ [])
      Watching.decoder-DecodesWords (omega arith)

abbrev pub prompt_entry : ClaudeEntry.Entry
prompt_entry = record {
  agent_id = "";
  current_working_dir = "/home/dev/app";
  git_branch = "main";
  is_sidechain = false;
  message = "{}";
  attachment_raw = "";
  permission_mode = "";
  prompt_id = "";
  request_id = "r1";
  session_id = "s1";
  timestamp = 7;
  type = "assistant";
  custom_title = "";
  version = "2";
  content = "";
  operation = "";
  tool_denial_kind = "";
}

abbrev counts : ClaudeEntry.TokenUsage
counts = record {
  input_tokens = 12;
  output_tokens = 30;
  cache_creation_input_tokens = 5;
  cache_read_input_tokens = 400;
  cache_creation = none;
}

abbrev answer : ClaudeEntry.Message
answer = record {
  role = "assistant";
  content = "[]";
  model = "opus";
  stop_reason = "";
  usage = some counts;
}

abbrev pub tool_use : ClaudeEntry.ContentBlock
tool_use = record {
  id = "t1";
  content = "";
  input = "{}";
  is_error = false;
  name = "Bash";
  text = "";
  thinking = "";
  tool_use_id = "";
  type = "tool_use";
}

abbrev pub claude_decoder : ClaudeDecoder.Decoder
claude_decoder = record {
  entry = λ line. some (some prompt_entry);
  message = λ text. some answer;
  attachment = λ text. none;
  blocks = λ text. some (tool_use ∷ []);
  text = λ text. none;
  file_tool_input = λ text. none;
  denied_tool_input = λ text. none;
  skill_input = λ text. record { args = ""; skill = "" };
  questions = λ text. [];
  base = λ path. path;
  dir = λ path. path;
  read_limited = λ path n. none;
}

counts-Words : UsageIsWords (to_session_usage (some counts))
unfolding to_session_usage
counts-Words = record {
  w1 = omega arith;
  w2 = omega arith;
  w3 = omega arith;
  w4 = omega arith;
  w5 = omega arith;
  w6 = omega arith;
  w7 = omega arith;
  w8 = omega arith;
  w9 = omega arith;
}

claude_decoder-DecodesWords : ClaudeFine.DecodesWords claude_decoder
claude_decoder-DecodesWords text message e =
    subst (λ m. UsageIsWords (to_session_usage m.usage)) (some-injective answer message e)
      counts-Words

parse_line-keeps_tools_example :
    let ran = ClaudeParser.parse_line claude_decoder ClaudeState.new_parser (123 ∷ []) in
    (length ran.0.pending_tools ≤ ClaudeState.max_pending_tools)
    × ((turn : Turn)
        → ran.1 ≡ some turn
        → (entry : ClaudeEntry.Entry) × (ClaudeParser.checked_entry claude_decoder (123 ∷ [])
            ≡ some entry)
          × ((Option.map (λ meta. meta.session_id) turn.meta ≡ some entry.session_id)
              × UsageIsWords turn.usage))
parse_line-keeps_tools_example =
    ClaudeFine.parse_line-keeps_tools claude_decoder ClaudeState.new_parser (123 ∷ [])
      claude_decoder-DecodesWords (omega arith)

abbrev opus : List (String × Rates)
opus =
    ("claude-opus-4", rates 15000 75000 18750 30000 1500)
    ∷ ("claude-opus-4-8", rates 5000 25000 6250 10000 500)
    ∷ []

abbrev swapped : List (String × Rates)
swapped =
    ("claude-opus-4-8", rates 5000 25000 6250 10000 500)
    ∷ ("claude-opus-4", rates 15000 75000 18750 30000 1500)
    ∷ []

found_row :
    lookup_in rate_table "claude-opus-4-8[1m]"
    ≡ some ("claude-opus-4-8", rates 5000 25000 6250 10000 500)
unfolding scan_rows matches has_prefix drop_prefix boundary_after rune_count
found_row = refl

lookup_in-longest_example :
    Row "claude-opus-4-8" (rates 5000 25000 6250 10000 500) rate_table
    × (matches "claude-opus-4-8[1m]" "claude-opus-4-8" ≡ true)
    × ((k : String) (r : Rates)
        → Row k r rate_table
        → matches "claude-opus-4-8[1m]" k ≡ true
        → rune_count k ≤ rune_count "claude-opus-4-8")
lookup_in-longest_example =
    lookup_in-longest rate_table "claude-opus-4-8[1m]" "claude-opus-4-8"
      (rates 5000 25000 6250 10000 500) found_row

opus-SameRows : SameRows opus swapped
opus-SameRows key found = (to, from)
  where
    to : Row key found opus → Row key found swapped
    to (inl old) = inr (inl old)
    to (inr (inl new)) = inl new
    to (inr (inr none_left)) = absurd none_left

    from : Row key found swapped → Row key found opus
    from (inl new) = inr (inl new)
    from (inr (inl old)) = inl old
    from (inr (inr none_left)) = absurd none_left

apart : ◌≡◌ {A = String} "claude-opus-4" "claude-opus-4-8" → ⊥
unfolding rune_count
apart e = let sizes : ◌≡◌ {A = ℕ} 13 15 = ap rune_count e in absurd (omega (arith, sizes))

opus-OneRow : OneRow opus
opus-OneRow key r r' (inl (k, e)) (inl (k', e')) = sym e ∙ e'
opus-OneRow key r r' (inl (k, e)) (inr (inl (k', e'))) = absurd (apart (k ∙ sym k'))
opus-OneRow key r r' (inr (inl (k, e))) (inl (k', e')) = absurd (apart (k' ∙ sym k))
opus-OneRow key r r' (inr (inl (k, e))) (inr (inl (k', e'))) = sym e ∙ e'
opus-OneRow key r r' (inl x) (inr (inr none_left)) = absurd none_left
opus-OneRow key r r' (inr (inl x)) (inr (inr none_left)) = absurd none_left
opus-OneRow key r r' (inr (inr none_left)) row' = absurd none_left

lookup_in-order_example : lookup_in opus "claude-opus-4-8" ≡ lookup_in swapped "claude-opus-4-8"
lookup_in-order_example = lookup_in-order opus swapped "claude-opus-4-8" opus-SameRows opus-OneRow
