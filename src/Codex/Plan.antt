-- ===== src/Codex/Plan.antt =====
-- codex/parser.go: the proposed plan in a message.
use Prim.Native.Char.{Char, code}
use Prim.Native.String.{len, slice, ◌++◌ as append_text}
use peek_mcp.Prelude.{
  ℕ, suc, ◌*◌, String, not, ◌&&◌, List, [], ◌∷◌, Option, none, some, take, drop, str_eq, ltb,
  is_some, ◌==◌, ◌-◌, if◌then◌else◌,
}
use peek_mcp.Prelude.Text.{trim_space}
pub mod Last

abbrev pub proposed_plan_open_tag : String
proposed_plan_open_tag = "<proposed_plan>"

abbrev pub proposed_plan_close_tag : String
proposed_plan_close_tag = "</proposed_plan>"

abbrev pub max_plan_bytes : ℕ
max_plan_bytes = 32 * 1024

onto_first : Char → List String → List String
onto_first c [] = String.◌∷◌ c "" ∷ []
onto_first c (line ∷ lines) = String.◌∷◌ c line ∷ lines

-- strings.Split(text, "\n")
unfoldable pub split_lines : String → List String
unfolding onto_first
split_lines String.[] = "" ∷ []
split_lines (String.◌∷◌ c s) =
    let lines = split_lines s in if code c == 10 then "" ∷ lines else onto_first c lines

-- strings.Join(lines, "\n")
unfoldable pub join_lines : List String → String
join_lines [] = ""
join_lines (line ∷ []) = line
join_lines (line ∷ next ∷ lines) = append_text line (append_text "\n" (join_lines (next ∷ lines)))

-- `start` and `end`; `none` is -1.
pub record Span : Type 0 where
  pub start : Option ℕ
  pub end : Option ℕ

-- One round of the loop of `extractProposedPlan`.
unfoldable pub note_line : ℕ → String → Span → Span
note_line index line span =
    let trimmed = trim_space line in
    if str_eq trimmed proposed_plan_open_tag
    then record { start = some index; end = none }
    else if str_eq trimmed proposed_plan_close_tag && (is_some span.start && not (is_some span.end))
    then record span { end = some index }
    else span

unfoldable pub scan_lines : ℕ → Span → List String → Span
unfolding note_line
scan_lines index span [] = span
scan_lines index span (line ∷ lines) = scan_lines (suc index) (note_line index line span) lines

abbrev pub cut_plan : String → String
cut_plan plan = if ltb max_plan_bytes (len plan) then slice plan 0 max_plan_bytes else plan

plan_in : List String → Option ℕ → Option ℕ → String
plan_in lines none end = ""
plan_in lines (some start) none = ""
plan_in lines (some start) (some end) =
    cut_plan (join_lines (take (end - suc start) (drop (suc start) lines)))

-- `extractProposedPlan(text)` of the lines of the text.
unfoldable pub plan_of_lines : List String → String
unfolding scan_lines plan_in join_lines
plan_of_lines lines =
    let span = scan_lines 0 (record { start = none; end = none }) lines in
    plan_in lines span.start span.end

abbrev pub extract_proposed_plan : String → String
extract_proposed_plan text = plan_of_lines (split_lines text)
