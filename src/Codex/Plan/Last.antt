-- ===== src/Codex/Plan/Last.antt =====
-- codex/parser.go: which lines of a message are its plan.
use peek_mcp.Prelude.{
  ℕ, suc, ◌+◌, ◌-◌, ◌≡◌, refl, ap, ◌∙◌, String, Bool, true, false, List, [], ◌∷◌, ◌++◌, none, some,
  length, take, drop, str_eq, arith, Bool-cases, inl, inr, eq_iff,
}
use peek_mcp.Prelude.Text.{trim_space}
use peek_mcp.Codex.Plan.{
  Span, note_line, scan_lines, cut_plan, join_lines, plan_in, plan_of_lines, proposed_plan_open_tag,
  proposed_plan_close_tag,
}

abbrev pub opens : String → Bool
opens line = str_eq (trim_space line) proposed_plan_open_tag

abbrev pub closes : String → Bool
closes line = str_eq (trim_space line) proposed_plan_close_tag

-- No line is an opening tag.
abbrev pub NoneOpens : List String → Type 0
NoneOpens [] = Unit
NoneOpens (line ∷ lines) = (opens line ≡ false) × NoneOpens lines

-- No line is a closing tag.
abbrev pub NoneCloses : List String → Type 0
NoneCloses [] = Unit
NoneCloses (line ∷ lines) = (closes line ≡ false) × NoneCloses lines

scan_lines-append :
    (i : ℕ) (span : Span) (xs ys : List String)
    → scan_lines i span (xs ++ ys) ≡ scan_lines (i + length xs) (scan_lines i span xs) ys
unfolding scan_lines
scan_lines-append i span [] ys = let e : i + 0 ≡ i = omega arith in rw e refl
scan_lines-append i span (x ∷ xs) ys =
    let e : i + suc (length xs) ≡ suc i + length xs = omega arith in
    rw e (scan_lines-append (suc i) (note_line i x span) xs ys)

-- Lines without a tag change nothing.
scan_lines-plain :
    (i : ℕ) (span : Span) (lines : List String)
    → NoneOpens lines
    → NoneCloses lines
    → scan_lines i span lines ≡ span
unfolding scan_lines note_line
scan_lines-plain i span [] h k = refl
scan_lines-plain i span (line ∷ lines) (o, h) (c, k) =
    rw (o, c) (scan_lines-plain (suc i) span lines h k)

note_line-after :
    (i start end : ℕ) (line : String)
    → opens line ≡ false
    → note_line i line (record { start = some start; end = some end })
      ≡ record { start = some start; end = some end }
unfolding note_line
note_line-after i start end line o = elim (Bool-cases (closes line)) [
  | inl e ↦ rw (o, e) refl
  | inr e ↦ rw (o, e) refl
]

-- Behind a complete block only an opening tag counts.
scan_lines-after :
    (i start end : ℕ) (lines : List String)
    → NoneOpens lines
    → scan_lines i (record { start = some start; end = some end }) lines
      ≡ record { start = some start; end = some end }
unfolding scan_lines note_line
scan_lines-after i start end [] h = refl
scan_lines-after i start end (line ∷ lines) (o, h) =
    ap (λ span. scan_lines (suc i) span lines) (note_line-after i start end line o)
    ∙ scan_lines-after (suc i) start end lines h

drop-before :
    (before : List String) (line : String) (rest : List String)
    → drop (suc (length before)) (before ++ line ∷ rest) ≡ rest
drop-before [] line rest = refl
drop-before (x ∷ before) line rest = drop-before before line rest

take-prefix : (xs ys : List String) → take (length xs) (xs ++ ys) ≡ xs
take-prefix [] ys = refl
take-prefix (x ∷ xs) ys = ap (λ r. x ∷ r) (take-prefix xs ys)

-- A closing tag is no opening tag.
closes-opens : (line : String) → closes line ≡ true → opens line ≡ false
closes-opens line h =
    ap (λ tag. str_eq tag proposed_plan_open_tag)
      ((eq_iff (trim_space line) proposed_plan_close_tag).0 h)

note_line-opens :
    (i : ℕ) (line : String) (span : Span)
    → opens line ≡ true
    → note_line i line span ≡ record { start = some i; end = none }
unfolding note_line
note_line-opens i line span o = rw o refl

note_line-closes :
    (j i : ℕ) (line : String)
    → closes line ≡ true
    → note_line j line (record { start = some i; end = none })
      ≡ record { start = some i; end = some j }
unfolding note_line
note_line-closes j i line c = rw (closes-opens line c, c) refl

scan_lines-block :
    (span : Span) (i : ℕ) (plan : List String) (opening closing : String) (after : List String)
    → opens opening ≡ true
    → closes closing ≡ true
    → NoneOpens plan
    → NoneCloses plan
    → NoneOpens after
    → scan_lines i span (opening ∷ (plan ++ closing ∷ after))
      ≡ record { start = some i; end = some (suc i + length plan) }
unfolding scan_lines
scan_lines-block span i plan opening closing after o c h k a =
    let opened : Span = record { start = some i; end = none } in
    let j = suc i + length plan in
    let first : note_line i opening span ≡ opened = note_line-opens i opening span o in
    let last : note_line j closing opened ≡ record { start = some i; end = some j } =
      note_line-closes j i closing c in
    ap (λ s. scan_lines (suc i) s (plan ++ closing ∷ after)) first
    ∙ scan_lines-append (suc i) opened plan (closing ∷ after)
    ∙ ap (λ s. scan_lines j s (closing ∷ after)) (scan_lines-plain (suc i) opened plan h k)
    ∙ ap (λ s. scan_lines (suc j) s after) last
    ∙ scan_lines-after (suc j) i j after a

-- The plan of a message is what stands between an opening and the next closing tag, up to its bound
-- in bytes, if no opening tag comes later; what stands before does not matter.
pub plan_of_lines-last :
    (before plan after : List String) (opening closing : String)
    → opens opening ≡ true
    → closes closing ≡ true
    → NoneOpens plan
    → NoneCloses plan
    → NoneOpens after
    → plan_of_lines (before ++ opening ∷ (plan ++ closing ∷ after)) ≡ cut_plan (join_lines plan)
unfolding plan_of_lines plan_in
plan_of_lines-last before plan after opening closing o c h k a =
    let i = length before in
    let lines = before ++ opening ∷ (plan ++ closing ∷ after) in
    let nothing : Span = record { start = none; end = none } in
    let zero_i : 0 + i ≡ i = omega arith in
    let scanned : scan_lines 0 nothing lines
        ≡ record { start = some i; end = some (suc i + length plan) } =
      scan_lines-append 0 nothing before (opening ∷ (plan ++ closing ∷ after))
      ∙ ap (λ n. scan_lines n (scan_lines 0 nothing before) (opening ∷ (plan ++ closing ∷ after)))
          zero_i
      ∙ scan_lines-block (scan_lines 0 nothing before) i plan opening closing after o c h k a in
    let size : suc i + length plan - suc i ≡ length plan = omega arith in
    let between : take (suc i + length plan - suc i) (drop (suc i) lines) ≡ plan =
      ap (λ n. take n (drop (suc i) lines)) size
      ∙ ap (take (length plan)) (drop-before before opening (plan ++ closing ∷ after))
      ∙ take-prefix plan (closing ∷ after) in
    ap (λ span. plan_in lines span.start span.end) scanned
    ∙ ap (λ found. cut_plan (join_lines found)) between
