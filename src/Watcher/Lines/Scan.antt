-- ===== src/Watcher/Lines/Scan.antt =====
-- watcher/watcher.go: the loop over the complete lines as an automaton that takes one byte at a time.
use mathlib.Core.List.{append_assoc, append-nil}
use peek_mcp.Prelude.{
  ℕ, ◌+◌, ◌≤◌, ◌≡◌, refl, sym, ap, ◌∙◌, Bool, false, true, List, [], ◌∷◌, ◌++◌, Option, none, some,
  length, drop, ◌==◌, Bool-cases, Option-cases, inl, inr, arith, zero, suc, length-append, drop-nil,
  if◌then◌else◌,
}
use peek_mcp.Watcher.Lines.{
  onto_line, split_after, ends_in_newline, trim_byte, line_of, on_line, each_line,
}

-- Whether a newline is among the bytes.
abbrev pub has_newline : List ℕ → Bool
has_newline [] = false
has_newline (b ∷ bytes) = if b == 10 then true else has_newline bytes

has_newline-snoc :
    (bytes : List ℕ) (b : ℕ)
    → has_newline bytes ≡ false
    → (b == 10) ≡ false
    → has_newline (bytes ++ b ∷ []) ≡ false
has_newline-snoc [] b h k = ground arith
has_newline-snoc (c ∷ bytes) b h k = ground (arith, has_newline-snoc bytes b)

ends_in_newline-has_newline :
    (bytes : List ℕ) → has_newline bytes ≡ false → ends_in_newline bytes ≡ false
unfolding ends_in_newline
ends_in_newline-has_newline [] h = refl
ends_in_newline-has_newline (b ∷ []) h = ground arith
ends_in_newline-has_newline (b ∷ c ∷ bytes) h =
    ground (arith, ends_in_newline-has_newline (c ∷ bytes))

ends_in_newline-snoc : (bytes : List ℕ) → ends_in_newline (bytes ++ 10 ∷ []) ≡ true
unfolding ends_in_newline
ends_in_newline-snoc [] = refl
ends_in_newline-snoc (b ∷ []) = refl
ends_in_newline-snoc (b ∷ c ∷ bytes) = ends_in_newline-snoc (c ∷ bytes)

onto_line-onto_line :
    (xs ys : List ℕ) (parts : List (List ℕ))
    → onto_line xs (onto_line ys parts) ≡ onto_line (xs ++ ys) parts
onto_line-onto_line xs ys [] = refl
onto_line-onto_line xs ys (part ∷ parts) = ap (λ line. line ∷ parts) (sym (append_assoc xs ys part))

pub onto_line-split_after : (bytes : List ℕ) → onto_line [] (split_after bytes) ≡ split_after bytes
unfolding split_after
onto_line-split_after [] = refl
onto_line-split_after (b ∷ bytes) = elim (Bool-cases (b == 10)) [
  | inl e ↦ rw e refl
  | inr e ↦ rw e (onto_line-onto_line [] (b ∷ []) (split_after bytes))
]

pub drop-prefix : (xs ys : List ℕ) → drop (length xs) (xs ++ ys) ≡ ys
drop-prefix [] ys = refl
drop-prefix (x ∷ xs) ys = drop-prefix xs ys

pub drop-within : (n : ℕ) (xs ys : List ℕ) → n ≤ length xs → drop n (xs ++ ys) ≡ drop n xs ++ ys
drop-within zero xs ys h = refl
drop-within (suc n) [] ys h = absurd (omega arith)
drop-within (suc n) (x ∷ xs) ys h = drop-within n xs ys (omega arith)

pub drop-drop : (m n : ℕ) (xs : List ℕ) → drop (m + n) xs ≡ drop n (drop m xs)
drop-drop zero n xs = let e : zero + n ≡ n = omega arith in rw e refl
drop-drop (suc m) n [] = let e : suc m + n ≡ suc (m + n) = omega arith in rw e (sym (drop-nil n))
drop-drop (suc m) n (x ∷ xs) =
    let e : suc m + n ≡ suc (m + n) = omega arith in rw e (drop-drop m n xs)

module _ {S : Type 0} (step : S → List ℕ → Option S) where
  -- The automaton that the loop amounts to: it takes one byte at a time, and its state has the
  -- bytes of the line that is not complete yet.
  unfoldable pub scan : ℕ → S → List ℕ → List ℕ → Option (ℕ × S × List ℕ)
  unfolding on_line trim_byte
  scan consumed s pending [] = some (consumed, s, pending)
  scan consumed s pending (b ∷ bytes) = elim (b == 10) [
    | false ↦ scan consumed s (pending ++ b ∷ []) bytes
    | true ↦ elim (on_line step s (line_of (pending ++ b ∷ []))) [
      | none ↦ none
      | some s' ↦ scan (consumed + length (pending ++ b ∷ [])) s' [] bytes
    ]
  ]

  abbrev pub forget_pending : Option (ℕ × S × List ℕ) → Option (ℕ × S)
  forget_pending none = none
  forget_pending (some (n, s, pending)) = some (n, s)

  abbrev pub scan_on : List ℕ → Option (ℕ × S × List ℕ) → Option (ℕ × S × List ℕ)
  scan_on more none = none
  scan_on more (some (n, s, pending)) = scan n s pending more

  -- The loop stops at a part without a newline.
  each_line-pending :
      (k : ℕ) (s : S) (pending : List ℕ)
      → has_newline pending ≡ false
      → each_line step k s (pending ∷ []) ≡ some (k, s)
  unfolding each_line
  each_line-pending k s [] h = refl
  each_line-pending k s (b ∷ bytes) h =
      rw (ends_in_newline-has_newline (b ∷ bytes) h, each_line) refl

  -- The loop on a part that is complete.
  each_line_complete :
      (k : ℕ) (s : S) (pending : List ℕ) (parts : List (List ℕ))
      → each_line step k s ((pending ++ 10 ∷ []) ∷ parts)
        ≡ elim (on_line step s (line_of (pending ++ 10 ∷ []))) [
          | none ↦ none
          | some s' ↦ each_line step (k + length (pending ++ 10 ∷ [])) s' parts
        ]
  unfolding each_line
  each_line_complete k s [] parts = refl
  each_line_complete k s (b ∷ bytes) parts = rw (ends_in_newline-snoc (b ∷ bytes), each_line) refl

  pub each_line-scan :
      (k : ℕ) (s : S) (pending bytes : List ℕ)
      → has_newline pending ≡ false
      → each_line step k s (onto_line pending (split_after bytes))
        ≡ forget_pending (scan k s pending bytes)
  unfolding scan split_after
  each_line-scan k s pending [] h = rw (append-nil pending) (each_line-pending k s pending h)
  each_line-scan k s pending (b ∷ bytes) h = elim (Bool-cases (b == 10)) [
    | inl e ↦
        let newline : b ≡ 10 = ground arith in
        let complete = each_line_complete k s pending (split_after bytes) in
        elim (Option-cases (on_line step s (line_of (pending ++ 10 ∷ [])))) [
          | inl ran ↦ rw newline (complete ∙ rw (ran, scan) refl)
          | inr (s', ran) ↦
              let n = k + length (pending ++ 10 ∷ []) in
              rw newline (
                complete
                ∙ rw (ran, scan)
                    (ap (each_line step n s') (sym (onto_line-split_after bytes))
                      ∙ each_line-scan n s' [] bytes refl))
        ]
    | inr e ↦
        rw (e, onto_line-onto_line pending (b ∷ []) (split_after bytes), scan)
          (each_line-scan k s (pending ++ b ∷ []) bytes (has_newline-snoc pending b h e))
  ]

  pub scan-append :
      (k : ℕ) (s : S) (pending xs ys : List ℕ)
      → scan k s pending (xs ++ ys) ≡ scan_on ys (scan k s pending xs)
  unfolding scan
  scan-append k s pending [] ys = refl
  scan-append k s pending (b ∷ xs) ys = elim (Bool-cases (b == 10)) [
    | inl e ↦ elim (Option-cases (on_line step s (line_of (pending ++ b ∷ [])))) [
      | inl ran ↦ rw (e, ran, scan) refl
      | inr ran ↦ rw (e, ran.1, scan) (scan-append (k + length (pending ++ b ∷ [])) ran.0 [] xs ys)
    ]
    | inr e ↦ rw (e, scan) (scan-append k s (pending ++ b ∷ []) xs ys)
  ]

  -- A count that starts later ends later.
  abbrev pub later : ℕ → Option (ℕ × S × List ℕ) → Option (ℕ × S × List ℕ)
  later m none = none
  later m (some (n, s, pending)) = some (m + n, s, pending)

  pub scan-later :
      (m k : ℕ) (s : S) (pending xs : List ℕ)
      → scan (m + k) s pending xs ≡ later m (scan k s pending xs)
  unfolding scan
  scan-later m k s pending [] = refl
  scan-later m k s pending (b ∷ xs) = elim (Bool-cases (b == 10)) [
    | inl e ↦ elim (Option-cases (on_line step s (line_of (pending ++ b ∷ [])))) [
      | inl ran ↦ rw (e, ran, scan) refl
      | inr ran ↦
          let l = length (pending ++ b ∷ []) in
          let shift : m + k + l ≡ m + (k + l) = omega arith in
          rw (e, ran.1, scan, shift) (scan-later m (k + l) ran.0 [] xs)
    ]
    | inr e ↦ rw (e, scan) (scan-later m k s (pending ++ b ∷ []) xs)
  ]

  -- The bytes of the incomplete line, read again.
  pub scan-again :
      (k : ℕ) (s : S) (pending rest ys : List ℕ)
      → has_newline rest ≡ false
      → scan k s pending (rest ++ ys) ≡ scan k s (pending ++ rest) ys
  unfolding scan
  scan-again k s pending [] ys h = rw (append-nil pending) refl
  scan-again k s pending (b ∷ rest) ys h = elim (Bool-cases (b == 10)) [
    | inl e ↦ absurd (ground arith)
    | inr e ↦
        let h' : has_newline rest ≡ false = ground arith in
        rw (e, scan)
          (scan-again k s (pending ++ b ∷ []) rest ys h'
            ∙ ap (λ line. scan k s line ys) (append_assoc pending (b ∷ []) rest))
  ]

  -- What a scan leaves: the bytes are those it counted, then those of the incomplete line.
  pub record Split (k : ℕ) (pending xs : List ℕ) (n : ℕ) (rest : List ℕ) : Type 0 where
    pub done : List ℕ
    pub bytes : pending ++ xs ≡ done ++ rest
    pub count : n ≡ k + length done
    pub unclosed : has_newline rest ≡ false

  pub scan-Split :
      (k : ℕ) (s : S) (pending xs : List ℕ) {n : ℕ} {s' : S} {rest : List ℕ}
      → has_newline pending ≡ false
      → scan k s pending xs ≡ some (n, s', rest)
      → Split k pending xs n rest
  unfolding scan
  scan-Split k s pending [] {n} {s'} {rest} h e =
      let same : pending ≡ rest = cc in
      record {
        done = [];
        bytes = append-nil pending ∙ same;
        count = ground arith;
        unclosed = ground arith;
      }
  scan-Split k s pending (b ∷ xs) {n} {s'} {rest} h e = elim (Bool-cases (b == 10)) [
    | inl c ↦ elim (Option-cases (on_line step s (line_of (pending ++ b ∷ [])))) [
      | inl ran ↦
          let stops : scan k s pending (b ∷ xs) ≡ none = rw (c, ran, scan) refl in
          absurd (ground (arith, stops))
      | inr ran ↦
          let n' = k + length (pending ++ b ∷ []) in
          let goes : scan k s pending (b ∷ xs) ≡ scan n' ran.0 [] xs = rw (c, ran.1, scan) refl in
          let found = scan-Split n' ran.0 [] xs refl (sym goes ∙ e) in
          record {
            done = (pending ++ b ∷ []) ++ found.done;
            bytes =
                sym (append_assoc pending (b ∷ []) xs)
                ∙ ap (λ line. (pending ++ b ∷ []) ++ line) found.bytes
                ∙ sym (append_assoc (pending ++ b ∷ []) found.done rest);
            count = omega (arith, found.count, length-append (pending ++ b ∷ []) found.done);
            unclosed = found.unclosed;
          }
    ]
    | inr c ↦
        let goes : scan k s pending (b ∷ xs) ≡ scan k s (pending ++ b ∷ []) xs =
          rw (c, scan) refl in
        let found =
          scan-Split k s (pending ++ b ∷ []) xs (has_newline-snoc pending b h c) (sym goes ∙ e) in
        record {
          done = found.done;
          bytes = sym (append_assoc pending (b ∷ []) xs) ∙ found.bytes;
          count = found.count;
          unclosed = found.unclosed;
        }
  ]
