-- ===== src/Watcher/Lines/Resume.antt =====
-- watcher/watcher.go: a file that is read as it grows, against one that is read at once.
use mathlib.Core.List.{append_assoc}
use peek_mcp.Prelude.{
  ℕ, ◌+◌, ◌≤◌, ◌≡◌, refl, sym, ap, ◌∙◌, List, [], ◌++◌, Option, none, some, length, drop,
  Option-cases, inl, inr, arith, length-append, length-drop,
}
use peek_mcp.Watcher.Lines.{each_line, read_from}
use peek_mcp.Watcher.Lines.Scan.{
  scan, Split, forget_pending, scan_on, later, each_line-scan, scan-append, scan-later, scan-again,
  scan-Split, drop-prefix, drop-within, drop-drop, onto_line-split_after,
}

-- A read of what stands behind the bytes that were consumed.
abbrev pub count_from : {S : Type 0} → ℕ → Option (ℕ × S) → Option (ℕ × S)
count_from n none = none
count_from n (some (m, s)) = some (n + m, s)

module _ {S : Type 0} (step : S → List ℕ → Option S) where
  read_from-scan :
      (offset : ℕ) (s : S) (content : List ℕ)
      → read_from step offset s content
        ≡ forget_pending step (scan step 0 s [] (drop offset content))
  unfolding read_from
  read_from-scan offset s content =
      ap (each_line step 0 s) (sym (onto_line-split_after (drop offset content)))
      ∙ each_line-scan step 0 s [] (drop offset content) refl

  count_from-forget :
      (n : ℕ) (o : Option (ℕ × S × List ℕ))
      → forget_pending step (later step n o) ≡ count_from n (forget_pending step o)
  count_from-forget n none = refl
  count_from-forget n (some x) = refl

  -- The scan behind a read, with the incomplete line that it leaves.
  scan_of_read :
      (offset : ℕ) (s : S) (content : List ℕ) (n : ℕ) (s' : S)
      → read_from step offset s content ≡ some (n, s')
      → (rest : List ℕ) × (scan step 0 s [] (drop offset content) ≡ some (n, s', rest))
        × Split step 0 [] (drop offset content) n rest
  scan_of_read offset s content n s' e =
      let scanned = scan step 0 s [] (drop offset content) in
      let f : forget_pending step scanned ≡ some (n, s') =
        sym (read_from-scan offset s content) ∙ e in
      elim (Option-cases scanned) [
        | inl g ↦ absurd (ground (arith, f, g))
        | inr ((n', s'', rest), g) ↦
            let same : ◌≡◌ {A = Option (ℕ × S)} (some (n', s'')) (some (n, s')) =
              sym (ap (forget_pending step) g) ∙ f in
            let k : n' ≡ n = cc in
            let l : s'' ≡ s' = cc in
            let h : scanned ≡ some (n, s', rest) = g ∙ rw (k, l) refl in
            (rest, h, scan-Split step 0 s [] (drop offset content) refl h)
      ]

  -- A file that has grown is read to the same state in two reads, the second from where the first
  -- stopped, as in one.
  pub read_from-resumes :
      (offset : ℕ) (s : S) (content more : List ℕ) (n : ℕ) (s' : S)
      → offset ≤ length content
      → read_from step offset s content ≡ some (n, s')
      → read_from step offset s (content ++ more)
        ≡ count_from n (read_from step (offset + n) s' (content ++ more))
  read_from-resumes offset s content more n s' within e =
      let (rest, scanned, split) = scan_of_read offset s content n s' e in
      let xs = drop offset content in
      let there : drop offset (content ++ more) ≡ xs ++ more =
        drop-within offset content more within in
      let count : n ≡ length split.done = omega (arith, split.count) in
      let left : drop n (xs ++ more) ≡ rest ++ more =
        rw (split.bytes, append_assoc split.done rest more, count)
          (drop-prefix split.done (rest ++ more)) in
      let behind : drop (offset + n) (content ++ more) ≡ rest ++ more =
        drop-drop offset n (content ++ more) ∙ ap (drop n) there ∙ left in
      let again = scan-again step 0 s' [] rest more split.unclosed in
      let shift : n ≡ n + 0 = omega arith in
      let first : read_from step offset s (content ++ more)
          ≡ forget_pending step (scan step n s' rest more) =
        read_from-scan offset s (content ++ more)
        ∙ ap (forget_pending step) (
            ap (scan step 0 s []) there
            ∙ scan-append step 0 s [] xs more
            ∙ ap (scan_on step more) scanned) in
      let second : read_from step (offset + n) s' (content ++ more)
          ≡ forget_pending step (scan step 0 s' rest more) =
        read_from-scan (offset + n) s' (content ++ more)
        ∙ ap (forget_pending step) (ap (scan step 0 s' []) behind ∙ again) in
      let counted : scan step n s' rest more ≡ later step n (scan step 0 s' rest more) =
        ap (λ m. scan step m s' rest more) shift ∙ scan-later step n 0 s' rest more in
      first
      ∙ ap (forget_pending step) counted
      ∙ count_from-forget n (scan step 0 s' rest more)
      ∙ ap (count_from n) (sym second)

  -- A read consumes no more than there is.
  pub read_from-within :
      (offset : ℕ) (s : S) (content : List ℕ) (n : ℕ) (s' : S)
      → offset ≤ length content
      → read_from step offset s content ≡ some (n, s')
      → offset + n ≤ length content
  read_from-within offset s content n s' within e =
      let (rest, scanned, split) = scan_of_read offset s content n s' e in
      omega (
        arith,
        split.count,
        ap length split.bytes,
        length-append split.done rest,
        length-drop offset content,
      )
