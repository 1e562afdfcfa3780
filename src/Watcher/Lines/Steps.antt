-- ===== src/Watcher/Lines/Steps.antt =====
-- watcher/watcher.go: what each step of the loop over the lines keeps, the loop keeps.
use peek_mcp.Prelude.{
  ℕ, ◌+◌, ◌≡◌, refl, List, [], ◌∷◌, Option, some, length, drop, Bool-cases, inl, inr,
}
use peek_mcp.Watcher.Lines.{split_after, ends_in_newline, line_of, on_line, each_line, read_from}

module _ {S : Type 0} (step : S → List ℕ → Option S) (Fine : S → Type 0)
    (keeps : (s : S) (line : List ℕ) → Fine s → (s' : S) × (step s line ≡ some s') × Fine s') where
  on_line-keeps :
      (s : S) (line : List ℕ) → Fine s → (s' : S) × (on_line step s line ≡ some s') × Fine s'
  unfolding on_line
  on_line-keeps s [] h = (s, refl, h)
  on_line-keeps s (b ∷ line) h = keeps s (b ∷ line) h

  each_line-keeps :
      (k : ℕ) (s : S) (parts : List (List ℕ))
      → Fine s
      → (n : ℕ) × (s' : S) × (each_line step k s parts ≡ some (n, s')) × Fine s'
  unfolding each_line
  each_line-keeps k s [] h = (k, s, refl, h)
  each_line-keeps k s ([] ∷ parts) h = each_line-keeps k s parts h
  each_line-keeps k s ((b ∷ bytes) ∷ parts) h = elim (Bool-cases (ends_in_newline (b ∷ bytes))) [
    | inl e ↦
        let (s', ran, h') = on_line-keeps s (line_of (b ∷ bytes)) h in
        let (n, s'', rest, h'') = each_line-keeps (k + length (b ∷ bytes)) s' parts h' in
        (n, s'', rw (e, ran, each_line) rest, h'')
    | inr e ↦ (k, s, rw (e, each_line) refl, h)
  ]

  pub read_from-keeps :
      (offset : ℕ) (s : S) (content : List ℕ)
      → Fine s
      → (n : ℕ) × (s' : S) × (read_from step offset s content ≡ some (n, s')) × Fine s'
  unfolding read_from
  read_from-keeps offset s content h = each_line-keeps 0 s (split_after (drop offset content)) h
