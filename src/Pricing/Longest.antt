-- ===== src/Pricing/Longest.antt =====
-- pricing/pricing.go: the row that `Lookup` finds does not depend on the order of the map.
use mathlib.Core.Path.{subst}
use mathlib.Core.Option.{some-injective}
use text.Mathlib.TextEquality.{Char-path}
use peek_mcp.Prelude.{
  ℕ, ◌≤◌, ◌≡◌, ◌⊎◌, refl, sym, ap, ◌∙◌, String, true, false, ◌&&◌, [], ◌∷◌, Option, none, some, ltb,
  arith, inl, inr, Bool-cases, Option-cases, if◌then◌else◌,
}
use peek_mcp.Prelude.Assoc.{Assoc}
use peek_mcp.Prelude.Text.{has_prefix, rune_count}
use peek_mcp.Pricing.{Rates, matches, is_longer, scan_rows, lookup_in}

-- Whether a row is in a table.
abbrev pub Row : String → Rates → Assoc Rates → Type 0
Row key found [] = ⊥
Row key found ((k, r) ∷ table) = ((k ≡ key) × (r ≡ found)) ⊎ Row key found table

-- The best row so far is no shorter than a key.
abbrev Covers : Option (String × Rates) → ℕ → Type 0
Covers none n = ⊥
Covers (some (best, found)) n = n ≤ rune_count best

scan_rows-keeps :
    (model : String) (best : Option (String × Rates)) (table : Assoc Rates) (n : ℕ)
    → Covers best n
    → Covers (scan_rows model best table) n
unfolding scan_rows
scan_rows-keeps model best [] n h = h
scan_rows-keeps model none ((prefix, found) ∷ table) n h = absurd h
scan_rows-keeps model (some (b, f)) ((prefix, found) ∷ table) n h =
    elim (Bool-cases (matches model prefix && ltb (rune_count b) (rune_count prefix))) [
      | inl e ↦ rw e (scan_rows-keeps model (some (prefix, found)) table n (ground arith))
      | inr e ↦ rw e (scan_rows-keeps model (some (b, f)) table n h)
    ]

scan_rows-longest :
    (model : String) (best : Option (String × Rates)) (table : Assoc Rates) (key : String)
    (found : Rates)
    → Row key found table
    → matches model key ≡ true
    → Covers (scan_rows model best table) (rune_count key)
unfolding scan_rows
scan_rows-longest model best [] key found row h = absurd row
scan_rows-longest model best ((k, r) ∷ table) key found (inl (same, same_rates)) h =
    let m : matches model k ≡ true = ap (matches model) same ∙ h in
    subst (λ q. Covers (scan_rows model best ((k, r) ∷ table)) (rune_count q)) same
      (elim (Bool-cases (is_longer k best)) [
        | inl e ↦ rw (m, e) (scan_rows-keeps model (some (k, r)) table (rune_count k) (omega arith))
        | inr e ↦ rw (m, e) (scan_rows-keeps model best table (rune_count k) (covered best e))
      ])
  where
    covered : (b : Option (String × Rates)) → is_longer k b ≡ false → Covers b (rune_count k)
    covered none e = absurd (ground arith)
    covered (some (b, f)) e = ground arith
scan_rows-longest model best ((k, r) ∷ table) key found (inr row) h =
    scan_rows-longest model (if matches model k && is_longer k best then some (k, r) else best)
      table key found row h

scan_rows-found :
    (model : String) (best : Option (String × Rates)) (table : Assoc Rates) (key : String)
    (found : Rates)
    → scan_rows model best table ≡ some (key, found)
    → (best ≡ some (key, found)) ⊎ (Row key found table × (matches model key ≡ true))
unfolding scan_rows
scan_rows-found model best [] key found h = inl h
scan_rows-found model best ((k, r) ∷ table) key found h =
    elim (scan_rows-found model (if matches model k && is_longer k best then some (k, r) else best)
      table key found h) [
        | inr (row, m) ↦ inr (inr row, m)
        | inl e ↦ elim (Bool-cases (matches model k && is_longer k best)) [
          | inl f ↦
              let taken : ◌≡◌ {A = Option (String × Rates)} (some (k, r)) (some (key, found)) =
                sym (ap (λ b. if b then some (k, r) else best) f) ∙ e in
              let same = some-injective {A = String × Rates} (k, r) (key, found) taken in
              let m : matches model k ≡ true = ground arith in
              inr (
                inl (ap (λ row. row.0) same, ap (λ row. row.1) same),
                subst (λ row. matches model row.0 ≡ true) same m,
              )
          | inr f ↦ inl (sym (ap (λ b. if b then some (k, r) else best) f) ∙ e)
        ]
      ]

prefix_unique :
    (model a b : String)
    → has_prefix model a ≡ true
    → has_prefix model b ≡ true
    → rune_count a ≡ rune_count b
    → a ≡ b
unfolding has_prefix rune_count
prefix_unique model String.[] String.[] h k e = refl
prefix_unique model String.[] (String.◌∷◌ d b) h k e = absurd (ground arith)
prefix_unique model (String.◌∷◌ c a) String.[] h k e = absurd (ground arith)
prefix_unique String.[] (String.◌∷◌ c a) (String.◌∷◌ d b) h k e = absurd (ground arith)
prefix_unique (String.◌∷◌ m model) (String.◌∷◌ c a) (String.◌∷◌ d b) h k e =
    let first : c ≡ d = Char-path c d (ground arith) in
    let rest : a ≡ b = prefix_unique model a b (ground arith) (ground arith) (omega (arith, e)) in
    ap (λ x. String.◌∷◌ x a) first ∙ ap (λ t. String.◌∷◌ d t) rest

matches-prefix : (model key : String) → matches model key ≡ true → has_prefix model key ≡ true
unfolding matches
matches-prefix model key h = ground arith

-- The tables have the same rows.
abbrev pub SameRows : Assoc Rates → Assoc Rates → Type 0
SameRows t t' =
    (key : String) (found : Rates)
    → (Row key found t → Row key found t') × (Row key found t' → Row key found t)

-- A key has one row, as in a map.
abbrev pub OneRow : Assoc Rates → Type 0
OneRow t = (key : String) (r r' : Rates) → Row key r t → Row key r' t → r ≡ r'

-- The row found in a table is one of its rows and matches the model, and no row that matches has a
-- longer key.
pub lookup_in-longest :
    (table : Assoc Rates) (model key : String) (found : Rates)
    → lookup_in table model ≡ some (key, found)
    → Row key found table
      × (matches model key ≡ true)
      × ((k : String) (r : Rates)
          → Row k r table
          → matches model k ≡ true
          → rune_count k ≤ rune_count key)
lookup_in-longest table model key found e = elim (scan_rows-found model none table key found e) [
  | inl none_yet ↦ absurd (ground arith)
  | inr (row, m) ↦ (
    row,
    m,
    λ k r at h.
        subst (λ o. Covers o (rune_count k)) e (scan_rows-longest model none table k r at h),
  )
]

-- Two tables with the same rows, in whatever order, in which a key has one row, give every model the
-- same row or none.
pub lookup_in-order :
    (table table' : Assoc Rates) (model : String)
    → SameRows table table'
    → OneRow table
    → lookup_in table model ≡ lookup_in table' model
lookup_in-order table table' model same one = elim (Option-cases (lookup_in table model)) [
  | inl e ↦ elim (Option-cases (lookup_in table' model)) [
    | inl f ↦ e ∙ sym f
    | inr ((key, found), f) ↦
        let (row, m, longest) = lookup_in-longest table' model key found f in
        absurd (
          subst (λ o. Covers o (rune_count key)) e
            (scan_rows-longest model none table key found ((same key found).1 row) m))
  ]
  | inr ((key, found), e) ↦ elim (Option-cases (lookup_in table' model)) [
    | inl f ↦
        let (row, m, longest) = lookup_in-longest table model key found e in
        absurd (
          subst (λ o. Covers o (rune_count key)) f
            (scan_rows-longest model none table' key found ((same key found).0 row) m))
    | inr ((key', found'), f) ↦
        let (row, m, longest) = lookup_in-longest table model key found e in
        let (row', m', longest') = lookup_in-longest table' model key' found' f in
        let back = (same key' found').1 row' in
        let size : rune_count key ≡ rune_count key' =
          omega
            (arith, longest key' found' back m', longest' key found ((same key found).0 row) m) in
        let keys : key ≡ key' =
          prefix_unique model key key' (matches-prefix model key m) (matches-prefix model key' m')
            size in
        let founds : found ≡ found' =
          one key found found' row (subst (λ k. Row k found' table) (sym keys) back) in
        e ∙ ap (λ k. some (k, found)) keys ∙ ap (λ r. some (key', r)) founds ∙ sym f
  ]
]
