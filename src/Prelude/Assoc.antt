-- ===== src/Prelude/Assoc.antt =====
-- Go's maps with string keys, as association lists. `insert` is `m[k] = v`, `erase` is `delete(m, k)`,
-- the length is `len(m)`, and the order of the list stands for the order of an iteration.
use Prim.Native.Nat.{suc, ◌≤◌}
use Prim.Native.String.{String}
use mathlib.Core.Path.{◌≡◌, refl, ap}
use mathlib.Core.Logic.{inl, inr}
use text.Mathlib.TextPositions.{eq_refl}
use mathlib.Core.Option.{Option, none, some}
use mathlib.Core.List.{List, [], ◌∷◌}
use native.Mathlib.Omega.{arith}
use text.Mathlib.Text.{◌==◌ as str_eq}
use text.Mathlib.TextEquality.{eq_iff}
use peek_mcp.Prelude.Tests.{Bool-cases, if◌then◌else◌}
use peek_mcp.Prelude.Lists.{length}

abbrev pub Assoc {ℓ} : Type ℓ → Type ℓ
Assoc V = List (String × V)

module _ {ℓ} {V : Type ℓ} where
  unfoldable pub lookup : String → Assoc V → Option V
  lookup key [] = none
  lookup key ((j, v) ∷ entries) = if str_eq j key then some v else lookup key entries

  unfoldable pub insert : String → V → Assoc V → Assoc V
  insert key v [] = (key, v) ∷ []
  insert key v ((j, w) ∷ entries) =
      if str_eq j key then (key, v) ∷ entries else (j, w) ∷ insert key v entries

  unfoldable pub erase : String → Assoc V → Assoc V
  erase key [] = []
  erase key ((j, v) ∷ entries) =
      let rest = erase key entries in if str_eq j key then rest else (j, v) ∷ rest

  pub lookup-insert :
      (key j : String) (v : V) (entries : Assoc V)
      → lookup j (insert key v entries) ≡ (if str_eq key j then some v else lookup j entries)
  unfolding lookup insert
  lookup-insert key j v [] = refl
  lookup-insert key j v ((i, w) ∷ entries) =
      ground (lookup-insert key j v entries, arith, eq_iff i j, eq_iff key j, eq_iff i key)

  pub lookup-erase :
      (key j : String) (entries : Assoc V)
      → lookup j (erase key entries) ≡ (if str_eq key j then none else lookup j entries)
  unfolding lookup erase
  lookup-erase key j [] = ground arith
  lookup-erase key j ((i, w) ∷ entries) =
      ground (lookup-erase key j entries, arith, eq_iff i j, eq_iff key j, eq_iff i key)

  -- A write to a key that is there keeps the size, and a new key adds one.
  pub length-insert_old :
      (key : String) (v w : V) (entries : Assoc V)
      → lookup key entries ≡ some w
      → length (insert key v entries) ≡ length entries
  unfolding lookup insert
  length-insert_old key v w [] h = absurd (ground arith)
  length-insert_old key v w ((i, x) ∷ entries) h = ground (arith, length-insert_old key v w entries)

  pub length-insert_new :
      (key : String) (v : V) (entries : Assoc V)
      → lookup key entries ≡ none
      → length (insert key v entries) ≡ suc (length entries)
  unfolding lookup insert
  length-insert_new key v [] h = refl
  length-insert_new key v ((i, x) ∷ entries) h = ground (arith, length-insert_new key v entries)

  -- The last write to a key counts.
  pub insert-insert :
      (key : String) (v w : V) (entries : Assoc V)
      → insert key w (insert key v entries) ≡ insert key w entries
  unfolding insert
  insert-insert key v w [] = rw (eq_refl key) refl
  insert-insert key v w ((j, x) ∷ entries) = elim (Bool-cases (str_eq j key)) [
    | inl e ↦ rw (e, eq_refl key) refl
    | inr e ↦ rw (e, e) (ap (λ rest. (j, x) ∷ rest) (insert-insert key v w entries))
  ]

  pub length-insert-le :
      (key : String) (v : V) (entries : Assoc V)
      → length (insert key v entries) ≤ suc (length entries)
  unfolding insert
  length-insert-le key v [] = omega arith
  length-insert-le key v ((j, x) ∷ entries) = ground (arith, length-insert-le key v entries)

  pub length-erase-le :
      (key : String) (entries : Assoc V) → length (erase key entries) ≤ length entries
  unfolding erase
  length-erase-le key [] = omega arith
  length-erase-le key ((j, x) ∷ entries) = ground (arith, length-erase-le key entries)
