-- ===== src/Prelude/Lists.antt =====
-- Lists measured and indexed by native numbers, under the library's names.
use Prim.Native.Nat.{ℕ, zero, suc, ◌+◌, ◌-◌, ◌≤◌, ◌<◌}
use mathlib.Core.Path.{◌≡◌, refl, ap, sym, ◌∙◌}
use mathlib.Core.Bool.{Bool, true, false, not}
use mathlib.Core.Logic.{inl, inr}
use mathlib.Core.List.{List, [], ◌∷◌, ◌++◌, append-nil}
use mathlib.Core.Option
use mathlib.Core.Option.{Option, none, some}
use native.Mathlib.Omega.{arith}
use peek_mcp.Prelude.Tests.{ltb, ◌==◌, Bool-cases, if◌then◌else◌}

module _ {ℓ} {A : Type ℓ} where
  abbrev pub length : List A → ℕ
  length [] = 0
  length (x ∷ xs) = suc (length xs)

  abbrev pub get_elem? : List A → ℕ → Option A
  get_elem? [] i = none
  get_elem? (x ∷ xs) zero = some x
  get_elem? (x ∷ xs) (suc i) = get_elem? xs i

  -- A write through a function at one place; out of bounds it changes nothing.
  abbrev pub modify : (A → A) → List A → ℕ → List A
  modify f [] i = []
  modify f (x ∷ xs) zero = f x ∷ xs
  modify f (x ∷ xs) (suc i) = x ∷ modify f xs i

  abbrev pub take : ℕ → List A → List A
  take zero xs = []
  take (suc n) [] = []
  take (suc n) (x ∷ xs) = x ∷ take n xs

  abbrev pub drop : ℕ → List A → List A
  drop zero xs = xs
  drop (suc n) [] = []
  drop (suc n) (x ∷ xs) = drop n xs

  abbrev pub last : List A → Option A
  last [] = none
  last (x ∷ []) = some x
  last (x ∷ y ∷ xs) = last (y ∷ xs)

  -- The elements that pass a test, in order.
  abbrev pub keep : (A → Bool) → List A → List A
  keep p [] = []
  keep p (x ∷ xs) = let rest = keep p xs in if p x then x ∷ rest else rest

module _ {ℓ} {A : Type ℓ} where
  pub length-append : (xs ys : List A) → length (xs ++ ys) ≡ length xs + length ys
  length-append [] ys = omega arith
  length-append (x ∷ xs) ys = omega (arith, length-append xs ys)

  pub length-snoc : (xs : List A) (y : A) → length (xs ++ y ∷ []) ≡ length xs + 1
  length-snoc xs y = length-append xs (y ∷ [])

  pub length-modify : (f : A → A) (xs : List A) (i : ℕ) → length (modify f xs i) ≡ length xs
  length-modify f [] i = refl
  length-modify f (x ∷ xs) zero = refl
  length-modify f (x ∷ xs) (suc i) = ap suc (length-modify f xs i)

  pub length-drop : (n : ℕ) (xs : List A) → length (drop n xs) ≡ length xs - n
  length-drop zero xs = omega arith
  length-drop (suc n) [] = omega arith
  length-drop (suc n) (x ∷ xs) = omega (arith, length-drop n xs)

  pub length-take-le : (n : ℕ) (xs : List A) → length (take n xs) ≤ n
  length-take-le zero xs = omega arith
  length-take-le (suc n) [] = omega arith
  length-take-le (suc n) (x ∷ xs) = omega (arith, length-take-le n xs)

  pub take-nil : (n : ℕ) → ◌≡◌ {A = List A} (take n []) []
  take-nil zero = refl
  take-nil (suc n) = refl

  pub drop-nil : (n : ℕ) → ◌≡◌ {A = List A} (drop n []) []
  drop-nil zero = refl
  drop-nil (suc n) = refl

  pub take_all : (n : ℕ) (xs : List A) → length xs ≤ n → take n xs ≡ xs
  take_all zero [] h = refl
  take_all zero (x ∷ xs) h = absurd (omega arith)
  take_all (suc n) [] h = refl
  take_all (suc n) (x ∷ xs) h = ap (◌∷◌ x) (take_all n xs (omega arith))

  -- Taking from a list that is long enough does not read what is appended.
  pub take-snoc_full :
      (n : ℕ) (xs : List A) (y : A) → n ≤ length xs → take n (xs ++ y ∷ []) ≡ take n xs
  take-snoc_full zero xs y h = refl
  take-snoc_full (suc n) [] y h = absurd (omega arith)
  take-snoc_full (suc n) (x ∷ xs) y h = ap (◌∷◌ x) (take-snoc_full n xs y (omega arith))

  pub take-snoc_room :
      (n : ℕ) (xs : List A) (y : A) → length xs < n → take n (xs ++ y ∷ []) ≡ take n xs ++ y ∷ []
  take-snoc_room zero xs y h = absurd (omega arith)
  take-snoc_room (suc zero) [] y h = refl
  take-snoc_room (suc (suc n)) [] y h = refl
  take-snoc_room (suc n) (x ∷ xs) y h = ap (◌∷◌ x) (take-snoc_room n xs y (omega arith))

  pub length-take-lt : (n : ℕ) (xs : List A) → length (take n xs) < n → length xs < n
  length-take-lt zero xs h = absurd (omega arith)
  length-take-lt (suc n) [] h = omega arith
  length-take-lt (suc n) (x ∷ xs) h = omega (arith, length-take-lt n xs)

  pub length-le_of_take : (n : ℕ) (xs : List A) → n ≤ length (take n xs) → n ≤ length xs
  length-le_of_take zero xs h = omega arith
  length-le_of_take (suc n) [] h = absurd (omega arith)
  length-le_of_take (suc n) (x ∷ xs) h = omega (arith, length-le_of_take n xs)

  -- A bounded prefix grows by one element exactly while it has room.
  pub take-snoc :
      (n : ℕ) (xs : List A) (y : A)
      → take n (xs ++ y ∷ [])
        ≡ (if ltb (length (take n xs)) n then take n xs ++ y ∷ [] else take n xs)
  take-snoc n xs y = elim (Bool-cases (ltb (length (take n xs)) n)) [
    | inl e ↦ rw e (take-snoc_room n xs y (length-take-lt n xs (ground arith)))
    | inr e ↦ rw e (take-snoc_full n xs y (length-le_of_take n xs (ground arith)))
  ]

  pub bounded_prefix-snoc :
      (n : ℕ) (kept xs : List A) (y : A)
      → kept ≡ take n xs
      → take n (xs ++ y ∷ []) ≡ (if ltb (length kept) n then kept ++ y ∷ [] else kept)
  bounded_prefix-snoc n kept xs y h = rw h (take-snoc n xs y)

  pub drop-snoc :
      (n : ℕ) (xs : List A) (y : A) → n ≤ length xs → drop n (xs ++ y ∷ []) ≡ drop n xs ++ y ∷ []
  drop-snoc zero xs y h = refl
  drop-snoc (suc n) [] y h = absurd (omega arith)
  drop-snoc (suc n) (x ∷ xs) y h = drop-snoc n xs y (omega arith)

  pub drop-suc : (n : ℕ) (xs : List A) → drop (suc n) xs ≡ drop 1 (drop n xs)
  drop-suc zero xs = refl
  drop-suc (suc n) [] = refl
  drop-suc (suc n) (x ∷ xs) = drop-suc n xs

  -- The last `c` elements of a list, one element later.
  pub window-snoc :
      (c : ℕ) (xs : List A) (y : A)
      → let w = drop (length xs - c) xs in
        drop (length w + 1 - c) (w ++ y ∷ []) ≡ drop (length (xs ++ y ∷ []) - c) (xs ++ y ∷ [])
  window-snoc c xs y = elim (Bool-cases (ltb (length xs) c)) [
    | inl short ↦
        let e : length xs - c ≡ 0 = ground arith in
        let f : length (xs ++ y ∷ []) - c ≡ 0 = ground (arith, length-snoc xs y) in
        let g : length xs + 1 - c ≡ 0 = ground arith in rw (e, f, g) refl
    | inr long ↦
        let w = drop (length xs - c) xs in
        let f : length (xs ++ y ∷ []) - c ≡ suc (length xs - c) =
          ground (arith, length-snoc xs y) in
        let g : length w + 1 - c ≡ 1 = ground (arith, length-drop (length xs - c) xs) in
        rw (f, g)
          (ap (drop 1) (sym (drop-snoc (length xs - c) xs y (omega arith)))
            ∙ sym (drop-suc (length xs - c) (xs ++ y ∷ [])))
  ]

  pub keep-snoc :
      (p : A → Bool) (xs : List A) (y : A)
      → keep p (xs ++ y ∷ []) ≡ keep p xs ++ (if p y then y ∷ [] else [])
  keep-snoc p [] y = ground arith
  keep-snoc p (x ∷ xs) y = ground (arith, keep-snoc p xs y)

  pub keep-snoc_hit :
      (p : A → Bool) (xs : List A) (y : A)
      → p y ≡ true
      → keep p (xs ++ y ∷ []) ≡ keep p xs ++ y ∷ []
  keep-snoc_hit p xs y h = ground (arith, keep-snoc p xs y)

  pub keep-snoc_miss :
      (p : A → Bool) (xs : List A) (y : A) → p y ≡ false → keep p (xs ++ y ∷ []) ≡ keep p xs
  keep-snoc_miss p xs y h = ground (arith, keep-snoc p xs y, append-nil (keep p xs))

  pub length-keep-le : (p : A → Bool) (xs : List A) → length (keep p xs) ≤ length xs
  length-keep-le p [] = omega arith
  length-keep-le p (x ∷ xs) = ground (arith, length-keep-le p xs)

  pub length-keep_split :
      (p : A → Bool) (xs : List A)
      → length (keep (λ x. not (p x)) xs) + length (keep p xs) ≡ length xs
  length-keep_split p [] = omega arith
  length-keep_split p (x ∷ xs) = ground (arith, length-keep_split p xs)

  -- A write at a place that is there is read there, and nowhere else.
  pub get_elem?-modify :
      (f : A → A) (xs : List A) (i j : ℕ)
      → get_elem? (modify f xs i) j
        ≡ (if i == j then Option.map f (get_elem? xs j) else get_elem? xs j)
  get_elem?-modify f [] i j = ground arith
  get_elem?-modify f (x ∷ xs) zero zero = refl
  get_elem?-modify f (x ∷ xs) zero (suc j) = ground arith
  get_elem?-modify f (x ∷ xs) (suc i) zero = ground arith
  get_elem?-modify f (x ∷ xs) (suc i) (suc j) = ground (arith, get_elem?-modify f xs i j)
