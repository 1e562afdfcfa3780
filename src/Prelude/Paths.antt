-- ===== src/Prelude/Paths.antt =====
-- The functions of Go's `path/filepath` that the program calls, on a system whose separator is the
-- slash and for paths that are clean, as a walk of a directory and its notices give them.
use Prim.Native.Nat.{suc, ◌≤◌, ◌<◌}
use Prim.Native.Char.{Char, code}
use Prim.Native.String.{String, ◌++◌ as append_text}
use mathlib.Core.Path.{◌≡◌, refl, sym, ap, ◌∙◌}
use mathlib.Core.Logic.{◌⊎◌, inl, inr}
use mathlib.Core.Bool.{Bool, true, false, ◌||◌}
use native.Mathlib.Omega.{arith}
use text.Mathlib.Text.{◌==◌ as str_eq}
use text.Mathlib.TextEquality.{eq_iff}
use peek_mcp.Prelude.Tests.{◌==◌, is_empty, Bool-cases, if◌then◌else◌}
use peek_mcp.Prelude.Text.{rune_count}

-- Whether a text has no characters.
abbrev pub is_nil : String → Bool
is_nil String.[] = true
is_nil (String.◌∷◌ c s) = false

abbrev pub is_slash : Char → Bool
is_slash c = code c == 47

unfoldable pub has_slash : String → Bool
has_slash String.[] = false
has_slash (String.◌∷◌ c s) = is_slash c || has_slash s

drop_slash : Char → String → String
drop_slash c String.[] = if is_slash c then String.[] else String.◌∷◌ c String.[]
drop_slash c s = String.◌∷◌ c s

-- The path without the slashes at its end.
unfoldable pub trim_slashes : String → String
unfolding drop_slash
trim_slashes String.[] = String.[]
trim_slashes (String.◌∷◌ c s) = drop_slash c (trim_slashes s)

-- What stands behind the last slash; all, if there is none.
unfoldable pub last_part : String → String
unfolding has_slash
last_part String.[] = String.[]
last_part (String.◌∷◌ c s) =
    let rest = last_part s in if has_slash s then rest else if is_slash c then s else String.◌∷◌ c s

-- filepath.Base(path)
unfoldable pub base : String → String
unfolding trim_slashes last_part
base path =
    if is_nil path
    then "."
    else if is_nil (trim_slashes path)
    then "/"
    else last_part (trim_slashes path)

-- `path[:i+1]` for the place `i` of the last slash.
unfoldable pub to_last_slash : String → String
unfolding has_slash
to_last_slash String.[] = String.[]
to_last_slash (String.◌∷◌ c s) =
    let rest = to_last_slash s in
    if has_slash s
    then String.◌∷◌ c rest
    else if is_slash c
    then String.◌∷◌ c String.[]
    else String.[]

-- filepath.Dir(path)
unfoldable pub dir : String → String
unfolding trim_slashes to_last_slash
dir path =
    if is_nil (to_last_slash path)
    then "."
    else if is_nil (trim_slashes (to_last_slash path))
    then "/"
    else trim_slashes (to_last_slash path)

-- filepath.Join(path, name) of a path that is not empty.
abbrev pub join : String → String → String
join path name =
    if str_eq path "/" then append_text "/" name else append_text path (append_text "/" name)

-- The steps of a path are finite: what `dir` gives is shorter, or the path itself, or ".".
rune_count-drop_slash-le :
    (c : Char) (s : String) → rune_count (drop_slash c s) ≤ suc (rune_count s)
unfolding drop_slash rune_count
rune_count-drop_slash-le c String.[] = elim (Bool-cases (is_slash c)) [
  | inl e ↦ rw e (omega arith)
  | inr e ↦ rw e (omega arith)
]
rune_count-drop_slash-le c (String.◌∷◌ d s) = omega arith

rune_count-trim_slashes-le : (s : String) → rune_count (trim_slashes s) ≤ rune_count s
unfolding trim_slashes rune_count
rune_count-trim_slashes-le String.[] = omega arith
rune_count-trim_slashes-le (String.◌∷◌ c s) =
    omega (arith, rune_count-drop_slash-le c (trim_slashes s), rune_count-trim_slashes-le s)

to_last_slash-filled : (s : String) → has_slash s ≡ true → is_nil (to_last_slash s) ≡ false
unfolding to_last_slash has_slash
to_last_slash-filled String.[] h = absurd (ground arith)
to_last_slash-filled (String.◌∷◌ c s) h = elim (Bool-cases (has_slash s)) [
  | inl e ↦ rw e refl
  | inr e ↦ let f : is_slash c ≡ true = ground arith in rw (e, f) refl
]

-- What ends in the last slash loses it.
rune_count-trimmed :
    (s : String)
    → is_nil (to_last_slash s) ≡ false
    → rune_count (trim_slashes (to_last_slash s)) < rune_count s
unfolding to_last_slash trim_slashes has_slash rune_count drop_slash
rune_count-trimmed String.[] h = absurd (ground arith)
rune_count-trimmed (String.◌∷◌ c s) h = elim (Bool-cases (has_slash s)) [
  | inl e ↦ rw e (
      omega (
        arith,
        rune_count-drop_slash-le c (trim_slashes (to_last_slash s)),
        rune_count-trimmed s (to_last_slash-filled s e),
      ))
  | inr e ↦ elim (Bool-cases (is_slash c)) [
    | inl f ↦
        let cut : to_last_slash (String.◌∷◌ c s) ≡ String.◌∷◌ c String.[] = rw (e, f) refl in
        let gone : trim_slashes (String.◌∷◌ c String.[]) ≡ String.[] = rw f refl in
        rw (cut, gone) (omega arith)
    | inr f ↦
        let none_left : to_last_slash (String.◌∷◌ c s) ≡ String.[] = rw (e, f) refl in
        absurd (ground (arith, sym (ap is_nil none_left) ∙ h))
  ]
]

-- What `dir` gives is shorter than the path, or the end of all steps.
pub dir-steps :
    (path : String) → (rune_count (dir path) < rune_count path) ⊎ (dir (dir path) ≡ dir path)
unfolding dir
dir-steps path = elim (Bool-cases (is_nil (to_last_slash path))) [
  | inl e ↦ inr (ap dir (dot e) ∙ sym (dot e))
  | inr e ↦ elim (Bool-cases (is_nil (trim_slashes (to_last_slash path)))) [
    | inl f ↦ inr (ap dir (root e f) ∙ sym (root e f))
    | inr f ↦ inl (rw (e, f) (rune_count-trimmed path e))
  ]
]
  where
    dot : is_nil (to_last_slash path) ≡ true → dir path ≡ "."
    dot e = rw e refl

    root :
        is_nil (to_last_slash path) ≡ false
        → is_nil (trim_slashes (to_last_slash path)) ≡ true
        → dir path ≡ "/"
    root e f = rw (e, f) refl

-- A base name is never empty: no slash ends what is left of the path.
ends_in_slash : String → Bool
ends_in_slash String.[] = false
ends_in_slash (String.◌∷◌ c s) = if is_nil s then is_slash c else ends_in_slash s

ends_in_slash-drop_slash :
    (c : Char) (s : String) → ends_in_slash s ≡ false → ends_in_slash (drop_slash c s) ≡ false
unfolding drop_slash ends_in_slash
ends_in_slash-drop_slash c String.[] h = elim (Bool-cases (is_slash c)) [
  | inl e ↦ rw e refl
  | inr e ↦ rw (e, e) refl
]
ends_in_slash-drop_slash c (String.◌∷◌ d s) h = h

ends_in_slash-trim_slashes : (s : String) → ends_in_slash (trim_slashes s) ≡ false
unfolding trim_slashes ends_in_slash
ends_in_slash-trim_slashes String.[] = refl
ends_in_slash-trim_slashes (String.◌∷◌ c s) =
    ends_in_slash-drop_slash c (trim_slashes s) (ends_in_slash-trim_slashes s)

last_part-filled :
    (s : String) → ends_in_slash s ≡ false → is_nil s ≡ false → is_nil (last_part s) ≡ false
unfolding last_part ends_in_slash has_slash
last_part-filled String.[] h k = absurd (ground arith)
last_part-filled (String.◌∷◌ c String.[]) h k = rw (h) refl
last_part-filled (String.◌∷◌ c (String.◌∷◌ d s)) h k =
    elim (Bool-cases (has_slash (String.◌∷◌ d s))) [
      | inl e ↦ rw e (last_part-filled (String.◌∷◌ d s) h refl)
      | inr e ↦ elim (Bool-cases (is_slash c)) [ inl f ↦ rw (e, f) refl | inr f ↦ rw (e, f) refl ]
    ]

filled-is_empty : (s : String) → is_nil s ≡ false → is_empty s ≡ false
filled-is_empty String.[] h = absurd (ground arith)
filled-is_empty (String.◌∷◌ c s) h = elim (Bool-cases (is_empty (String.◌∷◌ c s))) [
  | inl e ↦ absurd (ground (arith, ap is_nil ((eq_iff (String.◌∷◌ c s) "").0 e)))
  | inr e ↦ e
]

pub base-filled : (path : String) → is_empty (base path) ≡ false
unfolding base
base-filled path = filled-is_empty (base path) (elim (Bool-cases (is_nil path)) [
  | inl e ↦ rw e refl
  | inr e ↦ elim (Bool-cases (is_nil (trim_slashes path))) [
    | inl f ↦ rw (e, f) refl
    | inr f ↦ rw (e, f) (last_part-filled (trim_slashes path) (ends_in_slash-trim_slashes path) f)
  ]
])
