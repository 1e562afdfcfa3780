-- ===== src/Prelude/Text.antt =====
-- The functions of Go's `strings` and `unicode` that the program calls, over texts as sequences of
-- characters.
use Prim.Native.Nat.{ℕ, zero, suc}
use Prim.Native.Char.{Char, code}
use Prim.Native.String.{String}
use mathlib.Core.Bool.{Bool, true, false, ◌&&◌, ◌||◌}
use mathlib.Core.Option.{Option, none, some}
use text.Mathlib.Text.{◌==◌ as str_eq}
use peek_mcp.Prelude.Tests.{leb, ◌==◌, if◌then◌else◌}

-- unicode.IsSpace
unfoldable pub is_space : ℕ → Bool
is_space c =
    (leb 9 c && leb c 13)
    || c == 32
    || c == 0x85
    || c == 0xA0
    || c == 0x1680
    || (leb 0x2000 c && leb c 0x200A)
    || c == 0x2028
    || c == 0x2029
    || c == 0x202F
    || c == 0x205F
    || c == 0x3000

trim_left : String → String
trim_left String.[] = String.[]
trim_left (String.◌∷◌ c s) =
    let rest = trim_left s in if is_space (code c) then rest else String.◌∷◌ c s

drop_blank : Char → String → String
drop_blank c String.[] = if is_space (code c) then String.[] else String.◌∷◌ c String.[]
drop_blank c s = String.◌∷◌ c s

trim_right : String → String
trim_right String.[] = String.[]
trim_right (String.◌∷◌ c s) = drop_blank c (trim_right s)

-- strings.TrimSpace
unfoldable pub trim_space : String → String
unfolding trim_left trim_right drop_blank is_space
trim_space s = trim_right (trim_left s)

-- strings.HasPrefix s p
unfoldable pub has_prefix : String → String → Bool
has_prefix s String.[] = true
has_prefix String.[] (String.◌∷◌ d p) = false
has_prefix (String.◌∷◌ c s) (String.◌∷◌ d p) = code c == code d && has_prefix s p

-- strings.Contains s sub
unfoldable pub contains : String → String → Bool
unfolding has_prefix
contains String.[] sub = has_prefix String.[] sub
contains (String.◌∷◌ c s) sub = has_prefix (String.◌∷◌ c s) sub || contains s sub

-- strings.SplitN(s, "\n", 2)[0]
unfoldable pub first_line : String → String
first_line String.[] = String.[]
first_line (String.◌∷◌ c s) =
    let rest = first_line s in if code c == 10 then String.[] else String.◌∷◌ c rest

-- len([]rune(s)) and string([]rune(s)[:n])
unfoldable pub rune_count : String → ℕ
rune_count String.[] = 0
rune_count (String.◌∷◌ c s) = suc (rune_count s)

unfoldable pub take_runes : ℕ → String → String
take_runes zero s = String.[]
take_runes (suc n) String.[] = String.[]
take_runes (suc n) (String.◌∷◌ c s) = String.◌∷◌ c (take_runes n s)

-- strings.ToLower, over the table of unicode.ToLower
unfoldable pub to_lower : (Char → Char) → String → String
to_lower lower String.[] = String.[]
to_lower lower (String.◌∷◌ c s) = String.◌∷◌ (lower c) (to_lower lower s)

-- The rest of a text after a prefix that it has.
unfoldable pub drop_prefix : String → String → String
drop_prefix s String.[] = s
drop_prefix String.[] (String.◌∷◌ d p) = String.[]
drop_prefix (String.◌∷◌ c s) (String.◌∷◌ d p) = drop_prefix s p

-- strings.TrimPrefix s p
unfoldable pub trim_prefix : String → String → String
unfolding has_prefix drop_prefix
trim_prefix s p = if has_prefix s p then drop_prefix s p else s

after_char : Char → Option (String × String) → Option (String × String)
after_char c none = none
after_char c (some (before, rest)) = some (String.◌∷◌ c before, rest)

-- strings.Cut s sep: what stands before and after the first `sep`; `none` if there is none.
unfoldable pub cut : String → String → Option (String × String)
unfolding has_prefix drop_prefix after_char
cut String.[] sep = if has_prefix String.[] sep then some (String.[], String.[]) else none
cut (String.◌∷◌ c s) sep =
    let rest = cut s sep in
    if has_prefix (String.◌∷◌ c s) sep
    then some (String.[], drop_prefix (String.◌∷◌ c s) sep)
    else after_char c rest

-- strings.HasSuffix s p
unfoldable pub has_suffix : String → String → Bool
has_suffix String.[] p = str_eq String.[] p
has_suffix (String.◌∷◌ c s) p = str_eq (String.◌∷◌ c s) p || has_suffix s p

-- strings.TrimSuffix s p
unfoldable pub trim_suffix : String → String → String
trim_suffix String.[] p = String.[]
trim_suffix (String.◌∷◌ c s) p =
    let rest = trim_suffix s p in if str_eq (String.◌∷◌ c s) p then String.[] else String.◌∷◌ c rest
