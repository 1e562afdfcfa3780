-- ===== src/Prelude/Words.antt =====
-- Go's `int` and `int64`: 64-bit two's complement, as the bit pattern read as a number below 2^64.
use Prim.Native.Nat.{ℕ, ◌+◌, ◌-◌, ◌%◌, ◌^◌, ◌≤◌, ◌<◌}
use mathlib.Core.Path.{◌≡◌}
use mathlib.Core.Bool.{Bool}
use native.Mathlib.Omega.{arith}
use peek_mcp.Prelude.Tests.{ltb, leb}

abbrev pub word_mod : ℕ
word_mod = 2 ^ 64

-- The least pattern that stands for a negative number.
abbrev pub sign_bit : ℕ
sign_bit = 2 ^ 63

abbrev pub IsWord : ℕ → Type 0
IsWord a = a < 18446744073709551616

unfoldable pub add64 : ℕ → ℕ → ℕ
add64 a b = (a + b) % word_mod

unfoldable pub sub64 : ℕ → ℕ → ℕ
sub64 a b = (a + word_mod - b % word_mod) % word_mod

-- `a < 0`
unfoldable pub is_negative : ℕ → Bool
is_negative a = leb sign_bit a

-- `a < b` of signed numbers: flip the sign bits and compare.
unfoldable pub lt64 : ℕ → ℕ → Bool
lt64 a b = ltb ((a + sign_bit) % word_mod) ((b + sign_bit) % word_mod)

pub add64-IsWord : (a b : ℕ) → IsWord (add64 a b)
unfolding add64
add64-IsWord a b = omega arith

pub sub64-IsWord : (a b : ℕ) → IsWord (sub64 a b)
unfolding sub64
sub64-IsWord a b = omega arith

pub add64_comm : (a b : ℕ) → add64 a b ≡ add64 b a
unfolding add64
add64_comm a b = omega arith

pub add64_assoc : (a b c : ℕ) → add64 (add64 a b) c ≡ add64 a (add64 b c)
unfolding add64
add64_assoc a b c = omega arith

pub sub64-add64 : (a b : ℕ) → IsWord a → sub64 (add64 a b) b ≡ a
unfolding add64 sub64
sub64-add64 a b h = omega arith

pub add64-sub64 : (a b : ℕ) → IsWord a → add64 (sub64 a b) b ≡ a
unfolding add64 sub64
add64-sub64 a b h = omega arith

-- Below 2^63 the signed order is the order of the numbers.
pub lt64-ltb : (a b : ℕ) → a < sign_bit → b < sign_bit → lt64 a b ≡ ltb a b
unfolding lt64
lt64-ltb a b h k = ground arith

pub sub64_exact : (a b : ℕ) → b ≤ a → IsWord a → sub64 a b ≡ a - b
unfolding sub64
sub64_exact a b h k = omega arith

pub add64_exact : (a b : ℕ) → IsWord (a + b) → add64 a b ≡ a + b
unfolding add64
add64_exact a b h = omega arith

pub add64-zero : (a : ℕ) → IsWord a → add64 a 0 ≡ a
unfolding add64
add64-zero a h = omega arith
