-- ===== src/Base/Int.antt =====
-- Go's `int` and `int64`: integers over the native numbers, with the 64-bit wrap-around.
use Prim.Native.Nat.{ℕ, zero, suc, ◌+◌, ◌-◌, ◌*◌, ◌%◌, ◌≤◌, ◌<◌}
use mathlib.Core.Bool.{Bool}
use native.Mathlib.Omega.{arith}
use sms_mno_gateway.Base.Tests.{ltb, leb, ◌==◌, if◌then◌else◌}

-- `negsuc n` is -(n + 1).
pub data ℤ : Type 0 where
  pos : ℕ → ℤ
  negsuc : ℕ → ℤ

abbrev pub pos_part : ℤ → ℕ
pos_part (pos n) = n
pos_part (negsuc n) = 0

abbrev pub neg_part : ℤ → ℕ
neg_part (pos n) = 0
neg_part (negsuc n) = suc n

abbrev pub ltb_ℤ : ℤ → ℤ → Bool
ltb_ℤ a b = ltb (pos_part a + neg_part b) (pos_part b + neg_part a)

abbrev pub leb_ℤ : ℤ → ℤ → Bool
leb_ℤ a b = leb (pos_part a + neg_part b) (pos_part b + neg_part a)

infix 50 ◌<ℤ◌ ◌≤ℤ◌
abbrev pub ◌<ℤ◌ : ℤ → ℤ → Type 0
a <ℤ b = pos_part a + neg_part b < pos_part b + neg_part a

abbrev pub ◌≤ℤ◌ : ℤ → ℤ → Type 0
a ≤ℤ b = pos_part a + neg_part b ≤ pos_part b + neg_part a

abbrev pub int_max : ℕ
int_max = 9223372036854775807

-- The residue of a natural number modulo 2^64, read as a signed 64-bit integer.
unfoldable pub signed : ℕ → ℤ
signed r = if leb r int_max then pos r else negsuc (18446744073709551615 - r)

-- The value that a 64-bit register keeps of an integer.
unfoldable pub wrap : ℤ → ℤ
unfolding signed
wrap (pos n) = signed (n % 18446744073709551616)
wrap (negsuc n) = signed (18446744073709551615 - n % 18446744073709551616)

-- `x++`.
unfoldable pub int_suc : ℤ → ℤ
int_suc (pos n) = if n == int_max then negsuc int_max else pos (suc n)
int_suc (negsuc zero) = pos 0
int_suc (negsuc (suc n)) = negsuc n

-- `x * y`.
unfoldable pub int_mul : ℤ → ℤ → ℤ
unfolding wrap
int_mul (pos a) (pos b) = wrap (pos (a * b))
int_mul (pos zero) (negsuc b) = pos 0
int_mul (pos (suc a)) (negsuc b) = wrap (negsuc (suc a * suc b - 1))
int_mul (negsuc a) (pos zero) = pos 0
int_mul (negsuc a) (pos (suc b)) = wrap (negsuc (suc a * suc b - 1))
int_mul (negsuc a) (negsuc b) = wrap (pos (suc a * suc b))

-- Away from the largest `int`, `x++` adds one.
pub int_suc_lt : (a : ℤ) → a <ℤ pos int_max → (a <ℤ int_suc a) × (int_suc a ≤ℤ pos int_max)
unfolding int_suc
int_suc_lt (pos n) h = ground arith
int_suc_lt (negsuc zero) h = omega arith
int_suc_lt (negsuc (suc n)) h = omega arith
