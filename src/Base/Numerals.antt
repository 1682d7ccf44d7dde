-- ===== src/Base/Numerals.antt =====
-- strconv.Itoa and strconv.Atoi.
use Prim.Native.Nat.{ℕ, zero, suc, ◌+◌, ◌-◌, ◌*◌, ◌/◌, ◌%◌, ◌≤◌, ◌<◌}
use mathlib.Core.Path.{◌≡◌, refl}
use mathlib.Core.Bool.{◌||◌}
use mathlib.Core.Logic.{◌≢◌}
use mathlib.Core.List.{[], ◌∷◌}
use mathlib.Core.Option.{Option, none, some}
use native.Mathlib.Omega.{arith}
use sms_mno_gateway.Base.Tests.{ltb, leb, ◌==◌, if◌then◌else◌}
use sms_mno_gateway.Base.Lists.{All}
use sms_mno_gateway.Base.Text.{Str, decimal, decimal_digits}
use sms_mno_gateway.Base.Int.{ℤ, pos, negsuc, int_max, pos_part, neg_part}

-- strconv.Itoa, and the verb %d.
unfoldable pub itoa : ℤ → Str
itoa (pos n) = decimal n
itoa (negsuc n) = b'-' ∷ decimal (suc n)

-- The number that digits spell behind `n`.
read_digits : Str → ℕ → Option ℕ
read_digits [] n = some n
read_digits (c ∷ s) n =
    let rest = read_digits s (n * 10 + (c - b'0')) in
    if ltb c b'0' || ltb b'9' c then none else rest

read_unsigned : Str → Option ℕ
unfolding read_digits
read_unsigned [] = none
read_unsigned (c ∷ s) = read_digits (c ∷ s) 0

non_negative : Option ℕ → Option ℤ
non_negative none = none
non_negative (some n) = if leb n int_max then some (pos n) else none

negated : Option ℕ → Option ℤ
negated none = none
negated (some zero) = some (pos 0)
negated (some (suc n)) = if leb n int_max then some (negsuc n) else none

-- strconv.Atoi, none for an error.
unfoldable pub atoi : Str → Option ℤ
unfolding read_unsigned non_negative negated
atoi [] = none
atoi (c ∷ s) =
    if c == b'-'
    then negated (read_unsigned s)
    else if c == b'+'
    then non_negative (read_unsigned s)
    else non_negative (read_unsigned (c ∷ s))

abbrev pub IsDigit : ℕ → Type 0
IsDigit c = (b'0' ≤ c) × (c ≤ b'9')

decimal_digits-IsDigit :
    (fuel n : ℕ) (rest : Str) → All IsDigit rest → All IsDigit (decimal_digits fuel n rest)
unfolding decimal_digits
decimal_digits-IsDigit zero n rest h = h
decimal_digits-IsDigit (suc fuel) n rest h = ground (
  arith,
  decimal_digits-IsDigit fuel (n / 10) ((b'0' + n % 10) ∷ rest) ((omega arith, omega arith), h),
)

read_last :
    (n : ℕ) (rest : Str) → read_digits ((b'0' + n % 10) ∷ rest) (n / 10) ≡ read_digits rest n
unfolding read_digits
read_last n rest = ground arith

read_first : (n : ℕ) (rest : Str) → n < 10 → read_digits ((b'0' + n) ∷ rest) 0 ≡ read_digits rest n
unfolding read_digits
read_first n rest h = ground arith

read_digits-decimal_digits :
    (fuel n : ℕ) (rest : Str)
    → n < fuel
    → read_digits (decimal_digits fuel n rest) 0 ≡ read_digits rest n
unfolding decimal_digits
read_digits-decimal_digits zero n rest h = absurd (omega arith)
read_digits-decimal_digits (suc fuel) n rest h = ground (
  arith,
  read_first n rest,
  read_last n rest,
  read_digits-decimal_digits fuel (n / 10) ((b'0' + n % 10) ∷ rest),
)

decimal_digits-ne-nil : (fuel n : ℕ) (rest : Str) → n < fuel → decimal_digits fuel n rest ≢ []
unfolding decimal_digits
decimal_digits-ne-nil zero n rest h = absurd (omega arith)
decimal_digits-ne-nil (suc fuel) n rest h =
    ground (arith, decimal_digits-ne-nil fuel (n / 10) ((b'0' + n % 10) ∷ rest))

pub decimal-IsDigit : (n : ℕ) → All IsDigit (decimal n)
unfolding decimal
decimal-IsDigit n = decimal_digits-IsDigit (suc n) n [] tt

pub decimal-ne-nil : (n : ℕ) → decimal n ≢ []
unfolding decimal
decimal-ne-nil n = decimal_digits-ne-nil (suc n) n [] (omega arith)

read_unsigned-digits :
    (s : Str) (n : ℕ) → s ≢ [] → read_digits s 0 ≡ some n → read_unsigned s ≡ some n
unfolding read_unsigned
read_unsigned-digits [] n h e = absurd (h refl)
read_unsigned-digits (c ∷ s) n h e = e

read_unsigned-decimal : (n : ℕ) → read_unsigned (decimal n) ≡ some n
unfolding decimal read_digits
read_unsigned-decimal n =
    read_unsigned-digits (decimal n) n (decimal-ne-nil n)
      (read_digits-decimal_digits (suc n) n [] (omega arith))

atoi-digits : (s : Str) → s ≢ [] → All IsDigit s → atoi s ≡ non_negative (read_unsigned s)
unfolding atoi
atoi-digits [] h d = absurd (h refl)
atoi-digits (c ∷ s) h d = ground arith

-- Within the range of an int, what Itoa writes is read back by Atoi.
pub atoi-itoa : (z : ℤ) → pos_part z ≤ int_max → neg_part z ≤ suc int_max → atoi (itoa z) ≡ some z
unfolding itoa atoi non_negative negated
atoi-itoa (pos n) h k =
    rw (atoi-digits (decimal n) (decimal-ne-nil n) (decimal-IsDigit n), read_unsigned-decimal n)
      (ground arith)
atoi-itoa (negsuc n) h k = rw (read_unsigned-decimal (suc n), negated) (ground arith)
