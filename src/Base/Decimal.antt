-- ===== src/Base/Decimal.antt =====
-- What `%d` and `%02d` print of a number that is not negative.
use Prim.Native.Nat.{ℕ, zero, suc, ◌+◌, ◌/◌, ◌%◌, ◌<◌}
use mathlib.Core.Path.{◌≡◌, refl}
use mathlib.Core.Logic.{◌≢◌, inl, inr}
use mathlib.Core.Bool.{true}
use mathlib.Core.List.{[], ◌∷◌}
use native.Mathlib.Omega.{arith}
use left_my_codes.Base.Tests.{ltb, ◌==◌, if◌then◌else◌, Bool-cases}
use left_my_codes.Base.Lists.{All, length}
use left_my_codes.Base.Bits.{all_below, all_below_sound}
use left_my_codes.Base.Buffer.{Bytes}

-- The digits of `n` before `later`; each step takes one digit, so more fuel than `n` is enough.
unfoldable pub decimal_digits : ℕ → ℕ → Bytes → Bytes
decimal_digits zero n later = later
decimal_digits (suc fuel) n later =
    let more = decimal_digits fuel (n / 10) ((b'0' + n % 10) ∷ later) in
    if ltb n 10 then (b'0' + n) ∷ later else more

-- `%d`
unfoldable pub decimal : ℕ → Bytes
unfolding decimal_digits
decimal n = decimal_digits (suc n) n []

-- `%02d`
unfoldable pub decimal_2 : ℕ → Bytes
decimal_2 n = if ltb n 10 then b'0' ∷ decimal n else decimal n

-- A text that `snprintf` prints as it is when it is its format.
abbrev pub IsPlain : Bytes → Type 0
IsPlain = All (λ c. (c ≢ 0) × (c ≢ b'%'))

decimal_digits-IsPlain :
    (fuel n : ℕ) (later : Bytes) → IsPlain later → IsPlain (decimal_digits fuel n later)
unfolding decimal_digits
decimal_digits-IsPlain zero n later h = h
decimal_digits-IsPlain (suc fuel) n later h = elim (Bool-cases (ltb n 10)) [
  | inl one ↦ rw one ((omega arith, ground (arith, one)), h)
  | inr more ↦ rw more (
      decimal_digits-IsPlain fuel (n / 10) ((b'0' + n % 10) ∷ later)
        ((omega arith, omega arith), h))
]

pub decimal-IsPlain : (n : ℕ) → IsPlain (decimal n)
unfolding decimal
decimal-IsPlain n = decimal_digits-IsPlain (suc n) n [] tt

pub decimal_2-IsPlain : (n : ℕ) → IsPlain (decimal_2 n)
unfolding decimal_2
decimal_2-IsPlain n = elim (Bool-cases (ltb n 10)) [
  | inl one ↦ rw one ((omega arith, omega arith), decimal-IsPlain n)
  | inr more ↦ rw more (decimal-IsPlain n)
]

digits_number : ℕ → ℕ
digits_number n = if ltb n 10 then 1 else if ltb n 100 then 2 else if ltb n 1000 then 3 else 4

length-decimal_table : all_below 10000 (λ n. length (decimal n) == digits_number n) ≡ true
unfolding all_below decimal digits_number
length-decimal_table = refl

pub length-decimal :
    (n : ℕ)
    → n < 10000
    → length (decimal n)
      ≡ (if ltb n 10 then 1 else if ltb n 100 then 2 else if ltb n 1000 then 3 else 4)
unfolding digits_number
length-decimal n h = ground (arith, all_below_sound _ length-decimal_table n h)

pub length-decimal_2 : (n : ℕ) → n < 100 → length (decimal_2 n) ≡ 2
unfolding decimal_2
length-decimal_2 n h = ground (arith, length-decimal n (omega arith))
