-- ===== src/Base/Bits.antt =====
-- The bit operations at variables: a recursion on binary digits gives the laws of exclusive or,
-- and evaluation over a small range gives the masks on a byte.
use Prim.Native.Nat.{
  ℕ, zero, suc, ◌+◌, ◌*◌, ◌/◌, ◌%◌, ◌^◌, ◌≤◌, ◌<◌, bit_and, bit_xor, differ, digits,
  bit_xor-bitwise, bit_and-bitwise, min,
}
use mathlib.Core.Path.{◌≡◌, refl, ap}
use mathlib.Core.Bool.{Bool, true, false, not, ◌&&◌, ◌||◌}
use left_my_codes.Base.Tests.{◌==◌}
use native.Mathlib.Nat.{pow-suc}
use native.Mathlib.Omega.{arith}

-- Whether `p` holds of every number below the bound.
unfoldable pub all_below : ℕ → (ℕ → Bool) → Bool
all_below zero p = true
all_below (suc n) p = p n && all_below n p

-- A table that evaluates to `true` gives each of its rows.
pub all_below_sound :
    (row : ℕ → Bool) {bound : ℕ} → all_below bound row ≡ true → (x : ℕ) → x < bound → row x ≡ true
unfolding all_below
all_below_sound row {bound = zero} table x h = absurd (omega arith)
all_below_sound row {bound = suc bound} table x h =
    ground (arith, all_below_sound row {bound = bound} _ x)

-- The digits that an operation of two digits gives, whatever fuel is left over.
digits_fuel :
    (over : ℕ → ℕ) (op : ℕ → ℕ → ℕ) (n m a b : ℕ)
    → a ≤ n
    → a ≤ m
    → digits over op n a b ≡ digits over op m a b
digits_fuel over op zero zero a b p q = refl
digits_fuel over op zero (suc m) zero b p q = refl
digits_fuel over op zero (suc m) (suc a) b p q = absurd (omega arith)
digits_fuel over op (suc n) zero zero b p q = refl
digits_fuel over op (suc n) zero (suc a) b p q = absurd (omega arith)
digits_fuel over op (suc n) (suc m) zero b p q = refl
digits_fuel over op (suc n) (suc m) (suc a) b p q =
    omega (arith, digits_fuel over op n m (suc a / 2) (b / 2) (omega arith) (omega arith))

zero-bit_xor : (b : ℕ) → bit_xor 0 b ≡ b
zero-bit_xor b = bit_xor-bitwise 0 b

differ_digits : (x y : ℕ) → x < 2 → y < 2 → differ x y ≡ (x + y) % 2
differ_digits zero y p q = omega arith
differ_digits (suc x) zero p q = omega arith
differ_digits (suc zero) (suc zero) p q = refl
differ_digits (suc zero) (suc (suc y)) p q = absurd (omega arith)
differ_digits (suc (suc x)) (suc y) p q = absurd (omega arith)

differ_lem : (a b : ℕ) → differ (a % 2) (b % 2) ≡ (a + b) % 2
differ_lem a b = omega (arith, differ_digits (a % 2) (b % 2) (omega arith) (omega arith))

-- One equation for the lowest digit.
pub bit_xor_step : (a b : ℕ) → bit_xor a b ≡ bit_xor (a / 2) (b / 2) * 2 + (a + b) % 2
bit_xor_step zero b = omega (arith, zero-bit_xor b, zero-bit_xor (b / 2))
bit_xor_step (suc a) b = omega (
  arith,
  bit_xor-bitwise (suc a) b,
  bit_xor-bitwise (suc a / 2) (b / 2),
  differ_lem (suc a) b,
  digits_fuel (λ y. y) differ a (suc a / 2) (suc a / 2) (b / 2) (omega arith) (omega arith),
)

-- Both numbers fall, so the larger of their bounds is the fuel.
bit_xor-comm_below : (n a b : ℕ) → a ≤ n → b ≤ n → bit_xor a b ≡ bit_xor b a
bit_xor-comm_below zero zero zero p q = refl
bit_xor-comm_below zero zero (suc b) p q = absurd (omega arith)
bit_xor-comm_below zero (suc a) b p q = absurd (omega arith)
bit_xor-comm_below (suc n) a b p q = omega (
  arith,
  bit_xor_step a b,
  bit_xor_step b a,
  bit_xor-comm_below n (a / 2) (b / 2) (omega arith) (omega arith),
)

pub bit_xor_comm : (a b : ℕ) → bit_xor a b ≡ bit_xor b a
bit_xor_comm a b = bit_xor-comm_below (a + b) a b (omega arith) (omega arith)

bit_xor-cancel_below : (n a b : ℕ) → a ≤ n → b ≤ n → bit_xor (bit_xor a b) b ≡ a
bit_xor-cancel_below zero zero zero p q = refl
bit_xor-cancel_below zero zero (suc b) p q = absurd (omega arith)
bit_xor-cancel_below zero (suc a) b p q = absurd (omega arith)
bit_xor-cancel_below (suc n) a b p q =
    let half : bit_xor a b / 2 ≡ bit_xor (a / 2) (b / 2) = omega (arith, bit_xor_step a b) in
    omega (
      arith,
      bit_xor_step a b,
      bit_xor_step (bit_xor a b) b,
      ap (λ x. bit_xor x (b / 2)) half,
      bit_xor-cancel_below n (a / 2) (b / 2) (omega arith) (omega arith),
    )

-- Exclusive or with the same number twice changes nothing.
pub bit_xor-bit_xor : (a b : ℕ) → bit_xor (bit_xor a b) b ≡ a
bit_xor-bit_xor a b = bit_xor-cancel_below (a + b) a b (omega arith) (omega arith)

pub bit_xor-lt : (k a b : ℕ) → a < 2 ^ k → b < 2 ^ k → bit_xor a b < 2 ^ k
bit_xor-lt zero zero zero p q = omega arith
bit_xor-lt zero zero (suc b) p q = absurd (omega arith)
bit_xor-lt zero (suc a) b p q = absurd (omega arith)
bit_xor-lt (suc k) a b p q = omega (
  arith,
  pow-suc 2 k,
  bit_xor_step a b,
  bit_xor-lt k (a / 2) (b / 2) (omega (arith, pow-suc 2 k)) (omega (arith, pow-suc 2 k)),
)

short_table :
    all_below 0x10000 (λ n. bit_and n 0xFF00 / 0x100 == n / 256 && bit_and n 0xFF == n % 256) ≡ true
unfolding all_below
short_table = refl

-- The two bytes of a number below 2 ^ 16.
pub short_bytes :
    (n : ℕ) → n < 0x10000 → (bit_and n 0xFF00 / 0x100 ≡ n / 256) × (bit_and n 0xFF ≡ n % 256)
short_bytes n h = ground (arith, all_below_sound _ short_table n h)

zero-bit_and : (b : ℕ) → bit_and 0 b ≡ 0
zero-bit_and b = bit_and-bitwise 0 b

-- The same for `bit_and`: the lowest digit is 1 if both are.
lowest_bit_and :
    (mask word : ℕ)
    → bit_and word mask ≡ min (word % 2) (mask % 2) + 2 * bit_and (word / 2) (mask / 2)
lowest_bit_and mask zero = omega (arith, zero-bit_and (mask / 2), zero-bit_and mask)
lowest_bit_and mask (suc word) =
    let half = suc word / 2 in
    let lower = digits_fuel (λ y. zero) min word half half (mask / 2) in
    omega (
      arith,
      bit_and-bitwise half (mask / 2),
      bit_and-bitwise (suc word) mask,
      lower (omega arith) (omega arith),
    )

-- Whether two numbers have a 1 at the same of their lowest `n` digits.
abbrev pub shares : ℕ → ℕ → ℕ → Bool
shares zero a b = false
shares (suc n) a b = b % 2 == 1 && a % 2 == 1 || shares n (a / 2) (b / 2)

bit_and_zero : (n a : ℕ) → a ≤ n → bit_and a 0 ≡ 0
bit_and_zero n zero h = refl
bit_and_zero zero (suc a) h = absurd (omega arith)
bit_and_zero (suc n) (suc a) h =
    omega (arith, lowest_bit_and 0 (suc a), bit_and_zero n (suc a / 2) (omega arith))

pub bit_and-shares : (n a b : ℕ) → b < 2 ^ n → not (bit_and a b == 0) ≡ shares n a b
bit_and-shares zero a zero h = ground (arith, bit_and_zero a a (omega arith))
bit_and-shares zero a (suc b) h = absurd (omega arith)
bit_and-shares (suc n) a b h =
    let rest = bit_and-shares n (a / 2) (b / 2) (omega (arith, pow-suc 2 n)) in
    ground (arith, lowest_bit_and b a, rest)
