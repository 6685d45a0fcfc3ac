-- ===== src/Base/Text.antt =====
-- C strings: the text before the first NUL of an array, `strstr`, and the arguments of `snprintf`.
use Prim.Native.Nat.{ℕ, suc}
use Prim.Native.Char.{code}
use Prim.Native.String.{String}
use mathlib.Core.Path.{◌≡◌, refl, ap₂}
use mathlib.Core.Logic.{◌≢◌, inl, inr}
use mathlib.Core.Bool.{Bool, true, false, ◌&&◌}
use mathlib.Core.List.{[], ◌∷◌, ◌++◌}
use mathlib.Core.Option.{Option, none, some}
use native.Mathlib.Omega.{arith}
use left_my_codes.Base.Tests.{Bool-cases, ◌==◌, if◌then◌else◌, ◌>>=◌}
use left_my_codes.Base.Lists.{All, length}
use left_my_codes.Base.Buffer.{Bytes}

-- The bytes of a literal, which is ASCII.
abbrev pub codes : String → Bytes
codes String.[] = []
codes (String.◌∷◌ c s) = code c ∷ codes s

-- The text of the C string in an array; an array with no NUL is a fault.
unfoldable pub c_str : Bytes → Option Bytes
c_str [] = none
c_str (c ∷ b) = let rest = c_str b in if c == 0 then some [] else do s ← rest; some (c ∷ s)

-- No NUL among the bytes: the text of a C string.
abbrev pub IsText : Bytes → Type 0
IsText = All (λ c. c ≢ 0)

pub c_str-append : (s rest : Bytes) → IsText s → c_str (s ++ 0 ∷ rest) ≡ some s
unfolding c_str
c_str-append [] rest h = refl
c_str-append (c ∷ s) rest h = ground (arith, c_str-append s rest h.1)

-- `strcmp(a, b) == 0`
unfoldable pub equal : Bytes → Bytes → Bool
equal [] [] = true
equal (x ∷ a) (y ∷ b) = x == y && equal a b
equal _ _ = false

pub equal_sound : (a b : Bytes) → equal a b ≡ true → a ≡ b
unfolding equal
equal_sound [] [] h = refl
equal_sound [] (y ∷ b) h = cc
equal_sound (x ∷ a) [] h = cc
equal_sound (x ∷ a) (y ∷ b) h = elim (Bool-cases (x == y)) [
  | inl same ↦ ap₂ (◌∷◌) (ground (arith, same)) (equal_sound a b (rw same at h))
  | inr other ↦ cc (rw other at h)
]

unfoldable pub starts_with : Bytes → Bytes → Bool
starts_with s [] = true
starts_with [] (c ∷ p) = false
starts_with (d ∷ s) (c ∷ p) = d == c && starts_with s p

-- `strstr`: the offset of the first place where `p` stands.
unfoldable pub strstr : Bytes → Bytes → Option ℕ
unfolding starts_with
strstr [] p = if starts_with [] p then some 0 else none
strstr (c ∷ s) p =
    let rest = strstr s p in if starts_with (c ∷ s) p then some 0 else do i ← rest; some (suc i)

-- What `snprintf` prints for a format with no argument behind it, before it is cut to the size:
-- a conversion has no argument to take, which is a fault.
unfoldable pub print_plain : Bytes → Option Bytes
print_plain [] = some []
print_plain (c ∷ []) = if c == b'%' then none else some (c ∷ [])
print_plain (c ∷ d ∷ s) =
    let after_pair = print_plain s in
    let rest = print_plain (d ∷ s) in
    if c == b'%'
    then (if d == b'%' then (do t ← after_pair; some (b'%' ∷ t)) else none)
    else do t ← rest; some (c ∷ t)

pub print_plain-eq : (s : Bytes) → All (λ c. c ≢ b'%') s → print_plain s ≡ some s
unfolding print_plain
print_plain-eq [] h = refl
print_plain-eq (c ∷ []) h = ground arith
print_plain-eq (c ∷ d ∷ s) h = ground (arith, print_plain-eq (d ∷ s) h.1)

-- The first place of a character.
pub strstr-char :
    (c : ℕ) (w s : Bytes) → All (λ d. d ≢ c) w → strstr (w ++ c ∷ s) (c ∷ []) ≡ some (length w)
unfolding strstr starts_with
strstr-char c [] s h = let same : (c == c) ≡ true = ground arith in rw same
strstr-char c (d ∷ w) s h =
    let other : (d == c) ≡ false = ground (arith, h.0) in rw (other, strstr-char c w s h.1)

pub strstr-none : (c : ℕ) (w : Bytes) → All (λ d. d ≢ c) w → strstr w (c ∷ []) ≡ none
unfolding strstr starts_with
strstr-none c [] h = refl
strstr-none c (d ∷ w) h =
    let other : (d == c) ≡ false = ground (arith, h.0) in rw (other, strstr-none c w h.1)
