-- ===== src/Hex.antt =====
-- `leftName::StrToHex` and `leftName::HexToStr` of LeftMyCodes/src/MyCodes.cpp. The `Answer`
-- array is a buffer of its own size; `LenOfAnswer` is what the caller says of it, 0 for a
-- negative number too. A result is `true` for the pointer `Answer` and `false` for `NULL`, with
-- the buffer as it was left.
pub mod Print
pub mod Parse
pub mod Spells
mod Tests
use left_my_codes.Base.{
  ◌||◌, ℕ, zero, suc, ◌+◌, ◌-◌, ◌*◌, ◌/◌, ◌%◌, bit_and, Bool, true, false, not, ◌&&◌, Option, none,
  some, ◌∷◌, leb, ◌==◌, if◌then◌else◌, ◌>>=◌, ◌>>◌, length, Bytes, read, store,
}

abbrev within : ℕ → ℕ → ℕ → Bool
within lo hi c = leb lo c && leb c hi

-- What `Answer[i] = …` stores for the first character of a pair; `none` is the `break`.
unfoldable pub high_value : ℕ → Option ℕ
high_value c =
    if within b'0' b'9' c
    then some ((c - b'0') * 0x10)
    else if within b'A' b'F' c
    then some ((c - b'A') * 0x10 + 0xA0)
    else if within b'a' b'f' c
    then some ((c - b'a') * 0x10 + 0xA0)
    else none

-- What `Answer[i] += …` adds for the second.
unfoldable pub low_value : ℕ → Option ℕ
low_value c =
    if within b'0' b'9' c
    then some (c - b'0')
    else if within b'A' b'F' c
    then some (c - b'A' + 0xA)
    else if within b'a' b'f' c
    then some (c - b'a' + 0xA)
    else none

-- `else break;`, or the rest of the round with the digit's value
abbrev with_digit :
    Option ℕ → Option (Bool × Bytes) → (ℕ → Option (Bool × Bytes)) → Option (Bool × Bytes)
with_digit none stop go = stop
with_digit (some v) stop go = go v

module _ (half len : ℕ) where
  -- The loop at `i`, with the characters from `buf[i * 2]` on; `half` is `strlen(buf) / 2`.
  unfoldable pub str_to_hex_loop : Bytes → ℕ → Bytes → Option (Bool × Bytes)
  str_to_hex_loop (c ∷ d ∷ buf) i answer = with_digit (high_value c) (some (false, answer)) λ high.
      do
        answer ← store answer i high
        with_digit (low_value d) (some (false, answer)) λ low. do
          answer ← store answer i ((high + low) % 256)
          if i == half - 1
              then (do answer ← store answer (len - 1) 0; some (true, answer))
              else str_to_hex_loop buf (i + 1) answer
  str_to_hex_loop _ i answer = some (false, answer)

unfoldable pub str_to_hex : Bytes → Bytes → ℕ → Option (Bool × Bytes)
unfolding str_to_hex_loop high_value low_value
str_to_hex buf answer len =
    if not (length buf % 2 == 0) || leb len (length buf / 2)
    then some (false, answer)
    else str_to_hex_loop (length buf / 2) len buf 0 answer

-- The character of a number below 16.
unfoldable pub digit : ℕ → ℕ
digit d = if leb d 9 then d + b'0' else d + b'A' - 0xA

-- The loop at `i`, with `left` rounds to go.
unfoldable pub hex_to_str_loop : Bytes → ℕ → ℕ → Bytes → Option Bytes
hex_to_str_loop order zero i answer = some answer
hex_to_str_loop order (suc left) i answer = do
  c ← read order i
  answer ← store answer (i * 2) (digit (bit_and c 0xF0 / 0x10))
  answer ← store answer (i * 2 + 1) (digit (bit_and c 0xF))
  hex_to_str_loop order left (i + 1) answer

unfoldable pub hex_to_str : Bytes → ℕ → Bytes → ℕ → Option (Bool × Bytes)
unfolding hex_to_str_loop digit
hex_to_str order n answer len = if leb len (n * 2) then some (false, answer) else do
  answer ← hex_to_str_loop order n 0 answer
  answer ← store answer (n * 2) 0
  some (true, answer)
