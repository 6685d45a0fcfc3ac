-- ===== src/Hex/Print.antt =====
-- `HexToStr`: the digits of some bytes.
use left_my_codes.Base.{
  ℕ, suc, ◌+◌, ◌*◌, ◌/◌, ◌%◌, ◌≤◌, ◌<◌, bit_and, ◌≡◌, refl, true, false, ◌&&◌, some, [], ◌∷◌, ◌++◌,
  append_assoc, arith, leb, ◌==◌, length, drop, length-append, all_below, all_below_sound, Bytes,
  IsBytes, store-append, read-append, store-end,
}
use left_my_codes.Hex.{digit, hex_to_str_loop, hex_to_str}

-- The text of some bytes: the upper digit of each, then the lower.
abbrev pub hex_digits : Bytes → Bytes
hex_digits [] = []
hex_digits (c ∷ s) = digit (c / 16) ∷ digit (c % 16) ∷ hex_digits s

nibbles_table :
    all_below 256 (λ c. bit_and c 0xF0 / 0x10 == c / 16 && bit_and c 0xF == c % 16) ≡ true
unfolding all_below
nibbles_table = refl

nibbles : (c : ℕ) → c < 256 → (bit_and c 0xF0 / 0x10 ≡ c / 16) × (bit_and c 0xF ≡ c % 16)
nibbles c h = ground (arith, all_below_sound _ nibbles_table c h)

loop-hex_digits :
    (done order front back : Bytes)
    → IsBytes order
    → length front ≡ length done * 2
    → length (hex_digits order) ≤ length back
    → hex_to_str_loop (done ++ order) (length order) (length done) (front ++ back)
      ≡ some (front ++ (hex_digits order ++ drop (length (hex_digits order)) back))
unfolding hex_to_str_loop
loop-hex_digits done [] front back h e room = refl
loop-hex_digits done (c ∷ order) front [] h e room = absurd (omega arith)
loop-hex_digits done (c ∷ order) front (x ∷ []) h e room = absurd (omega arith)
loop-hex_digits done (c ∷ order) front (x ∷ y ∷ back) h e room =
    let (high, low) = nibbles c h.0 in
    let pair = digit (c / 16) ∷ digit (c % 16) ∷ [] in
    let first = store-append front x (y ∷ back) (length done * 2) (digit (c / 16)) (omega arith) in
    let second =
      store-append (front ++ digit (c / 16) ∷ []) y back (length done * 2 + 1) (digit (c % 16))
        (omega (arith, length-append front (digit (c / 16) ∷ []))) in
    let rest =
      loop-hex_digits (done ++ c ∷ []) order (front ++ pair) back h.1
        (omega (arith, length-append front pair, length-append done (c ∷ []))) (omega arith) in
    let next : length (done ++ c ∷ []) ≡ length done + 1 = length-append done (c ∷ []) in
    rw
      (
        read-append done c order (length done) refl,
        high,
        low,
        first,
        simp append_assoc at second,
        ← next,
      )
      (simp append_assoc at rest)

pub length-hex_digits : (order : Bytes) → length (hex_digits order) ≡ length order * 2
length-hex_digits [] = refl
length-hex_digits (c ∷ order) = omega (arith, length-hex_digits order)

-- With room for them, `HexToStr` writes the two upper-case digits of each byte and a NUL, and
-- leaves the rest of the array.
pub hex_to_str-hex_digits :
    (order answer : Bytes) (len : ℕ)
    → IsBytes order
    → length order * 2 < len
    → len ≤ length answer
    → hex_to_str order (length order) answer len
      ≡ some (true, hex_digits order ++ 0 ∷ drop (suc (length order * 2)) answer)
unfolding hex_to_str
hex_to_str-hex_digits order answer len h fits room =
    let n = length-hex_digits order in
    let loop = loop-hex_digits [] order [] answer h refl (omega arith) in
    let guard : leb len (length order * 2) ≡ false = ground arith in
    rw (
      guard,
      loop,
      n,
      store-end (hex_digits order) answer (length order * 2) 0 (omega arith) (omega arith),
    )
