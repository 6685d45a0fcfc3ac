-- ===== src/Hex/Parse.antt =====
-- `StrToHex`: the texts that it reads, and what `HexToStr` prints.
use left_my_codes.Base.{
  ◌||◌, ℕ, suc, ◌+◌, ◌-◌, ◌*◌, ◌/◌, ◌%◌, ◌≤◌, ◌<◌, ◌≡◌, refl, ◌≢◌, ◌⊎◌, inl, inr, Bool, true, false,
  not, ◌&&◌, Option, none, some, [], ◌∷◌, ◌++◌, append_assoc, arith, leb, ◌==◌, if◌then◌else◌,
  Bool-cases, Option-cases, ◌>>=◌, length, drop, length-append, length-drop, all_below,
  all_below_sound, Bytes, IsBytes, read, store, store-append, store-in, store-back, c_str, IsText,
  c_str-append,
}
use mathlib.Core.Path.{subst}
use left_my_codes.Hex.{
  high_value, low_value, digit, with_digit, str_to_hex_loop, str_to_hex, hex_to_str,
}
use left_my_codes.Hex.Print.{hex_digits, hex_to_str-hex_digits}

abbrev is_value : Option ℕ → ℕ → Bool
is_value none v = false
is_value (some w) v = w == v

-- The pairs of characters that the code reads, and the bytes that it makes of them.
pub data Reads : Bytes → Bytes → Type 0 where
  nil : Reads [] []
  pair :
      {c d high low : ℕ} {s bs : Bytes}
      → high_value c ≡ some high
      → low_value d ≡ some low
      → Reads s bs
      → Reads (c ∷ d ∷ s) ((high + low) % 256 ∷ bs)

pub length-Reads : {s bs : Bytes} → Reads s bs → length s ≡ length bs * 2
length-Reads nil = refl
length-Reads (pair eh el p) = omega (arith, length-Reads p)

module _ (half len : ℕ) where
  -- One round on a pair of digits.
  loop_pair :
      (c d : ℕ) (buf front back : Bytes) (x i : ℕ) {high low : ℕ}
      → high_value c ≡ some high
      → low_value d ≡ some low
      → i ≡ length front
      → str_to_hex_loop half len (c ∷ d ∷ buf) i (front ++ x ∷ back) ≡ (
          let answer = front ++ (high + low) % 256 ∷ back in
          if i == half - 1
          then (do answer ← store answer (len - 1) 0; some (true, answer))
          else str_to_hex_loop half len buf (i + 1) answer)
  unfolding str_to_hex_loop
  loop_pair c d buf front back x i {high} {low} eh el e = rw (
    eh,
    with_digit,
    store-append front x back i high e,
    el,
    store-append front high back i ((high + low) % 256) e,
  )

  loop-Reads :
      (front back : Bytes) (i : ℕ) {buf bs : Bytes}
      → Reads buf bs
      → bs ≢ []
      → i ≡ length front
      → i + length bs ≡ half
      → length bs ≤ length back
      → str_to_hex_loop half len buf i (front ++ back) ≡ (do
        answer ← store (front ++ (bs ++ drop (length bs) back)) (len - 1) 0
        some (true, answer))
  loop-Reads front back i nil ne e n room = absurd (ne refl)
  loop-Reads front [] i (pair eh el p) ne e n room = absurd (omega arith)
  loop-Reads front (x ∷ back) i (pair {c} {d} eh el nil) ne e n room =
      let last : (i == half - 1) ≡ true = ground arith in
      rw (loop_pair c d [] front back x i eh el e, last)
  loop-Reads front (x ∷ back) i
        (pair {c} {d} {high} {low} eh el (pair {c = c'} {d = d'} {s} eh' el' p)) ne e n room =
      let more : (i == half - 1) ≡ false = ground arith in
      let v = (high + low) % 256 in
      let rest =
        loop-Reads (front ++ v ∷ []) back (i + 1) (pair eh' el' p) (cc)
          (omega (arith, length-append front (v ∷ []))) (omega arith) (omega arith) in
      rw (loop_pair c d (c' ∷ d' ∷ s) front back x i eh el e, more) (simp append_assoc at rest)

pub str_to_hex-Reads :
    {text bs : Bytes} (answer : Bytes) (len : ℕ)
    → Reads text bs
    → bs ≢ []
    → length bs < len
    → len ≤ length answer
    → (rest : Bytes) × (str_to_hex text answer len ≡ some (true, bs ++ rest))
      × (length (bs ++ rest) ≡ length answer)
      × (read rest (len - 1 - length bs) ≡ some 0)
unfolding str_to_hex
str_to_hex-Reads {text} {bs} answer len p ne fits room =
    let n = length-Reads p in
    let even : (length text % 2 == 0) ≡ true = ground arith in
    let small : leb len (length text / 2) ≡ false = ground arith in
    let loop = loop-Reads (length text / 2) len [] answer 0 p ne refl (omega arith) (omega arith) in
    let (rest, stored, same, there) =
      store-in (drop (length bs) answer) (len - 1 - length bs) 0
        (omega (arith, length-drop (length bs) answer)) in
    let final =
      store-back bs (drop (length bs) answer) (len - 1) (len - 1 - length bs) 0 (omega arith)
        stored in
    (
      rest,
      rw (even, small, loop, final),
      omega (arith, length-append bs rest, length-drop (length bs) answer),
      there,
    )

-- What the loop answers when the rest of the text has a character that is no digit.
module _ (half len : ℕ) where
  loop_rejects :
      (buf answer : Bytes) (i : ℕ)
      → ((bs : Bytes) → Reads buf bs → bs ≡ [])
      → length buf % 2 ≡ 0
      → i + length buf / 2 ≡ half
      → half ≤ length answer
      → (a : Bytes) × (str_to_hex_loop half len buf i answer ≡ some (false, a))
  unfolding str_to_hex_loop
  loop_rejects [] answer i bad even n room = (answer, refl)
  loop_rejects (c ∷ []) answer i bad even n room = (answer, refl)
  loop_rejects (c ∷ d ∷ []) answer i bad even n room = elim (Option-cases (high_value c)) [
    | inl stop ↦ (answer, rw (stop, with_digit))
    | inr (high, eh) ↦
        let (first, stored, same, there) = store-in answer i high (omega arith) in
        elim (Option-cases (low_value d)) [
          | inl stop ↦ (first, rw (eh, with_digit, stored, stop))
          | inr (low, el) ↦ absurd (cc (bad _ (pair eh el nil)))
        ]
  ]
  loop_rejects (c ∷ d ∷ c' ∷ buf) answer i bad even n room = elim (Option-cases (high_value c)) [
    | inl stop ↦ (answer, rw (stop, with_digit))
    | inr (high, eh) ↦
        let (first, stored, same, there) = store-in answer i high (omega arith) in
        elim (Option-cases (low_value d)) [
          | inl stop ↦ (first, rw (eh, with_digit, stored, stop))
          | inr (low, el) ↦
              let (second, stored', same', there') =
                store-in first i ((high + low) % 256) (omega arith) in
              let more : (i == half - 1) ≡ false = ground arith in
              let (a, e) =
                loop_rejects (c' ∷ buf) second (i + 1) (λ bs p. absurd (cc (bad _ (pair eh el p))))
                  (omega arith) (omega arith) (omega arith) in
              (a, rw (eh, with_digit, stored, el, stored', more) e)
        ]
  ]

pub str_to_hex_rejects_unread :
    (text answer : Bytes) (len : ℕ)
    → ((bs : Bytes) → Reads text bs → (bs ≡ []) ⊎ (len ≤ length bs))
    → len ≤ length answer
    → (a : Bytes) × (str_to_hex text answer len ≡ some (false, a))
unfolding str_to_hex
str_to_hex_rejects_unread text answer len bad room =
    elim (Bool-cases (not (length text % 2 == 0) || leb len (length text / 2))) [
      | inl refused ↦ (answer, rw refused)
      | inr passed ↦ rw passed (
          loop_rejects (length text / 2) len text answer 0
            (λ bs p. ground (arith, bad bs p, length-Reads p)) (ground arith) (omega arith)
            (ground arith))
    ]

digit_table :
    all_below 256 (λ c.
      is_value (high_value (digit (c / 16))) (c / 16 * 16)
      && is_value (low_value (digit (c % 16))) (c % 16)
      && not (digit (c / 16) == 0)
      && not (digit (c % 16) == 0))
    ≡ true
unfolding all_below high_value low_value digit
digit_table = refl

digit_values :
    (c : ℕ)
    → c < 256
    → (high_value (digit (c / 16)) ≡ some (c / 16 * 16))
      × (low_value (digit (c % 16)) ≡ some (c % 16))
      × (digit (c / 16) ≢ 0)
      × (digit (c % 16) ≢ 0)
digit_values c h = ground (arith, all_below_sound _ digit_table c h)

hex_digits-Reads : (bs : Bytes) → IsBytes bs → Reads (hex_digits bs) bs
hex_digits-Reads [] h = nil
hex_digits-Reads (c ∷ bs) h =
    let (eh, el, _, _) = digit_values c h.0 in
    let same : (c / 16 * 16 + c % 16) % 256 ≡ c = omega arith in
    subst (λ b. Reads (hex_digits (c ∷ bs)) (b ∷ bs)) same (pair eh el (hex_digits-Reads bs h.1))

hex_digits-IsText : (bs : Bytes) → IsBytes bs → IsText (hex_digits bs)
hex_digits-IsText [] h = tt
hex_digits-IsText (c ∷ bs) h =
    let (_, _, high, low) = digit_values c h.0 in (high, (low, hex_digits-IsText bs h.1))

-- The C string that `HexToStr` prints for one byte or more is read back by `StrToHex` to these
-- bytes, where both arrays have room for their text or bytes and a NUL.
pub str_to_hex-hex_to_str :
    (order answer : Bytes) (len : ℕ) (back : Bytes) (back_len : ℕ)
    → IsBytes order
    → order ≢ []
    → length order * 2 < len
    → len ≤ length answer
    → length order < back_len
    → back_len ≤ length back
    → (out : Bytes) × (text : Bytes) × (rest : Bytes) × (hex_to_str order (length order) answer len
        ≡ some (true, out))
      × (c_str out ≡ some text)
      × (str_to_hex text back back_len ≡ some (true, order ++ rest))
str_to_hex-hex_to_str order answer len back back_len h ne fits room fits' room' =
    let (rest, read_back, _, _) =
      str_to_hex-Reads back back_len (hex_digits-Reads order h) ne fits' room' in
    (
      hex_digits order ++ 0 ∷ drop (suc (length order * 2)) answer,
      hex_digits order,
      rest,
      hex_to_str-hex_digits order answer len h fits room,
      c_str-append (hex_digits order) (drop (suc (length order * 2)) answer)
          (hex_digits-IsText order h),
      read_back,
    )
