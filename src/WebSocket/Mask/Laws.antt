-- ===== src/WebSocket/Mask/Laws.antt =====
-- `DecipheringStr`: a payload under a key.
use left_my_codes.Base.{
  ℕ, zero, suc, ◌+◌, ◌%◌, ◌≤◌, ◌<◌, bit_xor, ◌≡◌, refl, sym, ap, ap₂, true, false, none, some, [],
  ◌∷◌, ◌++◌, append_assoc, arith, leb, length, take, drop, length-append, bit_xor-bit_xor, Bytes,
  read, store-append, slice-append, overwrite-append, read-append, split_at, store-take,
}
use left_my_codes.WebSocket.Mask.{deciphering_loop, deciphering_str}

-- The byte of a key of four that meets the payload's byte `i`.
abbrev pub key_byte : Bytes → ℕ → ℕ
key_byte key i = elim (read key (i % 4)) [ none ↦ 0 | some k ↦ k ]

-- A payload from its byte `i` on, under the key.
abbrev pub masked : Bytes → ℕ → Bytes → Bytes
masked key i [] = []
masked key i (c ∷ s) = bit_xor c (key_byte key i) ∷ masked key (i + 1) s

pub masked-masked : (key : Bytes) (i : ℕ) (s : Bytes) → masked key i (masked key i s) ≡ s
masked-masked key i [] = refl
masked-masked key i (c ∷ s) =
    ap₂ ◌∷◌ (bit_xor-bit_xor c (key_byte key i)) (masked-masked key (i + 1) s)

pub length-masked : (key : Bytes) (i : ℕ) (s : Bytes) → length (masked key i s) ≡ length s
length-masked key i [] = refl
length-masked key i (c ∷ s) = ap suc (length-masked key (i + 1) s)

key_read : (key : Bytes) (i : ℕ) → length key ≡ 4 → read key (i % 4) ≡ some (key_byte key i)
key_read key i e = in_range key (i % 4) (omega arith)
  where
    in_range :
        (b : Bytes) (j : ℕ)
        → j < length b
        → read b j ≡ some (elim (read b j) [ none ↦ 0 | some k ↦ k ])
    in_range [] j h = absurd (omega arith)
    in_range (x ∷ b) zero h = refl
    in_range (x ∷ b) (suc j) h = in_range b j (omega arith)

loop-masked :
    (key done s rest front mid back : Bytes)
    → length key ≡ 4
    → length front ≡ length done
    → length mid ≡ length s
    → deciphering_loop (done ++ (s ++ rest)) key (length s) (length done) (front ++ (mid ++ back))
      ≡ some (front ++ (masked key (length done) s ++ back))
unfolding deciphering_loop
loop-masked key done [] rest front [] back k e n = refl
loop-masked key done [] rest front (x ∷ mid) back k e n = absurd (omega arith)
loop-masked key done (c ∷ s) rest front [] back k e n = absurd (omega arith)
loop-masked key done (c ∷ s) rest front (x ∷ mid) back k e n =
    let v = bit_xor c (key_byte key (length done)) in
    let next : length (done ++ c ∷ []) ≡ length done + 1 = length-append done (c ∷ []) in
    let after =
      loop-masked key (done ++ c ∷ []) s rest (front ++ v ∷ []) mid back k
        (omega (arith, next, length-append front (v ∷ []))) (omega arith) in
    rw
      (
        read-append done c (s ++ rest) (length done) refl,
        key_read key (length done) k,
        store-append front x (mid ++ back) (length done) v (sym e),
      )
      (rw next at (simp append_assoc at after))

-- With a key of four bytes and room for the text and a NUL, `DecipheringStr` writes the text under
-- the key and the NUL, and leaves the rest of the array.
pub deciphering_str-masked :
    (key s rest out : Bytes) (len : ℕ)
    → length key ≡ 4
    → length s < len
    → len ≤ length out
    → deciphering_str (s ++ rest) (length s) key out len
      ≡ some (true, masked key 0 s ++ 0 ∷ drop (suc (length s)) out)
unfolding deciphering_str
deciphering_str-masked key s rest out len k fits room =
    let n = length s in
    let (l, _) = split_at n out (omega arith) in
    let guard : leb len n ≡ false = ground arith in
    let copied = overwrite-append [] (take n out) (0 ∷ drop (suc n) out) s 0 refl (sym l) in
    let back = 0 ∷ drop (suc n) out in
    rw (
      guard,
      store-take out n 0 (omega arith),
      slice-append [] s rest 0 n refl refl,
      copied,
      loop-masked key [] s rest [] s back k refl refl,
    )
