-- ===== src/WebSocket/Frame/Laws.antt =====
-- `PackageAddHead`: the frames that it builds.
use left_my_codes.Base.{
  zeros_append, ℕ, zero, suc, ◌+◌, ◌-◌, ◌/◌, ◌%◌, ◌≤◌, ◌<◌, ◌≡◌, refl, sym, ap, inl, inr, Bool,
  true, false, ◌&&◌, Option, some, [], ◌∷◌, ◌++◌, arith, ltb, ◌==◌, if◌then◌else◌, Bool-cases,
  ◌>>=◌, length, drop, replicate, length-replicate, short_bytes, Bytes, store, slice-append,
  overwrite-append, clear-replicate, pos,
}
use left_my_codes.WebSocket.Frame.{add_payload, add_head, package_add_head}

-- The head of an unmasked text frame with a payload of `n` bytes, for `n` below 2 ^ 16: RFC 6455,
-- with the length in the second byte or in the two bytes behind it.
abbrev pub head : ℕ → Bytes
head n = if ltb n 126 then 0x81 ∷ n ∷ [] else 0x81 ∷ 126 ∷ n / 256 ∷ n % 256 ∷ []

-- A NUL written where the array is clear changes nothing.
store_zeros :
    (front r : Bytes) (k i : ℕ)
    → length front ≤ i
    → i < length front + k
    → store (front ++ (replicate k 0 ++ r)) i 0 ≡ some (front ++ (replicate k 0 ++ r))
unfolding store
store_zeros [] r zero i p q = absurd (omega arith)
store_zeros [] r (suc k) zero p q = refl
store_zeros [] r (suc k) (suc i) p q =
    ap (λ a. a >>= λ b'. some (0 ∷ b')) (store_zeros [] r k i (omega arith) (omega arith))
store_zeros (x ∷ front) r k zero p q = absurd (omega arith)
store_zeros (x ∷ front) r k (suc i) p q =
    ap (λ a. a >>= λ b'. some (x ∷ b')) (store_zeros front r k i (omega arith) (omega arith))

module _ (s more : Bytes) where
  add_payload-append :
      (front r : Bytes) (k off : ℕ)
      → off ≡ length front
      → length s ≤ k
      → add_payload (s ++ more) (length s) (front ++ (replicate k 0 ++ r)) off
        ≡ some (true, front ++ (s ++ (replicate (k - length s) 0 ++ r)))
  unfolding add_payload
  add_payload-append front r k off e h =
      let zeros : Bytes = replicate (length s) 0 in
      let l : length s ≡ length zeros = sym (length-replicate (length s) 0) in
      rw (slice-append [] s more 0 (length s) refl refl, zeros_append (length s) k r h)
        (rw (overwrite-append front zeros (replicate (k - length s) 0 ++ r) s off e l))

  abbrev cleared : ℕ → Bytes → Bytes
  cleared k r = 0x81 ∷ 0 ∷ 0 ∷ 0 ∷ (replicate k 0 ++ r)

  -- What stands in the array when the head and the payload are written.
  abbrev framed : Bytes → ℕ → Bytes → Option (Bool × Bytes)
  framed front j r = some (true, front ++ (s ++ (replicate j 0 ++ r)))

  module _ (k : ℕ) (r : Bytes) (room : length s + 18 ≤ k + 4) where
    add_head_short :
        length s < 126
        → add_head (s ++ more) (length s) (cleared k r)
          ≡ framed (0x81 ∷ length s ∷ []) (k + 2 - length s) r
    unfolding add_head store
    add_head_short h =
        let small : ltb (length s) 126 ≡ true = ground arith in
        let front : Bytes = 0x81 ∷ length s ∷ [] in
        let ended =
          store_zeros front r (suc (suc k)) (length s + 2 + 4 + 8 + 1) (omega arith)
            (omega arith) in
        rw (small, ended, add_payload-append front r (suc (suc k)) 2 refl (omega arith))
          (ap (λ j. framed front j r) (omega arith))

    add_head_long :
        126 ≤ length s
        → length s < 0xFFFF
        → add_head (s ++ more) (length s) (cleared k r)
          ≡ framed (0x81 ∷ 126 ∷ length s / 256 ∷ length s % 256 ∷ []) (k - length s) r
    unfolding add_head store
    add_head_long h h' =
        let big : ltb (length s) 126 ≡ false = ground arith in
        let medium : (ltb 125 (length s) && ltb (length s) 0xFFFF) ≡ true = ground arith in
        let (high, low) = short_bytes (length s) (omega arith) in
        let front : Bytes = 0x81 ∷ 126 ∷ length s / 256 ∷ length s % 256 ∷ [] in
        let ended = store_zeros front r k (length s + 2 + 4 + 8 + 3) (omega arith) (omega arith) in
        rw (big, medium, high, low, ended, add_payload-append front r k 4 refl (omega arith))

    add_head_0xFFFF :
        length s ≡ 0xFFFF
        → add_head (s ++ more) (length s) (cleared k r) ≡ framed (0x81 ∷ []) (k + 3 - length s) r
    unfolding add_head
    add_head_0xFFFF h =
        let big : ltb (length s) 126 ≡ false = ground arith in
        let not_medium : (ltb 125 (length s) && ltb (length s) 0xFFFF) ≡ false = ground arith in
        let not_more : ltb 0xFFFF (length s) ≡ false = ground arith in
        let front : Bytes = 0x81 ∷ [] in
        rw
          (
            big,
            not_medium,
            not_more,
            add_payload-append front r (suc (suc (suc k))) 1 refl (omega arith),
          )
          (ap (λ j. framed front j r) (omega arith))

    add_head_beyond :
        0xFFFF < length s
        → add_head (s ++ more) (length s) (cleared k r)
          ≡ framed (0x81 ∷ 127 ∷ []) (k + 2 - length s) r
    unfolding add_head store
    add_head_beyond h =
        let big : ltb (length s) 126 ≡ false = ground arith in
        let not_medium : (ltb 125 (length s) && ltb (length s) 0xFFFF) ≡ false = ground arith in
        let beyond : ltb 0xFFFF (length s) ≡ true = ground arith in
        let front : Bytes = 0x81 ∷ 127 ∷ [] in
        rw (big, not_medium, beyond, add_payload-append front r (suc (suc k)) 2 refl (omega arith))
          (ap (λ j. framed front j r) (omega arith))

  clear_start :
      (answer : Bytes) (k : ℕ)
      → k + 4 ≤ length answer
      → let len = suc (suc (suc (suc k))) in
        package_add_head (s ++ more) (pos (length s)) answer len
        ≡ add_head (s ++ more) (length s) (cleared k (drop len answer))
  unfolding package_add_head store
  clear_start answer k h = rw (clear-replicate answer (suc (suc (suc (suc k)))) (omega arith))

  -- With room for the longest head and the bytes cleared behind it, the reply is the RFC's head
  -- for a payload shorter than 0xFFFF bytes, the payload, and NULs to the end of what is cleared.
  pub package_add_head-head :
      (answer : Bytes) (len : ℕ)
      → length s < 0xFFFF
      → length s + 18 ≤ len
      → len ≤ length answer
      → package_add_head (s ++ more) (pos (length s)) answer len
        ≡ some (
          true,
          head (length s)
              ++ (s
                  ++ (replicate (len - length (head (length s)) - length s) 0 ++ drop len answer)),
        )
  package_add_head-head answer (suc (suc (suc (suc k)))) h room fits =
      let r = drop (suc (suc (suc (suc k)))) answer in
      elim (Bool-cases (ltb (length s) 126)) [
        | inl small ↦
            rw
              (
                small,
                clear_start answer k (omega arith),
                add_head_short k r (omega arith) (ground arith),
              )
              (ap (λ j. framed (0x81 ∷ length s ∷ []) j r) (omega arith))
        | inr big ↦
            rw
              (
                big,
                clear_start answer k (omega arith),
                add_head_long k r (omega arith) (ground arith) h,
              )
              (ap (λ j. framed (0x81 ∷ 126 ∷ length s / 256 ∷ length s % 256 ∷ []) j r)
                (omega arith))
      ]
  package_add_head-head answer _ h room fits = absurd (omega arith)

  -- With the same room, a payload of 0xFFFF bytes or more is sent with no length: its first byte
  -- stands where the length belongs, or behind the mark 127 of an eight-byte length.
  pub package_add_head_unsized :
      (answer : Bytes) (len : ℕ)
      → 0xFFFF ≤ length s
      → length s + 18 ≤ len
      → len ≤ length answer
      → let front : Bytes = if length s == 0xFFFF then 0x81 ∷ [] else 0x81 ∷ 127 ∷ [] in
        package_add_head (s ++ more) (pos (length s)) answer len
        ≡ some
            (true, front ++ (s ++ (replicate (len - length front - length s) 0 ++ drop len answer)))
  package_add_head_unsized answer (suc (suc (suc (suc k)))) h room fits =
      let r = drop (suc (suc (suc (suc k)))) answer in
      elim (Bool-cases (length s == 0xFFFF)) [
        | inl same ↦
            rw
              (
                same,
                clear_start answer k (omega arith),
                add_head_0xFFFF k r (omega arith) (ground arith),
              )
              (ap (λ j. framed (0x81 ∷ []) j r) (omega arith))
        | inr more_bytes ↦
            rw
              (
                more_bytes,
                clear_start answer k (omega arith),
                add_head_beyond k r (omega arith) (ground arith),
              )
              (ap (λ j. framed (0x81 ∷ 127 ∷ []) j r) (omega arith))
      ]
  package_add_head_unsized answer _ h room fits = absurd (omega arith)
