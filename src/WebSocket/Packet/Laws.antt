-- ===== src/WebSocket/Packet/Laws.antt =====
-- `ReadPacket` on the frames of RFC 6455 with a text payload.
use left_my_codes.Base.{
  ℕ, suc, ◌+◌, ◌/◌, ◌%◌, ◌≤◌, ◌<◌, ◌≡◌, refl, ap, ◌∙◌, inl, inr, true, false, some, [], ◌∷◌, ◌++◌,
  arith, ltb, leb, ◌==◌, Bool-cases, ◌>>=◌, length, drop, drop-length-append, Bytes, slice-append,
  store-end, clear-in, overwrite-start,
}
use native.Mathlib.Nat.{zero-add}
use left_my_codes.WebSocket.Mask.{deciphering_str}
use left_my_codes.WebSocket.Mask.Laws.{masked, masked-masked, length-masked, deciphering_str-masked}
use left_my_codes.WebSocket.Packet.{WebSkt, read_head, give_answer, read_payload, read_packet}
use left_my_codes.WebSocket.Packet.Head.{
  length_field, text_skt, read_head_short, read_head_masked, read_head_unmasked,
}

-- A payload shorter than the array is given whole, with a NUL behind it.
give_answer-append :
    (s back answer : Bytes) (len : ℕ)
    → length s < len
    → len ≤ length answer
    → give_answer (s ++ back) (length s) answer len
      ≡ some (true, s ++ 0 ∷ drop (suc (length s)) answer)
unfolding give_answer
give_answer-append s back answer len h room =
    let fits : leb (length s) len ≡ true = ground arith in
    let short : ltb (length s) len ≡ true = ground arith in
    rw (
      fits,
      slice-append [] s back 0 (length s) refl refl,
      overwrite-start answer s (omega arith),
      short,
      store-end s answer (length s) 0 refl (omega arith),
    )

-- The rest of the function for a frame with a key, whose payload is behind `front`.
read_payload_keyed :
    (stack front s rest key answer : Bytes) (buf_len len off : ℕ)
    → length stack ≡ 1024
    → length key ≡ 4
    → off ≡ length front
    → 0 < length s
    → length s < 1024
    → length s ≤ buf_len
    → length s < len
    → len ≤ length answer
    → read_payload stack
        (front ++ (masked key 0 s ++ rest))
        buf_len
        (text_skt true (length s) key off)
        answer
        len
      ≡ some (true, s ++ 0 ∷ drop (suc (length s)) answer)
unfolding read_payload
read_payload_keyed stack front s rest key answer buf_len len off st k e nonempty small whole h
      room =
    let accepted : ltb buf_len (length s) ≡ false = ground arith in
    let some_bytes : (length s == 0) ≡ false = ground arith in
    let n = length-masked key 0 s in
    let plain : deciphering_str (masked key 0 s ++ rest) (length s) key stack 1024
        ≡ some (true, s ++ 0 ∷ drop (suc (length s)) stack) =
      rw (n, masked-masked) at
        (deciphering_str-masked key (masked key 0 s) rest stack 1024 k (omega arith)
          (omega arith)) in
    rw (
      accepted,
      some_bytes,
      e,
      drop-length-append front (masked key 0 s ++ rest),
      plain,
      give_answer-append s (0 ∷ drop (suc (length s)) stack) answer len h room,
    )

read_payload_bare :
    (stack front s rest key answer : Bytes) (buf_len len off : ℕ)
    → length stack ≡ 1024
    → off ≡ length front
    → 0 < length s
    → length s ≤ 1024
    → length s ≤ buf_len
    → length s < len
    → len ≤ length answer
    → read_payload stack
        (front ++ (s ++ rest))
        buf_len
        (text_skt false (length s) key off)
        answer
        len
      ≡ some (true, s ++ 0 ∷ drop (suc (length s)) answer)
unfolding read_payload
read_payload_bare stack front s rest key answer buf_len len off st e nonempty small whole h room =
    let accepted : ltb buf_len (length s) ≡ false = ground arith in
    let some_bytes : (length s == 0) ≡ false = ground arith in
    let (zeros, cleared, l) = clear-in stack 1024 (omega arith) in
    let copied = overwrite-start zeros s (omega arith) in
    rw (
      accepted,
      some_bytes,
      cleared,
      slice-append front s rest off (length s) e refl,
      copied,
      give_answer-append s (drop (length s) zeros) answer len h room,
    )

pub read_packet_step :
    (stack buf answer : Bytes) (buf_len len : ℕ) {skt : WebSkt}
    → read_head buf ≡ some skt
    → read_packet stack buf buf_len answer len ≡ read_payload stack buf buf_len skt answer len
unfolding read_packet
read_packet_step stack buf answer buf_len len e =
    ap (λ r. r >>= λ skt. read_payload stack buf buf_len skt answer len) e

-- A final text frame with the payload `s` as a client sends it, under a key of four bytes.
abbrev pub client_frame : Bytes → Bytes → Bytes
client_frame key s = (0x81 ∷ length_field 128 (length s)) ++ (key ++ masked key 0 s)

-- For every text frame from a client with a key and 1 to 1023 bytes of payload, wherever it
-- stands in a larger array, `ReadPacket` answers with the payload unmasked and a NUL, and leaves
-- the rest of the answer. The payload has to fit the length that the caller gives and, with the
-- NUL, the answer.
pub read_packet-client :
    (stack s rest answer : Bytes) (k l m o buf_len len : ℕ)
    → length stack ≡ 1024
    → 0 < length s
    → length s < 1024
    → length s ≤ buf_len
    → length s < len
    → len ≤ length answer
    → read_packet stack (client_frame (k ∷ l ∷ m ∷ o ∷ []) s ++ rest) buf_len answer len
      ≡ some (true, s ++ 0 ∷ drop (suc (length s)) answer)
read_packet-client stack s rest answer k l m o buf_len len st nonempty small whole h room =
    let key : Bytes = k ∷ l ∷ m ∷ o ∷ [] in
    let n = length s in
    elim (Bool-cases (ltb n 126)) [
      | inl short ↦
          let b : leb 128 (128 + n) ≡ true = ground arith in
          let c : (128 + n) % 128 ≡ n = ground arith in
          let front : Bytes = 0x81 ∷ (128 + n) ∷ key in
          let text = masked key 0 s ++ rest in
          let head : read_head (front ++ text) ≡ some (text_skt true n key 6) =
            rw (b, c) at (read_head_short (128 + n) k l m o text (ground arith) (ground arith)) in
          rw short (
            read_packet_step stack (front ++ text) answer buf_len len head
            ∙ read_payload_keyed stack front s rest key answer buf_len len 6 st refl refl nonempty
                small whole h room)
      | inr long ↦
          let front : Bytes = 0x81 ∷ 254 ∷ n / 256 ∷ n % 256 ∷ key in
          let text = masked key 0 s ++ rest in
          rw long (
            read_packet_step stack (front ++ text) answer buf_len len
              (read_head_masked n k l m o text (omega arith))
            ∙ read_payload_keyed stack front s rest key answer buf_len len 8 st refl refl nonempty
                small whole h room)
    ]

unmasked_head :
    (n : ℕ) (b : Bytes)
    → n < 126
    → 4 ≤ length b
    → (key : Bytes) × (read_head (0x81 ∷ n ∷ b) ≡ some (text_skt false n key 2))
unmasked_head n (k ∷ l ∷ m ∷ o ∷ b) h four =
    let plain : leb 128 n ≡ false = ground arith in
    let c : n % 128 ≡ n = ground arith in
    (k ∷ l ∷ m ∷ o ∷ [], rw (plain, c) at (read_head_short n k l m o b (omega arith) (omega arith)))
unmasked_head n _ h four = absurd (omega arith)

-- The same for an unmasked text frame, with 1 to 1024 bytes of payload. The code reads four
-- bytes behind a short length for a key, so there have to be as many.
pub read_packet-server :
    (stack s rest answer : Bytes) (buf_len len : ℕ)
    → length stack ≡ 1024
    → 0 < length s
    → length s ≤ 1024
    → 4 ≤ length (s ++ rest)
    → length s ≤ buf_len
    → length s < len
    → len ≤ length answer
    → read_packet stack ((0x81 ∷ length_field 0 (length s)) ++ (s ++ rest)) buf_len answer len
      ≡ some (true, s ++ 0 ∷ drop (suc (length s)) answer)
read_packet-server stack s rest answer buf_len len st nonempty small four whole h room =
    let n = length s in
    elim (Bool-cases (ltb n 126)) [
      | inl short ↦
          let front : Bytes = 0x81 ∷ n ∷ [] in
          let (key, head) = unmasked_head n (s ++ rest) (ground arith) four in
          rw (short, zero-add)
            (read_packet_step stack (front ++ (s ++ rest)) answer buf_len len head
              ∙ read_payload_bare stack front s rest key answer buf_len len 2 st refl nonempty small
                  whole h room)
      | inr long ↦
          let front : Bytes = 0x81 ∷ 126 ∷ n / 256 ∷ n % 256 ∷ [] in
          rw long (
            read_packet_step stack (front ++ (s ++ rest)) answer buf_len len
              (read_head_unmasked n (s ++ rest) (omega arith))
            ∙ read_payload_bare stack front s rest (0 ∷ 0 ∷ 0 ∷ 0 ∷ []) answer buf_len len 4 st refl
                nonempty small whole h room)
    ]
