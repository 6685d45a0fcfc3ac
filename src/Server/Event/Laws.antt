-- ===== src/Server/Event/Laws.antt =====
-- `socket_read_cb` over libevent: what is written for a packet.
use left_my_codes.Base.{
  take_all, ℕ, zero, suc, ◌+◌, ◌-◌, ◌/◌, ◌≤◌, ◌<◌, ◌≡◌, refl, ◌∙◌, inl, inr, Bool, true, false,
  some, List, [], ◌∷◌, ◌++◌, arith, ltb, ◌==◌, if◌then◌else◌, Bool-cases, length, drop, replicate,
  length-append, length-drop, length-replicate, Bytes, store, overwrite, store-end, overwrite-start,
  c_str, IsText, c_str-append,
}
use left_my_codes.Time.{Tm, print_time}
use left_my_codes.Time.Laws.{IsTm, length-print_time}
use left_my_codes.WebSocket.Packet.Laws.{client_frame}
use left_my_codes.WebSocket.Packet.Head.{length_field}
use left_my_codes.WebSocket.Mask.Laws.{masked, length-masked}
use left_my_codes.Server.Reply.{print_recv, is_request, respond, rt_msg_size, msg_size}
use left_my_codes.Server.Reply.Laws.{
  digits_number, length-print_recv, print_recv-IsText, reply_text, reply_frame, respond-client,
}
use left_my_codes.Server.Event.{socket_read_cb}

-- The array `msg` with what was received, and a NUL behind it.
received_array :
    (received : Bytes)
    → length received ≤ 4095
    → (more : Bytes) × (length (received ++ 0 ∷ more) ≡ 4096)
      × (overwrite (replicate msg_size 0) 0 received
          ≡ some (received ++ drop (length received) (replicate msg_size 0)))
      × (store (received ++ drop (length received) (replicate msg_size 0)) (length received) 0
          ≡ some (received ++ 0 ∷ more))
received_array received h =
    let n = length received in
    let zeros : Bytes = replicate msg_size 0 in
    let l : length zeros ≡ 4096 = length-replicate {A = ℕ} msg_size 0 in
    (
      drop (suc n) zeros,
      omega (arith, length-append received (0 ∷ drop (suc n) zeros), length-drop (suc n) zeros),
      overwrite-start zeros received (omega arith),
      store-end received zeros n 0 refl (omega arith),
    )

-- The bytes before the first NUL.
abbrev pub until_nul : Bytes → Bytes
until_nul [] = []
until_nul (c ∷ b) = let rest = until_nul b in if c == 0 then [] else c ∷ rest

pub c_str-until_nul : (b more : Bytes) → c_str (b ++ 0 ∷ more) ≡ some (until_nul b)
unfolding c_str
c_str-until_nul [] more = refl
c_str-until_nul (c ∷ b) more = ground (arith, c_str-until_nul b more)

zeros_cons : (k : ℕ) → 0 < k → (rest : Bytes) × (replicate k 0 ≡ 0 ∷ rest)
zeros_cons zero h = absurd (omega arith)
zeros_cons (suc k) h = (replicate k 0, refl)

module _ (sha1 : Bytes → List ℕ) (base64_encode : Bytes → ℕ → Bytes) (localtime : ℕ → Tm) (now : ℕ)
    (stack : Bytes) where
  -- What is written is the C string in `RtMsg`.
  pub socket_read_cb-respond :
      (received frame : Bytes) {ok : Bool}
      → length received ≤ 4095
      → ((more : Bytes)
          → length (received ++ 0 ∷ more) ≡ 4096
          → respond sha1 base64_encode localtime now stack
              (received ++ 0 ∷ more)
              (length received)
              (replicate rt_msg_size 0)
            ≡ some (ok, frame))
      → socket_read_cb sha1 base64_encode localtime now stack received ≡ c_str frame
  unfolding socket_read_cb
  socket_read_cb-respond received frame h done =
      let (more, size, copied, ended) = received_array received h in
      rw (take_all received 4095 h, copied, ended, done more size)

  module _ (valid : IsTm (localtime now)) (s : Bytes) (k l m o : ℕ) where
    abbrev frame_of : Bytes
    frame_of = client_frame (k ∷ l ∷ m ∷ o ∷ []) s

    pub length-frame : (length s ≤ length frame_of) × (length frame_of ≤ 8 + length s)
    length-frame =
        let key : Bytes = k ∷ l ∷ m ∷ o ∷ [] in
        let total = length-append (length_field 128 (length s)) (key ++ masked key 0 s) in
        let body = length-masked key 0 s in
        elim (Bool-cases (ltb (length s) 126)) [
          | inl short ↦ ground (arith, short, total, body)
          | inr long ↦ ground (arith, long, total, body)
        ]

    socket_read_cb-frame :
        IsText s
        → 0 < length s
        → length s ≤ 972
        → length stack ≡ 1024
        → is_request (until_nul frame_of) ≡ false
        → socket_read_cb sha1 base64_encode localtime now stack frame_of
          ≡ c_str (reply_frame localtime now valid sha1 base64_encode stack s)
    socket_read_cb-frame h nonempty small st packet =
        let short : length frame_of ≤ 4095 = omega (arith, length-frame) in
        socket_read_cb-respond frame_of (reply_frame localtime now valid sha1 base64_encode stack s)
          short
          (λ more size.
            respond-client localtime now valid sha1 base64_encode stack s (0 ∷ more)
              (replicate rt_msg_size 0) (until_nul frame_of) k l m o (length frame_of) h nonempty
              small st (length-frame.0) size (length-replicate {A = ℕ} rt_msg_size 0)
              (c_str-until_nul frame_of more) packet)

    -- The size of the reply: 30 bytes, the digits of the length, and the payload.
    reply_size :
        length s ≤ 972
        → length (reply_text localtime now valid sha1 base64_encode stack s)
          ≡ 30 + digits_number (length s) + length s
    reply_size small =
        let t = localtime now in
        length-print_recv (print_time t) s (length-print_time t valid) (omega arith)

    reply_of : Bytes
    reply_of = print_recv (print_time (localtime now)) s

    socket_read_cb-echo_frame :
        IsText s
        → 0 < length s
        → length s ≤ 93
        → length stack ≡ 1024
        → is_request (until_nul frame_of) ≡ false
        → socket_read_cb sha1 base64_encode localtime now stack frame_of
          ≡ some (0x81 ∷ length reply_of ∷ reply_of)
    unfolding reply_of
    socket_read_cb-echo_frame h nonempty small st packet =
        let n = length reply_of in
        let size : n < 126 = ground (arith, reply_size (omega arith)) in
        let big : 30 ≤ n = ground (arith, reply_size (omega arith)) in
        let short : ltb n 126 ≡ true = ground arith in
        let (rest, zeros) = zeros_cons (rt_msg_size - 2 - n) (omega arith) in
        let text : IsText (0x81 ∷ n ∷ reply_of) =
          (omega arith, (omega arith, print_recv-IsText (localtime now) s h)) in
        socket_read_cb-frame h nonempty (omega arith) st packet
        ∙ rw (short, zeros) (c_str-append (0x81 ∷ n ∷ reply_of) rest text)

    socket_read_cb-cut_frame :
        IsText s
        → 94 ≤ length s
        → length s ≤ 222
        → length stack ≡ 1024
        → is_request (until_nul frame_of) ≡ false
        → socket_read_cb sha1 base64_encode localtime now stack frame_of ≡ some (0x81 ∷ 126 ∷ [])
    unfolding reply_of c_str
    socket_read_cb-cut_frame h low high st packet =
        let n = length reply_of in
        let size : (126 ≤ n) × (n < 256) = ground (arith, reply_size (omega arith)) in
        let long : ltb n 126 ≡ false = ground arith in
        let none_high : n / 256 ≡ 0 = omega arith in
        socket_read_cb-frame h (omega arith) (omega arith) st packet ∙ rw (long, none_high) refl

-- A client's packet with a key and 1 to 93 bytes of text, no NUL among them, that does not pass for
-- a handshake: what is written back is one whole frame, the head with the length and the text
-- "Recv: ", the length of the payload, the time and the payload itself.
pub socket_read_cb-echo :
    (sha1 : Bytes → List ℕ) (base64_encode : Bytes → ℕ → Bytes) (localtime : ℕ → Tm) (now : ℕ)
    (stack s : Bytes) (k l m o : ℕ)
    → IsTm (localtime now)
    → IsText s
    → 0 < length s
    → length s ≤ 93
    → length stack ≡ 1024
    → is_request (until_nul (client_frame (k ∷ l ∷ m ∷ o ∷ []) s)) ≡ false
    → let reply = print_recv (print_time (localtime now)) s in
      socket_read_cb sha1 base64_encode localtime now stack (client_frame (k ∷ l ∷ m ∷ o ∷ []) s)
      ≡ some (0x81 ∷ length reply ∷ reply)
unfolding reply_of
socket_read_cb-echo sha1 base64_encode localtime now stack s k l m o valid =
    socket_read_cb-echo_frame sha1 base64_encode localtime now stack valid s k l m o

-- The same with 94 to 222 bytes: the higher byte of the reply's length is 0, and `strlen` ends the
-- reply there, so two bytes are written and nothing of the text.
pub socket_read_cb-cut :
    (sha1 : Bytes → List ℕ) (base64_encode : Bytes → ℕ → Bytes) (localtime : ℕ → Tm) (now : ℕ)
    (stack s : Bytes) (k l m o : ℕ)
    → IsTm (localtime now)
    → IsText s
    → 94 ≤ length s
    → length s ≤ 222
    → length stack ≡ 1024
    → is_request (until_nul (client_frame (k ∷ l ∷ m ∷ o ∷ []) s)) ≡ false
    → socket_read_cb sha1 base64_encode localtime now stack (client_frame (k ∷ l ∷ m ∷ o ∷ []) s)
      ≡ some (0x81 ∷ 126 ∷ [])
socket_read_cb-cut sha1 base64_encode localtime now stack s k l m o valid =
    socket_read_cb-cut_frame sha1 base64_encode localtime now stack valid s k l m o
