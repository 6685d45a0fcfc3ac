-- ===== src/Server/Reply/Laws.antt =====
-- The shared part of `socket_read_cb`: the reply to a packet.
use left_my_codes.Base.{
  take_all, drop_all, print_room, decimal, decimal-IsPlain, length-decimal, All-imp, ℕ, suc, ◌+◌,
  ◌-◌, ◌≤◌, ◌<◌, ◌≡◌, ◌≢◌, true, false, some, List, [], ◌∷◌, ◌++◌, append_assoc, append-nil, arith,
  ltb, if◌then◌else◌, length, drop, replicate, All, length-append, length-drop, All-append, Bytes,
  read, store, store-in, store-back, codes, c_str, IsText, c_str-append,
}
use left_my_codes.Time.{Tm, print_time, get_time_str}
use left_my_codes.Time.Laws.{IsTm, print_time-IsPlain, length-print_time, get_time_str-print_time}
use left_my_codes.WebSocket.Frame.Laws.{head, package_add_head-head}
use left_my_codes.WebSocket.Packet.Laws.{client_frame, read_packet-client}
use left_my_codes.Server.Reply.{
  print_recv, echo, answer_packet, respond, is_request, rt_msg_size, time_size,
}

-- The digits of a length, as `%d` prints it.
abbrev pub digits_number : ℕ → ℕ
digits_number n = if ltb n 10 then 1 else if ltb n 100 then 2 else if ltb n 1000 then 3 else 4

pub length-print_recv :
    (time s : Bytes)
    → length time ≡ 19
    → length s < 10000
    → length (print_recv time s) ≡ 30 + digits_number (length s) + length s
unfolding print_recv
length-print_recv time s h k = omega (
  arith,
  length-append (decimal (length s)) (codes " " ++ (time ++ (codes " \r\n " ++ s))),
  length-append time (codes " \r\n " ++ s),
  length-decimal (length s) k,
)

pub print_recv-All :
    (P : ℕ → Type 0) (time s : Bytes)
    → All P (codes "Recv:  \r\n ")
    → All P (decimal (length s))
    → All P time
    → All P s
    → All P (print_recv time s)
unfolding print_recv
print_recv-All P time s (a, (b, (c, (d, (e, (f, (g, (h, (i, (j, _)))))))))) digits t text =
    let tail : All P (codes " \r\n " ++ s) = (f, (h, (i, (j, text)))) in
    (
      a,
      (
        b,
        (
          c,
          (
            d,
            (
              e,
              (
                f,
                All-append P (decimal (length s)) (codes " " ++ (time ++ (codes " \r\n " ++ s)))
                    digits (f, All-append P time (codes " \r\n " ++ s) t tail),
              ),
            ),
          ),
        ),
      ),
    )

pub print_recv-IsText : (t : Tm) (s : Bytes) → IsText s → IsText (print_recv (print_time t) s)
print_recv-IsText t s h =
    print_recv-All (λ c. c ≢ 0) (print_time t) s (ground arith)
      (All-imp (decimal (length s)) (λ c p. p.0) (decimal-IsPlain (length s)))
      (All-imp (print_time t) (λ c p. p.0) (print_time-IsPlain t)) h

-- A NUL that is written behind the end of a text leaves the text.
store_behind :
    (s rest : Bytes) (k : ℕ)
    → suc (length s) ≤ k
    → k < suc (length s) + length rest
    → (rest' : Bytes) × (store (s ++ 0 ∷ rest) k 0 ≡ some (s ++ 0 ∷ rest'))
      × (length rest' ≡ length rest)
store_behind s rest k h room =
    let (rest', done, same, _) = store-in rest (k - suc (length s)) 0 (omega arith) in
    let front = s ++ 0 ∷ [] in
    let l : k ≡ length front + (k - suc (length s)) = omega (arith, length-append s (0 ∷ [])) in
    (rest', simp append_assoc at (store-back front rest k (k - suc (length s)) 0 l done), same)

module _ (localtime : ℕ → Tm) (now : ℕ) (valid : IsTm (localtime now)) where
  time_text :
      (time : Bytes) × (get_time_str localtime now (replicate time_size 0) time_size ≡ some time)
      × (c_str time ≡ some (print_time (localtime now)))
  time_text =
      let text = print_time (localtime now) in
      let (whole, written) =
        get_time_str-print_time localtime now 19 (replicate time_size 0) valid (omega arith) in
      let plain = All-imp text (λ c p. p.0) (print_time-IsPlain (localtime now)) in
      (text ++ 0 ∷ [], rw (take_all text 19 (omega arith)) at written, c_str-append text [] plain)

  module _ (sha1 : Bytes → List ℕ) (base64_encode : Bytes → ℕ → Bytes) (stack s : Bytes) where
    -- The reply to a payload, with its head.
    abbrev pub reply_text : Bytes
    reply_text = print_recv (print_time (localtime now)) s

    abbrev pub reply_frame : Bytes
    reply_frame =
        head (length reply_text)
        ++ (reply_text
            ++ replicate (rt_msg_size - length (head (length reply_text)) - length reply_text) 0)

    echo-reply :
        (msg rt_msg : Bytes)
        → IsText s
        → length s ≤ 972
        → length msg ≡ 4096
        → length rt_msg ≡ 1024
        → echo sha1 base64_encode localtime now stack msg (s ++ 0 ∷ drop (suc (length s)) rt_msg)
          ≡ some reply_frame
    unfolding echo
    echo-reply msg rt_msg h small l m =
        let n = length reply_text in
        let t = localtime now in
        let (rest, stored, same) =
          store_behind s (drop (suc (length s)) rt_msg) 1023 (omega arith)
            (omega (arith, length-drop (suc (length s)) rt_msg)) in
        let array = s ++ 0 ∷ rest in
        let whole : length array ≡ 1024 =
          omega (arith, length-append s (0 ∷ rest), length-drop (suc (length s)) rt_msg) in
        let (time, got, text) = time_text in
        let size : n + 18 ≤ 1024 =
          ground
            (arith, length-print_recv (print_time t) s (length-print_time t valid) (omega arith)) in
        let more = drop (suc n) msg in
        let read : c_str (reply_text ++ 0 ∷ more) ≡ some reply_text =
          c_str-append reply_text more (print_recv-IsText t s h) in
        let framed =
          package_add_head-head reply_text (0 ∷ more) array 1024 (omega arith) size (omega arith) in
        rw (
          stored,
          c_str-append s rest h,
          got,
          text,
          print_room reply_text msg 4069 (omega arith) (omega arith),
          read,
          framed,
          drop_all array 1024 (omega arith),
          append-nil,
        )

    pub respond-client :
        (rest rt_msg text : Bytes) (k l m o len : ℕ)
        → (let msg = client_frame (k ∷ l ∷ m ∷ o ∷ []) s ++ rest in
            IsText s
            → 0 < length s
            → length s ≤ 972
            → length stack ≡ 1024
            → length s ≤ len
            → length msg ≡ 4096
            → length rt_msg ≡ 1024
            → c_str msg ≡ some text
            → is_request text ≡ false
            → respond sha1 base64_encode localtime now stack msg len rt_msg
              ≡ some (true, reply_frame))
    unfolding respond answer_packet
    respond-client rest rt_msg text k l m o len h nonempty small st whole size size' read packet =
        let msg = client_frame (k ∷ l ∷ m ∷ o ∷ []) s ++ rest in
        let given =
          read_packet-client stack s rest rt_msg k l m o len 1024 st nonempty (omega arith) whole
            (omega arith) (omega arith) in
        rw (read, packet, given, echo-reply msg rt_msg h small size size')
