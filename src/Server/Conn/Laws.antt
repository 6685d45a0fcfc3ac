-- ===== src/Server/Conn/Laws.antt =====
-- `OneConn`: its rounds against the variant over libevent, and its loop.
use left_my_codes.Base.{
  take_all, print_room, IsPlain, All-imp, ℕ, zero, suc, ◌-◌, ◌≤◌, ◌<◌, ◌≡◌, refl, sym, ◌∙◌, ◌⊎◌,
  inl, inr, Bool, false, Option, none, some, List, [], ◌∷◌, ◌++◌, arith, Option-cases, ◌>>=◌,
  length, take, drop, replicate, length-replicate, Bytes, overwrite, store-end, overwrite-start,
  c_str, IsText, c_str-append, print_plain, print_plain-eq, >>=-eq-some, All,
}
use left_my_codes.Time.{Tm, print_time}
use left_my_codes.Time.Laws.{IsTm, length-print_time}
use left_my_codes.Server.Reply.{respond, msg_size, rt_msg_size, print_size, is_request, print_recv}
use left_my_codes.Server.Reply.Laws.{length-print_recv}
use left_my_codes.Server.Event.{socket_read_cb}
use left_my_codes.Server.Event.Laws.{length-frame, until_nul, socket_read_cb-echo}
use left_my_codes.Server.Conn
use left_my_codes.Server.Conn.{Recv, Round, socket_error, received, one_conn_round, one_conn}
use left_my_codes.WebSocket.Packet.Laws.{client_frame}

drop_zeros : (k n : ℕ) → k < n → (rest : Bytes) × (drop k (replicate n 0) ≡ 0 ∷ rest)
drop_zeros k zero h = absurd (omega arith)
drop_zeros zero (suc n) h = (replicate n 0, refl)
drop_zeros (suc k) (suc n) h = drop_zeros k n (omega arith)

-- What is done with the result of two steps can be done behind them.
two_steps :
    {A B C D : Type 0} (m : Option A) (f : A → Option B) (g : B → C) (k : C → Option D)
    → (m >>= (λ a. f a >>= λ b. some (g b)) >>= k) ≡ (m >>= λ a. f a >>= λ b. k (g b))
two_steps none f g k = refl
two_steps (some a) f g k = elim (Option-cases (f a)) [
  | inl fault ↦ rw fault refl
  | inr (b, e) ↦ rw e refl
]

module _ (sha1 : Bytes → List ℕ) (base64_encode : Bytes → ℕ → Bytes) (localtime : ℕ → Tm) (now : ℕ)
    (stack : Bytes) where
  abbrev zeros : Bytes
  zeros = replicate msg_size 0

  abbrev reply_to : Bytes → Option (Bool × Bytes)
  reply_to b =
      respond sha1 base64_encode localtime now stack (b ++ 0 ∷ drop (suc (length b)) zeros)
        (length b) (replicate rt_msg_size 0)

  -- Both variants give the shared part the same array.
  event_reply :
      (b : Bytes)
      → length b ≤ 4068
      → socket_read_cb sha1 base64_encode localtime now stack b ≡ (reply_to b >>= λ r. c_str r.1)
  unfolding socket_read_cb
  event_reply b h =
      let l = length-replicate {A = ℕ} msg_size 0 in
      rw
        (
          take_all b 4095 (omega arith),
          overwrite-start zeros b (omega arith),
          store-end b zeros (length b) 0 refl (omega arith),
        )
        refl

  print_out : Bytes → Bytes → Option (Bytes × Option Bytes)
  print_out out_buf answer = do
    printed ← print_plain answer
    out_buf ← overwrite out_buf 0 (take (print_size - 1) printed ++ 0 ∷ [])
    sent ← c_str out_buf
    some (out_buf, some sent)

  conn_reply :
      (in_buf b out_buf w : Bytes) {ok : Bool} {rt_msg : Bytes}
      → c_str in_buf ≡ some b
      → IsPlain b
      → length b ≤ 4068
      → reply_to b ≡ some (ok, rt_msg)
      → c_str rt_msg ≡ some w
      → Conn.socket_read_cb sha1 base64_encode localtime now stack in_buf out_buf ≡ (do
        printed ← print_plain w
        out_buf ← overwrite out_buf 0 (take (print_size - 1) printed ++ 0 ∷ [])
        some (ok, out_buf))
  unfolding Conn.socket_read_cb
  conn_reply in_buf b out_buf w {ok = ok} {rt_msg = rt_msg} asked plain fits reply text =
      let l = length-replicate {A = ℕ} msg_size 0 in
      let as_it_is = print_plain-eq b (All-imp b (λ c p. p.1) plain) in
      let msg = print_room b zeros 4069 (omega arith) (omega arith) in
      let back = c_str-append b (drop (suc (length b)) zeros) (All-imp b (λ c p. p.0) plain) in
      rw (asked, as_it_is, msg, back, reply, text) refl

  one_conn-reply :
      (b out_buf w : Bytes) {ok : Bool} {rt_msg : Bytes}
      → IsPlain b
      → 0 < length b
      → length b ≤ 4068
      → reply_to b ≡ some (ok, rt_msg)
      → c_str rt_msg ≡ some w
      → one_conn_round sha1 base64_encode localtime now stack out_buf (received b)
        ≡ print_out out_buf w
  unfolding one_conn_round print_out
  one_conn-reply [] out_buf w plain nonempty fits reply text = absurd (omega arith)
  one_conn-reply (c ∷ more) out_buf w {ok = ok} plain nonempty fits reply text =
      let b = c ∷ more in
      let l = length-replicate {A = ℕ} msg_size 0 in
      let (rest, zeros_behind) = drop_zeros (length b) msg_size (omega arith) in
      let copied = overwrite-start zeros b (omega arith) in
      let text_of : c_str (b ++ 0 ∷ rest) ≡ some b =
        c_str-append b rest (All-imp b (λ c p. p.0) plain) in
      let done = conn_reply (b ++ 0 ∷ rest) b out_buf w text_of plain fits reply text in
      rw (take_all more 4095 (omega arith), copied, zeros_behind, done)
        (two_steps (print_plain w)
          (λ printed. overwrite out_buf 0 (take (print_size - 1) printed ++ 0 ∷ []))
          (λ out_buf. (ok, out_buf)) (λ r. c_str r.1 >>= λ answer. some (r.1, some answer)))

  -- What `OneConn` sends of an answer that is its own format, with room in `OutBuf`.
  print_out-plain :
      (out_buf w : Bytes)
      → IsPlain w
      → length w ≤ 4068
      → 4069 ≤ length out_buf
      → print_out out_buf w ≡ some (w ++ 0 ∷ drop (suc (length w)) out_buf, some w)
  unfolding print_out
  print_out-plain out_buf w plain small room = rw (
    print_plain-eq w (All-imp w (λ c p. p.1) plain),
    print_room w out_buf 4069 (omega arith) room,
    c_str-append w (drop (suc (length w)) out_buf) (All-imp w (λ c p. p.0) plain),
  )

  one_conn-Event :
      (b out_buf w : Bytes)
      → IsPlain b
      → 0 < length b
      → length b ≤ 4068
      → socket_read_cb sha1 base64_encode localtime now stack b ≡ some w
      → one_conn_round sha1 base64_encode localtime now stack out_buf (received b)
        ≡ print_out out_buf w
  one_conn-Event b out_buf w plain nonempty fits event =
      let (r, reply, text) =
        >>=-eq-some (reply_to b) (λ r. c_str r.1) (sym (event_reply b fits) ∙ event) in
      one_conn-reply b out_buf w plain nonempty fits reply text

  round_closed :
      (out_buf : Bytes) (recv : Recv)
      → (recv ≡ socket_error) ⊎ (recv ≡ received [])
      → one_conn_round sha1 base64_encode localtime now stack out_buf recv ≡ some (out_buf, none)
  unfolding one_conn_round
  round_closed out_buf recv (inl failed) = rw failed refl
  round_closed out_buf recv (inr closed) = rw closed refl

-- For a message with no NUL and no `%` of 1 to 4068 bytes, to which the variant over libevent writes
-- an answer with no NUL and no `%` of at most 4068 bytes, a round of `OneConn` sends this answer
-- too, and it is what `OutBuf` holds then.
pub one_conn_round-plain :
    (sha1 : Bytes → List ℕ) (base64_encode : Bytes → ℕ → Bytes) (localtime : ℕ → Tm) (now : ℕ)
    (stack b out_buf w : Bytes)
    → IsPlain b
    → 0 < length b
    → length b ≤ 4068
    → socket_read_cb sha1 base64_encode localtime now stack b ≡ some w
    → IsPlain w
    → length w ≤ 4068
    → 4069 ≤ length out_buf
    → one_conn_round sha1 base64_encode localtime now stack out_buf (received b)
      ≡ some (w ++ 0 ∷ drop (suc (length w)) out_buf, some w)
one_conn_round-plain sha1 base64_encode localtime now stack b out_buf w plain nonempty fits event
      plain_w small room =
    one_conn-Event sha1 base64_encode localtime now stack b out_buf w plain nonempty fits event
    ∙ print_out-plain sha1 base64_encode localtime now stack out_buf w plain_w small room

-- A client's packet with a key and 6 bytes of text, no NUL and no `%` in the packet, that does not
-- pass for a handshake: the length in the head of the reply is 37, the code of `%`, and the reply
-- is the format of the last `snprintf`, so the round of `OneConn` asks for an argument that is not
-- there.
pub one_conn_round-percent :
    (sha1 : Bytes → List ℕ) (base64_encode : Bytes → ℕ → Bytes) (localtime : ℕ → Tm) (now : ℕ)
    (stack s out_buf : Bytes) (k l m o : ℕ)
    → IsTm (localtime now)
    → IsText s
    → length s ≡ 6
    → length stack ≡ 1024
    → IsPlain (client_frame (k ∷ l ∷ m ∷ o ∷ []) s)
    → is_request (until_nul (client_frame (k ∷ l ∷ m ∷ o ∷ []) s)) ≡ false
    → one_conn_round sha1 base64_encode localtime now stack out_buf
        (received (client_frame (k ∷ l ∷ m ∷ o ∷ []) s))
      ≡ none
unfolding print_out print_recv print_plain
one_conn_round-percent sha1 base64_encode localtime now stack s out_buf k l m o valid text six st
      plain packet =
    let frame = client_frame (k ∷ l ∷ m ∷ o ∷ []) s in
    let reply = print_recv (print_time (localtime now)) s in
    let echo =
      socket_read_cb-echo sha1 base64_encode localtime now stack s k l m o valid text (omega arith)
        (omega arith) st packet in
    let (low, high) = length-frame sha1 base64_encode localtime now stack valid s k l m o in
    let percent : length reply ≡ 37 = ground (
      arith,
      length-print_recv (print_time (localtime now)) s (length-print_time (localtime now) valid)
          (omega arith),
    ) in
    one_conn-Event sha1 base64_encode localtime now stack frame out_buf
      (0x81 ∷ length reply ∷ reply) plain (omega arith) (omega arith) echo
    ∙ rw percent refl

-- `recv` fails, or the peer has closed the connection.
abbrev pub IsClosed : Round → Type 0
IsClosed r = (r.recv ≡ socket_error) ⊎ (r.recv ≡ received [])

-- Once the peer has closed the connection, or `recv` fails, the loop of `OneConn` asks `recv` again
-- however often this happens: it sends nothing in these rounds, and is then where it was before.
pub one_conn-closed :
    (sha1 : Bytes → List ℕ) (base64_encode : Bytes → ℕ → Bytes) (localtime : ℕ → Tm)
    (out_buf : Bytes) (closed later : List Round) {sent : List (Option Bytes)}
    → All IsClosed closed
    → one_conn sha1 base64_encode localtime out_buf later ≡ some sent
    → one_conn sha1 base64_encode localtime out_buf (closed ++ later)
      ≡ some (replicate (length closed) none ++ sent)
unfolding one_conn
one_conn-closed sha1 base64_encode localtime out_buf [] later all h = h
one_conn-closed sha1 base64_encode localtime out_buf (r ∷ closed) later all h =
    rw
      (
        round_closed sha1 base64_encode localtime r.now r.stack out_buf r.recv all.0,
        one_conn-closed sha1 base64_encode localtime out_buf closed later all.1 h,
      )
      refl
