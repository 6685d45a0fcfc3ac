-- ===== src/Server/Loop/Session.antt =====
-- A connection over libevent on which a client asks for a WebSocket and then sends texts.
use left_my_codes.Base.{
  ℕ, ◌≤◌, ◌<◌, ◌≡◌, refl, ap, ap₂, ◌∙◌, ◌≢◌, false, some, List, [], ◌∷◌, ◌++◌, map, length, All,
  Bytes, codes, IsText, strstr,
}
use left_my_codes.Time.{Tm, print_time}
use left_my_codes.Time.Laws.{IsTm}
use left_my_codes.WebSocket.Handshake.{per_of_http, suf_of_http}
use left_my_codes.WebSocket.Handshake.Laws.{accept}
use left_my_codes.WebSocket.Packet.Laws.{client_frame}
use left_my_codes.Server.Reply.{is_request, print_recv}
use left_my_codes.Server.Event.Laws.{until_nul, socket_read_cb-echo}
use left_my_codes.Server.Event.Handshake.{socket_read_cb-handshake}
use left_my_codes.Server.Loop.{Event, Loop, Listener, main}
use left_my_codes.Server.Loop.Laws.{messages, replies, answer, IsServed, main-replies}

-- What a client sends, with the time and with what the arrays of the callback happen to hold: a
-- request, by the text before its key, the key, and the text behind it; or a text, under a key of
-- four bytes.
pub data Said : Type 0 where
  asks : ℕ → Bytes → Bytes → Bytes → Bytes → Said
  says : ℕ → Bytes → ℕ → ℕ → ℕ → ℕ → Bytes → Said

abbrev pub request : Bytes → Bytes → Bytes → Bytes
request front key back = front ++ (codes "Sec-WebSocket-Key: " ++ (key ++ back))

abbrev pub sent : Said → ℕ × Bytes × Bytes
sent (asks now stack front key back) = (now, stack, request front key back)
sent (says now stack k l m o s) = (now, stack, client_frame (k ∷ l ∷ m ∷ o ∷ []) s)

somes_inj : (xs ys : List Bytes) → map some xs ≡ map some ys → xs ≡ ys
somes_inj [] [] e = refl
somes_inj [] (y ∷ ys) e = cc
somes_inj (x ∷ xs) [] e = cc
somes_inj (x ∷ xs) (y ∷ ys) e = ap₂ (◌∷◌) (cc) (somes_inj xs ys (cc))

module _ (sha1 : Bytes → List ℕ) (base64_encode : Bytes → ℕ → Bytes) (localtime : ℕ → Tm) where
  -- The response of RFC 6455 to a request; the text that comes back, in a frame of its own.
  abbrev pub reply_to : Said → Bytes
  reply_to (asks now stack front key back) =
      per_of_http ++ (accept sha1 base64_encode key ++ suf_of_http)
  reply_to (says now stack k l m o s) =
      let reply = print_recv (print_time (localtime now)) s in 0x81 ∷ length reply ∷ reply

  -- A request of at most 4095 bytes in which the field of the key first stands before a key of 24
  -- characters; 1 to 93 bytes of text, no NUL among them, that do not pass for a request.
  abbrev pub IsSaid : Said → Type 0
  IsSaid (asks now stack front key back) =
      IsText front
      × IsText key
      × IsText back
      × (0 < length front)
      × (length key ≡ 24)
      × (strstr (request front key back) (codes "Sec-WebSocket-Key") ≡ some (length front))
      × (length (request front key back) ≤ 4095)
  IsSaid (says now stack k l m o s) =
      IsTm (localtime now)
      × IsText s
      × (0 < length s)
      × (length s ≤ 93)
      × (length stack ≡ 1024)
      × (is_request (until_nul (client_frame (k ∷ l ∷ m ∷ o ∷ []) s)) ≡ false)

  module _ (plain : (b : Bytes) → All (λ c. (c ≢ 0) × (c ≢ b'%')) (base64_encode b 20))
      (short : (b : Bytes) → length (base64_encode b 20) ≤ 28) where
    answer-sent :
        (x : Said) → IsSaid x → answer sha1 base64_encode localtime (sent x) ≡ some (reply_to x)
    answer-sent (asks now stack front key back) (hf, hk, hb, some_front, l, here, fits) =
        socket_read_cb-handshake sha1 base64_encode localtime now stack front key back plain short
          hf hk hb some_front l here fits
    answer-sent (says now stack k l m o s) (valid, text, some_text, fits, size, no_request) =
        socket_read_cb-echo sha1 base64_encode localtime now stack s k l m o valid text some_text
          fits size no_request

    answers-sent :
        (xs : List Said)
        → All IsSaid xs
        → map (answer sha1 base64_encode localtime) (map sent xs) ≡ map some (map reply_to xs)
    answers-sent [] h = refl
    answers-sent (x ∷ xs) (now, later) = ap₂ (◌∷◌) (answer-sent x now) (answers-sent xs later)

-- Whatever the other connections do, where libevent calls no callback of a connection behind the
-- one for its end, and each message has an answer: a client each of whose messages is one read, and
-- is a request for a handshake or a frame of text, in any order, gets for each of them, in this
-- order and nothing else, the response of RFC 6455 or a whole frame with the length of its text,
-- the time and the text. A request has at most 4095 bytes, and in it the field of the key stands
-- first behind other text and before `: ` and a key of 24 characters, with no NUL in any of these
-- parts or in what follows. A text has 1 to 93 bytes, no NUL among them, its masked frame does not
-- pass for a request, and the fields of `localtime` are within their ranges, with a year of four
-- digits. The encoding of a digest has at most 28 characters, none of them a NUL or `%`.
pub main-session :
    (sha1 : Bytes → List ℕ) (base64_encode : Bytes → ℕ → Bytes) (localtime : ℕ → Tm)
    (events : List Event) (bev : ℕ) (said : List Said)
    → ((b : Bytes) → All (λ c. (c ≢ 0) × (c ≢ b'%')) (base64_encode b 20))
    → ((b : Bytes) → length (base64_encode b 20) ≤ 28)
    → IsServed sha1 base64_encode localtime [] events
    → messages bev events ≡ map sent said
    → All (IsSaid sha1 base64_encode localtime) said
    → (listener : Listener) × (l : Loop) × (main sha1 base64_encode localtime events
        ≡ some (listener, 0, l))
      × (replies bev l.written ≡ map (reply_to sha1 base64_encode localtime) said)
main-session sha1 base64_encode localtime events bev said plain short served own is =
    let (l, done, left, to) = main-replies sha1 base64_encode localtime events served in
    let told = answers-sent sha1 base64_encode localtime plain short said is in
    (_, l, done, somes_inj _ _ (to bev ∙ ap (map (answer sha1 base64_encode localtime)) own ∙ told))
