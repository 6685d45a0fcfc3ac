-- ===== src/Server/Event/Handshake.antt =====
-- `socket_read_cb` over libevent: the answer to a request for a handshake.
use left_my_codes.Base.{
  All-imp, ℕ, suc, ◌≤◌, ◌<◌, ◌≡◌, ◌∙◌, ◌≢◌, true, some, List, [], ◌∷◌, ◌++◌, arith, ltb, length,
  drop, replicate, All, length-replicate, All-append, Bytes, codes, IsText, c_str-append,
  starts_with, strstr,
}
use left_my_codes.Time.{Tm}
use left_my_codes.WebSocket.Handshake.{per_of_http, suf_of_http}
use left_my_codes.WebSocket.Handshake.Laws.{accept, get_answer_str-accept}
use left_my_codes.Server.Reply.{key_name, key_and_more, is_request, respond, rt_msg_size}
use left_my_codes.Server.Event.{socket_read_cb}
use left_my_codes.Server.Event.Laws.{socket_read_cb-respond}

key_and_more-append :
    (front rest : Bytes) (c : ℕ) → key_and_more (front ++ (key_name ++ c ∷ rest)) ≡ true
unfolding key_and_more starts_with
key_and_more-append [] rest c =
    let room : ltb 17 (length (key_name ++ c ∷ rest)) ≡ true = ground arith in rw room
key_and_more-append (d ∷ front) rest c = ground (arith, key_and_more-append front rest c)

is_request-append :
    (front rest : Bytes) (c : ℕ)
    → 0 < length front
    → is_request (front ++ (key_name ++ c ∷ rest)) ≡ true
unfolding is_request
is_request-append [] rest c h = absurd (omega arith)
is_request-append (d ∷ front) rest c h = key_and_more-append front rest c

http_IsText : IsText per_of_http × IsText suf_of_http
http_IsText = (ground arith, ground arith)

-- A request for a handshake of at most 4095 bytes, in which `Sec-WebSocket-Key` first stands behind
-- other text and before `: ` and a key of 24 characters: what is written back is the response of RFC
-- 6455, and nothing else. The copies of the libraries are taken to give at most 28 characters for
-- the 20 bytes of a digest, none of them a NUL or `%`.
pub socket_read_cb-handshake :
    (sha1 : Bytes → List ℕ) (base64_encode : Bytes → ℕ → Bytes) (localtime : ℕ → Tm) (now : ℕ)
    (stack front key back : Bytes)
    → ((b : Bytes) → All (λ c. (c ≢ 0) × (c ≢ b'%')) (base64_encode b 20))
    → ((b : Bytes) → length (base64_encode b 20) ≤ 28)
    → IsText front
    → IsText key
    → IsText back
    → 0 < length front
    → length key ≡ 24
    → strstr (front ++ (codes "Sec-WebSocket-Key: " ++ (key ++ back))) (codes "Sec-WebSocket-Key")
      ≡ some (length front)
    → length (front ++ (codes "Sec-WebSocket-Key: " ++ (key ++ back))) ≤ 4095
    → socket_read_cb sha1 base64_encode localtime now stack
        (front ++ (codes "Sec-WebSocket-Key: " ++ (key ++ back)))
      ≡ some (per_of_http ++ (accept sha1 base64_encode key ++ suf_of_http))
unfolding respond
socket_read_cb-handshake sha1 base64_encode localtime now stack front key back plain short hf hk hb
      some_front l here fits =
    let request = front ++ (codes "Sec-WebSocket-Key: " ++ (key ++ back)) in
    let field : IsText (codes "Sec-WebSocket-Key: ") = ground arith in
    let request-IsText : IsText request =
      All-append (λ c. c ≢ 0) front _ hf
        (All-append (λ c. c ≢ 0) (codes "Sec-WebSocket-Key: ") _ field
          (All-append (λ c. c ≢ 0) key back hk hb)) in
    let value = accept sha1 base64_encode key in
    let response = per_of_http ++ (value ++ suf_of_http) in
    let zeros : Bytes = replicate rt_msg_size 0 in
    let zeros_length = length-replicate {A = ℕ} rt_msg_size 0 in
    let response-IsText : IsText response =
      All-append (λ c. c ≢ 0) per_of_http _ http_IsText.0
        (All-append (λ c. c ≢ 0) value suf_of_http (All-imp value (λ c p. p.0) (plain _))
          http_IsText.1) in
    let behind = drop (suc (length response)) (zeros ++ drop 1024 zeros) in
    let asked = is_request-append front (b' ' ∷ (key ++ back)) b':' some_front in
    let answered : (more : Bytes)
        → respond sha1 base64_encode localtime now stack (request ++ 0 ∷ more) (length request)
            zeros
          ≡ some (true, response ++ 0 ∷ behind) =
      λ more. rw (
        c_str-append request more request-IsText,
        asked,
        get_answer_str-accept sha1 base64_encode plain short front key back more zeros 1024 hf hk hb
            here l (omega arith) (omega arith),
      ) in
    socket_read_cb-respond sha1 base64_encode localtime now stack request (response ++ 0 ∷ behind)
      fits (λ more size. answered more)
    ∙ c_str-append response behind response-IsText
