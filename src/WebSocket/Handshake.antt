-- ===== src/WebSocket/Handshake.antt =====
-- `CountMagicStr` and `GetAnswerStr` of CompleteConfidence/src/WebSocket.cpp: the answer to a
-- client's opening request. The class `SHA1` and `base64_encode` are the program's copies of other
-- libraries, and parameters here: `sha1` gives the five words of a text's digest.
pub mod Laws
use left_my_codes.Base.{
  ℕ, ◌+◌, ◌-◌, ◌/◌, ◌%◌, Bool, true, false, not, Option, none, some, List, [], ◌∷◌, ◌++◌, ◌==◌,
  if◌then◌else◌, ◌>>=◌, ◌>>◌, length, take, replicate, Bytes, slice, overwrite, clear, codes, c_str,
  strstr, print_plain,
}

-- MAGIC_STR
abbrev pub magic_str : Bytes
magic_str = codes "258EAFA5-E914-47DA-95CA-C5AB0DC85B11"

-- PER_OF_HTTP
abbrev pub per_of_http : Bytes
per_of_http =
    codes "HTTP/1.1 101 Switching Protocols\r\nConnection: Upgrade\r\nSec-WebSocket-Accept: "

-- SUF_OF_HTTP
abbrev pub suf_of_http : Bytes
suf_of_http = codes "\r\nUpgrade: websocket\r\n\r\n"

abbrev pub websocket_key_len : ℕ
websocket_key_len = 24

-- The words after `htonl`, as bytes: the highest byte of each first, on any machine.
abbrev pub network_bytes : List ℕ → Bytes
network_bytes [] = []
network_bytes (w ∷ ws) =
    (w / 0x1000000 % 256) ∷ (w / 0x10000 % 256) ∷ (w / 0x100 % 256) ∷ (w % 256) ∷ network_bytes ws

module _ (sha1 : Bytes → List ℕ) (base64_encode : Bytes → ℕ → Bytes) where
  -- `true` for the pointer `AnswerKey`, `false` for `NULL`, with the array as it was left. The
  -- copy of MAGIC_STR takes its NUL along, and another one is put behind it.
  unfoldable pub count_magic_str : Bytes → Bytes → ℕ → Option (Bool × Bytes)
  count_magic_str ask_key answer_key len = do
    text ← c_str ask_key
    if not (length text == websocket_key_len) then some (false, answer_key) else (do
      key ← slice ask_key 0 websocket_key_len
      request ← c_str (key ++ (magic_str ++ 0 ∷ 0 ∷ []))
      base20 ← c_str (base64_encode (network_bytes (sha1 request)) 20 ++ 0 ∷ [])
      printed ← print_plain base20
      answer_key ← overwrite answer_key 0 (take (len - 1) printed ++ 0 ∷ [])
      some (true, answer_key))

  -- The last lines, with what `CountMagicStr` returned: `NULL` for `%s` is undefined.
  unfoldable pub print_answer : Bytes → ℕ → Bool × Bytes → Option (Bool × Bytes)
  print_answer packet_answer len (false, answer_key) = none
  print_answer packet_answer len (true, answer_key) = do
    key ← c_str answer_key
    packet_answer ←
        overwrite packet_answer 0 (take (len - 1) (per_of_http ++ (key ++ suf_of_http)) ++ 0 ∷ [])
    some (true, packet_answer)

  -- From the test on `webKey` on. The key stands `sizeof("Sec-WebSocket-Key:")` behind, which
  -- counts the literal's NUL and so passes the space behind the colon.
  unfoldable pub answer_key_at : Bytes → Bytes → ℕ → Option ℕ → Option (Bool × Bytes)
  unfolding print_answer
  answer_key_at packet_ask packet_answer len none = some (false, packet_answer)
  answer_key_at packet_ask packet_answer len (some web_key) = do
    key ← slice packet_ask (web_key + 19) websocket_key_len
    packet_answer ← clear packet_answer len
    counted ← count_magic_str (key ++ 0 ∷ []) (replicate 128 0) 128
    print_answer packet_answer len counted

  -- `true` for the pointer `PacketAnswer`, `false` for `NULL`, with the array as it was left.
  unfoldable pub get_answer_str : Bytes → Bytes → ℕ → Option (Bool × Bytes)
  unfolding answer_key_at
  get_answer_str packet_ask packet_answer len = do
    text ← c_str packet_ask
    answer_key_at packet_ask packet_answer len (strstr text (codes "Sec-WebSocket-Key"))
