-- ===== src/WebSocket/Packet.antt =====
-- `ReadPacket` of CompleteConfidence/src/WebSocket.cpp: the payload of a packet from a client.
-- Two bytes read as a `short` are the number with the lower byte first, as on x86.
pub mod Head
pub mod Laws
pub mod Limits
use left_my_codes.Base.{
  ◌||◌, ℕ, ◌+◌, ◌-◌, ◌*◌, ◌/◌, ◌^◌, bit_and, Bool, true, false, not, Option, none, some, [], ◌∷◌,
  ltb, leb, ◌==◌, if◌then◌else◌, ◌>>=◌, ◌>>◌, drop, Bytes, read, store, slice, overwrite, clear,
}
use left_my_codes.WebSocket.Mask.{deciphering_str}

-- `webSkt`, less the two fields that nothing uses
pub record WebSkt : Type 0 where
  pub fin : Bool
  pub opcode : ℕ
  pub mask : Bool
  pub payload_len : ℕ
  pub masking_key : Bytes
  pub word_off : ℕ

-- `*(short*)(buf + i)`
unfoldable pub read_short : Bytes → ℕ → Option ℕ
read_short buf i = do low ← read buf i; high ← read buf (i + 1); some (low + high * 0x100)

-- The four bytes of `Masking_key` from `buf + i` on.
unfoldable pub read_key : Bytes → ℕ → Option Bytes
read_key buf i = do
  a ← read buf i
  b ← read buf (i + 1)
  c ← read buf (i + 2)
  d ← read buf (i + 3)
  some (a ∷ b ∷ c ∷ d ∷ [])

abbrev no_key : Bytes
no_key = 0 ∷ 0 ∷ 0 ∷ 0 ∷ []

-- A length in two bytes, the higher first.
unfoldable pub read_long_len : Bytes → WebSkt → Option WebSkt
unfolding read_short read_key
read_long_len buf skt = do
  len ← read_short buf 2
  key ← (if skt.mask then read_key buf 4 else some skt.masking_key)
  some (record skt {
    payload_len = bit_and len 0xFF00 / 0x100 + bit_and len 0xFF * 0x100;
    masking_key = key;
    word_off = skt.word_off + 2;
  })

-- The head of a packet. A key is read behind a short length also when the packet has none, and
-- nothing more is read for the mark 127.
unfoldable pub read_head : Bytes → Option WebSkt
unfolding read_short read_key read_long_len
read_head buf = do
  header ← read_short buf 0
  let mask = not (bit_and header 0x8000 == 0)
  let skt : WebSkt = record {
    fin = not (bit_and header 0x80 == 0);
    opcode = bit_and header 0xF;
    mask = mask;
    payload_len = bit_and header 0x7F00 / 2 ^ 8;
    masking_key = no_key;
    word_off = if mask then 6 else 2;
  }
  if skt.payload_len == 126
      then read_long_len buf skt
      else if skt.payload_len == 127
      then some skt
      else (do key ← read_key buf 2; some (record skt { masking_key = key }))

-- The last two lines: the payload into `answer`, cut to its length, and a NUL.
unfoldable pub give_answer : Bytes → ℕ → Bytes → ℕ → Option (Bool × Bytes)
give_answer deciphered payload_len answer answer_len = do
  payload ← slice deciphered 0 (if leb payload_len answer_len then payload_len else answer_len)
  answer ← overwrite answer 0 payload
  answer ←
      (if ltb payload_len answer_len
        then store answer payload_len 0
        else if answer_len == 0
        then none
        else store answer (answer_len - 1) 0)
  some (true, answer)

-- From the test on the head to the end. `stack` is what the local array `DecipheringStr` of 1024
-- bytes happens to hold: a payload that `DecipheringStr` refuses leaves it as it is.
unfoldable pub read_payload : Bytes → Bytes → ℕ → WebSkt → Bytes → ℕ → Option (Bool × Bytes)
unfolding give_answer deciphering_str
read_payload stack buf buf_len skt answer answer_len =
    if ltb buf_len skt.payload_len || not (skt.opcode == 1) || not skt.fin
    then some (false, answer)
    else if skt.payload_len == 0
    then some (false, answer)
    else if skt.mask
    then (do
      (_, deciphered) ←
          deciphering_str (drop skt.word_off buf) skt.payload_len skt.masking_key stack 1024
      give_answer deciphered skt.payload_len answer answer_len)
    else (do
      deciphered ← clear stack 1024
      payload ← slice buf skt.word_off skt.payload_len
      deciphered ← overwrite deciphered 0 payload
      give_answer deciphered skt.payload_len answer answer_len)

-- `true` for the pointer `answer`, `false` for `NULL`, with the array as it was left. `buf` is the
-- whole array, and `buf_len` the length that the caller gives.
unfoldable pub read_packet : Bytes → Bytes → ℕ → Bytes → ℕ → Option (Bool × Bytes)
unfolding read_head read_payload
read_packet stack buf buf_len answer answer_len = do
  skt ← read_head buf
  read_payload stack buf buf_len skt answer answer_len
