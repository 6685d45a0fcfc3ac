-- ===== src/Server/Reply.antt =====
-- The part of `socket_read_cb` of CompleteConfidence/src/main.cpp that its two variants share, from
-- the test for a handshake to the reply in `RtMsg`. The class `SHA1` and `base64_encode` are
-- parameters, and so is the time; what is logged is left out.
pub mod Laws
use left_my_codes.Base.{
  decimal, ℕ, ◌-◌, Bool, true, false, ◌&&◌, Option, some, List, [], ◌∷◌, ◌++◌, ltb, if◌then◌else◌,
  ◌>>=◌, ◌>>◌, length, take, replicate, Bytes, store, overwrite, pos, codes, c_str, starts_with,
  ◌||◌,
}
use left_my_codes.Time.{Tm, get_time_str}
use left_my_codes.WebSocket.Frame.{package_add_head}
use left_my_codes.WebSocket.Packet.{read_packet}
use left_my_codes.WebSocket.Handshake.{get_answer_str}

abbrev pub key_name : Bytes
key_name = codes "Sec-WebSocket-Key"

-- The name of the key with a character behind it at least, anywhere in the text.
unfoldable pub key_and_more : Bytes → Bool
unfolding starts_with
key_and_more [] = false
key_and_more (c ∷ s) = starts_with (c ∷ s) key_name && ltb 17 (length (c ∷ s)) || key_and_more s

-- `std::regex_match` of `[\S,\s]+Sec-WebSocket-Key[\S,\s]+`: `[\S,\s]` is any character.
unfoldable pub is_request : Bytes → Bool
unfolding key_and_more
is_request [] = false
is_request (c ∷ s) = key_and_more s

-- What `snprintf` prints for "Recv: %d %s \r\n %s", before it is cut.
unfoldable pub print_recv : Bytes → Bytes → Bytes
print_recv time text =
    codes "Recv: " ++ (decimal (length text) ++ (codes " " ++ (time ++ (codes " \r\n " ++ text))))

-- `char RtMsg[1024]`, `char msg[4096]` and `char time[20]`; `msg` is printed into as if it had
-- 4069 bytes.
abbrev pub rt_msg_size : ℕ
rt_msg_size = 1024

abbrev pub msg_size : ℕ
msg_size = 4096

abbrev pub print_size : ℕ
print_size = 4069

abbrev pub time_size : ℕ
time_size = 20

-- `localtime` gives the fields of a time; `now` is the time, and `stack` what the local array of
-- `ReadPacket` happens to hold.
module _ (sha1 : Bytes → List ℕ) (base64_encode : Bytes → ℕ → Bytes) (localtime : ℕ → Tm) (now : ℕ)
    (stack : Bytes) where
  -- A packet that `ReadPacket` accepted, in `rt_msg`: the text of the reply under its head.
  unfoldable pub echo : Bytes → Bytes → Option Bytes
  echo msg rt_msg = do
    rt_msg ← store rt_msg (rt_msg_size - 1) 0
    text ← c_str rt_msg
    time ← get_time_str localtime now (replicate time_size 0) time_size
    time_text ← c_str time
    msg ← overwrite msg 0 (take (print_size - 1) (print_recv time_text text) ++ 0 ∷ [])
    reply ← c_str msg
    (_, rt_msg) ← package_add_head msg (pos (length reply)) rt_msg rt_msg_size
    some rt_msg

  abbrev pub refusal : Bytes
  refusal = codes "ReadPacket is NULL"

  -- `RtMsg` as it is left, with `false` where `ReadPacket` gives `NULL`.
  unfoldable pub answer_packet : Bytes → Bool × Bytes → Option (Bool × Bytes)
  unfolding echo
  answer_packet msg (true, payload) = do reply ← echo msg payload; some (true, reply)
  answer_packet msg (false, rest) = do
    (_, reply) ← package_add_head (refusal ++ 0 ∷ []) (pos (length refusal)) rest rt_msg_size
    some (false, reply)

  unfoldable pub respond : Bytes → ℕ → Bytes → Option (Bool × Bytes)
  unfolding answer_packet
  respond msg len rt_msg = do
    text ← c_str msg
    if is_request text
        then (do
          (_, reply) ← get_answer_str sha1 base64_encode msg rt_msg rt_msg_size
          some (true, reply))
        else (do packet ← read_packet stack msg len rt_msg rt_msg_size; answer_packet msg packet)
