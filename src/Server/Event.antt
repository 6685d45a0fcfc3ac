-- ===== src/Server/Event.antt =====
-- `socket_read_cb` of CompleteConfidence/src/main.cpp over libevent: what is
-- read from the `bufferevent` is a parameter, and what is written to it the result.
pub mod Laws
pub mod Handshake
use left_my_codes.Base.{
  ℕ, ◌-◌, Option, List, ◌>>=◌, ◌>>◌, length, take, replicate, Bytes, read, store, overwrite, c_str,
}
use left_my_codes.Time.{Tm}
use left_my_codes.Server.Reply.{respond, msg_size, rt_msg_size}

module _ (sha1 : Bytes → List ℕ) (base64_encode : Bytes → ℕ → Bytes) (localtime : ℕ → Tm) (now : ℕ)
    (stack : Bytes) where
  -- `received` is what `bufferevent_read` has, cut to the length that it is given.
  unfoldable pub socket_read_cb : Bytes → Option Bytes
  socket_read_cb received = do
    let read = take (msg_size - 1) received
    msg ← overwrite (replicate msg_size 0) 0 read
    msg ← store msg (length read) 0
    (_, rt_msg) ←
        respond sha1 base64_encode localtime now stack msg (length read) (replicate rt_msg_size 0)
    c_str rt_msg
