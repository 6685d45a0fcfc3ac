-- ===== src/Server/Conn.antt =====
-- `socket_read_cb` and the loop of `OneConn` of CompleteConfidence/src/main.cpp, the variant with a
-- thread for each connection. What `recv` gives is a parameter, and what is sent the result; what
-- is logged is left out.
pub mod Laws
use mathlib.Core.Bool.{◌||◌}
use left_my_codes.Base.{
  ℕ, ◌-◌, Bool, Option, none, some, List, [], ◌∷◌, ◌++◌, ◌>>=◌, ◌>>◌, length, take, replicate,
  Bytes, overwrite, c_str, print_plain, ◌||◌,
}
use left_my_codes.Time.{Tm}
use left_my_codes.Server.Reply.{respond, msg_size, rt_msg_size, print_size}

-- `recv` gives SOCKET_ERROR, or what it received, which is nothing when the peer has closed.
pub data Recv : Type 0 where
  socket_error : Recv
  received : Bytes → Recv

module _ (sha1 : Bytes → List ℕ) (base64_encode : Bytes → ℕ → Bytes) (localtime : ℕ → Tm) (now : ℕ)
    (stack : Bytes) where
  -- The result and `OutBuf` as it is left. Both texts are the format of their `snprintf`.
  unfoldable pub socket_read_cb : Bytes → Bytes → Option (Bool × Bytes)
  socket_read_cb in_buf out_buf = do
    asked ← c_str in_buf
    printed ← print_plain asked
    msg ← overwrite (replicate msg_size 0) 0 (take (print_size - 1) printed ++ 0 ∷ [])
    text ← c_str msg
    (ok, rt_msg) ←
        respond sha1 base64_encode localtime now stack msg (length text) (replicate rt_msg_size 0)
    answer ← c_str rt_msg
    printed ← print_plain answer
    out_buf ← overwrite out_buf 0 (take (print_size - 1) printed ++ 0 ∷ [])
    some (ok, out_buf)

  -- One round of the loop of `OneConn`: `OutBuf` as it is left, and what is sent if anything is. The
  -- result of `socket_read_cb` is not used, and both tests end in `continue`.
  unfoldable pub one_conn_round : Bytes → Recv → Option (Bytes × Option Bytes)
  unfolding socket_read_cb
  one_conn_round out_buf socket_error = some (out_buf, none)
  one_conn_round out_buf (received []) = some (out_buf, none)
  one_conn_round out_buf (received (c ∷ more)) = do
    buf ← overwrite (replicate msg_size 0) 0 (take msg_size (c ∷ more))
    (_, out_buf) ← socket_read_cb buf out_buf
    answer ← c_str out_buf
    some (out_buf, some answer)

-- What a round meets: the time, what the local array of `ReadPacket` happens to hold, and `recv`.
pub record Round : Type 0 where
  pub now : ℕ
  pub stack : Bytes
  pub recv : Recv

module _ (sha1 : Bytes → List ℕ) (base64_encode : Bytes → ℕ → Bytes) (localtime : ℕ → Tm) where
  -- The loop, round by round; nothing but a fault ends it.
  unfoldable pub one_conn : Bytes → List Round → Option (List (Option Bytes))
  one_conn out_buf [] = some []
  one_conn out_buf (r ∷ later) = do
    (out_buf, answer) ← one_conn_round sha1 base64_encode localtime r.now r.stack out_buf r.recv
    sent ← one_conn out_buf later
    some (answer ∷ sent)
