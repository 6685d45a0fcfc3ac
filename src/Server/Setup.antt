-- ===== src/Server/Setup.antt =====
-- `server`, `client` and `main` of CompleteConfidence/src/main.cpp. What the calls of the system
-- give is a parameter, and the calls that are made, in their order, are the result; `server` and
-- `client` return 0 on every path. What is logged is left out.
pub mod Laws
use left_my_codes.Base.{
  ℕ, ◌+◌, ◌-◌, ◌*◌, ◌%◌, ◌^◌, Bool, true, false, ◌&&◌, Option, none, some, List, [], ◌∷◌, ◌++◌, leb,
  ◌==◌, if◌then◌else◌, ◌>>=◌, ◌>>◌, take, replicate, Bytes, overwrite, codes, c_str, print_plain,
  ◌||◌,
}
use left_my_codes.Hash.{hash_, literal_hash}
use left_my_codes.Server.Reply.{msg_size}

pub data Call : Type 0 where
  initialize_socket create_socket listen_socket accept_socket clean_socket : Call
  bind_socket connect_socket : Bytes → ℕ → Call
  start_thread : ℕ → Call
  send_text : Bytes → Call
  recv_text : Call
  print_text : Bytes → Call

-- Calls of which each is made if the one before succeeded, and what follows when all did.
unfoldable pub attempt : List (Call × Bool) → List Call → List Call
attempt [] following = following
attempt ((call, ok) ∷ calls) following =
    let rest = attempt calls following in call ∷ (if ok then rest else [])

-- The sockets that `accept` gives, with a thread for each, until it gives INVALID_SOCKET.
unfoldable pub accept_loop : List ℕ → List Call
accept_loop [] = accept_socket ∷ []
accept_loop (socket ∷ later) = accept_socket ∷ start_thread socket ∷ accept_loop later

-- The calls before the loop succeed or not; a run in which `accept` never fails has no end.
unfoldable pub server : Bool → Bool → Bool → Bool → List ℕ → Bytes → ℕ → List Call
unfolding attempt accept_loop
server initialized created bound listening sockets ip port =
    attempt
      ((initialize_socket, initialized)
        ∷ (create_socket, created)
        ∷ (bind_socket ip port, bound)
        ∷ (listen_socket, listening)
        ∷ [])
      (accept_loop sockets)
    ++ clean_socket ∷ []

-- Each line of the input, of at most 4068 bytes and with no NUL, with what `recv` gives for it;
-- `buf` is cleared before `recv`, and printed as a C string. For the last line `send` fails, or it
-- succeeds and `recv` fails.
unfoldable pub client_loop : List (Bytes × Bytes) → Bytes → Bool → Option (List Call)
client_loop [] line sent = some (send_text line ∷ (if sent then recv_text ∷ [] else []))
client_loop ((text, answer) ∷ later) line sent = do
  buf ← overwrite (replicate msg_size 0) 0 (take msg_size answer)
  printed ← c_str buf
  rest ← client_loop later line sent
  some (send_text text ∷ recv_text ∷ print_text printed ∷ rest)

unfoldable pub client :
    Bool → Bool → Bool → List (Bytes × Bytes) → Bytes → Bool → Bytes → ℕ → Option (List Call)
unfolding attempt client_loop
client initialized created connected exchanges line sent ip port = do
  exchanged ←
      (if initialized && created && connected then client_loop exchanges line sent else some [])
  some (
      attempt
        ((initialize_socket, initialized)
          ∷ (create_socket, created)
          ∷ (connect_socket ip port, connected)
          ∷ [])
        exchanged
      ++ clean_socket ∷ [])

unfoldable pub digits_value : ℕ → Bytes → ℕ
digits_value v [] = v
digits_value v (c ∷ s) =
    let rest = digits_value (v * 10 + (c - b'0')) s in if leb b'0' c && leb c b'9' then rest else v

unfoldable pub signed_value : Bytes → ℕ
unfolding digits_value
signed_value [] = 0
signed_value (c ∷ s) =
    if c == b'-'
    then (2 ^ 16 - digits_value 0 s % 2 ^ 16) % 2 ^ 16
    else if c == b'+'
    then digits_value 0 s % 2 ^ 16
    else digits_value 0 (c ∷ s) % 2 ^ 16

-- `atoi` as the bits of a `short`: white space, a sign, and digits. A number that an `int` does not
-- hold, which C leaves open, has its lower bits here.
unfoldable pub atoi_short : Bytes → ℕ
unfolding signed_value
atoi_short [] = 0
atoi_short (c ∷ s) =
    let rest = atoi_short s in
    if c == b' ' || leb 9 c && leb c 13 then rest else signed_value (c ∷ s)

-- What `main` does with its arguments: a number is returned by the command, or -1.
pub data Command : Type 0 where
  run_server run_client : Bytes → ℕ → Command
  usage : Command

-- The `switch`, with the port as the bits of a `short`.
unfoldable pub choose_mode : Bytes → Bytes → ℕ → Command
choose_mode mode ip port =
    if hash_ mode == literal_hash (codes "--s")
    then run_server ip port
    else if hash_ mode == literal_hash (codes "--c")
    then run_client ip port
    else usage

-- `argv`, whose length is `argc`. `char ip[20]` gets its text as a format.
unfoldable pub main : List Bytes → Option Command
unfolding choose_mode atoi_short
main (program ∷ mode ∷ address ∷ port ∷ []) = do
  ip ← print_plain address
  some (choose_mode mode (take 19 ip) (atoi_short port))
main _ = some usage
