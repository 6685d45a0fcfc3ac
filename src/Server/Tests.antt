-- ===== src/Server/Tests.antt =====
-- Runs of the server's callbacks and of `main`, at concrete inputs.
use left_my_codes.Base.{
  IsPlain, ℕ, suc, ◌≡◌, refl, false, none, some, List, [], ◌∷◌, ◌++◌, arith, length, drop,
  replicate, length-replicate, Bytes, codes, IsText, starts_with, decimal,
}
use left_my_codes.Time.{print_time}
use left_my_codes.WebSocket.Handshake.{per_of_http, suf_of_http}
use left_my_codes.WebSocket.Handshake.Laws.{accept}
use left_my_codes.WebSocket.Packet.Laws.{client_frame}
use left_my_codes.Server.Reply.{is_request, key_and_more, print_recv}
use left_my_codes.Server.Event.{socket_read_cb}
use left_my_codes.Server.Event.Laws.{until_nul, socket_read_cb-echo, socket_read_cb-cut}
use left_my_codes.Server.Event.Handshake.{socket_read_cb-handshake}
use left_my_codes.Server.Conn.{socket_error, Round, received, one_conn_round, one_conn}
use left_my_codes.Server.Conn.Laws.{one_conn_round-plain, one_conn_round-percent}
use left_my_codes.Server.Setup.{run_server, main}
use left_my_codes.Server.Setup.Laws.{main-mode}
use left_my_codes.Server.Samples.{
  digest, encode, noon, noon-IsTm, junk, hello, hello_frame, no_request, get, nonce, ends,
  encode-IsText, texts, key_place, hello_answer, hello_answered,
}

socket_read_cb-echo_example :
    let reply = print_recv (print_time (noon 0)) hello in
    socket_read_cb digest encode noon 0 junk hello_frame ≡ some (0x81 ∷ length reply ∷ reply)
socket_read_cb-echo_example =
    socket_read_cb-echo digest encode noon 0 junk hello 1 2 3 4 noon-IsTm (ground arith)
      (omega arith) (omega arith) refl no_request

abbrev hundred : Bytes
hundred = replicate 100 b'x'

hundred-IsText : IsText hundred
hundred-IsText = ground arith

hundred_no_request : is_request (until_nul (client_frame (1 ∷ 2 ∷ 3 ∷ 4 ∷ []) hundred)) ≡ false
unfolding is_request key_and_more starts_with
hundred_no_request = refl

socket_read_cb-cut_example :
    socket_read_cb digest encode noon 0 junk (client_frame (1 ∷ 2 ∷ 3 ∷ 4 ∷ []) hundred)
    ≡ some (0x81 ∷ 126 ∷ [])
socket_read_cb-cut_example =
    socket_read_cb-cut digest encode noon 0 junk hundred 1 2 3 4 noon-IsTm hundred-IsText
      (omega arith) (omega arith) refl hundred_no_request

socket_read_cb-handshake_example :
    socket_read_cb digest encode noon 0 junk
      (get ++ (codes "Sec-WebSocket-Key: " ++ (nonce ++ ends)))
    ≡ some (per_of_http ++ (accept digest encode nonce ++ suf_of_http))
socket_read_cb-handshake_example =
    socket_read_cb-handshake digest encode noon 0 junk get nonce ends encode-IsText
      (λ b. omega arith) texts.0 texts.1 texts.2 (omega arith) refl key_place (omega arith)

hello_frame-IsPlain : IsPlain hello_frame
hello_frame-IsPlain = ground arith

hello_answer-IsPlain : IsPlain hello_answer
hello_answer-IsPlain = ground arith

one_conn_round-plain_example :
    one_conn_round digest encode noon 0 junk (replicate 4069 0) (received hello_frame)
    ≡ some
        (hello_answer ++ 0 ∷ drop (suc (length hello_answer)) (replicate 4069 0), some hello_answer)
one_conn_round-plain_example =
    one_conn_round-plain digest encode noon 0 junk hello_frame (replicate 4069 0) hello_answer
      hello_frame-IsPlain (omega arith) (omega arith) hello_answered hello_answer-IsPlain
      (omega arith) (omega (arith, length-replicate {A = ℕ} 4069 0))

abbrev six : Bytes
six = codes "hello!"

six_frame-IsPlain : IsPlain (client_frame (1 ∷ 2 ∷ 3 ∷ 4 ∷ []) six)
six_frame-IsPlain = ground arith

six_no_request : is_request (until_nul (client_frame (1 ∷ 2 ∷ 3 ∷ 4 ∷ []) six)) ≡ false
unfolding is_request key_and_more starts_with
six_no_request = refl

six-IsText : IsText six
six-IsText = ground arith

one_conn_round-percent_example :
    one_conn_round digest encode noon 0 junk
      (replicate 4069 0)
      (received (client_frame (1 ∷ 2 ∷ 3 ∷ 4 ∷ []) six))
    ≡ none
one_conn_round-percent_example =
    one_conn_round-percent digest encode noon 0 junk six (replicate 4069 0) 1 2 3 4 noon-IsTm
      six-IsText refl refl six_frame-IsPlain six_no_request

abbrev rounds_closed : List Round
rounds_closed =
    record { now = 1; stack = junk; recv = received [] }
    ∷ record { now = 2; stack = junk; recv = socket_error }
    ∷ []

no_more : one_conn digest encode noon [] [] ≡ some []
unfolding one_conn
no_more = refl

main-mode_example :
    main (codes "cc" ∷ codes "--s" ∷ codes "127.0.0.1" ∷ decimal 20002 ∷ [])
    ≡ some (run_server (codes "127.0.0.1") 20002)
main-mode_example =
    main-mode (codes "cc") (codes "127.0.0.1") b's' 20002 (omega arith) (ground arith) (omega arith)
      (omega arith)
