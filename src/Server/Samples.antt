-- ===== src/Server/Samples.antt =====
-- Messages, times and the libraries' answers that the runs of the server's callbacks share.
use left_my_codes.Base.{
  decimal, decimal_2, ℕ, ◌≡◌, refl, ◌≢◌, false, some, List, [], ◌∷◌, ◌++◌, arith, length, replicate,
  All, Bytes, codes, IsText, starts_with, strstr, decimal_digits,
}
use left_my_codes.Time.{Tm, print_time, print_fields}
use left_my_codes.Time.Laws.{IsTm}
use left_my_codes.WebSocket.Packet.Laws.{client_frame}
use left_my_codes.Server.Reply.{is_request, key_and_more, print_recv}
use left_my_codes.Server.Event.{socket_read_cb}
use left_my_codes.Server.Event.Laws.{until_nul, socket_read_cb-echo}

abbrev pub digest : Bytes → List ℕ
digest text = length text ∷ 1 ∷ 2 ∷ 3 ∷ 4 ∷ []

abbrev pub encode : Bytes → ℕ → Bytes
encode b n = replicate 28 b'A'

abbrev pub noon : ℕ → Tm
noon now = record { tm_year = 118; tm_mon = 0; tm_mday = 5; tm_hour = 12; tm_min = 0; tm_sec = 7 }

pub noon-IsTm : IsTm (noon 0)
noon-IsTm = ground arith

pub noon_text : print_time (noon 0) ≡ codes "2018-01-05 12:00:07"
unfolding print_time print_fields decimal decimal_2 decimal_digits
noon_text = refl

abbrev pub junk : Bytes
junk = replicate 1024 1

abbrev pub hello : Bytes
hello = codes "hello"

abbrev pub hello_frame : Bytes
hello_frame = client_frame (1 ∷ 2 ∷ 3 ∷ 4 ∷ []) hello

pub no_request : is_request (until_nul hello_frame) ≡ false
unfolding is_request key_and_more starts_with
no_request = refl

pub hello_reply :
    print_recv (print_time (noon 0)) hello ≡ codes "Recv: 5 2018-01-05 12:00:07 \r\n hello"
unfolding print_recv decimal
hello_reply = rw noon_text refl

abbrev pub get : Bytes
get = codes "GET / HTTP/1.1\r\n"

abbrev pub nonce : Bytes
nonce = codes "dGhlIHNhbXBsZSBub25jZQ=="

abbrev pub ends : Bytes
ends = codes "\r\n\r\n"

pub encode-IsText : (b : Bytes) → All (λ c. (c ≢ 0) × (c ≢ b'%')) (encode b 20)
encode-IsText b = ground arith

pub texts : IsText get × IsText nonce × IsText ends
texts = (ground arith, ground arith, ground arith)

pub key_place :
    strstr (get ++ (codes "Sec-WebSocket-Key: " ++ (nonce ++ ends))) (codes "Sec-WebSocket-Key")
    ≡ some (length get)
unfolding strstr starts_with
key_place = refl

abbrev pub hello_answer : Bytes
hello_answer = 0x81 ∷ 36 ∷ codes "Recv: 5 2018-01-05 12:00:07 \r\n hello"

pub hello_answered : socket_read_cb digest encode noon 0 junk hello_frame ≡ some hello_answer
hello_answered =
    let echoed =
      socket_read_cb-echo digest encode noon 0 junk hello 1 2 3 4 noon-IsTm (ground arith)
        (omega arith) (omega arith) refl no_request in
    rw hello_reply at echoed
