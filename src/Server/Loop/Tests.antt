-- ===== src/Server/Loop/Tests.antt =====
-- Runs of the loop over libevent.
use left_my_codes.Base.{ℕ, ◌≡◌, refl, some, List, [], ◌∷◌, map, arith, Bytes, codes}
use left_my_codes.Server.Event.Handshake.{socket_read_cb-handshake}
use left_my_codes.Server.Loop.{
  Event, accepted, readable, closed, Listener, Loop, main as event_main,
}
use left_my_codes.Server.Loop.Laws.{answer, messages, replies, main-replies}
use left_my_codes.Server.Loop.Session.{Said, asks, says, sent, reply_to, main-session}
use left_my_codes.Server.Samples.{
  digest, encode, noon, noon-IsTm, junk, hello, hello_frame, no_request, get, nonce, ends,
  encode-IsText, texts, key_place, hello_answer, hello_answered,
}

-- Two connections: the first one sends a message and closes, the second one sends two.
abbrev events : List Event
events =
    accepted 1
    ∷ accepted 2
    ∷ readable 2 0 junk hello_frame
    ∷ readable 1 0 junk hello_frame
    ∷ closed 1
    ∷ readable 2 0 junk hello_frame
    ∷ []

main-replies_example :
    (l : Loop) × (event_main digest encode noon events
      ≡ some (record { ip = codes "127.0.0.1"; port = 20002; backlog = 500 }, 0, l))
    × (l.live ≡ 2 ∷ [])
    × ((bev : ℕ)
        → map some (replies bev l.written) ≡ map (answer digest encode noon) (messages bev events))
main-replies_example = main-replies digest encode noon events (
  refl,
  (hello_answer, hello_answered),
  (refl, (hello_answer, hello_answered), (refl, (refl, (hello_answer, hello_answered), tt))),
)

-- A client that asks, says hello and asks again, while another one says hello and closes.
abbrev session : List Said
session = asks 0 junk get nonce ends ∷ says 0 junk 1 2 3 4 hello ∷ asks 0 junk get nonce ends ∷ []

abbrev asked : ℕ × Bytes × Bytes
asked = sent (asks 0 junk get nonce ends)

abbrev shared : List Event
shared =
    accepted 2
    ∷ accepted 1
    ∷ readable 1 0 junk asked.2
    ∷ readable 2 0 junk hello_frame
    ∷ readable 1 0 junk hello_frame
    ∷ closed 2
    ∷ readable 1 0 junk asked.2
    ∷ []

asked_answered : (reply : Bytes) × (answer digest encode noon (0, junk, asked.2) ≡ some reply)
asked_answered = (
  _,
  socket_read_cb-handshake digest encode noon 0 junk get nonce ends encode-IsText (λ b. omega arith)
      texts.0 texts.1 texts.2 (omega arith) refl key_place (omega arith),
)

main-session_example :
    (listener : Listener) × (l : Loop) × (event_main digest encode noon shared
      ≡ some (listener, 0, l))
    × (replies 1 l.written ≡ map (reply_to digest encode noon) session)
main-session_example =
    main-session digest encode noon shared 1 session encode-IsText (λ b. omega arith)
      (
        refl,
        asked_answered,
        (
          refl,
          (hello_answer, hello_answered),
          (refl, (hello_answer, hello_answered), (refl, (refl, asked_answered, tt))),
        ),
      )
      refl
      (
        (texts.0, texts.1, texts.2, omega arith, refl, key_place, omega arith),
        (
          (noon-IsTm, ground arith, omega arith, omega arith, refl, no_request),
          ((texts.0, texts.1, texts.2, omega arith, refl, key_place, omega arith), tt),
        ),
      )
