-- ===== src/Server/Loop.antt =====
-- The server of CompleteConfidence/src/main.cpp over libevent: `listener_cb`, `socket_read_cb` and
-- `socket_event_cb`, as the loop of `WebSocketMain` calls them, over many connections. What is
-- logged is left out.
pub mod Laws
pub mod Session
mod Tests
use left_my_codes.Base.{
  ℕ, Bool, false, Option, none, some, List, [], ◌∷◌, ◌++◌, ◌==◌, if◌then◌else◌, ◌>>=◌, ◌>>◌, Bytes,
  codes, ◌||◌,
}
use left_my_codes.Time.{Tm}
use left_my_codes.Server.Event.{socket_read_cb}

-- What libevent calls: `listener_cb` for a new connection, for which `bufferevent_socket_new` gives
-- the `bufferevent` of this number; `socket_read_cb`, at a time and with what its arrays happen to
-- hold, for a message; `socket_event_cb` for the end of a connection or an error.
pub data Event : Type 0 where
  accepted : ℕ → Event
  readable : ℕ → ℕ → Bytes → Bytes → Event
  closed : ℕ → Event

-- The `bufferevent`s that are not freed, and what was written, with where it went.
pub record Loop : Type 0 where
  pub live : List ℕ
  pub written : List (ℕ × Bytes)

pub record Listener : Type 0 where
  pub ip : Bytes
  pub port : ℕ
  pub backlog : ℕ

abbrev pub is_live : ℕ → List ℕ → Bool
is_live bev [] = false
is_live bev (b ∷ bs) = (bev == b) || is_live bev bs

abbrev pub free : ℕ → List ℕ → List ℕ
free bev [] = []
free bev (b ∷ bs) = let rest = free bev bs in if bev == b then rest else b ∷ rest

unfoldable pub listener_cb : ℕ → Loop → Option Loop
listener_cb bev l = some (record l { live = bev ∷ l.live })

-- A `bufferevent` that is freed is a fault.
unfoldable pub socket_event_cb : ℕ → Loop → Option Loop
socket_event_cb bev l =
    if is_live bev l.live then some (record l { live = free bev l.live }) else none

module _ (sha1 : Bytes → List ℕ) (base64_encode : Bytes → ℕ → Bytes) (localtime : ℕ → Tm) where
  unfoldable pub dispatch : Event → Loop → Option Loop
  unfolding listener_cb socket_event_cb
  dispatch (accepted bev) l = listener_cb bev l
  dispatch (readable bev now stack received) l =
      if is_live bev l.live
      then (do
        reply ← socket_read_cb sha1 base64_encode localtime now stack received
        some (record l { written = l.written ++ (bev, reply) ∷ [] }))
      else none
  dispatch (closed bev) l = socket_event_cb bev l

  -- `event_base_dispatch`, for the events that come.
  unfoldable pub event_base_dispatch : List Event → Loop → Option Loop
  event_base_dispatch [] l = some l
  event_base_dispatch (e ∷ events) l = do l ← dispatch e l; event_base_dispatch events l

  -- Where the server listens, with the number of connections that may wait; the socket is made.
  -- The result, and what the loop has done with the events that come.
  unfoldable pub web_socket_main : Bytes → ℕ → List Event → Option (Listener × ℕ × Loop)
  web_socket_main ip port events = do
    l ← event_base_dispatch events (record { live = []; written = [] })
    some (record { ip = ip; port = port; backlog = 500 }, 0, l)

  -- `main` of this variant
  unfoldable pub main : List Event → Option (Listener × ℕ × Loop)
  unfolding web_socket_main
  main events = web_socket_main (codes "127.0.0.1") 20002 events
