-- ===== src/Server/Loop/Laws.antt =====
-- Many connections over libevent: each of them is answered as if it were the only one.
use left_my_codes.Base.{
  ℕ, ◌≡◌, refl, sym, ap, ◌∙◌, inl, inr, true, Option, some, List, [], ◌∷◌, ◌++◌, map, append_assoc,
  append-nil, ◌==◌, if◌then◌else◌, Bool-cases, Bytes, codes,
}
use left_my_codes.Time.{Tm}
use left_my_codes.Server.Event.{socket_read_cb}
use left_my_codes.Server.Loop.{
  Event, accepted, readable, closed, Loop, is_live, free, listener_cb, socket_event_cb, dispatch,
  event_base_dispatch, web_socket_main, main,
}

-- The messages of one connection, with their times.
abbrev pub messages : ℕ → List Event → List (ℕ × Bytes × Bytes)
messages bev [] = []
messages bev (accepted b ∷ events) = messages bev events
messages bev (readable b now stack received ∷ events) =
    let rest = messages bev events in if b == bev then (now, stack, received) ∷ rest else rest
messages bev (closed b ∷ events) = messages bev events

-- What was written to it.
abbrev pub replies : ℕ → List (ℕ × Bytes) → List Bytes
replies bev [] = []
replies bev ((b, reply) ∷ written) =
    let rest = replies bev written in if b == bev then reply ∷ rest else rest

replies-append :
    (bev : ℕ) (xs ys : List (ℕ × Bytes)) → replies bev (xs ++ ys) ≡ replies bev xs ++ replies bev ys
replies-append bev [] ys = refl
replies-append bev ((b, reply) ∷ xs) ys = elim (Bool-cases (b == bev)) [
  | inl same ↦ rw (same, replies-append bev xs ys)
  | inr other ↦ rw (other, replies-append bev xs ys)
]

map-append : {A B : Type 0} (f : A → B) (xs ys : List A) → map f (xs ++ ys) ≡ map f xs ++ map f ys
map-append f [] ys = refl
map-append f (x ∷ xs) ys = ap (◌∷◌ (f x)) (map-append f xs ys)

-- The connections that are left.
abbrev pub left_live : List ℕ → List Event → List ℕ
left_live live [] = live
left_live live (accepted b ∷ events) = left_live (b ∷ live) events
left_live live (readable b now stack received ∷ events) = left_live live events
left_live live (closed b ∷ events) = left_live (free b live) events

module _ (sha1 : Bytes → List ℕ) (base64_encode : Bytes → ℕ → Bytes) (localtime : ℕ → Tm) where
  abbrev pub answer : ℕ × Bytes × Bytes → Option Bytes
  answer m = socket_read_cb sha1 base64_encode localtime m.0 m.1 m.2

  -- One more reply, and the message that it answers.
  written_to :
      (bev b now : ℕ) (stack received reply : Bytes) (written : List (ℕ × Bytes))
      (events : List Event)
      → answer (now, stack, received) ≡ some reply
      → map some (replies bev (written ++ (b, reply) ∷ [])) ++ map answer (messages bev events)
        ≡ map some (replies bev written)
          ++ map answer (messages bev (readable b now stack received ∷ events))
  written_to bev b now stack received reply written events found =
      let split = replies-append bev written ((b, reply) ∷ []) in
      elim (Bool-cases (b == bev)) [
        | inl same ↦ rw (split, same, map-append, append_assoc, found) refl
        | inr other ↦ rw (split, other, append-nil) refl
      ]

  -- What libevent promises, that it calls no callback of a connection behind the one for its end;
  -- and the callback for each message comes to its end.
  abbrev pub IsServed : List ℕ → List Event → Type 0
  IsServed live [] = Unit {0}
  IsServed live (accepted b ∷ events) = IsServed (b ∷ live) events
  IsServed live (readable b now stack received ∷ events) =
      (is_live b live ≡ true)
      × ((reply : Bytes) × (answer (now, stack, received) ≡ some reply))
      × IsServed live events
  IsServed live (closed b ∷ events) = (is_live b live ≡ true) × IsServed (free b live) events

  -- The loop, from some connections and writes on.
  event_base_dispatch-replies :
      (events : List Event) (l : Loop)
      → IsServed l.live events
      → (m : Loop) × (event_base_dispatch sha1 base64_encode localtime events l ≡ some m)
        × (m.live ≡ left_live l.live events)
        × ((bev : ℕ)
            → map some (replies bev m.written)
              ≡ map some (replies bev l.written) ++ map answer (messages bev events))
  unfolding event_base_dispatch dispatch listener_cb socket_event_cb
  event_base_dispatch-replies [] l served = (l, refl, refl, λ bev. sym (append-nil _))
  event_base_dispatch-replies (accepted b ∷ events) l served =
      event_base_dispatch-replies events (record l { live = b ∷ l.live }) served
  event_base_dispatch-replies (closed b ∷ events) l (is, served) =
      let (m, done, left, to) =
        event_base_dispatch-replies events (record l { live = free b l.live }) served in
      (m, rw is done, left, to)
  event_base_dispatch-replies (readable b now stack received ∷ events) l
        (is, (reply, found), served) =
      let l' : Loop = record l { written = l.written ++ (b, reply) ∷ [] } in
      let (m, done, left, to) = event_base_dispatch-replies events l' served in
      (
        m,
        rw (is, found) done,
        left,
        λ bev. to bev ∙ written_to bev b now stack received reply l.written events found,
      )

  -- The server of `main` listens at its address. Whatever events come, in whatever order, where
  -- libevent keeps its promise and each message has an answer: the loop comes to their end without a
  -- fault, with the connections that were accepted and not closed; and what it has written to each
  -- connection is, in their order, what the callback answers to each message of this connection
  -- alone.
  pub main-replies :
      (events : List Event)
      → IsServed [] events
      → (l : Loop) × (main sha1 base64_encode localtime events
          ≡ some (record { ip = codes "127.0.0.1"; port = 20002; backlog = 500 }, 0, l))
        × (l.live ≡ left_live [] events)
        × ((bev : ℕ) → map some (replies bev l.written) ≡ map answer (messages bev events))
  unfolding main web_socket_main
  main-replies events served =
      let (l, done, left, to) =
        event_base_dispatch-replies events (record { live = []; written = [] }) served in
      (l, rw done refl, left, to)
