-- ===== src/SafeList/Queue.antt =====
-- `ThrSfeList` as a queue: what a caller of `Add` and `GetLast` sees of a list.
use left_my_codes.Base.{
  ℕ, ◌≤◌, ◌<◌, ◌≡◌, refl, sym, ap, ◌∙◌, ◌≢◌, ◌⊎◌, inl, inr, Bool, true, false, Option, none, some,
  List, [], ◌∷◌, ◌++◌, arith, ltb, ◌==◌, if◌then◌else◌, Bool-cases, length, take, drop, All, Bytes,
  split_at,
}
use mathlib.Core.Path.{subst}
use left_my_codes.SafeList.{add, get_last}
use left_my_codes.SafeList.Nodes.{Ptr, null, Heap, Cmd, pure, ◌>>>=◌}
use left_my_codes.SafeList.Chain.{Cells, IsList}
use left_my_codes.SafeList.Add.{add-cons}
use left_my_codes.SafeList.GetLast.{get_last-snoc, get_last_refuses}

-- A call, with the address that `new` returns to `Add`, and what it gives back.
pub data Call : Type 0 where
  put : Ptr → Option Bytes → ℕ → Call
  get : Option Bytes → ℕ → Call

pub data Answer : Type 0 where
  added : Bool → Answer
  got : ℕ → Option Bytes → Answer

unfoldable pub call : Ptr → Call → Cmd Answer
call this (put fresh buf len) = add this fresh buf len >>>= λ ok. pure (added ok)
call this (get buf len) = get_last this buf len >>>= λ r. pure (got r.0 r.1)

unfoldable pub calls : Ptr → List Call → Cmd (List Answer)
calls this [] = pure []
calls this (c ∷ cs) = call this c >>>= λ a. calls this cs >>>= λ rest. pure (a ∷ rest)

-- The specification: a queue of texts, the oldest first.
abbrev pub put_spec : List Bytes → Option Bytes → ℕ → Answer × List Bytes
put_spec q none len = (added false, q)
put_spec q (some buf) len =
    if len == 0 then (added false, q) else (added true, q ++ take len buf ∷ [])

abbrev pub get_spec : List Bytes → Option Bytes → ℕ → Answer × List Bytes
get_spec q none len = (got 0 none, q)
get_spec [] (some out) len = (got 0 (some out), [])
get_spec (s ∷ q) (some out) len =
    if ltb len (length s)
    then (got 0 (some out), s ∷ q)
    else (got (length s) (some (s ++ drop (length s) out)), q)

abbrev pub call_spec : List Bytes → Call → Answer × List Bytes
call_spec q (put fresh buf len) = put_spec q buf len
call_spec q (get buf len) = get_spec q buf len

abbrev pub calls_spec : List Bytes → List Call → List Answer × List Bytes
calls_spec q [] = ([], q)
calls_spec q (c ∷ cs) =
    let now = call_spec q c in let rest = calls_spec now.1 cs in (now.0 ∷ rest.0, rest.1)

-- The texts of a list of elements.
abbrev pub queue : Cells → List Bytes
queue [] = []
queue ((p, s) ∷ xs) = queue xs ++ s ∷ []

-- The array of a call has the length that the caller gives.
abbrev pub HasRoom : Option Bytes → ℕ → Type 0
HasRoom none len = Unit {0}
HasRoom (some buf) len = len ≤ length buf

abbrev pub IsCall : Call → Type 0
IsCall (put fresh buf len) = HasRoom buf len
IsCall (get buf len) = HasRoom buf len

-- `new` gives each call of `Add` a place that is not `NULL` and that nothing stands at by then.
abbrev pub IsNew : Heap → Call → Type 0
IsNew h (put fresh buf len) = (fresh ≢ null) × (h fresh ≡ none)
IsNew h (get buf len) = Unit {0}

abbrev pub AllNew : Ptr → Heap → List Call → Type 0
AllNew this h [] = Unit {0}
AllNew this h (c ∷ cs) =
    IsNew h c × (elim (call this c h) [ none ↦ Unit {0} | some (a, g) ↦ AllNew this g cs ])

queue-snoc : (ys : Cells) (p : Ptr) (s : Bytes) → queue (ys ++ (p, s) ∷ []) ≡ s ∷ queue ys
queue-snoc [] p s = refl
queue-snoc ((q, t) ∷ ys) p s = ap (λ l. l ++ t ∷ []) (queue-snoc ys p s)

-- A list of elements is empty or has an oldest one.
oldest :
    (xs : Cells) → (xs ≡ []) ⊎ ((ys : Cells) × (p : Ptr) × (s : Bytes) × (xs ≡ ys ++ (p, s) ∷ []))
oldest [] = inl refl
oldest ((q, t) ∷ xs) = elim (oldest xs) [
  | inl e ↦ inr ([], q, t, ap (◌∷◌ (q, t)) e)
  | inr (ys, p, s, e) ↦ inr ((q, t) ∷ ys, p, s, ap (◌∷◌ (q, t)) e)
]

-- What one call does: its answer, and a list that holds the queue of the specification.
abbrev pub Refines : Ptr → Heap → Cells → Call → Type 0
Refines this h xs c =
    (g : Heap) × (ys : Cells) × (call this c h ≡ some ((call_spec (queue xs) c).0, g))
    × IsList g this ys
    × (queue ys ≡ (call_spec (queue xs) c).1)

abbrev answer : ℕ × Option Bytes → Cmd Answer
answer r = pure (got r.0 r.1)

pub bind-ok :
    {A B : Type 0} (m : Cmd A) (f : A → Cmd B) (h : Heap) {a : A} {g : Heap}
    → m h ≡ some (a, g)
    → (m >>>= f) h ≡ f a g
bind-ok m f h e = rw (◌>>>=◌, e) refl

add-take :
    (h : Heap) (this fresh : Ptr) (buf s more : Bytes) (len : ℕ) (xs : Cells)
    → IsList h this xs
    → IsNew h (put fresh (some buf) len)
    → 0 < len
    → s ++ more ≡ buf
    → length s ≡ len
    → (g : Heap) × (add this fresh (some buf) len h ≡ some (true, g))
      × IsList g this ((fresh, s) ∷ xs)
add-take h this fresh buf s more len xs is new some_bytes whole l =
    let (g, done, is') = add-cons h this fresh s more xs new.0 new.1 (omega arith) is in
    (g, rw (whole, l) at done, is')

add_null : (h : Heap) (this fresh : Ptr) (len : ℕ) → add this fresh none len h ≡ some (false, h)
unfolding add
add_null h this fresh len = refl

add_nothing :
    (h : Heap) (this fresh : Ptr) (buf : Bytes) (len : ℕ)
    → (len == 0) ≡ true
    → add this fresh (some buf) len h ≡ some (false, h)
unfolding add
add_nothing h this fresh buf len e = rw e

put-Refines :
    (h : Heap) (this fresh : Ptr) (buf : Option Bytes) (len : ℕ) (xs : Cells)
    → IsList h this xs
    → HasRoom buf len
    → IsNew h (put fresh buf len)
    → Refines this h xs (put fresh buf len)
unfolding call
put-Refines h this fresh none len xs is room new = (
  h,
  xs,
  bind-ok (add this fresh none len) (λ ok. pure (added ok)) h (add_null h this fresh len),
  is,
  refl,
)
put-Refines h this fresh (some buf) len xs is room new =
    let back = λ (ok : Bool). pure (added ok) in
    elim (Bool-cases (len == 0)) [
      | inl nothing ↦ (
        h,
        xs,
        rw nothing (
            bind-ok (add this fresh (some buf) len) back h
              (add_nothing h this fresh buf len nothing)),
        is,
        rw nothing refl,
      )
      | inr some_bytes ↦
          let (l, cut) = split_at len buf room in
          let (g, done, is') =
            add-take h this fresh buf (take len buf) (drop len buf) len xs is new
              (ground (arith, some_bytes)) (sym cut) l in
          (
            g,
            (fresh, take len buf) ∷ xs,
            rw some_bytes (bind-ok (add this fresh (some buf) len) back h done),
            is',
            rw some_bytes refl,
          )
    ]

get-Refines :
    (h : Heap) (this : Ptr) (buf : Option Bytes) (len : ℕ) (xs : Cells)
    → IsList h this xs
    → HasRoom buf len
    → Refines this h xs (get buf len)
unfolding call
get-Refines h this none len xs is room =
    let refused = get_last_refuses h this none len xs is (inl refl) in
    (h, xs, bind-ok (get_last this none len) answer h refused, is, refl)
get-Refines h this (some out) len xs is room = elim (oldest xs) [
  | inl empty ↦
      let refused = get_last_refuses h this (some out) len xs is (inr (inl empty)) in
      (h, xs, rw empty (bind-ok (get_last this (some out) len) answer h refused), is, rw empty refl)
  | inr (ys, p, s, e) ↦
      let q = ap queue e ∙ queue-snoc ys p s in
      elim (Bool-cases (ltb len (length s))) [
        | inl short ↦
            let why = inr (inr (ys, p, s, e, ground (arith, short))) in
            let refused = get_last_refuses h this (some out) len xs is why in
            (
              h,
              xs,
              rw (q, short) (bind-ok (get_last this (some out) len) answer h refused),
              is,
              rw (q, short) refl,
            )
        | inr fits ↦
            let is' = subst (λ l. IsList h this l) e is in
            let (g, done, left, freed) =
              get_last-snoc h this p s out len ys (ground (arith, fits)) room is' in
            (
              g,
              ys,
              rw (q, fits) (bind-ok (get_last this (some out) len) answer h done),
              left,
              rw (q, fits) refl,
            )
      ]
]

pub call-Refines :
    (h : Heap) (this : Ptr) (c : Call) (xs : Cells)
    → IsList h this xs
    → IsCall c
    → IsNew h c
    → Refines this h xs c
call-Refines h this (put fresh buf len) xs is room new =
    put-Refines h this fresh buf len xs is room new
call-Refines h this (get buf len) xs is room new = get-Refines h this buf len xs is room

-- Whatever calls of `Add` and `GetLast` one thread makes of a list, in any order, with arrays of
-- the lengths that it gives and a new place for each element: no call faults, their answers are
-- those of a queue, first in, first out, and the list holds what is left in the queue.
pub calls-queue :
    (h : Heap) (this : Ptr) (xs : Cells) (cs : List Call)
    → IsList h this xs
    → All IsCall cs
    → AllNew this h cs
    → (g : Heap) × (ys : Cells) × (calls this cs h ≡ some ((calls_spec (queue xs) cs).0, g))
      × IsList g this ys
      × (queue ys ≡ (calls_spec (queue xs) cs).1)
unfolding calls
calls-queue h this xs [] is room new = (h, xs, refl, is, refl)
calls-queue h this xs (c ∷ cs) is (room, rooms) (new, later) =
    let (g, ys, done, is', now) = call-Refines h this c xs is room new in
    let (g', zs, rest, is'', then_) = calls-queue g this ys cs is' rooms (rw done at later) in
    (g', zs, rw (◌>>>=◌, done, rest, now), is'', rw now at then_)
