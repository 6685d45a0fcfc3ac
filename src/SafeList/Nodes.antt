-- ===== src/SafeList/Nodes.antt =====
-- The heap of list nodes, and commands over it. Reading or writing through `NULL` or at an
-- address that holds no node is a fault.
use left_my_codes.Base.{ℕ, ◌≡◌, ◌≢◌, false, Option, none, some, arith, ◌==◌, if◌then◌else◌, Bytes}

abbrev pub Ptr : Type 0
Ptr = ℕ

abbrev pub null : Ptr
null = 0

pub data Role : Type 0 where
  head boddy tail : Role

-- `buf` is `none` for `NULL`.
pub record Node : Type 0 where
  pub role : Role
  pub buf : Option Bytes
  pub len : ℕ
  pub last : Ptr
  pub next : Ptr

abbrev pub Heap : Type 0
Heap = Ptr → Option Node

unfoldable pub write : Heap → Ptr → Option Node → Heap
write h p c a = if a == p then c else h a

abbrev pub Cmd : Type 0 → Type 0
Cmd A = Heap → Option (A × Heap)

abbrev pub pure : {A : Type 0} → A → Cmd A
pure a h = some (a, h)

infixl 5 ◌>>>=◌
abbrev pub ◌>>>=◌ : {A B : Type 0} → Cmd A → (A → Cmd B) → Cmd B
◌>>>=◌ m f h = elim (m h) [ none ↦ none | some (a, h') ↦ f a h' ]

-- A step that has nothing to do with the heap.
abbrev pub lift : {A : Type 0} → Option A → Cmd A
lift none h = none
lift (some a) h = some (a, h)

-- `*p`
unfoldable pub load : Ptr → Cmd Node
load p h = if p == null then none else lift (h p) h

-- The node that `new` builds at `p`, or the end of one that `delete` gives back.
abbrev pub put : Ptr → Option Node → Cmd (Unit {0})
put p c h = some (tt, write h p c)

-- `if (p) p->Next = q;`
unfoldable pub link_next : Ptr → Ptr → Cmd (Unit {0})
link_next p q h =
    if p == null then some (tt, h) else (load p >>>= λ n. put p (some (record n { next = q }))) h

-- `if (p) p->Last = q;`
unfoldable pub link_last : Ptr → Ptr → Cmd (Unit {0})
link_last p q h =
    if p == null then some (tt, h) else (load p >>>= λ n. put p (some (record n { last = q }))) h

not_null : (p : Ptr) → p ≢ null → (p == null) ≡ false
not_null p h = ground arith

module _ (h : Heap) (p : Ptr) {n : Node} (real : p ≢ null) (there : h p ≡ some n) where
  pub load-ok : load p h ≡ some (n, h)
  unfolding load
  load-ok = rw (not_null p real, there)

  pub link_next-ok :
      (q : Ptr) → link_next p q h ≡ some (tt, write h p (some (record n { next = q })))
  unfolding link_next
  link_next-ok q = rw (not_null p real, ◌>>>=◌, load-ok)

  pub link_last-ok :
      (q : Ptr) → link_last p q h ≡ some (tt, write h p (some (record n { last = q })))
  unfolding link_last
  link_last-ok q = rw (not_null p real, ◌>>>=◌, load-ok)
