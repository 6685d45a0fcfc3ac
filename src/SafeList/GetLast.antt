-- ===== src/SafeList/GetLast.antt =====
-- `ThrSfeList::GetLast`.
use left_my_codes.Base.{
  ℕ, ◌≤◌, ◌<◌, ◌≡◌, refl, sym, ap, ◌∙◌, ◌≢◌, ◌⊎◌, inl, inr, true, false, Option, none, some, [],
  ◌∷◌, ◌++◌, append-nil, arith, ltb, ◌==◌, length, drop, Bytes, slice, slice-append,
  overwrite-start,
}
use mathlib.Core.List.{concat-ne-nil}
use mathlib.Core.Path.{subst}
use left_my_codes.SafeList.{delete, get_last, copy_out, ◌>>=◌ as ◌>>==◌}
use left_my_codes.SafeList.Nodes.{
  ◌>>>=◌, Ptr, null, Node, Heap, write, load-ok, link_next-ok, link_last-ok,
}
use left_my_codes.SafeList.Chain.{
  Cells, element, head_node, first, final, Avoids, Chain, IsList, write_ne, write_eq, Chain-write,
  Chain-Avoids_this,
}

final-snoc : (prev p : Ptr) (s : Bytes) (ys : Cells) → final prev (ys ++ (p, s) ∷ []) ≡ p
final-snoc prev p s [] = refl
final-snoc prev p s ((a, t) ∷ ys) = final-snoc a p s ys

Avoids-snoc :
    (a p : Ptr) (s : Bytes) (ys : Cells) → Avoids a (ys ++ (p, s) ∷ []) → Avoids a ys × (p ≢ a)
Avoids-snoc a p s [] h = (tt, h.0)
Avoids-snoc a p s (y ∷ ys) h = let (rest, ne) = Avoids-snoc a p s ys h.1 in ((h.0, rest), ne)

Avoids-final :
    (a prev : Ptr) (y : Ptr × Bytes) (ys : Cells) → Avoids a (y ∷ ys) → final prev (y ∷ ys) ≢ a
Avoids-final a prev (p, s) [] h = h.0
Avoids-final a prev (p, s) (y ∷ ys) h = Avoids-final a p y ys h.1

-- The oldest element, at the end of a chain.
pub record Oldest (h : Heap) (this prev p : Ptr) (s : Bytes) (ys : Cells) : Type 0 where
  pub real : p ≢ null
  pub apart : p ≢ this
  pub own : Avoids p ys
  pub there : h p ≡ some (element s (final prev ys) this)

pub Chain-Oldest :
    (h : Heap) (this prev p : Ptr) (s : Bytes) (ys : Cells)
    → Chain h this prev (ys ++ (p, s) ∷ [])
    → Oldest h this prev p s ys
Chain-Oldest h this prev p s [] (real, apart, _, there, _) = record {
  real = real;
  apart = apart;
  own = tt;
  there = there;
}
Chain-Oldest h this prev p s ((a, t) ∷ ys) (real, apart, own, there, rest) =
    let o = Chain-Oldest h this a p s ys rest in
    record {
      real = o.real;
      apart = o.apart;
      own = (λ e. (Avoids-snoc a p s ys own).1 (sym e), o.own);
      there = o.there;
    }

first-snoc :
    (this p : Ptr) (s : Bytes) (y : Ptr × Bytes) (ys : Cells)
    → first this ((y ∷ ys) ++ (p, s) ∷ []) ≡ first this (y ∷ ys)
first-snoc this p s (a, t) ys = refl

-- The chain without it, once the element before it is linked to the head.
record Relinked (h : Heap) (this prev : Ptr) (ys : Cells) : Type 0 where
  node : Node
  there : h (final prev ys) ≡ some node
  real : final prev ys ≢ null
  chain : Chain (write h (final prev ys) (some (record node { next = this }))) this prev ys

Chain-Relinked :
    (h : Heap) (this prev p : Ptr) (s : Bytes) (y : Ptr × Bytes) (ys : Cells)
    → Chain h this prev ((y ∷ ys) ++ (p, s) ∷ [])
    → Relinked h this prev (y ∷ ys)
Chain-Relinked h this prev p s (a, t) [] (real, apart, own, there, rest) = record {
  node = element t prev p;
  there = there;
  real = real;
  chain = (real, apart, tt, write_eq h a _, tt);
}
Chain-Relinked h this prev p s (a, t) ((b, u) ∷ ys) (real, apart, own, there, rest) =
    let r = Chain-Relinked h this a p s (b, u) ys rest in
    let own' = (Avoids-snoc a p s ((b, u) ∷ ys) own).0 in
    record {
      node = r.node;
      there = r.there;
      real = r.real;
      chain = (
        real,
        apart,
        own',
        write_ne h (final a ((b, u) ∷ ys)) a _ (λ e. Avoids-final a a (b, u) ys own' (sym e))
            ∙ there,
        r.chain,
      );
    }

delete-ok :
    (h : Heap) (p q r : Ptr) (s : Bytes) (a b : Node)
    → p ≢ null
    → q ≢ null
    → r ≢ null
    → h p ≡ some (element s q r)
    → h q ≡ some a
    → write h q (some (record a { next = r })) r ≡ some b
    → delete p h
      ≡ some (
        tt,
        write
            (write (write h q (some (record a { next = r }))) r (some (record b { last = q })))
            p
            none,
      )
unfolding delete
delete-ok h p q r s a b real real' real'' there there' there'' =
    let g = write h q (some (record a { next = r })) in
    rw (
      ◌>>==◌,
      ◌>>>=◌,
      load-ok h p real there,
      link_next-ok h q real' there' r,
      link_last-ok g r real'' there'' q,
    )

-- What is left on the heap when the oldest element is deleted.
pub delete-IsList :
    (h : Heap) (this p : Ptr) (s : Bytes) (ys : Cells)
    → IsList h this (ys ++ (p, s) ∷ [])
    → (g : Heap) × (delete p h ≡ some (tt, g)) × IsList g this ys × (g p ≡ none)
delete-IsList h this p s [] is =
    let o = Chain-Oldest h this this p s [] is.chain in
    let g = write h this (some (head_node is.last this)) in
    let g' = write g this (some (head_node this this)) in
    (
      write g' p none,
      delete-ok h p this this s (head_node is.last p) (head_node is.last this) o.real is.real
          is.real o.there is.at_head (write_eq h this _),
      record {
        last = this;
        real = is.real;
        at_head = write_ne g' p this _ (λ e. o.apart (sym e)) ∙ write_eq g this _;
        last_is = inl refl;
        chain = tt;
      },
      write_eq g' p _,
    )
delete-IsList h this p s (y ∷ ys) is =
    let o = Chain-Oldest h this this p s (y ∷ ys) is.chain in
    let r = Chain-Relinked h this this p s y ys is.chain in
    let q = final this (y ∷ ys) in
    let g = write h q (some (record r.node { next = this })) in
    let q_apart : q ≢ this =
      Avoids-final this this y ys (Chain-Avoids_this g this this (y ∷ ys) r.chain) in
    let start = first this (y ∷ ys) in
    let at_head : h this ≡ some (head_node is.last start) =
      rw (first-snoc this p s y ys) at is.at_head in
    let at_head' = write_ne h q this _ (λ e. q_apart (sym e)) ∙ at_head in
    let g' = write g this (some (head_node q start)) in
    (
      write g' p none,
      delete-ok h p q this s r.node (head_node is.last start) o.real r.real is.real o.there r.there
          at_head',
      record {
        last = q;
        real = is.real;
        at_head = write_ne g' p this _ (λ e. o.apart (sym e)) ∙ write_eq g this _;
        last_is = inl refl;
        chain = Chain-write g' this this (y ∷ ys) p none o.own (
            Chain-write g this this (y ∷ ys) this _ (Chain-Avoids_this g this this (y ∷ ys) r.chain)
              r.chain);
      },
      write_eq g' p _,
    )

-- The head's last node is the oldest element.
pub last-snoc :
    (h : Heap) (this p : Ptr) (s : Bytes) (ys : Cells)
    → IsList h this (ys ++ (p, s) ∷ [])
    → h this ≡ some (head_node p (first this (ys ++ (p, s) ∷ [])))
last-snoc h this p s ys is =
    is.at_head
    ∙ ap (λ l. some (head_node l (first this (ys ++ (p, s) ∷ []))))
        (elim is.last_is [
          | inl e ↦ e ∙ final-snoc this p s ys
          | inr (e, _) ↦ absurd (concat-ne-nil (p, s) ys e)
        ])

pub copy_out-ok :
    (s out : Bytes)
    → length s ≤ length out
    → copy_out (some s) (length s) out ≡ some (s ++ drop (length s) out)
copy_out-ok s out h =
    let whole : slice s 0 (length s) ≡ some s =
      rw append-nil at (slice-append [] s [] 0 (length s) refl refl) in
    rw (copy_out, whole) (overwrite-start out s h)

-- From a list with an element, and with room in `len` and in `out` for the oldest, `GetLast` copies
-- this element to the front of `out`, returns its length, takes it out of the list and frees its
-- node; the others are as they were.
pub get_last-snoc :
    (h : Heap) (this p : Ptr) (s out : Bytes) (len : ℕ) (ys : Cells)
    → length s ≤ len
    → len ≤ length out
    → IsList h this (ys ++ (p, s) ∷ [])
    → (g : Heap) × (get_last this (some out) len h
        ≡ some ((length s, some (s ++ drop (length s) out)), g))
      × IsList g this ys
      × (g p ≡ none)
unfolding get_last
get_last-snoc h this p s out len ys fits room is =
    let o = Chain-Oldest h this this p s ys is.chain in
    let (g, gone, is', freed) = delete-IsList h this p s ys is in
    let not_null : (p == null) ≡ false = ground (arith, o.real) in
    let long_enough : ltb len (length s) ≡ false = ground arith in
    (
      g,
      rw (
        ◌>>==◌,
        ◌>>>=◌,
        load-ok h this is.real (last-snoc h this p s ys is),
        not_null,
        load-ok h p o.real o.there,
        long_enough,
        copy_out-ok s out (omega arith),
        gone,
      ),
      is',
      freed,
    )

get_last_empty :
    (h : Heap) (this : Ptr) (out : Bytes) (len : ℕ) (last : Ptr)
    → this ≢ null
    → (last ≡ this) ⊎ (last ≡ null)
    → h this ≡ some (head_node last this)
    → get_last this (some out) len h ≡ some ((0, some out), h)
unfolding get_last
get_last_empty h this out len last real (inr e) there =
    let is_null : (last == null) ≡ true = ground (arith, e) in
    rw (◌>>==◌, ◌>>>=◌, load-ok h this real there, is_null)
get_last_empty h this out len last real (inl e) there =
    let not_null : (last == null) ≡ false = ground (arith, e, real) in
    rw (◌>>==◌, ◌>>>=◌, load-ok h this real there, not_null, e, load-ok h this real there)

get_last_short :
    (h : Heap) (this p : Ptr) (s out : Bytes) (len : ℕ) (ys : Cells)
    → len < length s
    → IsList h this (ys ++ (p, s) ∷ [])
    → get_last this (some out) len h ≡ some ((0, some out), h)
unfolding get_last
get_last_short h this p s out len ys short is =
    let o = Chain-Oldest h this this p s ys is.chain in
    let not_null : (p == null) ≡ false = ground (arith, o.real) in
    let too_short : ltb len (length s) ≡ true = ground arith in
    rw (
      ◌>>==◌,
      ◌>>>=◌,
      load-ok h this is.real (last-snoc h this p s ys is),
      not_null,
      load-ok h p o.real o.there,
      too_short,
    )

-- From a list, a length too short for the oldest element, a `NULL` buffer and no element each
-- give 0, and nothing changes.
pub get_last_refuses :
    (h : Heap) (this : Ptr) (out : Option Bytes) (len : ℕ) (xs : Cells)
    → IsList h this xs
    → (out ≡ none)
      ⊎ (xs ≡ [])
      ⊎ ((ys : Cells) × (p : Ptr) × (s : Bytes) × (xs ≡ ys ++ (p, s) ∷ []) × (len < length s))
    → get_last this out len h ≡ some ((0, out), h)
unfolding get_last
get_last_refuses h this none len xs is why = refl
get_last_refuses h this (some out) len [] is why =
    get_last_empty h this out len is.last is.real
      (elim is.last_is [ inl e ↦ inl e | inr (_, e) ↦ inr e ]) is.at_head
get_last_refuses h this (some out) len (x ∷ xs) is (inl e) = cc
get_last_refuses h this (some out) len (x ∷ xs) is (inr (inl e)) = cc
get_last_refuses h this (some out) len (x ∷ xs) is (inr (inr (ys, p, s, e, short))) =
    get_last_short h this p s out len ys short (subst (λ l. IsList h this l) e is)
