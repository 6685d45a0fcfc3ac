-- ===== src/SafeList/Add.antt =====
-- `ThrSfeList()` and `ThrSfeList::Add`.
use left_my_codes.Base.{
  ◌<◌, ◌≡◌, refl, sym, ◌∙◌, ◌≢◌, inl, inr, true, false, none, some, [], ◌∷◌, ◌++◌, arith, ◌==◌,
  length, Bytes, slice-append, ℕ,
}
use left_my_codes.SafeList.{add, new_element, new_head, ◌>>=◌ as ◌>>==◌}
use left_my_codes.SafeList.Nodes.{
  pure, ◌>>>=◌, Ptr, null, Node, Heap, write, load-ok, link_next-ok, link_last-ok,
}
use left_my_codes.SafeList.Chain.{
  final, Avoids, Chain, Cells, element, head_node, first, IsList, write_ne, write_eq, Chain-write,
  Chain-Avoids_this, Chain-Avoids_unused,
}

-- At an address that is not `NULL` the constructor gives an empty list.
pub new_head-IsList :
    (h : Heap) (this : Ptr)
    → this ≢ null
    → (g : Heap) × (new_head this h ≡ some (tt, g)) × IsList g this []
unfolding new_head
new_head-IsList h this real = (
  write h this (some (head_node null this)),
  refl,
  record {
    last = null;
    real = real;
    at_head = write_eq h this _;
    last_is = inr (refl, refl);
    chain = tt;
  },
)

-- A new element `(fresh, s)` between the head and a chain.
module _ (h : Heap) (this fresh : Ptr) (s more : Bytes) where
  new_element-ok :
      (last next : Ptr) (m n : Node)
      → last ≢ null
      → last ≢ fresh
      → next ≢ null
      → h last ≡ some m
      → write
          (write h fresh (some (element s last next)))
          last
          (some (record m { next = fresh }))
          next
        ≡ some n
      → new_element fresh (s ++ more) (length s) last next h
        ≡ some (
          tt,
          write
              (write
                (write h fresh (some (element s last next)))
                last
                (some (record m { next = fresh })))
              next
              (some (record n { last = fresh })),
        )
  unfolding new_element
  new_element-ok last next m n real apart real' there there' =
      let g = write h fresh (some (element s last next)) in
      let g' = write g last (some (record m { next = fresh })) in
      rw (
        ◌>>==◌,
        ◌>>>=◌,
        slice-append [] s more 0 (length s) refl refl,
        link_next-ok g last real (write_ne h fresh last _ apart ∙ there) fresh,
        link_last-ok g' next real' there' fresh,
      )

pub apart_of_none : (h : Heap) (a b : Ptr) {n : Node} → h a ≡ some n → h b ≡ none → a ≢ b
apart_of_none h a b e f same = cc

-- A list whose first element need not be linked back to the head, nor the head to it.
abbrev pub Tail : Heap → Ptr → Ptr → Cells → Type 0
Tail h this last [] = Unit {0}
Tail h this last ((p, t) ∷ xs) =
    (last ≡ final p xs)
    × (p ≢ null)
    × (p ≢ this)
    × Avoids p xs
    × ((q : Ptr) × (h p ≡ some (element t q (first this xs))))
    × Chain h this p xs

pub record Loose (h : Heap) (this : Ptr) (xs : Cells) : Type 0 where
  pub last : Ptr
  pub next : Ptr
  pub real : this ≢ null
  pub at_head : h this ≡ some (head_node last next)
  pub tail : Tail h this last xs

IsList-Loose : (h : Heap) (this : Ptr) (xs : Cells) → IsList h this xs → Loose h this xs
IsList-Loose h this [] is = record {
  last = is.last;
  next = this;
  real = is.real;
  at_head = is.at_head;
  tail = tt;
}
IsList-Loose h this ((p, t) ∷ xs) is =
    let (p_real, p_apart, p_own, there, rest) = is.chain in
    record {
      last = is.last;
      next = p;
      real = is.real;
      at_head = is.at_head;
      tail = (
        elim is.last_is [ inl e ↦ e | inr (e, _) ↦ absurd (cc e) ],
        p_real,
        p_apart,
        p_own,
        (this, there),
        rest,
      );
    }

-- A new element from the first one of such a list on makes it a list.
pub Loose-new_element :
    (h : Heap) (this fresh : Ptr) (s more : Bytes) (xs : Cells)
    → fresh ≢ null
    → h fresh ≡ none
    → Loose h this xs
    → (g : Heap) × (new_element fresh (s ++ more) (length s) this (first this xs) h ≡ some (tt, g))
      × IsList g this ((fresh, s) ∷ xs)
Loose-new_element h this fresh s more [] real unused is =
    let apart : this ≢ fresh = apart_of_none h this fresh is.at_head unused in
    let g = write h fresh (some (element s this this)) in
    let g' = write g this (some (head_node is.last fresh)) in
    (
      write g' this (some (head_node fresh fresh)),
      new_element-ok h this fresh s more this this (head_node is.last is.next)
          (head_node is.last fresh) is.real apart is.real is.at_head (write_eq g this _),
      record {
        last = fresh;
        real = is.real;
        at_head = write_eq g' this _;
        last_is = inl refl;
        chain = (
          real,
          λ e. apart (sym e),
          tt,
          write_ne g' this fresh _ (λ e. apart (sym e))
              ∙ write_ne g this fresh _ (λ e. apart (sym e))
              ∙ write_eq h fresh _,
          tt,
        );
      },
    )
Loose-new_element h this fresh s more ((p, t) ∷ xs) real unused is =
    let apart : this ≢ fresh = apart_of_none h this fresh is.at_head unused in
    let (last_is, p_real, p_apart, p_own, (q, there), rest) = is.tail in
    let p_new : p ≢ fresh = apart_of_none h p fresh there unused in
    let after = first this xs in
    let g = write h fresh (some (element s this p)) in
    let g' = write g this (some (head_node is.last fresh)) in
    let old = write_ne g this p _ p_apart ∙ write_ne h fresh p _ p_new ∙ there in
    let g'' = write g' p (some (element t fresh after)) in
    let this_away = Chain-Avoids_this h this p xs rest in
    let fresh_away = Chain-Avoids_unused h this p fresh xs unused rest in
    (
      g'',
      new_element-ok h this fresh s more this p (head_node is.last is.next) (element t q after)
          is.real apart p_real is.at_head old,
      record {
        last = is.last;
        real = is.real;
        at_head = write_ne g' p this _ (λ e. p_apart (sym e)) ∙ write_eq g this _;
        last_is = inl last_is;
        chain = (
          real,
          λ e. apart (sym e),
          (p_new, fresh_away),
          write_ne g' p fresh _ (λ e. p_new (sym e))
              ∙ write_ne g this fresh _ (λ e. apart (sym e))
              ∙ write_eq h fresh _,
          (
            p_real,
            p_apart,
            p_own,
            write_eq g' p _,
            Chain-write g' this p xs p _ p_own (
                Chain-write g this p xs this _ this_away
                  (Chain-write h this p xs fresh _ fresh_away rest)),
          ),
        );
      },
    )

-- On a list, the rest of `Add` is its constructor, from the first element on.
pub add-new_element :
    (h : Heap) (this fresh : Ptr) (buf : Bytes) (len : ℕ) (xs : Cells)
    → 0 < len
    → IsList h this xs
    → add this fresh (some buf) len h
      ≡ (new_element fresh buf len this (first this xs) >>>= λ _. pure true) h
unfolding add
add-new_element h this fresh buf len xs some_bytes is =
    let nonzero : (len == 0) ≡ false = ground arith in
    rw (nonzero, ◌>>==◌, ◌>>>=◌, load-ok h this is.real is.at_head)

-- `Add` to a list of one byte or more, which `new` gives a node at a fresh address, returns `true`,
-- and the list has one more element, the newest, with these bytes; the others are as they were.
pub add-cons :
    (h : Heap) (this fresh : Ptr) (s more : Bytes) (xs : Cells)
    → fresh ≢ null
    → h fresh ≡ none
    → 0 < length s
    → IsList h this xs
    → (g : Heap) × (add this fresh (some (s ++ more)) (length s) h ≡ some (true, g))
      × IsList g this ((fresh, s) ∷ xs)
add-cons h this fresh s more xs real unused some_bytes is =
    let (g, built, is') =
      Loose-new_element h this fresh s more xs real unused (IsList-Loose h this xs is) in
    let same = add-new_element h this fresh (s ++ more) (length s) xs some_bytes is in
    (g, same ∙ rw (◌>>>=◌, built) refl, is')
