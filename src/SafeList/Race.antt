-- ===== src/SafeList/Race.antt =====
-- `Add` and `GetLast` of two threads on one `ThrSfeList`. `Add` reads `Next` before the constructor
-- begins, and the constructor takes a lock of its own, so `GetLast` can run between the two.
use left_my_codes.Base.{
  ℕ, ◌≤◌, ◌<◌, ◌≡◌, refl, sym, ◌∙◌, ◌≢◌, inl, inr, Bool, true, false, Option, none, some, [], ◌∷◌,
  ◌++◌, arith, ◌==◌, Option-cases, length, drop, Bytes, slice-append,
}
use left_my_codes.SafeList.{get_last, new_element, ◌>>=◌ as ◌>>==◌}
use left_my_codes.SafeList.Nodes.{
  Ptr, null, Node, Heap, Cmd, pure, ◌>>>=◌, load, link_last, write, load-ok, link_next-ok,
}
use left_my_codes.SafeList.Chain.{Cells, element, IsList, write_ne}
use left_my_codes.SafeList.Add.{add-new_element, add-cons, apart_of_none}
use left_my_codes.SafeList.GetLast.{get_last-snoc}

-- `Add` of the `len` bytes of `buf`, one or more, with a whole `GetLast` of another thread behind its read of
-- `Next`; the result is that of `GetLast`.
unfoldable pub add_around_get_last : Ptr → Ptr → Bytes → ℕ → Bytes → ℕ → Cmd (ℕ × Option Bytes)
add_around_get_last this fresh buf len out room = load this >>>= λ n.
    get_last this (some out) room >>>= λ r. new_element fresh buf len this n.next >>>= λ _. pure r

link_last-freed : (h : Heap) (p q : Ptr) → p ≢ null → h p ≡ none → link_last p q h ≡ none
unfolding link_last load
link_last-freed h p q real gone =
    let not_null : (p == null) ≡ false = ground (arith, real) in rw (not_null, ◌>>>=◌, gone)

-- The constructor of an element faults where the node behind it is freed.
new_element-freed :
    (h : Heap) (this fresh next : Ptr) (s more : Bytes) (m : Node)
    → this ≢ null
    → next ≢ null
    → next ≢ fresh
    → h this ≡ some m
    → h fresh ≡ none
    → h next ≡ none
    → new_element fresh (s ++ more) (length s) this next h ≡ none
unfolding new_element
new_element-freed h this fresh next s more m real real' other there unused gone =
    let apart = apart_of_none h this fresh there unused in
    let apart' = apart_of_none h this next there gone in
    let g = write h fresh (some (element s this next)) in
    let g' = write g this (some (record m { next = fresh })) in
    let gone' =
      write_ne g this next _ (λ e. apart' (sym e)) ∙ write_ne h fresh next _ other ∙ gone in
    rw (
      ◌>>==◌,
      ◌>>>=◌,
      slice-append [] s more 0 (length s) refl refl,
      link_next-ok g this real (write_ne h fresh this _ apart ∙ there) fresh,
      link_last-freed g' next fresh real' gone',
    )

-- The result of a run is what stands behind it.
bind-swap :
    {A : Type 0} (m : Cmd (Unit {0})) (h : Heap) {g : Heap} (r : A) (b : Bool)
    → (m >>>= λ _. pure b) h ≡ some (b, g)
    → (m >>>= λ _. pure r) h ≡ some (r, g)
bind-swap m h r b e = elim (Option-cases (m h)) [
  | inl none_of ↦ absurd (cc (rw (◌>>>=◌, none_of) at e))
  | inr ((u, g'), found) ↦ rw (◌>>>=◌, found) (cc (rw (◌>>>=◌, found) at e))
]

-- How the two end, by the elements behind which the oldest, `(p, s)`, stands: without one, `Add`
-- writes to the freed node.
abbrev pub Outcome :
    Option ((ℕ × Option Bytes) × Heap) → Ptr → Ptr → Bytes → Bytes → Bytes → Cells → Type 0
Outcome run this fresh t s out [] = run ≡ none
Outcome run this fresh t s out (y ∷ ys) =
    (g : Heap) × (run ≡ some ((length s, some (s ++ drop (length s) out)), g))
    × IsList g this ((fresh, t) ∷ y ∷ ys)

-- `GetLast` of another thread between the two parts of an `Add` of one byte or more, with room for
-- the oldest element, and a place from `new` that is not in use, and not the one just freed: with
-- one element in the list the constructor writes to the element that `GetLast` has freed, a fault;
-- with more, both do what they do one after the other.
pub add_around_get_last-Outcome :
    (h : Heap) (this fresh p : Ptr) (t more s out : Bytes) (room : ℕ) (ys : Cells)
    → 0 < length t
    → length s ≤ room
    → room ≤ length out
    → IsList h this (ys ++ (p, s) ∷ [])
    → fresh ≢ null
    → fresh ≢ p
    → ((r : ℕ × Option Bytes) (g : Heap)
        → get_last this (some out) room h ≡ some (r, g)
        → g fresh ≡ none)
    → Outcome
        (add_around_get_last this fresh (t ++ more) (length t) out room h)
        this
        fresh
        t
        s
        out
        ys
unfolding add_around_get_last
add_around_get_last-Outcome h this fresh p t more s out room [] some_bytes fits fits' is real other
      new =
    let (g, done, is', gone) = get_last-snoc h this p s out room [] fits fits' is in
    let unused = new _ g done in
    let faults =
      new_element-freed g this fresh p t more _ is.real is.chain.0 (λ e. other (sym e)) is'.at_head
        unused gone in
    rw (◌>>>=◌, load-ok h this is.real is.at_head, done, faults)
add_around_get_last-Outcome h this fresh p t more s out room ((q, u) ∷ ys) some_bytes fits fits' is
      real other new =
    let (g, done, is', gone) = get_last-snoc h this p s out room ((q, u) ∷ ys) fits fits' is in
    let unused = new _ g done in
    let (g', added, is'') = add-cons g this fresh t more ((q, u) ∷ ys) real unused some_bytes is' in
    let built = add-new_element g this fresh (t ++ more) (length t) ((q, u) ∷ ys) some_bytes is' in
    (
      g',
      rw (◌>>>=◌, load-ok h this is.real is.at_head, done)
          (bind-swap (new_element fresh (t ++ more) (length t) this q) g _ true
            (sym built ∙ added)),
      is'',
    )
