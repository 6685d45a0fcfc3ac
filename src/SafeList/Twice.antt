-- ===== src/SafeList/Twice.antt =====
-- Two threads that take from one `ThrSfeList`. `GetLast` reads `Last` again for each of its steps, and
-- holds the lock for its copy only.
use left_my_codes.Base.{
  ◌||◌, ℕ, ◌≤◌, ◌≡◌, refl, false, not, Option, none, some, [], ◌∷◌, ◌++◌, arith, ltb, ◌==◌,
  if◌then◌else◌, length, drop, Bytes,
}
use left_my_codes.SafeList.{get_last, delete, is_boddy, copy_out}
use left_my_codes.SafeList.Nodes.{Ptr, null, Heap, Cmd, pure, ◌>>>=◌, lift, load, load-ok}
use left_my_codes.SafeList.Chain.{Cells, IsList}
use left_my_codes.SafeList.GetLast.{
  get_last-snoc, last-snoc, delete-IsList, copy_out-ok, Chain-Oldest,
}

-- `GetLast` up to its `memcpy`: the length and the array, or `none` for its `return 0`.
unfoldable pub get_last_copy : Ptr → Bytes → ℕ → Cmd (Option (ℕ × Bytes))
get_last_copy this out len = load this >>>= λ n.
    if n.last == null
    then pure none
    else load n.last >>>= λ l.
        if not (is_boddy l.role) || ltb len l.len
        then pure none
        else lift (copy_out l.buf l.len out) >>>= λ out. pure (some (l.len, out))

-- A `GetLast` with a whole one of another thread between its `memcpy` and its `delete Last`.
unfoldable pub get_last_around_get_last :
    Ptr → Bytes → ℕ → Bytes → ℕ → Cmd ((ℕ × Option Bytes) × (ℕ × Option Bytes))
get_last_around_get_last this out len other room = get_last_copy this out len >>>= λ copied.
    get_last this (some other) room >>>= λ r. elim copied [
      | none ↦ pure ((0, some out), r)
      | some (n, out) ↦ load this >>>= λ h. delete h.last >>>= λ _. pure ((n, some out), r)
    ]

get_last_copy-snoc :
    (h : Heap) (this p : Ptr) (s out : Bytes) (len : ℕ) (ys : Cells)
    → length s ≤ len
    → len ≤ length out
    → IsList h this (ys ++ (p, s) ∷ [])
    → get_last_copy this out len h ≡ some (some (length s, s ++ drop (length s) out), h)
unfolding get_last_copy
get_last_copy-snoc h this p s out len ys fits room is =
    let o = Chain-Oldest h this this p s ys is.chain in
    let not_null : (p == null) ≡ false = ground (arith, o.real) in
    let long_enough : ltb len (length s) ≡ false = ground arith in
    rw (
      ◌>>>=◌,
      load-ok h this is.real (last-snoc h this p s ys is),
      not_null,
      load-ok h p o.real o.there,
      long_enough,
      copy_out-ok s out (omega arith),
    )

-- With two elements or more, and room for the oldest in both arrays: both threads get the oldest
-- element, and the two oldest are taken out of the list, so that nobody gets the second one.
pub get_last_around_get_last-IsList :
    (h : Heap) (this p q : Ptr) (s t out other : Bytes) (len room : ℕ) (ys : Cells)
    → length s ≤ len
    → len ≤ length out
    → length s ≤ room
    → room ≤ length other
    → IsList h this ((ys ++ (q, t) ∷ []) ++ (p, s) ∷ [])
    → (g : Heap) × (get_last_around_get_last this out len other room h
        ≡ some (
          (
            (length s, some (s ++ drop (length s) out)),
            (length s, some (s ++ drop (length s) other)),
          ),
          g,
        ))
      × IsList g this ys
unfolding get_last_around_get_last
get_last_around_get_last-IsList h this p q s t out other len room ys fits in_out fits' in_other is =
    let xs = ys ++ (q, t) ∷ [] in
    let copied = get_last_copy-snoc h this p s out len xs fits in_out is in
    let (g, done, is', freed) = get_last-snoc h this p s other room xs fits' in_other is in
    let (g', gone, is'', freed') = delete-IsList g this q t ys is' in
    let next = load-ok g this is'.real (last-snoc g this q t ys is') in
    (g', rw (◌>>>=◌, copied, done, next, gone) refl, is'')
