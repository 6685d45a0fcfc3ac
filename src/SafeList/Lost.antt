-- ===== src/SafeList/Lost.antt =====
-- Two threads that add to one `ThrSfeList`, with a whole `Add` behind the other one's read of `Next`.
use left_my_codes.Base.{
  ℕ, ◌<◌, ◌≡◌, refl, ◌≢◌, inl, inr, Bool, true, none, some, [], ◌∷◌, ◌++◌, length, Bytes,
}
use left_my_codes.SafeList.{add, new_element}
use left_my_codes.SafeList.Nodes.{Ptr, null, Heap, Cmd, pure, ◌>>>=◌, load, load-ok}
use left_my_codes.SafeList.Chain.{Cells, IsList}
use left_my_codes.SafeList.Add.{Loose, Loose-new_element, add-cons}

-- `Add` of one byte or more of `buf`, with a whole `Add` of `other` between its two parts; the result is that of both.
unfoldable pub add_around_add : Ptr → Ptr → Bytes → ℕ → Ptr → Bytes → ℕ → Cmd Bool
add_around_add this fresh buf len place other n = load this >>>= λ head.
    add this place (some other) n >>>= λ ok.
    new_element fresh buf len this head.next >>>= λ _. pure ok

-- Without its newest element a list is linked well enough for the constructor.
IsList-Loose_behind :
    (h : Heap) (this p : Ptr) (s : Bytes) (xs : Cells)
    → IsList h this ((p, s) ∷ xs)
    → Loose h this xs
IsList-Loose_behind h this p s [] is = record {
  last = is.last;
  next = p;
  real = is.real;
  at_head = is.at_head;
  tail = tt;
}
IsList-Loose_behind h this p s ((q, t) ∷ xs) is =
    let (p_real, p_apart, p_own, p_there, (q_real, q_apart, q_own, there, rest)) = is.chain in
    record {
      last = is.last;
      next = p;
      real = is.real;
      at_head = is.at_head;
      tail = (
        elim is.last_is [ inl e ↦ e | inr (e, _) ↦ absurd (cc e) ],
        q_real,
        q_apart,
        q_own,
        (p, there),
        rest,
      );
    }

-- Two calls of `Add`, of one byte or more each, where one of them runs as a whole behind the other's
-- read of `Next`, with new places for both elements: both return `true`, but the list has only the
-- element of the first one more; that of the other is lost.
pub add_around_add-IsList :
    (h : Heap) (this fresh place : Ptr) (s more t rest : Bytes) (xs : Cells)
    → 0 < length s
    → 0 < length t
    → IsList h this xs
    → fresh ≢ null
    → place ≢ null
    → h place ≡ none
    → ((g : Heap)
        → add this place (some (t ++ rest)) (length t) h ≡ some (true, g)
        → g fresh ≡ none)
    → (g : Heap) × (add_around_add this fresh (s ++ more) (length s) place (t ++ rest) (length t) h
        ≡ some (true, g))
      × IsList g this ((fresh, s) ∷ xs)
unfolding add_around_add
add_around_add-IsList h this fresh place s more t rest xs text some_bytes is real real' unused new =
    let (g, added, is') = add-cons h this place t rest xs real' unused some_bytes is in
    let (g', built, is'') =
      Loose-new_element g this fresh s more xs real (new g added)
        (IsList-Loose_behind g this place t xs is') in
    (g', rw (◌>>>=◌, load-ok h this is.real is.at_head, added, built) refl, is'')
