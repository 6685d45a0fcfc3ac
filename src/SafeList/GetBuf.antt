-- ===== src/SafeList/GetBuf.antt =====
-- `ThrSfeList::GetBuf`.
use left_my_codes.Base.{
  ℕ, ◌≤◌, ◌≡◌, ◌≢◌, inl, inr, true, false, some, [], ◌∷◌, ◌++◌, arith, ltb, leb, if◌then◌else◌,
  Bool-cases, length, drop, Bytes,
}
use left_my_codes.SafeList.{get_buf, ◌>>=◌ as ◌>>==◌}
use left_my_codes.SafeList.Nodes.{Ptr, null, Heap, load-ok, ◌>>>=◌}
use left_my_codes.SafeList.Chain.{Cells, element, Chain, IsList}
use left_my_codes.SafeList.GetLast.{copy_out-ok}

-- Where an element of a chain stands.
Chain-there :
    (h : Heap) (this prev p : Ptr) (s : Bytes) (newer older : Cells)
    → Chain h this prev (newer ++ (p, s) ∷ older)
    → (p ≢ null) × (last : Ptr) × (next : Ptr) × (h p ≡ some (element s last next))
Chain-there h this prev p s [] older (real, apart, own, there, rest) = (real, _, _, there)
Chain-there h this prev p s ((q, t) ∷ newer) older (real, apart, own, there, rest) =
    Chain-there h this q p s newer older rest

-- With room in `len` and in the caller's array, `GetBuf` of any element of a list copies its bytes
-- to the front of the array and returns the array; without room in `len`, it returns `NULL`. The
-- list is as it was.
pub get_buf-element :
    (h : Heap) (this p : Ptr) (s out : Bytes) (len : ℕ) (newer older : Cells)
    → len ≤ length out
    → IsList h this (newer ++ (p, s) ∷ older)
    → get_buf p (some out) len h
      ≡ some (
        (if leb (length s) len then (true, some (s ++ drop (length s) out)) else (false, some out)),
        h,
      )
unfolding get_buf
get_buf-element h this p s out len newer older room is =
    let (real, last, next, there) = Chain-there h this this p s newer older is.chain in
    elim (Bool-cases (leb (length s) len)) [
      | inl fits ↦
          let long_enough : ltb len (length s) ≡ false = ground (arith, fits) in
          rw (
            fits,
            ◌>>==◌,
            ◌>>>=◌,
            load-ok h p real there,
            long_enough,
            copy_out-ok s out (ground (arith, fits)),
          )
      | inr short ↦
          let too_short : ltb len (length s) ≡ true = ground (arith, short) in
          rw (short, ◌>>==◌, ◌>>>=◌, load-ok h p real there, too_short)
    ]
