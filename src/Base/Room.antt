-- ===== src/Base/Room.antt =====
-- Writes to the front and to the end of what stands in a C array, and a text that has room.
use Prim.Native.Nat.{ℕ, zero, suc, ◌+◌, ◌<◌, ◌≤◌, ◌-◌}
use mathlib.Core.Path.{subst, sym, ◌≡◌, refl, ap}
use mathlib.Core.List.{[], ◌∷◌, ◌++◌, append_assoc}
use mathlib.Core.Option.{none, some}
use native.Mathlib.Nat.{zero-add, sub-zero, suc-sub-suc}
use native.Mathlib.Omega.{arith}
use left_my_codes.Base.Tests.{◌>>=◌}
use left_my_codes.Base.Lists.{
  length, take, drop, replicate, length-drop, drop-add, length-replicate, length-append,
}
use left_my_codes.Base.Buffer.{Bytes, store, overwrite, clear, store-append, overwrite-append}

-- An array of enough bytes is a front of a given length and what stands behind it.
pub split_at :
    (n : ℕ) (b : Bytes) → n ≤ length b → (length (take n b) ≡ n) × (b ≡ take n b ++ drop n b)
split_at zero b h = (refl, refl)
split_at (suc n) [] h = absurd (omega arith)
split_at (suc n) (x ∷ b) h = let (l, e) = split_at n b (omega arith) in (omega arith, ap (◌∷◌ x) e)

drop_cons : (n : ℕ) (b : Bytes) → n < length b → (x : ℕ) × (drop n b ≡ x ∷ drop (suc n) b)
drop_cons n [] h = absurd (omega arith)
drop_cons zero (x ∷ b) h = (x, refl)
drop_cons (suc n) (x ∷ b) h = drop_cons n b (omega arith)

-- The write of one more byte behind a text that stands at the start of an array.
pub store-end :
    (s b : Bytes) (n v : ℕ)
    → n ≡ length s
    → n < length b
    → store (s ++ drop n b) n v ≡ some (s ++ v ∷ drop (suc n) b)
store-end s b n v e h =
    let (x, cut) = drop_cons n b h in rw cut (store-append s x (drop (suc n) b) n v e)

-- The same for many bytes behind a text.
pub overwrite-end :
    (front b s : Bytes) (n : ℕ)
    → n ≡ length front
    → n + length s ≤ length b
    → overwrite (front ++ drop n b) n s ≡ some (front ++ (s ++ drop (n + length s) b))
overwrite-end front b s n e h =
    let (l, cut) = split_at (length s) (drop n b) (omega (arith, length-drop n b)) in
    let back = drop (length s) (drop n b) in
    let written = overwrite-append front (take (length s) (drop n b)) back s n e (sym l) in
    rw drop-add
      (subst (λ t. overwrite (front ++ t) n s ≡ some (front ++ (s ++ back))) (sym cut) written)

pub store-take :
    (b : Bytes) (n v : ℕ) → n < length b → store b n v ≡ some (take n b ++ v ∷ drop (suc n) b)
store-take b n v h =
    let (l, cut) = split_at n b (omega arith) in
    subst (λ t. store t n v ≡ some (take n b ++ v ∷ drop (suc n) b)) (sym cut)
      (store-end (take n b) b n v (sym l) h)

-- The first bytes of an array, written over.
pub overwrite-start :
    (b s : Bytes) → length s ≤ length b → overwrite b 0 s ≡ some (s ++ drop (length s) b)
overwrite-start b s h = rw zero-add at (overwrite-end [] b s 0 refl (omega arith))

pub clear-replicate :
    (b : Bytes) (n : ℕ) → n ≤ length b → clear b n ≡ some (replicate n 0 ++ drop n b)
unfolding clear
clear-replicate b n h =
    let zeros : Bytes = replicate n 0 in
    let l : length zeros ≡ n = length-replicate n 0 in
    subst (λ k. overwrite b 0 zeros ≡ some (zeros ++ drop k b)) l
      (overwrite-start b zeros (omega arith))

pub clear-in :
    (b : Bytes) (n : ℕ)
    → n ≤ length b
    → (b' : Bytes) × (clear b n ≡ some b') × (length b' ≡ length b)
clear-in b n h =
    let zeros : Bytes = replicate n 0 in
    let l : length zeros ≡ n = length-replicate n 0 in
    (
      zeros ++ drop n b,
      clear-replicate b n h,
      omega (arith, length-append zeros (drop n b), length-drop n b),
    )

-- A copy that is longer than the array is a fault.
pub overwrite_beyond : (b s : Bytes) → length b < length s → overwrite b 0 s ≡ none
unfolding overwrite
overwrite_beyond b [] h = absurd (omega arith)
overwrite_beyond [] (y ∷ s) h = refl
overwrite_beyond (x ∷ b) (y ∷ s) h =
    ap (λ r. r >>= λ b'. some (y ∷ b')) (overwrite_beyond b s (omega arith))

pub zeros_append :
    (n k : ℕ) (r : Bytes) → n ≤ k → replicate k 0 ++ r ≡ replicate n 0 ++ (replicate (k - n) 0 ++ r)
zeros_append zero k r h = rw sub-zero
zeros_append (suc n) zero r h = absurd (omega arith)
zeros_append (suc n) (suc k) r h = rw suc-sub-suc (ap (◌∷◌ 0) (zeros_append n k r (omega arith)))

pub take_all : (s : Bytes) (n : ℕ) → length s ≤ n → take n s ≡ s
take_all [] zero h = refl
take_all [] (suc n) h = refl
take_all (c ∷ s) zero h = absurd (omega arith)
take_all (c ∷ s) (suc n) h = ap (◌∷◌ c) (take_all s n (omega arith))

pub drop_all : (s : Bytes) (n : ℕ) → length s ≤ n → drop n s ≡ []
drop_all [] zero h = refl
drop_all [] (suc n) h = refl
drop_all (c ∷ s) zero h = absurd (omega arith)
drop_all (c ∷ s) (suc n) h = drop_all s n (omega arith)

-- What `snprintf` writes of a text that has room.
pub print_room :
    (s out : Bytes) (len : ℕ)
    → length s < len
    → len ≤ length out
    → overwrite out 0 (take (len - 1) s ++ 0 ∷ []) ≡ some (s ++ 0 ∷ drop (suc (length s)) out)
print_room s out len h room =
    let text = s ++ 0 ∷ [] in
    let l : length text ≡ suc (length s) = omega (arith, length-append s (0 ∷ [])) in
    rw (take_all s (len - 1) (omega arith))
      (rw l at (simp append_assoc at (overwrite-start out text (omega arith))))
