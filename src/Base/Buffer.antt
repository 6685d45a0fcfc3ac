-- ===== src/Base/Buffer.antt =====
-- C arrays of bytes. A `char` is its bit pattern, a number below 256. An access outside the
-- array is a fault, `none`; `memcpy` and `memset` are `slice`, `overwrite` and `clear`.
use Prim.Native.Nat.{ℕ, zero, suc, ◌+◌, ◌<◌}
use mathlib.Core.Path.{◌≡◌, refl, ap}
use mathlib.Core.List.{List, [], ◌∷◌, ◌++◌}
use mathlib.Core.Option.{Option, none, some}
use native.Mathlib.Nat.{zero-add}
use native.Mathlib.Omega.{arith}
use left_my_codes.Base.Tests.{◌>>=◌}
use left_my_codes.Base.Lists.{length, get_elem?, replicate, All}

abbrev pub Bytes : Type 0
Bytes = List ℕ

abbrev pub IsBytes : Bytes → Type 0
IsBytes = All (λ c. c < 256)

-- `b[i]` as a value
abbrev pub read : Bytes → ℕ → Option ℕ
read = get_elem?

-- `b[i] = v`
unfoldable pub store : Bytes → ℕ → ℕ → Option Bytes
store [] i v = none
store (x ∷ b) zero v = some (v ∷ b)
store (x ∷ b) (suc i) v = do b' ← store b i v; some (x ∷ b')

-- The `n` bytes from `b[i]` on, as `memcpy` reads them.
unfoldable pub slice : Bytes → ℕ → ℕ → Option Bytes
slice b zero zero = some []
slice [] i n = none
slice (x ∷ b) zero (suc n) = do s ← slice b zero n; some (x ∷ s)
slice (x ∷ b) (suc i) n = slice b i n

-- The bytes `s` written over `b` from `b[i]` on, as `memcpy` writes them.
unfoldable pub overwrite : Bytes → ℕ → Bytes → Option Bytes
overwrite b zero [] = some b
overwrite [] i s = none
overwrite (x ∷ b) zero (y ∷ s) = do b' ← overwrite b zero s; some (y ∷ b')
overwrite (x ∷ b) (suc i) s = do b' ← overwrite b i s; some (x ∷ b')

-- `memset(b, 0, n)`
unfoldable pub clear : Bytes → ℕ → Option Bytes
unfolding overwrite
clear b n = overwrite b 0 (replicate n 0)

-- Each law splits the array at the place of the access.
pub store-append :
    (front : Bytes) (x : ℕ) (back : Bytes) (i v : ℕ)
    → i ≡ length front
    → store (front ++ x ∷ back) i v ≡ some (front ++ v ∷ back)
unfolding store
store-append [] x back zero v e = refl
store-append [] x back (suc i) v e = absurd (omega arith)
store-append (y ∷ front) x back zero v e = absurd (omega arith)
store-append (y ∷ front) x back (suc i) v e =
    ap (λ r. r >>= λ b'. some (y ∷ b')) (store-append front x back i v (omega arith))

pub slice-append :
    (front mid back : Bytes) (i n : ℕ)
    → i ≡ length front
    → n ≡ length mid
    → slice (front ++ (mid ++ back)) i n ≡ some mid
unfolding slice
slice-append [] [] back zero zero e f = refl
slice-append [] (x ∷ mid) back zero (suc n) e f =
    ap (λ r. r >>= λ s. some (x ∷ s)) (slice-append [] mid back 0 n refl (omega arith))
slice-append [] [] back i (suc n) e f = absurd (omega arith)
slice-append [] (x ∷ mid) back i zero e f = absurd (omega arith)
slice-append [] mid back (suc i) n e f = absurd (omega arith)
slice-append (y ∷ front) mid back zero n e f = absurd (omega arith)
slice-append (y ∷ front) mid back (suc i) n e f = slice-append front mid back i n (omega arith) f

pub overwrite-append :
    (front mid back s : Bytes) (i : ℕ)
    → i ≡ length front
    → length s ≡ length mid
    → overwrite (front ++ (mid ++ back)) i s ≡ some (front ++ (s ++ back))
unfolding overwrite
overwrite-append [] [] back [] zero e f = refl
overwrite-append [] (x ∷ mid) back (y ∷ s) zero e f =
    ap (λ r. r >>= λ b'. some (y ∷ b')) (overwrite-append [] mid back s 0 refl (omega arith))
overwrite-append [] [] back (y ∷ s) i e f = absurd (omega arith)
overwrite-append [] (x ∷ mid) back [] i e f = absurd (omega arith)
overwrite-append [] mid back s (suc i) e f = absurd (omega arith)
overwrite-append (y ∷ front) mid back s zero e f = absurd (omega arith)
overwrite-append (y ∷ front) mid back s (suc i) e f =
    ap (λ r. r >>= λ b'. some (y ∷ b')) (overwrite-append front mid back s i (omega arith) f)

pub read-append :
    (front : Bytes) (x : ℕ) (back : Bytes) (i : ℕ)
    → i ≡ length front
    → read (front ++ x ∷ back) i ≡ some x
read-append [] x back zero e = refl
read-append [] x back (suc i) e = absurd (omega arith)
read-append (y ∷ front) x back zero e = absurd (omega arith)
read-append (y ∷ front) x back (suc i) e = read-append front x back i (omega arith)

-- A write inside the array succeeds, and changes one place.
pub store-in :
    (b : Bytes) (i v : ℕ)
    → i < length b
    → (b' : Bytes) × (store b i v ≡ some b') × (length b' ≡ length b) × (read b' i ≡ some v)
unfolding store
store-in [] i v h = absurd (omega arith)
store-in (x ∷ b) zero v h = (v ∷ b, refl, refl, refl)
store-in (x ∷ b) (suc i) v h =
    let (b', done, same, there) = store-in b i v (omega arith) in
    (x ∷ b', ap (λ r. r >>= λ b'. some (x ∷ b')) done, omega arith, there)

-- A write behind a front leaves the front.
pub store-back :
    (front back : Bytes) (k i v : ℕ) {back' : Bytes}
    → k ≡ length front + i
    → store back i v ≡ some back'
    → store (front ++ back) k v ≡ some (front ++ back')
unfolding store
store-back [] back k i v p e = rw (p, zero-add) e
store-back (x ∷ front) back zero i v p e = absurd (omega arith)
store-back (x ∷ front) back (suc k) i v p e =
    ap (λ r. r >>= λ b'. some (x ∷ b')) (store-back front back k i v (omega arith) e)
