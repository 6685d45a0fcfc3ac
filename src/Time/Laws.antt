-- ===== src/Time/Laws.antt =====
-- `GetTimeStr`: the text and its length.
use left_my_codes.Base.{
  decimal, decimal_2, IsPlain, decimal-IsPlain, decimal_2-IsPlain, length-decimal, length-decimal_2,
  ℕ, suc, ◌+◌, ◌*◌, ◌≤◌, ◌<◌, min, ◌≡◌, refl, ◌≢◌, some, List, [], ◌∷◌, ◌++◌, append_assoc, arith,
  length, take, drop, All, length-append, length-take, All-append, Bytes, overwrite-start,
}
use native.Mathlib.Nat.{add-zero}
use left_my_codes.Time.{Tm, time_fields, print_fields, print_time, get_time_str_off, get_time_str}

-- The ranges of `localtime`, for a year of four digits.
abbrev pub IsTm : Tm → Type 0
IsTm t =
    (t.tm_year + 1900 < 10000)
    × (t.tm_mon < 12)
    × (t.tm_mday < 32)
    × (t.tm_hour < 24)
    × (t.tm_min < 60)
    × (t.tm_sec < 61)
    × (1000 ≤ t.tm_year + 1900)

print_fields-IsPlain :
    (fields : List (ℕ × ℕ))
    → All (λ f. (f.0 ≢ 0) × (f.0 ≢ b'%')) fields
    → IsPlain (print_fields fields)
unfolding print_fields
print_fields-IsPlain [] h = tt
print_fields-IsPlain ((sign, n) ∷ fields) h = (
  h.0,
  All-append (λ d. (d ≢ 0) × (d ≢ b'%')) (decimal_2 n) (print_fields fields) (decimal_2-IsPlain n)
      (print_fields-IsPlain fields h.1),
)

length-print_fields :
    (fields : List (ℕ × ℕ))
    → All (λ f. f.1 < 100) fields
    → length (print_fields fields) ≡ 3 * length fields
unfolding print_fields
length-print_fields [] h = refl
length-print_fields ((sign, n) ∷ fields) h = omega (
  arith,
  length-append (decimal_2 n) (print_fields fields),
  length-decimal_2 n h.0,
  length-print_fields fields h.1,
)

pub print_time-IsPlain : (t : Tm) → IsPlain (print_time t)
unfolding print_time
print_time-IsPlain t =
    All-append (λ d. (d ≢ 0) × (d ≢ b'%')) (decimal (t.tm_year + 1900))
      (print_fields (time_fields t)) (decimal-IsPlain (t.tm_year + 1900))
      (print_fields-IsPlain (time_fields t) (ground arith))

pub length-print_time : (t : Tm) → IsTm t → length (print_time t) ≡ 19
unfolding print_time
length-print_time t h =
    let (year, mon, mday, hour, min, sec, old) = h in
    let four : length (decimal (t.tm_year + 1900)) ≡ 4 =
      ground (arith, length-decimal (t.tm_year + 1900) year) in
    omega (
      arith,
      length-append (decimal (t.tm_year + 1900)) (print_fields (time_fields t)),
      four,
      length-print_fields (time_fields t) (ground arith),
    )

-- For a time within the ranges of `localtime` and a year of four digits: in an array of 20 bytes or
-- more `GetTimeStr` leaves the text of 19 characters, a NUL and the bytes behind them, and in a
-- shorter one as much of the text as there is room for, with a NUL behind.
pub get_time_str-print_time :
    (localtime : ℕ → Tm) (now room : ℕ) (time_str : Bytes)
    → IsTm (localtime now)
    → suc room ≤ length time_str
    → let text = print_time (localtime now) in
      (length text ≡ 19)
      × (get_time_str localtime now time_str (suc room)
          ≡ some (take room text ++ 0 ∷ drop (min (suc room) 20) time_str))
unfolding get_time_str get_time_str_off
get_time_str-print_time localtime now room time_str h fits =
    let text = print_time (localtime now) in
    let whole = length-print_time (localtime now) h in
    let written = take room text ++ 0 ∷ [] in
    let l : length written ≡ min (suc room) 20 =
      omega (arith, length-append (take room text) (0 ∷ []), length-take room text, whole) in
    (
      whole,
      rw (add-zero now)
          (simp append_assoc at (rw l at (overwrite-start time_str written (omega arith)))),
    )
