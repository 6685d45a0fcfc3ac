-- ===== src/Time.antt =====
-- `GetTimeStr` of LeftMyCodes/src/MyCodes.cpp: the text of a local time. What `time` and
-- `localtime` give is a parameter: the fields of a `tm`, none of them negative.
pub mod Laws
mod Tests
use left_my_codes.Base.{
  decimal, decimal_2, ℕ, zero, suc, ◌+◌, Option, some, List, [], ◌∷◌, ◌++◌, take, Bytes, overwrite,
}

pub record Tm : Type 0 where
  pub tm_year : ℕ
  pub tm_mon : ℕ
  pub tm_mday : ℕ
  pub tm_hour : ℕ
  pub tm_min : ℕ
  pub tm_sec : ℕ

-- A sign and `%02d` for each field.
unfoldable pub print_fields : List (ℕ × ℕ) → Bytes
print_fields [] = []
print_fields ((sign, n) ∷ fields) = sign ∷ (decimal_2 n ++ print_fields fields)

abbrev pub time_fields : Tm → List (ℕ × ℕ)
time_fields t =
    (b'-', t.tm_mon + 1)
    ∷ (b'-', t.tm_mday)
    ∷ (b' ', t.tm_hour)
    ∷ (b':', t.tm_min)
    ∷ (b':', t.tm_sec)
    ∷ []

-- What `snprintf` prints for "%d-%02d-%02d %02d:%02d:%02d", before it is cut.
unfoldable pub print_time : Tm → Bytes
print_time t = decimal (t.tm_year + 1900) ++ print_fields (time_fields t)

-- `localtime now` has the time `now` seconds after the epoch.
module _ (localtime : ℕ → Tm) where
  -- The array as it is left; the pointer that is returned is the array's.
  unfoldable pub get_time_str_off : ℕ → ℕ → Bytes → ℕ → Option Bytes
  get_time_str_off now off time_str zero = some time_str
  get_time_str_off now off time_str (suc room) =
      overwrite time_str 0 (take room (print_time (localtime (now + off))) ++ 0 ∷ [])

  unfoldable pub get_time_str : ℕ → Bytes → ℕ → Option Bytes
  get_time_str now time_str size_of_buf = get_time_str_off now 0 time_str size_of_buf
