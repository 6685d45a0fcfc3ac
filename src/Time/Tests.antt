-- ===== src/Time/Tests.antt =====
-- A run of `GetTimeStr`.
use left_my_codes.Base.{ℕ, ◌≡◌, some, ◌∷◌, ◌++◌, arith, length, take, drop, replicate}
use left_my_codes.Time.{Tm, print_time, get_time_str}
use left_my_codes.Time.Laws.{IsTm, get_time_str-print_time}

abbrev new_year : ℕ → Tm
new_year now = record {
  tm_year = 117;
  tm_mon = 11;
  tm_mday = 31;
  tm_hour = 23;
  tm_min = 59;
  tm_sec = 60;
}

new_year-IsTm : IsTm (new_year 0)
new_year-IsTm = ground arith

get_time_str-print_time_example :
    (length (print_time (new_year 0)) ≡ 19)
    × (get_time_str new_year 0 (replicate 12 b'x') 11
        ≡ some (take 10 (print_time (new_year 0)) ++ 0 ∷ drop 11 (replicate 12 b'x')))
get_time_str-print_time_example =
    get_time_str-print_time new_year 0 10 (replicate 12 b'x') new_year-IsTm (omega arith)
