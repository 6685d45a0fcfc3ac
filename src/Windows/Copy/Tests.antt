-- ===== src/Windows/Copy/Tests.antt =====
-- Runs of `CopyScreem`.
use left_my_codes.Base.{ℕ, ◌+◌, ◌≡◌, refl, Bool, true, false, some, List, [], ◌∷◌}
use left_my_codes.Windows.Copy.{
  CopyScrm, Phase, waiting, holding, handed, off_read, in_read, time_read, copying, Task, Lock,
  initial, fill, begin_call, advance, call, go, copy_start, copy_rounds,
}
use left_my_codes.Windows.Copy.Laws.{
  Steps, done, then_step, IsLock, last_other, Steps-IsLock, copy_rounds-last_other,
}

abbrev any_window : CopyScrm
any_window = record { in_window = 0; off_window = 9; time = 50 }

abbrev any_call : Phase → Task
any_call p = record { in_window = 0; off_window = 9; time = 0; phase = p }

abbrev other_call : Phase → Task
other_call p = record { in_window = 4; off_window = 8; time = 7; phase = p }

-- The first call has started its thread, which is past the event, and the second one holds the event.
abbrev after_two : Lock
after_two = record { set = false; tasks = other_call holding ∷ any_call (copying 9 0 50) ∷ [] }

abbrev with_first : Bool → Phase → Lock
with_first set p = record { set = set; tasks = any_call p ∷ [] }

one_call : Steps initial (with_first true (copying 9 0 50))
unfolding begin_call fill advance
one_call =
    let s1 =
      then_step initial initial (with_first true waiting) (done initial) (call 0 9 0 initial) in
    let s2 =
      then_step initial _ (with_first false holding) s1
        (go true true [] (any_call waiting) [] (false, holding) refl) in
    let s3 =
      then_step initial _ (with_first false (handed any_window)) s2
        (go false true [] (any_call holding) [] (false, handed any_window) refl) in
    let s4 =
      then_step initial _ (with_first false (off_read any_window 9)) s3
        (go false true [] (any_call (handed any_window)) [] (false, off_read any_window 9) refl) in
    let s5 = then_step initial _ (with_first false (in_read any_window 9 0)) s4 (
      go false true [] (any_call (off_read any_window 9)) [] (false, in_read any_window 9 0)
        refl) in
    let s6 =
      then_step initial _ (with_first false (time_read 9 0 50)) s5
        (go false true [] (any_call (in_read any_window 9 0)) [] (false, time_read 9 0 50) refl) in
    then_step initial _ (with_first true (copying 9 0 50)) s6
      (go false true [] (any_call (time_read 9 0 50)) [] (true, copying 9 0 50) refl)

two_calls : Steps initial after_two
unfolding begin_call advance
two_calls =
    let first = with_first true (copying 9 0 50) in
    let second : Lock = record {
      set = true;
      tasks = other_call waiting ∷ any_call (copying 9 0 50) ∷ [];
    } in
    then_step initial second after_two (then_step initial first second one_call (call 4 8 7 first))
      (go true true [] (other_call waiting) (any_call (copying 9 0 50) ∷ []) (false, holding) refl)

Steps-IsLock_example : IsLock after_two
Steps-IsLock_example = Steps-IsLock two_calls

abbrev foreground : List ℕ
foreground = 3 ∷ 0 ∷ 4 ∷ 9 ∷ []

fourth : last_other 9 foreground ≡ some 4
fourth = refl

copy_rounds-last_other_example :
    copy_rounds any_window (λ w. w + 100) (copy_start any_window (λ w. w + 100)) foreground
    ≡ record { window = 4; rect = some 104 }
copy_rounds-last_other_example = copy_rounds-last_other any_window (λ w. w + 100) foreground
