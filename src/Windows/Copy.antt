-- ===== src/Windows/Copy.antt =====
-- `LeftWindows::CopyScreem` of LeftSupport/LeftSupport/LeftWindows.cpp, the function that starts a
-- thread and the thread: how the thread gets its arguments, and which window it copies. A number
-- stands for an `HWND`, with 0 for NULL.
pub mod Laws
mod Tests
use left_my_codes.Base.{
  ℕ, ◌≡◌, Bool, true, false, not, ◌&&◌, Option, none, some, List, [], ◌∷◌, ◌++◌, ◌==◌,
  if◌then◌else◌,
}

-- `CopyScrm`
pub record CopyScrm : Type 0 where
  pub in_window : ℕ
  pub off_window : ℕ
  pub time : ℕ

-- How far a call and its thread are. `waiting` is in front of `WaitForSingleObject` and `holding`
-- behind it; `handed` has its record filled and its thread started, which is at its beginning, and
-- `failed` has a record that no thread got; a thread then has read `offWindow`, `inWindow` and
-- `time`, and has set the event where it is `copying`. The `delete[]` of the record, a void pointer
-- to what was made by `new`, is undefined and left out.
pub data Phase : Type 0 where
  waiting holding failed : Phase
  handed : CopyScrm → Phase
  off_read : CopyScrm → ℕ → Phase
  in_read : CopyScrm → ℕ → ℕ → Phase
  time_read : ℕ → ℕ → ℕ → Phase
  copying : ℕ → ℕ → ℕ → Phase

-- A call that was made with these arguments, and its thread.
pub record Task : Type 0 where
  pub in_window : ℕ
  pub off_window : ℕ
  pub time : ℕ
  pub phase : Phase

-- The event `DeleteSureLock`, and the calls and threads there are.
pub record Lock : Type 0 where
  pub set : Bool
  pub tasks : List Task

-- At first `CreateEvent(NULL, FALSE, TRUE, NULL)`.
abbrev pub initial : Lock
initial = record { set = true; tasks = [] }

-- The record of a call.
unfoldable pub fill : Task → CopyScrm
fill t = record {
  in_window = t.in_window;
  off_window = t.off_window;
  time = if t.time == 0 then 50 else t.time;
}

-- A call is made; it returns false at once for no window to draw to.
unfoldable pub begin_call : ℕ → ℕ → ℕ → Lock → Lock
begin_call in_window off_window time s =
    let t : Task = record {
      in_window = in_window;
      off_window = off_window;
      time = time;
      phase = waiting;
    } in
    if off_window == 0 then s else record s { tasks = t ∷ s.tasks }

-- What a statement of a call or a thread makes of the event and of how far this one is: none
-- where it waits. `WaitForSingleObject` takes the event back. A call that holds the event fills its
-- record, which nobody else has yet, and calls `CreateThread`: `started` is whether that starts the
-- thread, which the code does not look at. A time stands for the bits of its `UINT`, which the `int`
-- of the thread keeps.
unfoldable pub advance : Bool → Bool → Task → Phase → Option (Bool × Phase)
advance true started t waiting = some (false, holding)
advance false started t waiting = none
advance set true t holding = some (set, handed (fill t))
advance set false t holding = some (set, failed)
advance set started t failed = none
advance set started t (handed cp) = some (set, off_read cp cp.off_window)
advance set started t (off_read cp off_hwnd) = some (set, in_read cp off_hwnd cp.in_window)
advance set started t (in_read cp off_hwnd in_hwnd) = some (set, time_read off_hwnd in_hwnd cp.time)
advance set started t (time_read off_hwnd in_hwnd time) = some (true, copying off_hwnd in_hwnd time)
advance set started t (copying off_hwnd in_hwnd time) = none

-- One step: a call is made, or any of the calls and threads goes on by one statement.
pub data Step : Lock → Lock → Type 0 where
  call :
      (in_window off_window time : ℕ) (s : Lock) → Step s (begin_call in_window off_window time s)
  go :
      (set started : Bool) (before : List Task) (t : Task) (behind : List Task) (r : Bool × Phase)
      → advance set started t t.phase ≡ some r
      → Step
          (record { set = set; tasks = before ++ t ∷ behind })
          (record { set = r.0; tasks = before ++ record t { phase = r.1 } ∷ behind })

-- What a thread keeps: the window whose picture it copies, and the rectangle that it has for its
-- size. `rect` is none while it has not been set.
pub record Source : Type 0 where
  pub window : ℕ
  pub rect : Option ℕ

-- A round of the thread: with no window of its own it turns to the one in the foreground, if there
-- is one and it is not the window that is drawn to.
unfoldable pub copy_round : CopyScrm → (ℕ → ℕ) → Source → ℕ → Source
copy_round cp rect_of source fgrnd_win =
    if cp.in_window == 0 && (not (fgrnd_win == 0) && not (fgrnd_win == cp.off_window))
    then record { window = fgrnd_win; rect = some (rect_of fgrnd_win) }
    else source

-- Before the loop; `GetWindowRect` of NULL sets no rectangle.
unfoldable pub copy_start : CopyScrm → (ℕ → ℕ) → Source
copy_start cp rect_of = record {
  window = cp.in_window;
  rect = if cp.in_window == 0 then none else some (rect_of cp.in_window);
}

unfoldable pub copy_rounds : CopyScrm → (ℕ → ℕ) → Source → List ℕ → Source
copy_rounds cp rect_of source [] = source
copy_rounds cp rect_of source (fgrnd_win ∷ later) =
    copy_rounds cp rect_of (copy_round cp rect_of source fgrnd_win) later
