-- ===== src/Windows/Copy/Laws.antt =====
-- `CopyScreem`: who holds the event, and which window is copied.
use left_my_codes.Base.{
  ℕ, zero, suc, ◌+◌, ◌≤◌, ◌≡◌, refl, ◌≢◌, inl, inr, Bool, true, false, not, ◌&&◌, Option, none,
  some, List, [], ◌∷◌, ◌++◌, arith, ◌==◌, if◌then◌else◌, Bool-cases, Option-cases, All, some_inj,
}
use left_my_codes.Windows.Copy.{
  CopyScrm, Phase, waiting, holding, failed, handed, off_read, in_read, time_read, copying, Task,
  Lock, initial, fill, begin_call, advance, Step, call, go, Source, copy_round, copy_start,
  copy_rounds,
}

-- From one state to another by any number of steps.
pub data Steps : Lock → Lock → Type 0 where
  done : (s : Lock) → Steps s s
  then_step : (s t u : Lock) → Steps s t → Step t u → Steps s u

-- The time a thread waits for the time of a call.
abbrev pub wait_of : ℕ → ℕ
wait_of zero = 50
wait_of (suc n) = suc n

-- Whether a call has taken the event and its thread has not set it again.
abbrev pub holds : Phase → Bool
holds waiting = false
holds (copying off_hwnd in_hwnd time) = false
holds p = true

abbrev pub one_if : Bool → ℕ
one_if false = 0
one_if true = 1

abbrev pub holders : List Task → ℕ
holders [] = 0
holders (t ∷ ts) = one_if (holds t.phase) + holders ts

-- A record is the one of the call `t`.
abbrev pub IsRecord : Task → CopyScrm → Type 0
IsRecord t cp =
    (cp.off_window ≡ t.off_window) × (cp.in_window ≡ t.in_window) × (cp.time ≡ wait_of t.time)

-- A thread has what its call was made with.
abbrev pub HasOwn : Task → Phase → Type 0
HasOwn t waiting = Unit {0}
HasOwn t holding = Unit {0}
HasOwn t failed = Unit {0}
HasOwn t (handed cp) = IsRecord t cp
HasOwn t (off_read cp off_hwnd) = IsRecord t cp × (off_hwnd ≡ t.off_window)
HasOwn t (in_read cp off_hwnd in_hwnd) =
    IsRecord t cp × (off_hwnd ≡ t.off_window) × (in_hwnd ≡ t.in_window)
HasOwn t (time_read off_hwnd in_hwnd time) =
    (off_hwnd ≡ t.off_window) × (in_hwnd ≡ t.in_window) × (time ≡ wait_of t.time)
HasOwn t (copying off_hwnd in_hwnd time) =
    (off_hwnd ≡ t.off_window) × (in_hwnd ≡ t.in_window) × (time ≡ wait_of t.time)

abbrev pub IsTask : Task → Type 0
IsTask t = (t.off_window ≢ 0) × HasOwn t t.phase

-- The event is set and nobody holds it, or it is not and exactly one does; every thread has what
-- its call was made with, and a window to draw to.
abbrev pub IsLock : Lock → Type 0
IsLock s = (one_if s.set + holders s.tasks ≡ 1) × All IsTask s.tasks

fill_time : (n : ℕ) → (if n == 0 then 50 else n) ≡ wait_of n
fill_time zero = refl
fill_time (suc n) = ground arith

fill-IsRecord : (t : Task) → IsRecord t (fill t)
unfolding fill
fill-IsRecord t = (refl, refl, fill_time t.time)

-- A statement hands the event on and keeps what a thread has.
Kept : Bool → Task → Phase → Bool × Phase → Type 0
Kept set t p r = (one_if r.0 + one_if (holds r.1) ≡ one_if set + one_if (holds p)) × HasOwn t r.1

advance-Kept :
    (set started : Bool) (t : Task) (p : Phase) (r : Bool × Phase)
    → one_if set + one_if (holds p) ≤ 1
    → HasOwn t p
    → advance set started t p ≡ some r
    → Kept set t p r
unfolding advance Kept
advance-Kept true started t waiting r one own h = rw (← some_inj h) (refl, tt)
advance-Kept false started t waiting r one own h = cc
advance-Kept set true t holding r one own h = rw (← some_inj h) (refl, fill-IsRecord t)
advance-Kept set false t holding r one own h = rw (← some_inj h) (refl, tt)
advance-Kept set started t failed r one own h = cc
advance-Kept set started t (handed cp) r one own h = rw (← some_inj h) (refl, (own, own.0))
advance-Kept set started t (off_read cp off_hwnd) r one (own, off) h =
    rw (← some_inj h) (refl, (own, off, own.1))
advance-Kept set started t (in_read cp off_hwnd in_hwnd) r one (own, off, inner) h =
    rw (← some_inj h) (refl, (off, inner, own.2))
advance-Kept false started t (time_read off_hwnd in_hwnd time) r one own h =
    rw (← some_inj h) (refl, own)
advance-Kept true started t (time_read off_hwnd in_hwnd time) r one own h =
    absurd (omega (arith, one))
advance-Kept set started t (copying off_hwnd in_hwnd time) r one own h = cc

holders-append :
    (before : List Task) (t : Task) (behind : List Task)
    → holders (before ++ t ∷ behind) ≡ one_if (holds t.phase) + (holders before + holders behind)
holders-append [] t behind = omega arith
holders-append (b ∷ before) t behind =
    let rest = holders-append before t behind in omega (arith, rest)

All-replace :
    (before : List Task) (t t' : Task) (behind : List Task)
    → (IsTask t → IsTask t')
    → All IsTask (before ++ t ∷ behind)
    → All IsTask (before ++ t' ∷ behind)
All-replace [] t t' behind change (now, rest) = (change now, rest)
All-replace (b ∷ before) t t' behind change (first, rest) =
    (first, All-replace before t t' behind change rest)

All-middle :
    (before : List Task) (t : Task) (behind : List Task)
    → All IsTask (before ++ t ∷ behind)
    → IsTask t
All-middle [] t behind (now, rest) = now
All-middle (b ∷ before) t behind (first, rest) = All-middle before t behind rest

begin_call-IsLock :
    (in_window off_window time : ℕ) (s : Lock)
    → IsLock s
    → IsLock (begin_call in_window off_window time s)
unfolding begin_call
begin_call-IsLock in_window off_window time s (one, all) = elim (Bool-cases (off_window == 0)) [
  | inl null ↦ rw null (one, all)
  | inr real ↦ rw real (omega (arith, one), ((ground (arith, real), tt), all))
]

Step-IsLock : {s t : Lock} → Step s t → IsLock s → IsLock t
unfolding Kept
Step-IsLock (call in_window off_window time s) is = begin_call-IsLock in_window off_window time s is
Step-IsLock (go set started before t behind r goes) (one, all) =
    let count = holders-append before t behind in
    let count' = holders-append before (record t { phase = r.1 }) behind in
    let own = All-middle before t behind all in
    let (kept, own') =
      advance-Kept set started t t.phase r (omega (arith, one, count)) own.1 goes in
    (
      omega (arith, one, count, count', kept),
      All-replace before t (record t { phase = r.1 }) behind (λ now. (now.0, own')) all,
    )

-- In every state that the calls of `CopyScreem` and their threads reach, whatever the order of
-- their statements, and whether `CreateThread` starts a thread or not: the event is set and no call
-- is behind its wait, or it is not set and exactly one is, whose thread has not set the event, or
-- was not started; only calls with a window to draw to wait; and a thread has the windows that its
-- own call was made with, and its time, or 50 for 0.
pub Steps-IsLock : {s : Lock} → Steps initial s → IsLock s
Steps-IsLock (done _) = (refl, tt)
Steps-IsLock (then_step s t u steps step) = Step-IsLock step (Steps-IsLock steps)

-- The last window in the foreground that is not the one drawn to, if there was one.
abbrev pub last_other : ℕ → List ℕ → Option ℕ
last_other off_window [] = none
last_other off_window (fgrnd_win ∷ later) = elim (last_other off_window later) [
  | some w ↦ some w
  | none ↦ if not (fgrnd_win == 0) && not (fgrnd_win == off_window) then some fgrnd_win else none
]

module _ (cp : CopyScrm) (rect_of : ℕ → ℕ) where
  -- The source for the last window found, or the one of before.
  abbrev turned : Source → Option ℕ → Source
  turned source none = source
  turned source (some w) = record { window = w; rect = some (rect_of w) }

  copy_rounds-own :
      (source : Source) (foreground : List ℕ)
      → (cp.in_window == 0) ≡ false
      → copy_rounds cp rect_of source foreground ≡ source
  unfolding copy_rounds copy_round
  copy_rounds-own source [] own = refl
  copy_rounds-own source (f ∷ later) own = rw own (copy_rounds-own source later own)

  copy_rounds-turned :
      (source : Source) (foreground : List ℕ)
      → (cp.in_window == 0) ≡ true
      → copy_rounds cp rect_of source foreground
        ≡ turned source (last_other cp.off_window foreground)
  unfolding copy_rounds copy_round
  copy_rounds-turned source [] any = refl
  copy_rounds-turned source (f ∷ later) any =
      let now = copy_round cp rect_of source f in
      elim (Option-cases (last_other cp.off_window later)) [
        | inr (w, found) ↦ rw (copy_rounds-turned now later any, found) refl
        | inl none_later ↦ elim (Bool-cases (not (f == 0) && not (f == cp.off_window))) [
          | inl other ↦ rw (copy_rounds-turned now later any, none_later, any, other) refl
          | inr same ↦ rw (copy_rounds-turned now later any, none_later, any, same) refl
        ]
      ]

-- A thread with a window of its own copies this window, with its rectangle, in every round. One
-- with none copies the last window that was in the foreground and is not the one drawn to, with its
-- rectangle; until there was such a window, it has neither a window nor a rectangle.
pub copy_rounds-last_other :
    (cp : CopyScrm) (rect_of : ℕ → ℕ) (foreground : List ℕ)
    → copy_rounds cp rect_of (copy_start cp rect_of) foreground ≡ (
        if not (cp.in_window == 0)
        then record { window = cp.in_window; rect = some (rect_of cp.in_window) }
        else elim (last_other cp.off_window foreground) [
          | none ↦ record { window = 0; rect = none }
          | some w ↦ record { window = w; rect = some (rect_of w) }
        ])
unfolding copy_start
copy_rounds-last_other cp rect_of foreground = elim (Bool-cases (cp.in_window == 0)) [
  | inr own ↦ rw (copy_rounds-own cp rect_of (copy_start cp rect_of) foreground own, own) refl
  | inl any ↦
      let null : cp.in_window ≡ 0 = ground (arith, any) in
      elim (Option-cases (last_other cp.off_window foreground)) [
        | inl none_other ↦
            rw
              (
                copy_rounds-turned cp rect_of (copy_start cp rect_of) foreground any,
                none_other,
                null,
              )
              refl
        | inr (w, found) ↦
            rw (copy_rounds-turned cp rect_of (copy_start cp rect_of) foreground any, found, any)
              refl
      ]
]
