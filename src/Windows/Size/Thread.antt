-- ===== src/Windows/Size/Thread.antt =====
-- The thread of `ExSizeChange`, and `PleaseExs`, which starts it.
use left_my_codes.Base.{
  ℕ, bit_and, ◌≡◌, refl, inl, inr, Bool, true, false, not, Option, none, some, List, [], ◌∷◌, ◌==◌,
  if◌then◌else◌, Bool-cases,
}
use left_my_codes.Base.{◌-ℤ◌}
use left_my_codes.Windows.Size.Axis.{moved_size, given_size}
use left_my_codes.Windows.Size.{Point, Rect, Drag, move_round, size_round, hold}
use left_my_codes.Windows.Size.Laws.{
  moved, reach, fitted, stretched, size_of, inside, last_of, hold-moved, hold-stretched,
}

-- What a round of the endless loop finds: another window is in the foreground, or this one, with
-- the left button down or not, and then the right one; of a button that is down, where the cursor
-- is at first and in each round of the inner loop.
pub data Turn : Type 0 where
  away : Turn
  turn : Option (Point × List Point) → Option (Point × List Point) → Turn

module _ (inset : Point) (granted : Point → Point) where
  abbrev pub while_down : (Drag → Point → Drag) → Rect → Option (Point × List Point) → Rect
  while_down round window none = window
  while_down round window (some (cursor, cursors)) = hold inset round window cursor cursors

  unfoldable pub ex_size_round : Rect → Turn → Rect
  ex_size_round window away = window
  ex_size_round window (turn left right) =
      while_down (size_round inset granted) (while_down (move_round inset) window left) right

  -- The result, if it returns within these turns, and the window; `LEFT_WINDOWS_ERROR` is -1 as a
  -- `DWORD`.
  unfoldable pub ex_size_change : ℕ → Rect → List Turn → Option ℕ × Rect
  ex_size_change win window [] = (if win == 0 then some 0xFFFFFFFF else none, window)
  ex_size_change win window (t ∷ turns) =
      let rest = ex_size_change win (ex_size_round window t) turns in
      if win == 0 then (some 0xFFFFFFFF, window) else rest

-- `PleaseExs`: the result, and whether the thread is started.
unfoldable pub please_exs : ℕ → ℕ → ℕ × Bool
please_exs ex_code hwnd =
    if hwnd == 0 then (0xFFFFFFFF, false) else (0, not (bit_and ex_code 1 == 0))

-- What the user does to the window while a button is down.
abbrev pub dragged :
    Point → (Rect → Point → Point → Rect) → Rect → Option (Point × List Point) → Rect
dragged inset to window none = window
dragged inset to window (some (cursor, cursors)) =
    if inside inset window cursor then to window cursor (last_of cursor cursors) else window

abbrev pub after_turns : Point → (Point → Point) → Rect → List Turn → Rect
after_turns inset granted window [] = window
after_turns inset granted window (away ∷ turns) = after_turns inset granted window turns
after_turns inset granted window (turn left right ∷ turns) =
    after_turns inset granted
      (dragged inset (stretched granted) (dragged inset moved window left) right) turns

size_of-moved : (window : Rect) (from to : Point) → size_of (moved window from to) ≡ size_of window
size_of-moved window from to =
    rw
      (
        moved_size window.left window.right (to.x -ℤ from.x),
        moved_size window.top window.bottom (to.y -ℤ from.y),
      )
      refl

size_of-fitted :
    (granted : Point → Point) (window : Rect)
    → size_of (fitted granted window) ≡ granted (size_of window)
size_of-fitted granted window =
    rw
      (
        given_size window.left (granted (size_of window)).x,
        given_size window.top (granted (size_of window)).y,
      )
      refl

-- A size that is asked for again, once it was given, is given.
abbrev pub IsStable : (Point → Point) → Type 0
IsStable granted = (size : Point) → granted (granted size) ≡ granted size

-- A window has a size that is given when it is asked for.
abbrev IsGranted : (Point → Point) → Rect → Type 0
IsGranted granted window = granted (size_of window) ≡ size_of window

module _ (inset : Point) (granted : Point → Point) where
  dragged-moved-IsGranted :
      (window : Rect) (places : Option (Point × List Point))
      → IsGranted granted window
      → IsGranted granted (dragged inset moved window places)
  dragged-moved-IsGranted window none is = is
  dragged-moved-IsGranted window (some (cursor, cursors)) is =
      elim (Bool-cases (inside inset window cursor)) [
        | inl here ↦ rw (here, size_of-moved window cursor (last_of cursor cursors)) is
        | inr outside ↦ rw outside is
      ]

  dragged-stretched-IsGranted :
      (window : Rect) (places : Option (Point × List Point))
      → IsStable granted
      → IsGranted granted window
      → IsGranted granted (dragged inset (stretched granted) window places)
  dragged-stretched-IsGranted window none stable is = is
  dragged-stretched-IsGranted window (some (cursor, cursors)) stable is =
      let to = reach window cursor (last_of cursor cursors) in
      elim (Bool-cases (inside inset window cursor)) [
        | inl here ↦ rw (here, size_of-fitted granted to) (stable (size_of to))
        | inr outside ↦ rw outside is
      ]

  while_down-moved :
      (window : Rect) (places : Option (Point × List Point))
      → while_down inset granted (move_round inset) window places
        ≡ dragged inset moved window places
  while_down-moved window none = refl
  while_down-moved window (some (cursor, cursors)) = hold-moved inset window cursor cursors

  while_down-stretched :
      (window : Rect) (places : Option (Point × List Point))
      → IsGranted granted window
      → while_down inset granted (size_round inset granted) window places
        ≡ dragged inset (stretched granted) window places
  while_down-stretched window none is = refl
  while_down-stretched window (some (cursor, cursors)) is =
      hold-stretched inset window cursor granted cursors is

  null_thread :
      (win : ℕ) (window : Rect) (turns : List Turn)
      → (win == 0) ≡ true
      → ex_size_change inset granted win window turns ≡ (some 0xFFFFFFFF, window)
  unfolding ex_size_change
  null_thread win window [] null = rw null refl
  null_thread win window (t ∷ turns) null = rw null refl

  real_thread :
      (win : ℕ) (window : Rect) (turns : List Turn)
      → (win == 0) ≡ false
      → IsStable granted
      → IsGranted granted window
      → ex_size_change inset granted win window turns
        ≡ (none, after_turns inset granted window turns)
  unfolding ex_size_change ex_size_round
  real_thread win window [] real stable is = rw real refl
  real_thread win window (away ∷ turns) real stable is =
      rw real (real_thread win window turns real stable is)
  real_thread win window (turn left right ∷ turns) real stable is =
      let moved_to = dragged inset moved window left in
      let is' = dragged-moved-IsGranted window left is in
      let now = dragged inset (stretched granted) moved_to right in
      let is'' = dragged-stretched-IsGranted moved_to right stable is' in
      rw (real, while_down-moved window left, while_down-stretched moved_to right is')
        (real_thread win now turns real stable is'')

-- For NULL, `PleaseExs` with the flag of the size gives -1 and starts no thread, and the thread
-- would return -1 with the window as it was. Otherwise it gives 0 and starts the thread, which has
-- not returned after any number of turns, and the window is where the user took it: while the left
-- button is down, from a place of the cursor inside on, it moves as far as the cursor, with its size
-- as it was; while the right one is, its upper left corner stays, and it has the size that
-- `SetWindowPos` grants for its lower right corner moved as far as the cursor; a button that is
-- down outside changes nothing in that turn, and is looked at again in the next. Nothing changes
-- while another window is in the foreground. A place counts from the corner of the client area, and
-- is inside if it is in no axis below 0 or beyond the size of the whole window. The size of the
-- window at first is one that is granted, and a granted size is granted again; the places asked for
-- are given.
pub ex_size_change-after_turns :
    (inset : Point) (granted : Point → Point) (win : ℕ) (window : Rect) (turns : List Turn)
    → IsStable granted
    → IsGranted granted window
    → (please_exs 1 win ≡ (if win == 0 then (0xFFFFFFFF, false) else (0, true)))
      × (ex_size_change inset granted win window turns ≡ (
          if win == 0
          then (some 0xFFFFFFFF, window)
          else (none, after_turns inset granted window turns)))
unfolding please_exs
ex_size_change-after_turns inset granted win window turns stable is = elim (Bool-cases (win == 0)) [
  | inl null ↦ (rw null refl, rw null (null_thread inset granted win window turns null))
  | inr real ↦ (rw real refl, rw real (real_thread inset granted win window turns real stable is))
]
