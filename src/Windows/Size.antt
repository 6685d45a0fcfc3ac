-- ===== src/Windows/Size.antt =====
-- `LeftWindows::ExSizeChange` of LeftSupport/LeftSupport/LeftWindows.cpp: a window that is moved and
-- sized by the mouse. The places of the cursor are a parameter, and so are `inset`, how far the
-- client area begins behind the upper left corner of the window (0 with no border), and `granted`,
-- the size (width and height) that `SetWindowPos` gives the window for one that is asked for. The
-- place is given as it is asked for. Numbers have no bound.
mod Axis
pub mod Laws
pub mod Thread
mod Tests
use left_my_codes.Base.{
  ◌||◌, ◌+ℤ◌, ◌-ℤ◌, ◌==ℤ◌, ◌≤ℤ◌, not, ◌&&◌, Option, none, some, List, [], ◌∷◌, if◌then◌else◌, ℤ,
  pos,
}

pub record Point : Type 0 where
  pub x : ℤ
  pub y : ℤ

pub record Rect : Type 0 where
  pub left : ℤ
  pub top : ℤ
  pub right : ℤ
  pub bottom : ℤ

-- What the thread keeps while a button is down, `rect` and `pt`, with the window as it stands.
pub record Drag : Type 0 where
  pub rect : Rect
  pub pt : Point
  pub window : Rect

-- `GetCursorPos` and `ScreenToClient`.
unfoldable pub client_pos : Point → Rect → Point → Point
client_pos inset window cursor = record {
  x = cursor.x -ℤ (window.left +ℤ inset.x);
  y = cursor.y -ℤ (window.top +ℤ inset.y);
}

-- `SetWindowPos` with SWP_NOSIZE, and with SWP_NOMOVE.
unfoldable pub move_to : Rect → ℤ → ℤ → Rect
move_to window left top = record {
  left = left;
  top = top;
  right = left +ℤ (window.right -ℤ window.left);
  bottom = top +ℤ (window.bottom -ℤ window.top);
}

unfoldable pub size_to : (Point → Point) → Rect → ℤ → ℤ → Rect
size_to granted window width height =
    let size = granted (record { x = width; y = height }) in
    record window { right = window.left +ℤ size.x; bottom = window.top +ℤ size.y }

-- The first round, where `fget` is set: none if the cursor is outside the window.
unfoldable pub first_round : Point → Rect → Point → Option Drag
first_round inset window cursor =
    let pt = client_pos inset window cursor in
    if not (pos 0 ≤ℤ pt.x)
      || not (pos 0 ≤ℤ pt.y)
      || not (pt.x ≤ℤ (window.right -ℤ window.left))
      || not (pt.y ≤ℤ (window.bottom -ℤ window.top))
    then none
    else some (record { rect = window; pt = pt; window = window })

-- A round with the left button: the window moves.
unfoldable pub move_round : Point → Drag → Point → Drag
move_round inset d cursor =
    let rt = client_pos inset d.window cursor in
    let dx = rt.x -ℤ d.pt.x in
    let dy = rt.y -ℤ d.pt.y in
    let rect : Rect = record {
      left = d.rect.left +ℤ dx;
      top = d.rect.top +ℤ dy;
      right = d.rect.right +ℤ dx;
      bottom = d.rect.bottom +ℤ dy;
    } in
    if (rt.x ==ℤ d.pt.x) && (rt.y ==ℤ d.pt.y)
    then d
    else record { rect = rect; pt = d.pt; window = move_to d.window rect.left rect.top }

-- A round with the right button: its size changes.
unfoldable pub size_round : Point → (Point → Point) → Drag → Point → Drag
size_round inset granted d cursor =
    let rt = client_pos inset d.window cursor in
    let rect : Rect = record d.rect {
      right = d.rect.right +ℤ (rt.x -ℤ d.pt.x);
      bottom = d.rect.bottom +ℤ (rt.y -ℤ d.pt.y);
    } in
    if (rt.x ==ℤ d.pt.x) && (rt.y ==ℤ d.pt.y) then d else record {
      rect = rect;
      pt = rt;
      window = size_to granted d.window (rect.right -ℤ rect.left) (rect.bottom -ℤ rect.top);
    }

unfoldable pub rounds : (Drag → Point → Drag) → Drag → List Point → Drag
rounds round d [] = d
rounds round d (cursor ∷ cursors) = rounds round (round d cursor) cursors

unfoldable pub after : (Drag → Point → Drag) → Rect → List Point → Option Drag → Rect
unfolding rounds
after round window cursors none = window
after round window cursors (some d) = (rounds round d cursors).window

-- A `while` loop: the window after a button was held down, from the place of the cursor at first and
-- its place in each round.
unfoldable pub hold : Point → (Drag → Point → Drag) → Rect → Point → List Point → Rect
hold inset round window cursor cursors =
    after round window cursors (first_round inset window cursor)
