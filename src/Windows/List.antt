-- ===== src/Windows/List.antt =====
-- The list of the windows of a `LeftWindows` of LeftSupport/LeftSupport/LeftWindows.cpp: what the
-- constructor and `CreateParentsWin` build of the nodes `LeftWins` of LeftWindows.h. The addresses
-- that `new` returns and the `HWND` of `CreateWindowEx` are arguments.
pub mod Laws
pub mod Kept
pub mod Join
mod Tests
use left_my_codes.Base.{ℕ, Option, none, some, ◌==◌, if◌then◌else◌, ◌>>=◌, ◌>>◌, Bytes, codes}

abbrev pub Ptr : Type 0
Ptr = ℕ

-- `LeftWins`, less the two links to a parent, which stay NULL. A name may be NULL.
pub record Win : Type 0 where
  pub self : ℕ
  pub win_name : Option Bytes
  pub head : Ptr
  pub tail : Ptr
  pub last : Ptr
  pub next : Ptr
  pub childs_head : Ptr
  pub childs_tail : Ptr

-- What `memset` leaves.
abbrev pub zeroed : Win
zeroed = record {
  self = 0;
  win_name = none;
  head = 0;
  tail = 0;
  last = 0;
  next = 0;
  childs_head = 0;
  childs_tail = 0;
}

abbrev pub WinHeap : Type 0
WinHeap = Ptr → Option Win

unfoldable pub write : WinHeap → Ptr → Win → WinHeap
write h p n q = if q == p then some n else h q

abbrev pub parent_head : Bytes
parent_head = codes "ParentHead"

abbrev pub parent_tail : Bytes
parent_tail = codes "ParentTail"

-- The constructor's two nodes, with `ParentsWinsHead` at `head`.
unfoldable pub new_wins : Ptr → Ptr → WinHeap → WinHeap
new_wins head tail h =
    write
      (write h head
        (record zeroed { head = head; tail = tail; win_name = some parent_head; next = tail }))
      tail (record zeroed { head = head; tail = tail; win_name = some parent_tail; last = head })

-- The two nodes of the empty list of children.
unfoldable pub new_childs : Ptr → Ptr → WinHeap → WinHeap
new_childs head tail h =
    write (write h head (record zeroed { head = head; tail = tail; next = tail })) tail
      (record zeroed { head = head; tail = tail; last = head })

-- The window's node and its links. A pointer to no node is a fault.
unfoldable pub link_win : Ptr → Ptr → Ptr → Ptr → ℕ → Option Bytes → WinHeap → Option WinHeap
link_win parents_wins_head childs_head childs_tail parents hwnd win_name h = do
  first ← h parents_wins_head
  end ← h first.tail
  let h = write h parents (record {
    self = hwnd;
    win_name = win_name;
    head = parents_wins_head;
    tail = first.tail;
    last = end.last;
    next = first.tail;
    childs_head = childs_head;
    childs_tail = childs_tail;
  })
  before ← h end.last
  let h = write h end.last (record before { next = parents })
  end ← h first.tail
  some (write h first.tail (record end { last = parents }))

-- The `HWND` that is returned, 0 for NULL, and the heap.
unfoldable pub create_parents_win :
    Ptr → Ptr → Ptr → Ptr → ℕ → Option Bytes → WinHeap → Option (ℕ × WinHeap)
create_parents_win parents_wins_head head tail parents hwnd win_name h =
    if hwnd == 0 then some (0, h) else (do
      h ← link_win parents_wins_head head tail parents hwnd win_name (new_childs head tail h)
      some (hwnd, h))
