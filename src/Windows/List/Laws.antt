-- ===== src/Windows/List/Laws.antt =====
-- When a heap holds the list of windows.
use left_my_codes.Base.{
  ℕ, ◌≡◌, sym, ap, ◌∙◌, ◌≢◌, Option, none, some, List, [], ◌∷◌, arith, All, Bytes, some_inj,
}
use left_my_codes.Windows.List.{Ptr, Win, zeroed, WinHeap, write, parent_head, parent_tail}

-- A window of the list: its node, its `HWND` and name, and the two nodes of its children.
pub record Window : Type 0 where
  pub at : Ptr
  pub hwnd : ℕ
  pub name : Option Bytes
  pub ch : Ptr
  pub ct : Ptr

abbrev pub head_node : Ptr → Ptr → Ptr → Win
head_node this end next = record zeroed {
  head = this;
  tail = end;
  win_name = some parent_head;
  next = next;
}

abbrev pub tail_node : Ptr → Ptr → Ptr → Win
tail_node this end last = record zeroed {
  head = this;
  tail = end;
  win_name = some parent_tail;
  last = last;
}

abbrev pub win_node : Ptr → Ptr → Ptr → Ptr → Window → Win
win_node this end last next w = record {
  self = w.hwnd;
  win_name = w.name;
  head = this;
  tail = end;
  last = last;
  next = next;
  childs_head = w.ch;
  childs_tail = w.ct;
}

-- The node before the end, with the newest window first.
abbrev pub newest : Ptr → List Window → Ptr
newest this [] = this
newest this (w ∷ ws) = w.at

-- The children of a window: an empty list of its own.
abbrev pub NoChilds : WinHeap → Window → Type 0
NoChilds h w =
    (h w.ch ≡ some (record zeroed { head = w.ch; tail = w.ct; next = w.ct }))
    × (h w.ct ≡ some (record zeroed { head = w.ch; tail = w.ct; last = w.ch }))

-- From the newest window, whose `Next` is `next`, back to the head `this`.
abbrev pub Chain : WinHeap → Ptr → Ptr → Ptr → List Window → Type 0
Chain h this end next [] = h this ≡ some (head_node this end next)
Chain h this end next (w ∷ ws) =
    (h w.at ≡ some (win_node this end (newest this ws) next w))
    × (w.hwnd ≢ 0)
    × All (λ v. v.at ≢ w.at) ws
    × NoChilds h w
    × Chain h this end w.at ws

-- `h` holds at `this` the list of the windows `ws`, the newest first, with its end at `end`.
abbrev pub IsWins : WinHeap → Ptr → Ptr → List Window → Type 0
IsWins h this end ws =
    (h end ≡ some (tail_node this end (newest this ws))) × Chain h this end end ws

-- Nodes that differ stand at different places.
pub apart : (h : WinHeap) (p q : Ptr) {m n : Win} → h p ≡ some m → h q ≡ some n → m ≢ n → p ≢ q
apart h p q at_p at_q ne e = ne (some_inj (sym at_p ∙ ap h e ∙ at_q))

pub apart_new : (h : WinHeap) (p q : Ptr) {m : Win} → h p ≡ some m → h q ≡ none → p ≢ q
apart_new h p q at_p at_q e = cc (sym at_p ∙ ap h e ∙ at_q)

pub write_ne : (h : WinHeap) (p q : Ptr) (n : Win) → q ≢ p → write h p n q ≡ h q
unfolding write
write_ne h p q n ne = ground arith

pub write_eq : (h : WinHeap) (p : Ptr) (n : Win) → write h p n p ≡ some n
unfolding write
write_eq h p n = ground arith

-- No node of the windows `ws` and of their children is `q`.
abbrev pub Spared : Ptr → List Window → Type 0
Spared q ws = All (λ w. (w.at ≢ q) × (w.ch ≢ q) × (w.ct ≢ q)) ws

pub Chain-write :
    (h : WinHeap) (this end next : Ptr) (ws : List Window) (q : Ptr) (n : Win)
    → this ≢ q
    → Spared q ws
    → Chain h this end next ws
    → Chain (write h q n) this end next ws
Chain-write h this end next [] q n ne spared chain = write_ne h q this n ne ∙ chain
Chain-write h this end next (w ∷ ws) q n ne ((a, b, c), spared) (node, real, own, (ch, ct), rest) =
    (
      write_ne h q w.at n a ∙ node,
      real,
      own,
      (write_ne h q w.ch n b ∙ ch, write_ne h q w.ct n c ∙ ct),
      Chain-write h this end w.at ws q n ne spared rest,
    )

pub Spared-new :
    (h : WinHeap) (this end next : Ptr) (ws : List Window) (q : Ptr)
    → h q ≡ none
    → Chain h this end next ws
    → (this ≢ q) × Spared q ws
Spared-new h this end next [] q new chain = (apart_new h this q chain new, tt)
Spared-new h this end next (w ∷ ws) q new (node, real, own, (ch, ct), rest) =
    let (ne, spared) = Spared-new h this end w.at ws q new rest in
    (
      ne,
      ((apart_new h w.at q node new, apart_new h w.ch q ch new, apart_new h w.ct q ct new), spared),
    )
