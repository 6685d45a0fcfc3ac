-- ===== src/Windows/List/Kept.antt =====
-- Which nodes of a list of windows a write spares, and the writes that keep the list.
use left_my_codes.Base.{All-imp, ◌≡◌, sym, ap, ◌∙◌, ◌≢◌, none, some, List, [], ◌∷◌, All}
use left_my_codes.Windows.List.{
  Ptr, Win, zeroed, WinHeap, write, parent_head, parent_tail, new_wins,
}
use left_my_codes.Windows.List.Laws.{
  Window, head_node, win_node, newest, Chain, IsWins, apart, apart_new, write_ne, write_eq, Spared,
  Chain-write, Spared-new,
}

-- A node with a name and no `HWND` is that of no window and of no child.
pub Spared-named :
    (h : WinHeap) (this end next : Ptr) (ws : List Window) (q : Ptr) {m : Win}
    → h q ≡ some m
    → m.self ≡ 0
    → m.win_name ≢ none
    → Chain h this end next ws
    → Spared q ws
Spared-named h this end next [] q at_q bare named chain = tt
Spared-named h this end next (w ∷ ws) q at_q bare named (node, real, own, (ch, ct), rest) = (
  (
    apart h w.at q node at_q (λ e. real (ap (λ n. n.self) e ∙ bare)),
    apart h w.ch q ch at_q (λ e. named (sym (ap (λ n. n.win_name) e))),
    apart h w.ct q ct at_q (λ e. named (sym (ap (λ n. n.win_name) e))),
  ),
  Spared-named h this end w.at ws q at_q bare named rest,
)

-- A node with an `HWND` is not the head and no child.
Spared-real :
    (h : WinHeap) (this end next : Ptr) (ws : List Window) (q : Ptr) {m : Win}
    → h q ≡ some m
    → m.self ≢ 0
    → All (λ v. v.at ≢ q) ws
    → Chain h this end next ws
    → (this ≢ q) × Spared q ws
Spared-real h this end next [] q at_q real own chain =
    (apart h this q chain at_q (λ e. real (sym (ap (λ n. n.self) e))), tt)
Spared-real h this end next (w ∷ ws) q at_q real own (node, real_w, own_w, (ch, ct), rest) =
    let (ne, spared) = Spared-real h this end w.at ws q at_q real own.1 rest in
    (
      ne,
      (
        (
          own.0,
          apart h w.ch q ch at_q (λ e. real (sym (ap (λ n. n.self) e))),
          apart h w.ct q ct at_q (λ e. real (sym (ap (λ n. n.self) e))),
        ),
        spared,
      ),
    )

pub at_head :
    (h : WinHeap) (this end next : Ptr) (ws : List Window)
    → Chain h this end next ws
    → (first : Ptr) × (h this ≡ some (head_node this end first))
at_head h this end next [] chain = (next, chain)
at_head h this end next (w ∷ ws) (node, real, own, childs, rest) = at_head h this end w.at ws rest

-- The `Next` of the node before the end, set to another place.
pub Chain-retarget :
    (h : WinHeap) (this end next to : Ptr) (ws : List Window)
    → Chain h this end next ws
    → (before : Win) × (h (newest this ws) ≡ some before)
      × Chain (write h (newest this ws) (record before { next = to })) this end to ws
Chain-retarget h this end next to [] chain = (_, chain, write_eq h this _)
Chain-retarget h this end next to (w ∷ ws) (node, real, own, (ch, ct), rest) =
    let before = win_node this end (newest this ws) next w in
    let (ne, spared) = Spared-real h this end w.at ws w.at node real own rest in
    let moved = record before { next = to } in
    let ch_ne = apart h w.ch w.at ch node (λ e. real (sym (ap (λ n. n.self) e))) in
    let ct_ne = apart h w.ct w.at ct node (λ e. real (sym (ap (λ n. n.self) e))) in
    (
      before,
      node,
      (
        write_eq h w.at moved,
        real,
        own,
        (write_ne h w.at w.ch moved ch_ne ∙ ch, write_ne h w.at w.ct moved ct_ne ∙ ct),
        Chain-write h this end w.at ws w.at moved ne spared rest,
      ),
    )

-- A node at a new place leaves the list.
pub IsWins-new :
    (h : WinHeap) (this end : Ptr) (ws : List Window) (q : Ptr) (n : Win)
    → h q ≡ none
    → IsWins h this end ws
    → IsWins (write h q n) this end ws
IsWins-new h this end ws q n new (at_end, chain) =
    let (ne, spared) = Spared-new h this end end ws q new chain in
    (
      write_ne h q end n (apart_new h end q at_end new) ∙ at_end,
      Chain-write h this end end ws q n ne spared chain,
    )

-- The constructor gives an empty list, at two places that differ.
pub new_wins-IsWins :
    (h : WinHeap) (this end : Ptr) → this ≢ end → IsWins (new_wins this end h) this end []
unfolding new_wins
new_wins-IsWins h this end ne =
    let front = record zeroed {
      head = this;
      tail = end;
      win_name = some parent_head;
      next = end;
    } in
    let back = record zeroed {
      head = this;
      tail = end;
      win_name = some parent_tail;
      last = this;
    } in
    (
      write_eq (write h this front) end back,
      write_ne (write h this front) end this back ne ∙ write_eq h this front,
    )

pub spread : (ws : List Window) (q : Ptr) → Spared q ws → All (λ v. v.at ≢ q) ws
spread ws q = All-imp ws (λ v p. p.0)
