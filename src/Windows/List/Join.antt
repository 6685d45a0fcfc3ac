-- ===== src/Windows/List/Join.antt =====
-- `CreateParentsWin`: the new window joins the list at its end.
use left_my_codes.Base.{List}
use left_my_codes.Windows.List.{Ptr, Win}
use left_my_codes.Windows.List.Laws.{Window, win_node, newest}

module _ (this end : Ptr) (ws : List Window) (w : Window) where
  abbrev joined : Win
  joined = win_node this end (newest this ws) end w
