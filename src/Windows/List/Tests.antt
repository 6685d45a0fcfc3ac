-- ===== src/Windows/List/Tests.antt =====
-- A run of the constructor and of `CreateParentsWin`.
use left_my_codes.Base.{◌≡◌, refl, none, some, ◌>>=◌, codes}
use left_my_codes.Windows.List.{WinHeap, write, new_wins, new_childs, link_win, create_parents_win}
use left_my_codes.Windows.List.Laws.{Window}

abbrev nothing : WinHeap
nothing p = none

abbrev empty : WinHeap
empty = new_wins 1 2 nothing

abbrev main_window : Window
main_window = record { at = 5; hwnd = 77; name = some (codes "main"); ch = 3; ct = 4 }

second :
    create_parents_win 1 3 4 5 77 (some (codes "main")) empty
      >>= (λ r. r.1 2 >>= λ end. r.1 end.last >>= λ n. some n.self)
    ≡ some 77
unfolding create_parents_win new_childs link_win new_wins write
second = refl
