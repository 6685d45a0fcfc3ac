-- ===== src/Windows/Class/Tests.antt =====
-- Runs of the constructor and `reRegClass`.
use left_my_codes.Base.{◌≡◌, none, some, [], ◌∷◌, codes}
use left_my_codes.Windows.Class.{ex_win_proc, LeftWindows, new_left_windows, re_reg_classes}
use left_my_codes.Windows.Class.Laws.{registered, re_reg_classes-registered}

abbrev twice : LeftWindows
twice =
    re_reg_classes (λ calls. 7) (new_left_windows (λ calls. 7) 5 1 none none)
      (none ∷ some (codes "b") ∷ [])

re_reg_classes-registered_example :
    (twice.wnd_cls_ex ≡ record {
      style = 0x829;
      wnd_proc = ex_win_proc;
      instance_ = 5;
      class_name = some (codes "b");
    })
    × (registered twice.calls ≡ (some (codes "b"), 5) ∷ [])
re_reg_classes-registered_example =
    re_reg_classes-registered (λ calls. 7) 5 1 none none (none ∷ some (codes "b") ∷ [])
