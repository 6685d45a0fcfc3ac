-- ===== src/Windows/Class/Laws.antt =====
-- The classes that an object has registered.
use left_my_codes.Base.{
  ℕ, bit_or, ◌≡◌, refl, ap, Bool, true, false, ◌&&◌, Option, none, some, List, [], ◌∷◌, arith, ◌==◌,
  if◌then◌else◌, Bytes, equal,
}
use left_my_codes.Windows.Class.{
  Proc, ex_win_proc, WndClassEx, def_cls_name, def_style, get_def_wnd_cls_ex, ClassCall, register,
  unregister, LeftWindows, or_else, new_left_windows, re_reg_class, re_reg_classes,
}

-- A class as Windows knows it, by its name and its program.
abbrev pub Class : Type 0
Class = Option Bytes × ℕ

abbrev pub same_name : Option Bytes → Option Bytes → Bool
same_name none none = true
same_name (some a) (some b) = equal a b
same_name _ _ = false

abbrev pub remove : Class → List Class → List Class
remove c [] = []
remove c (d ∷ ds) =
    let rest = remove c ds in if same_name c.0 d.0 && (c.1 == d.1) then rest else d ∷ rest

-- What is registered behind some calls, the last one first, when each of them succeeds.
abbrev pub registered : List ClassCall → List Class
registered [] = []
registered (register cls ∷ calls) = (cls.class_name, cls.instance_) ∷ registered calls
registered (unregister name i ∷ calls) = remove (name, i) (registered calls)

-- The last name that is given, or the one before.
abbrev pub last_name : Bytes → List (Option Bytes) → Bytes
last_name name [] = name
last_name name (given ∷ names) = last_name (or_else given name) names

equal_refl : (s : Bytes) → equal s s ≡ true
unfolding equal
equal_refl [] = refl
equal_refl (c ∷ s) = ground (arith, equal_refl s)

-- The class of the name `name` is the only one registered.
record Only (w : LeftWindows) (name : Bytes) (i style : ℕ) (proc : Proc) : Type 0 where
  cls :
      w.wnd_cls_ex
      ≡ record { style = style; wnd_proc = proc; instance_ = i; class_name = some name }
  only : registered w.calls ≡ (some name, i) ∷ []

module _ (atom : List ClassCall → ℕ) (i style : ℕ) (proc : Proc) where
  remove-own : (name : Bytes) → remove (some name, i) ((some name, i) ∷ []) ≡ []
  remove-own name = let same : (i == i) ≡ true = ground arith in rw (equal_refl name, same)

  re_reg_class-Only :
      (w : LeftWindows) (name : Bytes) (given : Option Bytes)
      → Only w name i style proc
      → Only (re_reg_class atom w given).1 (or_else given name) i style proc
  unfolding re_reg_class
  re_reg_class-Only w name none o = record {
    cls = o.cls;
    only = rw (ap (λ c. c.class_name) o.cls, ap (λ c. c.instance_) o.cls, o.only, remove-own name);
  }
  re_reg_class-Only w name (some given) o = record {
    cls = ap (λ (c : WndClassEx). record c { class_name = some given }) o.cls;
    only = rw (ap (λ c. c.class_name) o.cls, ap (λ c. c.instance_) o.cls, o.only, remove-own name);
  }

  re_reg_classes-Only :
      (w : LeftWindows) (name : Bytes) (names : List (Option Bytes))
      → Only w name i style proc
      → Only (re_reg_classes atom w names) (last_name name names) i style proc
  unfolding re_reg_classes
  re_reg_classes-Only w name [] o = o
  re_reg_classes-Only w name (given ∷ names) o =
      re_reg_classes-Only (re_reg_class atom w given).1 (or_else given name) names
        (re_reg_class-Only w name given o)

-- Whatever `RegisterClassEx` returns, and whatever names the constructor and then `reRegClass` are
-- given: the object's class has the last of these names, `default` without any, the program, the
-- styles of the constructor with the three that are always set, and its procedure, or `ExWinProc`
-- without one; and when each call of Windows succeeds, that is the only class of the object that is
-- registered.
pub re_reg_classes-registered :
    (atom : List ClassCall → ℕ) (i cls_style : ℕ) (given : Option Bytes) (proc : Option Proc)
    (names : List (Option Bytes))
    → let w : LeftWindows =
        re_reg_classes atom (new_left_windows atom i cls_style given proc) names in
      let name : Bytes = last_name (or_else given def_cls_name) names in
      (w.wnd_cls_ex ≡ record {
        style = bit_or def_style cls_style;
        wnd_proc = or_else proc ex_win_proc;
        instance_ = i;
        class_name = some name;
      })
      × (registered w.calls ≡ (some name, i) ∷ [])
unfolding new_left_windows get_def_wnd_cls_ex
re_reg_classes-registered atom i cls_style given proc names =
    let style = bit_or def_style cls_style in
    let kept =
      re_reg_classes-Only atom i style (or_else proc ex_win_proc)
        (new_left_windows atom i cls_style given proc) (or_else given def_cls_name) names
        (record { cls = refl; only = refl }) in
    (kept.cls, kept.only)
