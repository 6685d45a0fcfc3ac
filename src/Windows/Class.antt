-- ===== src/Windows/Class.antt =====
-- The window class of a `LeftWindows` of LeftSupport/LeftSupport/LeftWindows.cpp: its constructor,
-- `GetDefWndClsEx` and `reRegClass`. What `RegisterClassEx` returns is a parameter.
pub mod Laws
mod Tests
use left_my_codes.Base.{ℕ, bit_or, Bool, true, Option, none, some, List, [], ◌∷◌, Bytes, codes}

-- The procedures of the class `LeftWindows`, or one of the caller.
pub data Proc : Type 0 where
  def_win_proc ex_win_proc : Proc
  own_proc : ℕ → Proc

-- `WNDCLASSEX`, less its size, icons, cursor, brush and extra bytes, which stay as they are.
pub record WndClassEx : Type 0 where
  pub style : ℕ
  pub wnd_proc : Proc
  pub instance_ : ℕ
  pub class_name : Option Bytes

abbrev pub def_cls_name : Bytes
def_cls_name = codes "default"

-- CS_DBLCLKS | CS_OWNDC | CS_SAVEBITS
abbrev pub def_style : ℕ
def_style = bit_or (bit_or 0x0008 0x0020) 0x0800

unfoldable pub get_def_wnd_cls_ex : WndClassEx
get_def_wnd_cls_ex = record {
  style = def_style;
  wnd_proc = def_win_proc;
  instance_ = 0;
  class_name = none;
}

-- `RegisterClassEx(pWndClsEx)` and `UnregisterClass` of a name
pub data ClassCall : Type 0 where
  register : WndClassEx → ClassCall
  unregister : Option Bytes → ℕ → ClassCall

-- An object, with the calls that it has made, the last one first.
pub record LeftWindows : Type 0 where
  pub wnd_cls_ex : WndClassEx
  pub reg_class : ℕ
  pub calls : List ClassCall

-- `given ? given : other`
abbrev pub or_else {ℓ} : {A : Type ℓ} → Option A → A → A
or_else none other = other
or_else (some given) other = given

-- `atom` says what `RegisterClassEx` returns as the first one of such a list of calls.
module _ (atom : List ClassCall → ℕ) where
  unfoldable pub new_left_windows : ℕ → ℕ → Option Bytes → Option Proc → LeftWindows
  unfolding get_def_wnd_cls_ex
  new_left_windows instance_ cls_style cls_name proc =
      let cls : WndClassEx = record {
        style = bit_or get_def_wnd_cls_ex.style cls_style;
        wnd_proc = or_else proc ex_win_proc;
        instance_ = instance_;
        class_name = some (or_else cls_name def_cls_name);
      } in
      record { wnd_cls_ex = cls; reg_class = atom (register cls ∷ []); calls = register cls ∷ [] }

  unfoldable pub re_reg_class : LeftWindows → Option Bytes → Bool × LeftWindows
  re_reg_class w cls_name =
      let gone = unregister w.wnd_cls_ex.class_name w.wnd_cls_ex.instance_ in
      let name : Option Bytes = elim cls_name [
        | none ↦ w.wnd_cls_ex.class_name
        | some n ↦ some n
      ] in
      let cls : WndClassEx = record w.wnd_cls_ex { class_name = name } in
      let calls = register cls ∷ gone ∷ w.calls in
      (true, record { wnd_cls_ex = cls; reg_class = atom calls; calls = calls })

  -- Some calls of `reRegClass`, one behind the other.
  unfoldable pub re_reg_classes : LeftWindows → List (Option Bytes) → LeftWindows
  re_reg_classes w [] = w
  re_reg_classes w (name ∷ names) = re_reg_classes (re_reg_class w name).1 names
