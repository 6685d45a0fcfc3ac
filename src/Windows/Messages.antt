-- ===== src/Windows/Messages.antt =====
-- `LeftWindows::OutputWindowCallbackMacro` of LeftSupport/LeftSupport/LeftWindows.cpp: a name for
-- each message of a window. The cases stand in `Part1` to `Part6`; the numbers behind their labels
-- are those of Windows.h, and a parameter here.
mod Defs
mod Part1
mod Part2
mod Part3
mod Part4
mod Part5
mod Part6
use left_my_codes.Base.{ℕ, Bool, true, Option, none, some, List, [], ◌∷◌, ◌++◌, ◌==◌, if◌then◌else◌}
use Prim.Native.String.{String}
use left_my_codes.Windows.Messages.Defs.{Case, always, unless_simple}
use left_my_codes.Windows.Messages.Part1.{cases_1}
use left_my_codes.Windows.Messages.Part2.{cases_2}
use left_my_codes.Windows.Messages.Part3.{cases_3}
use left_my_codes.Windows.Messages.Part4.{cases_4}
use left_my_codes.Windows.Messages.Part5.{cases_5}
use left_my_codes.Windows.Messages.Part6.{cases_6}

-- SIMPLEMSG is defined in LeftWindows.h.
abbrev simplemsg : Bool
simplemsg = true

-- The labels and texts of the cases that are compiled.
pub compiled : Bool → List Case → List (String × String)
compiled simple [] = []
compiled simple (always label text ∷ cases) = (label, text) ∷ compiled simple cases
compiled simple (unless_simple label text ∷ cases) =
    let rest = compiled simple cases in if simple then rest else (label, text) ∷ rest

unfoldable pub labels : List (String × String)
unfolding compiled
labels = compiled simplemsg (cases_1 ++ (cases_2 ++ (cases_3 ++ (cases_4 ++ (cases_5 ++ cases_6)))))

module _ (value : String → ℕ) where
  -- The `switch`: the text that is printed before `return true`, or `none` for `return false`.
  unfoldable pub choose : List (String × String) → ℕ → Option String
  choose [] msg = none
  choose ((label, text) ∷ cases) msg =
      let rest = choose cases msg in if msg == value label then some text else rest

  unfoldable pub output_window_callback_macro : ℕ → Option String
  output_window_callback_macro msg = choose labels msg
