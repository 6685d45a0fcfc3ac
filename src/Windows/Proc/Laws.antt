-- ===== src/Windows/Proc/Laws.antt =====
-- `ExWinProc`: messages that are drawn, dropped files, and the messages of `DefWinProc`.
use Prim.Native.String.{String}
use left_my_codes.Base.{
  ℕ, suc, ◌+◌, ◌*◌, Bool, true, ◌&&◌, Option, none, some, List, [], ◌∷◌, ◌++◌, leb, ◌==◌,
  if◌then◌else◌, length, replicate, Bytes, ℤ, pos,
}
use left_my_codes.Windows.Proc.{Act, received, finish, count, file, painted, def_win_proc}

abbrev pub all_short : List Bytes → Bool
all_short [] = true
all_short (name ∷ names) = leb (length name) 1990 && all_short names

-- The numbered names.
abbrev pub lines : ℕ → List Bytes → List Act
lines i [] = []
lines i (name ∷ names) = file (i + 1) name ∷ lines (suc i) names

module _ (value : String → ℕ) (def_window_proc stock : ℕ → ℤ) (size : ℕ) (names : List Bytes) where
  -- The result, the acts behind the name of the message, and `none` for a fault.
  abbrev pub own_answer : ℕ → Option (ℤ × List Act)
  own_answer msg =
      if msg == value "WM_PAINT"
      then some (pos 0, painted (replicate size 0xFF4040) (size * 4) ∷ [])
      else if msg == value "WM_ERASEBKGND"
      then some (pos 0, [])
      else if msg == value "WM_CTLCOLORBTN"
      then some (stock 0xFF0000, [])
      else if msg == value "WM_DROPFILES"
      then (if all_short names
          then some (pos 0, received ∷ count (length names) ∷ lines 0 names ++ finish ∷ [])
          else none)
      else some (def_win_proc value def_window_proc msg)

abbrev pub behind : List Act → Option (ℤ × List Act) → Option (ℤ × List Act)
behind printed none = none
behind printed (some (result, acts)) = some (result, printed ++ acts)
