-- ===== src/Windows/Proc.antt =====
-- The answers to messages of LeftSupport/LeftSupport/LeftWindows.cpp: `DefWinProc`, `ExWinProc`
-- and `DefHandDropFiles`. The numbers of Windows.h, what `DefWindowProc` and `GetStockObject`
-- return, the size of the window and what `DragQueryFile` copies are arguments. A `WCHAR` is a
-- number.
pub mod Laws
mod Tests
use Prim.Native.String.{String}
use left_my_codes.Base.{
  ℕ, zero, suc, ◌+◌, ◌*◌, ◌%◌, ◌^◌, Option, none, some, List, [], ◌∷◌, ◌++◌, map, ltb, ◌==◌,
  if◌then◌else◌, ◌>>=◌, ◌>>◌, length, replicate, Bytes, store, overwrite, ℤ, pos, c_str,
}
use left_my_codes.Windows.Messages.{output_window_callback_macro}

-- What the code prints, and what it gives to Win32: `painted pixels n` is `SetBitmapBits` of `n`
-- bytes, `quit` is `PostQuitMessage(0)`.
pub data Act : Type 0 where
  named : String → Act
  received too_long finish quit : Act
  count : ℕ → Act
  file : ℕ → Bytes → Act
  painted : List ℕ → ℕ → Act

-- The loop of `DefHandDropFiles` from the file `i` on, with what is copied for each of them and
-- with the array `buf`.
unfoldable pub drop_loop : ℕ → List Bytes → Bytes → Option (List Act)
drop_loop i [] buf = some []
drop_loop i (name ∷ names) buf = do
  buf ← overwrite buf 0 (name ++ 0 ∷ [])
  if ltb 1990 (length name)
      then some (too_long ∷ [])
      else do text ← c_str buf; acts ← drop_loop (suc i) names buf; some (file (i + 1) text ∷ acts)

unfoldable pub def_hand_drop_files : List Bytes → Bytes → Option (List Act)
unfolding drop_loop
def_hand_drop_files names buf = do acts ← drop_loop 0 names buf; some (count (length names) ∷ acts)

-- `for (size_t i = 0; i < size; i++) buf[i] = 0xFF4040;`, with `left` rounds to go
unfoldable pub fill_loop : ℕ → ℕ → List ℕ → Option (List ℕ)
fill_loop zero i buf = some buf
fill_loop (suc left) i buf = do buf ← store buf i 0xFF4040; fill_loop left (i + 1) buf

-- `case WM_PAINT`: a `new DWORD[size]` holds anything at first.
unfoldable pub paint : ℕ → ℕ → (ℕ → ℕ) → Option (List Act)
unfolding fill_loop
paint width height garbage = do
  buf ← fill_loop (width * height % 2 ^ 32) 0 (map garbage (replicate (width * height % 2 ^ 32) 0))
  some (painted buf (width * height % 2 ^ 32 * 4 % 2 ^ 32) ∷ [])

module _ (value : String → ℕ) (def_window_proc : ℕ → ℤ) where
  -- The result and the acts.
  unfoldable pub def_win_proc : ℕ → ℤ × List Act
  def_win_proc msg =
      if msg == value "WM_DESTROY" then (pos 0, quit ∷ []) else (def_window_proc msg, [])

  -- `OutputWindowCallbackMacro(uMsg);`
  abbrev pub name_of : ℕ → List Act
  name_of msg = elim (output_window_callback_macro value msg) [
    | none ↦ []
    | some text ↦ named text ∷ []
  ]

  -- `buf` and `garbage` are what the two arrays hold at first.
  unfoldable pub ex_win_proc :
      (ℕ → ℤ) → ℕ → ℕ → (ℕ → ℕ) → List Bytes → Bytes → ℕ → Option (ℤ × List Act)
  ex_win_proc get_stock_object width height garbage names buf msg =
      let printed = name_of msg in
      if msg == value "WM_PAINT"
      then (do acts ← paint width height garbage; some (pos 0, printed ++ acts))
      else if msg == value "WM_ERASEBKGND"
      then some (pos 0, printed)
      else if msg == value "WM_CTLCOLORBTN"
      then some (get_stock_object 0xFF0000, printed)
      else if msg == value "WM_DROPFILES"
      then (do
        acts ← def_hand_drop_files names buf
        some (pos 0, printed ++ (received ∷ (acts ++ finish ∷ []))))
      else if msg == value "WM_DESTROY"
      then some (pos 0, printed ++ quit ∷ [])
      else some (def_window_proc msg, printed)
