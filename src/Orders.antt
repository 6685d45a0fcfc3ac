-- ===== src/Orders.antt =====
-- `leftName::getNextOrder` and `leftName::AddSign` of LeftMyCodes/src/MyCodes.cpp: a text of
-- orders between sign characters. The array of an order's text is given from the pointer on.
pub mod Pieces
pub mod Add
pub mod Next
mod Tests
use left_my_codes.Errors.{left_success, left_error_argvs}
use left_my_codes.Base.{
  ℕ, zero, suc, ◌+◌, ◌-◌, Bool, true, false, ◌&&◌, Option, none, some, [], ◌∷◌, leb, ◌==◌,
  if◌then◌else◌, ◌>>=◌, ◌>>◌, length, drop, Bytes, read, store, slice, overwrite, clear, c_str,
  strstr,
}

module _ (sign_char : ℕ) where
  -- The body of the `for` from the character `i` on, with `j` characters in `buff`. The first
  -- branch is a round of the inner `while`, which passes a sign that another one follows.
  unfoldable pub add_sign_loop : Bytes → ℕ → ℕ → Bytes → Option (ℕ × Bytes)
  add_sign_loop [] j first_len buff = some (first_len, buff)
  add_sign_loop (c ∷ []) j first_len buff = do buff ← store buff j c; some (first_len, buff)
  add_sign_loop (c ∷ d ∷ s) j first_len buff = do
    (j, first_len, buff) ←
        (if d == sign_char && c == sign_char
          then some (j, first_len - 1, buff)
          else (do buff ← store buff j c; some (j + 1, first_len, buff)))
    add_sign_loop (d ∷ s) j first_len buff

  -- The lines behind the loop. The length 0 would wrap around.
  unfoldable pub add_last_sign : ℕ → Bytes → Option Bytes
  add_last_sign zero buff = none
  add_last_sign (suc n) buff = do
    c ← read buff n
    if c == sign_char
        then store buff (suc n) 0
        else (do buff ← store buff (suc n) sign_char; store buff (suc n + 1) 0)

  -- The lines before the loop: the first sign, `j` and `firstLen`. The text is read up to its NUL.
  unfoldable pub add_first_sign : Bytes → Bytes → Option (ℕ × ℕ × Bytes)
  add_first_sign text buff =
      if elim text [ [] ↦ 0 | c ∷ s ↦ c ] == sign_char
      then some (0, length text, buff)
      else do buff ← store buff 0 sign_char; some (1, length text + 1, buff)

-- The error number, and the caller's array; `none` for a `NULL` pointer.
unfoldable pub add_sign : Option Bytes → Option Bytes → ℕ → Option (ℕ × Option Bytes)
unfolding add_sign_loop add_last_sign add_first_sign
add_sign none buff sign_char = some (left_error_argvs, buff)
add_sign (some order_buff) none sign_char = some (left_error_argvs, none)
add_sign (some order_buff) (some buff) sign_char = do
  text ← c_str order_buff
  (j, first_len, buff) ← add_first_sign sign_char text buff
  (first_len, buff) ← add_sign_loop sign_char text j first_len buff
  buff ← add_last_sign sign_char first_len buff
  some (left_success, some buff)

-- The C string `CutStr`
abbrev cut_str : ℕ → Bytes
cut_str sign_char = if sign_char == 0 then [] else sign_char ∷ []

-- From the test on `last` on, where `last` is `l` characters behind `head + 1`.
unfoldable pub copy_order : Bytes → Bytes → ℕ → ℕ → Option ℕ → Option (Bool × Bytes × Bytes)
copy_order buf order len head none = some (false, order, buf)
copy_order buf order len head (some l) = do
  order ← clear order len
  word ← slice buf (head + 1) l
  order ← overwrite order 0 word
  order ← store order (l + 1) 0
  some (true, order, drop (l + 1) buf)

-- From the test on `head` on.
unfoldable pub find_last : Bytes → Bytes → ℕ → ℕ → Option ℕ → Option (Bool × Bytes × Bytes)
unfolding copy_order
find_last buf order len sign_char none = some (false, order, buf)
find_last buf order len sign_char (some head) = do
  c ← read buf (head + 1)
  if c == 0 then some (false, order, buf) else (do
    text ← c_str (drop (head + 1) buf)
    copy_order buf order len head (strstr text (cut_str sign_char)))

-- `true` for the pointer `order`, `false` for `NULL`; then the array `order` and what `*buf`
-- points to, as they are left. `Len` is not negative.
unfoldable pub get_next_order : Bytes → Bytes → ℕ → ℕ → Option (Bool × Bytes × Bytes)
unfolding find_last
get_next_order buf order len sign_char = do
  text ← c_str buf
  if leb (length text) 1 && leb len (length text)
      then some (false, order, buf)
      else find_last buf order len sign_char (strstr text (cut_str sign_char))
