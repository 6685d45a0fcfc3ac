-- ===== src/SafeList.antt =====
-- `leftName::ThrSfeList` of LeftMyCodes/src/MyCodes.{h,cpp}: a list of buffers whose nodes are
-- linked both ways around a head. The nodes stand on a heap; what `new` returns is an argument.
-- The locks that the methods take and give back are left out: that of `GetLast` and `GetBuf` spans
-- a copy only, and the constructor has one of its own. The calls here are whole; `Race`, `Lost` and
-- `Twice` have two threads that are in each other's way.
pub mod Nodes
pub mod Chain
pub mod Add
pub mod GetLast
pub mod GetBuf
pub mod Queue
pub mod Race
pub mod Lost
pub mod Twice
mod Tests
use left_my_codes.Base.{
  ◌||◌, ℕ, Bool, true, false, not, Option, none, some, ltb, ◌==◌, if◌then◌else◌, Bytes, slice,
  overwrite,
}
use left_my_codes.SafeList.Nodes.{
  Ptr, null, Role, head, boddy, Cmd, pure, ◌>>>=◌, lift, load, put, link_next, link_last,
}

infixl 5 ◌>>=◌ ◌>>◌
abbrev ◌>>=◌ : {A B : Type 0} → Cmd A → (A → Cmd B) → Cmd B
◌>>=◌ = ◌>>>=◌

abbrev ◌>>◌ : {B : Type 0} → Cmd (Unit {0}) → Cmd B → Cmd B
m >> k = m >>>= λ _. k

-- The constructor of the list itself, at the address `this`.
unfoldable pub new_head : Ptr → Cmd (Unit {0})
new_head this =
    put this (some (record { role = head; buf = none; len = 0; last = null; next = this }))

-- The constructor of an element, at the address `fresh`, with a copy of the `len` bytes of `buf`.
-- (`Add`, which alone calls it, has seen that there are some.)
unfoldable pub new_element : Ptr → Bytes → ℕ → Ptr → Ptr → Cmd (Unit {0})
new_element fresh buf len last next = do
  content ← lift (slice buf 0 len)
  put fresh
      (some (record { role = boddy; buf = some content; len = len; last = last; next = next }))
  link_next last fresh
  link_last next fresh

-- The destructor, and the end of the node. The buffer that it frees is its own.
unfoldable pub delete : Ptr → Cmd (Unit {0})
delete this = do n ← load this; link_next n.last n.next; link_last n.next n.last; put this none

-- A `memcpy` of the `len` bytes of a node's buffer to the start of `out`.
abbrev pub copy_out : Option Bytes → ℕ → Bytes → Option Bytes
copy_out none len out = if len == 0 then some out else none
copy_out (some b) len out = elim (slice b 0 len) [ none ↦ none | some s ↦ overwrite out 0 s ]

abbrev pub is_boddy : Role → Bool
is_boddy boddy = true
is_boddy _ = false

-- The number of bytes got, and the caller's array; `none` for a `NULL` array.
unfoldable pub get_last : Ptr → Option Bytes → ℕ → Cmd (ℕ × Option Bytes)
get_last this none len = pure (0, none)
get_last this (some out) len = do
  n ← load this
  if n.last == null then pure (0, some out) else do
    l ← load n.last
    if not (is_boddy l.role) || ltb len l.len
        then pure (0, some out)
        else do out ← lift (copy_out l.buf l.len out); delete n.last; pure (l.len, some out)

-- `true` for the pointer `buf`, `false` for `NULL`.
unfoldable pub get_buf : Ptr → Option Bytes → ℕ → Cmd (Bool × Option Bytes)
get_buf this none len = pure (false, none)
get_buf this (some out) len = do
  n ← load this
  if ltb len n.len
      then pure (false, some out)
      else do out ← lift (copy_out n.buf n.len out); pure (true, some out)

-- `fresh` is what `new` returns.
unfoldable pub add : Ptr → Ptr → Option Bytes → ℕ → Cmd Bool
add this fresh none len = pure false
add this fresh (some buf) len =
    if len == 0
    then pure false
    else do n ← load this; new_element fresh buf len this n.next; pure true
