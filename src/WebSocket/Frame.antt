-- ===== src/WebSocket/Frame.antt =====
-- `PackageAddHead` of CompleteConfidence/src/WebSocket.cpp: the head of a reply.
pub mod Laws
use left_my_codes.Base.{
  ℕ, ◌+◌, ◌/◌, bit_and, Bool, true, false, ◌&&◌, Option, some, ltb, if◌then◌else◌, ◌>>=◌, ◌>>◌,
  Bytes, store, slice, overwrite, clear, ℤ, pos, negsuc,
}

-- The end of the function, `memcpy(answer + off, str, strLen)`.
add_payload : Bytes → ℕ → Bytes → ℕ → Option (Bool × Bytes)
add_payload str str_len answer off = do
  payload ← slice str 0 str_len
  answer ← overwrite answer off payload
  some (true, answer)

-- The head by the length of the payload. Of a length 0xFFFF only the first byte is written, and
-- of a longer one no length; the bytes cleared behind the payload are past the longest head.
add_head : Bytes → ℕ → Bytes → Option (Bool × Bytes)
add_head str n answer =
    if ltb n 126
    then (do
      answer ← store answer 1 n
      answer ← store answer (n + 2 + 4 + 8 + 1) 0
      add_payload str n answer 2)
    else if ltb 125 n && ltb n 0xFFFF
    then (do
      answer ← store answer 1 126
      answer ← store answer 2 (bit_and n 0xFF00 / 0x100)
      answer ← store answer 3 (bit_and n 0xFF)
      answer ← store answer (n + 2 + 4 + 8 + 3) 0
      add_payload str n answer 4)
    else if ltb 0xFFFF n
    then (do answer ← store answer 1 127; add_payload str n answer 2)
    else add_payload str n answer 1

-- `true` for the pointer `answer`, `false` for `NULL`, with the array as it was left. The length
-- of `answer` is used to clear it, and for nothing else.
unfoldable pub package_add_head : Bytes → ℤ → Bytes → ℕ → Option (Bool × Bytes)
unfolding add_head add_payload
package_add_head str (negsuc _) answer answer_len = some (false, answer)
package_add_head str (pos n) answer answer_len = do
  answer ← clear answer answer_len
  answer ← store answer 0 0x81
  add_head str n answer
