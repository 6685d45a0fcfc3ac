-- ===== src/WebSocket/Mask.antt =====
-- `DecipheringStr` of CompleteConfidence/src/WebSocket.cpp: a payload under its masking key.
pub mod Laws
use left_my_codes.Base.{
  ℕ, zero, suc, ◌+◌, ◌%◌, bit_xor, Bool, true, false, Option, some, leb, if◌then◌else◌, ◌>>=◌, ◌>>◌,
  Bytes, read, store, slice, overwrite,
}

module _ (cipher_text key : Bytes) where
  -- `for (int i = 0; …)` at `i`, with `left` rounds to go
  unfoldable pub deciphering_loop : ℕ → ℕ → Bytes → Option Bytes
  deciphering_loop zero i out = some out
  deciphering_loop (suc left) i out = do
    c ← read cipher_text i
    k ← read key (i % 4)
    out ← store out i (bit_xor c k)
    deciphering_loop left (i + 1) out

-- `true` for the pointer `DecipheringStr`, `false` for `NULL`, with the array as it was left.
unfoldable pub deciphering_str : Bytes → ℕ → Bytes → Bytes → ℕ → Option (Bool × Bytes)
unfolding deciphering_loop
deciphering_str cipher_text text_len key out dh_str_len =
    if leb dh_str_len text_len then some (false, out) else do
      out ← store out text_len 0
      copied ← slice cipher_text 0 text_len
      out ← overwrite out 0 copied
      out ← deciphering_loop cipher_text key text_len 0 out
      some (true, out)
