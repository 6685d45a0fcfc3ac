-- ===== src/WebSocket/RoundTrip.antt =====
-- `ReadPacket` on what `PackageAddHead` built.
use left_my_codes.Base.{
  ℕ, suc, ◌+◌, ◌-◌, ◌≤◌, ◌<◌, ◌≡◌, inl, inr, true, some, ◌∷◌, ◌++◌, arith, ltb, Bool-cases, length,
  drop, replicate, length-append, length-replicate, Bytes, pos,
}
use native.Mathlib.Nat.{zero-add}
use mathlib.Core.Path.{subst}
use left_my_codes.WebSocket.Frame.{package_add_head}
use left_my_codes.WebSocket.Frame.Laws.{head, package_add_head-head}
use left_my_codes.WebSocket.Packet.{read_packet}
use left_my_codes.WebSocket.Packet.Head.{length_field}
use left_my_codes.WebSocket.Packet.Laws.{read_packet-server}

head-length_field : (n : ℕ) → 0x81 ∷ length_field 0 n ≡ head n
head-length_field n = elim (Bool-cases (ltb n 126)) [
  | inl short ↦ rw (short, zero-add)
  | inr long ↦ rw long
]

length-head : (n : ℕ) → length (head n) ≤ 4
length-head n = elim (Bool-cases (ltb n 126)) [
  | inl short ↦ rw short (omega arith)
  | inr long ↦ rw long (omega arith)
]

-- The round trip: from the reply that `PackageAddHead` builds for 1 to 1024 bytes, with room for
-- what it clears behind them, `ReadPacket` answers with these bytes and a NUL.
pub read_packet-package_add_head :
    (s more frame stack answer : Bytes) (frame_len buf_len len : ℕ)
    → 0 < length s
    → length s ≤ 1024
    → length s + 18 ≤ frame_len
    → frame_len ≤ length frame
    → length stack ≡ 1024
    → length s ≤ buf_len
    → length s < len
    → len ≤ length answer
    → (out : Bytes) × (package_add_head (s ++ more) (pos (length s)) frame frame_len
        ≡ some (true, out))
      × (read_packet stack out buf_len answer len
          ≡ some (true, s ++ 0 ∷ drop (suc (length s)) answer))
read_packet-package_add_head s more frame stack answer frame_len buf_len len nonempty small room
      fits st whole h enough =
    let n = length s in
    let zeros : Bytes = replicate (frame_len - length (head n) - n) 0 in
    let rest = zeros ++ drop frame_len frame in
    let four : 4 ≤ length (s ++ rest) = omega (
      arith,
      length-append s rest,
      length-append zeros (drop frame_len frame),
      length-replicate {A = ℕ} (frame_len - length (head n) - n) 0,
      length-head n,
    ) in
    (
      head n ++ (s ++ rest),
      package_add_head-head s more frame frame_len (omega arith) room fits,
      subst
          (λ f.
            read_packet stack (f ++ (s ++ rest)) buf_len answer len
            ≡ some (true, s ++ 0 ∷ drop (suc n) answer))
          (head-length_field n)
          (read_packet-server stack s rest answer buf_len len st nonempty small four whole h
            enough),
    )
