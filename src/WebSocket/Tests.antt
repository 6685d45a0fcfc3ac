-- ===== src/WebSocket/Tests.antt =====
-- Runs of the WebSocket layer.
use left_my_codes.Base.{
  ℕ, ◌-◌, ◌≡◌, refl, true, some, List, [], ◌∷◌, ◌++◌, arith, ◌==◌, if◌then◌else◌, length, drop,
  replicate, length-replicate, Bytes, pos, codes,
}
use left_my_codes.WebSocket.Mask.Laws.{masked}
use left_my_codes.WebSocket.RoundTrip.{read_packet-package_add_head}
use left_my_codes.WebSocket.Frame.{package_add_head}
use left_my_codes.WebSocket.Frame.Laws.{head, package_add_head-head, package_add_head_unsized}
use left_my_codes.WebSocket.Packet.{read_packet}
use left_my_codes.WebSocket.Packet.Laws.{client_frame, read_packet-client}

abbrev key : Bytes
key = 0x37 ∷ 0xFA ∷ 0x21 ∷ 0x3D ∷ []

abbrev hello : Bytes
hello = codes "Hello"

abbrev room : Bytes
room = replicate 30 9

abbrev big : Bytes
big = replicate 0xFFFF 7

abbrev stack : Bytes
stack = replicate 1024 3

-- The example of RFC 6455, 5.7.
rfc_masked : masked key 0 hello ≡ 0x7F ∷ 0x9F ∷ 0x4D ∷ 0x51 ∷ 0x58 ∷ []
rfc_masked = refl

package_add_head-head_example :
    package_add_head (hello ++ 0 ∷ []) (pos 5) room 25
    ≡ some (true, head 5 ++ (hello ++ (replicate 18 0 ++ replicate 5 9)))
package_add_head-head_example =
    package_add_head-head hello (0 ∷ []) room 25 (omega arith) (omega arith) (omega arith)

stack-length : length stack ≡ 1024
stack-length = length-replicate {A = ℕ} 1024 3

read_packet-client_example :
    read_packet stack (client_frame key hello ++ 1 ∷ 2 ∷ []) 13 room 30
    ≡ some (true, hello ++ 0 ∷ replicate 24 9)
read_packet-client_example =
    read_packet-client stack hello (1 ∷ 2 ∷ []) room 0x37 0xFA 0x21 0x3D 13 30 stack-length
      (omega arith) (omega arith) (omega arith) (omega arith) (omega arith)

abbrev long_text : Bytes
long_text = replicate 2000 9

big-length : length big ≡ 0xFFFF
big-length = length-replicate {A = ℕ} 0xFFFF 7

abbrev big_room : Bytes
big_room = replicate 70000 0

big_room-length : length big_room ≡ 70000
big_room-length = length-replicate {A = ℕ} 70000 0

package_add_head_unsized_example :
    let front : Bytes = if length big == 0xFFFF then 0x81 ∷ [] else 0x81 ∷ 127 ∷ [] in
    package_add_head (big ++ []) (pos (length big)) big_room 70000
    ≡ some (
      true,
      front ++ (big ++ (replicate (70000 - length front - length big) 0 ++ drop 70000 big_room)),
    )
package_add_head_unsized_example =
    package_add_head_unsized big [] big_room 70000 (omega (arith, big-length))
      (omega (arith, big-length)) (omega (arith, big_room-length))

read_packet-package_add_head_example :
    (out : Bytes) × (package_add_head (hello ++ []) (pos 5) room 30 ≡ some (true, out))
    × (read_packet stack out 7 room 6 ≡ some (true, hello ++ 0 ∷ replicate 24 9))
read_packet-package_add_head_example =
    read_packet-package_add_head hello [] room stack room 30 7 6 (omega arith) (omega arith)
      (omega arith) (omega arith) stack-length (omega arith) (omega arith) (omega arith)

-- A digest and an encoding to run the handshake with.
abbrev five_words : Bytes → List ℕ
five_words text = 1 ∷ 2 ∷ 3 ∷ 4 ∷ length text ∷ []

abbrev letters : Bytes → ℕ → Bytes
letters b n = replicate 28 65

abbrev rfc_key : Bytes
rfc_key = codes "dGhlIHNhbXBsZSBub25jZQ=="

abbrev answer_room : Bytes
answer_room = replicate 140 9
