-- ===== src/WebSocket/Packet/Head.antt =====
-- The heads that `ReadPacket` reads: a final text frame, with a short or a long length, with a
-- key or without.
use left_my_codes.Base.{
  ℕ, ◌+◌, ◌*◌, ◌/◌, ◌%◌, ◌^◌, ◌<◌, bit_and, ◌≡◌, refl, Bool, true, false, not, ◌&&◌, some, [], ◌∷◌,
  arith, ltb, leb, ◌==◌, if◌then◌else◌, all_below, all_below_sound, short_bytes, Bytes,
}
use left_my_codes.WebSocket.Packet.{WebSkt, read_head}

-- The length in the head of a frame, with the mask bit `m`, 0 or 128.
abbrev pub length_field : ℕ → ℕ → Bytes
length_field m n = if ltb n 126 then (m + n) ∷ [] else (m + 126) ∷ n / 256 ∷ n % 256 ∷ []

header_table :
    all_below 256 (λ b.
      let h = 0x81 + b * 0x100 in
      (if leb 128 b then not (bit_and h 0x8000 == 0) else bit_and h 0x8000 == 0)
      && not (bit_and h 0x80 == 0)
      && bit_and h 0xF == 1
      && bit_and h 0x7F00 / 2 ^ 8 == b % 128)
    ≡ true
unfolding all_below
header_table = refl

text_header :
    (b : ℕ)
    → b < 256
    → (not (bit_and (0x81 + b * 0x100) 0x8000 == 0) ≡ leb 128 b)
      × (not (bit_and (0x81 + b * 0x100) 0x80 == 0) ≡ true)
      × (bit_and (0x81 + b * 0x100) 0xF ≡ 1)
      × (bit_and (0x81 + b * 0x100) 0x7F00 / 2 ^ 8 ≡ b % 128)
text_header b h = ground (arith, all_below_sound _ header_table b h)

abbrev pub text_skt : Bool → ℕ → Bytes → ℕ → WebSkt
text_skt mask n key off = record {
  fin = true;
  opcode = 1;
  mask = mask;
  payload_len = n;
  masking_key = key;
  word_off = off;
}

-- A short length in the second byte, and the key behind it.
pub read_head_short :
    (b k l m o : ℕ) (rest : Bytes)
    → b < 256
    → b % 128 < 126
    → read_head (0x81 ∷ b ∷ k ∷ l ∷ m ∷ o ∷ rest)
      ≡ some (text_skt (leb 128 b) (b % 128) (k ∷ l ∷ m ∷ o ∷ []) (if leb 128 b then 6 else 2))
unfolding read_head
read_head_short b k l m o rest h small =
    let (mask, fin, opcode, len) = text_header b h in
    let not_long : (b % 128 == 126) ≡ false = ground arith in
    let not_longer : (b % 128 == 127) ≡ false = ground arith in
    rw (fin, opcode, len, mask, not_long, not_longer)

swap_bytes :
    (n : ℕ)
    → n < 0x10000
    → bit_and (n / 256 + n % 256 * 0x100) 0xFF00 / 0x100
        + bit_and (n / 256 + n % 256 * 0x100) 0xFF * 0x100
      ≡ n
swap_bytes n h = omega (arith, short_bytes (n / 256 + n % 256 * 0x100) (omega arith))

-- The mark 126 with the length in two bytes, then the key.
pub read_head_masked :
    (n k l m o : ℕ) (rest : Bytes)
    → n < 0x10000
    → read_head (0x81 ∷ 254 ∷ n / 256 ∷ n % 256 ∷ k ∷ l ∷ m ∷ o ∷ rest)
      ≡ some (text_skt true n (k ∷ l ∷ m ∷ o ∷ []) 8)
unfolding read_head
read_head_masked n k l m o rest h = rw (swap_bytes n h)

-- The same with no key.
pub read_head_unmasked :
    (n : ℕ) (rest : Bytes)
    → n < 0x10000
    → read_head (0x81 ∷ 126 ∷ n / 256 ∷ n % 256 ∷ rest)
      ≡ some (text_skt false n (0 ∷ 0 ∷ 0 ∷ 0 ∷ []) 4)
unfolding read_head
read_head_unmasked n rest h = rw (swap_bytes n h)
