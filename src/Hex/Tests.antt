-- ===== src/Hex/Tests.antt =====
-- Runs of `StrToHex` and `HexToStr`.
use left_my_codes.Base.{
  ◌≡◌, refl, true, some, [], ◌∷◌, ◌++◌, arith, length, Bytes, IsBytes, read, codes, c_str, inl, inr,
}
use left_my_codes.Hex.{str_to_hex, hex_to_str, digit}
use left_my_codes.Hex.Print.{hex_digits}
use left_my_codes.Hex.Parse.{str_to_hex-hex_to_str}
use left_my_codes.Hex.Spells.{Spells, nil, two_digits, str_to_hex-Spells}

abbrev two_bytes : Bytes
two_bytes = 0x1F ∷ 0xA0 ∷ []

abbrev room : Bytes
room = 1 ∷ 2 ∷ 3 ∷ 4 ∷ 5 ∷ 6 ∷ 7 ∷ []

two_bytes-IsBytes : IsBytes two_bytes
two_bytes-IsBytes = (omega arith, (omega arith, tt))

upper_digits : hex_digits two_bytes ≡ codes "1FA0"
unfolding digit
upper_digits = refl

str_to_hex-hex_to_str_example :
    (out : Bytes) × (text : Bytes) × (rest : Bytes) × (hex_to_str two_bytes 2 room 6
      ≡ some (true, out))
    × (c_str out ≡ some text)
    × (str_to_hex text room 3 ≡ some (true, two_bytes ++ rest))
str_to_hex-hex_to_str_example =
    str_to_hex-hex_to_str two_bytes room 6 room 3 two_bytes-IsBytes (cc) (omega arith) (omega arith)
      (omega arith) (omega arith)

mixed_case : Spells (codes "1fA0") two_bytes
mixed_case =
    two_digits {v = 1} {w = 15} (inl (omega arith, refl))
      (inr (inl (omega arith, omega arith, refl)))
      (two_digits {v = 10} {w = 0} (inr (inr (omega arith, omega arith, refl)))
        (inl (omega arith, refl)) nil)

str_to_hex-Spells_example :
    (rest : Bytes) × (str_to_hex (codes "1fA0") room 5 ≡ some (true, two_bytes ++ rest))
    × (length (two_bytes ++ rest) ≡ 7)
    × (read rest 2 ≡ some 0)
str_to_hex-Spells_example = str_to_hex-Spells room 5 mixed_case (cc) (omega arith) (omega arith)
