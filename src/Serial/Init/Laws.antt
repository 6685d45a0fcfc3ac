-- ===== src/Serial/Init/Laws.antt =====
-- What `ComInit` prints.
use left_my_codes.Base.{
  decimal, ℕ, suc, ◌<◌, ◌≡◌, refl, ap, ap₂, Bool, true, false, none, some, List, [], ◌∷◌, ◌++◌, ltb,
  if◌then◌else◌, length, All, all_below, all_below_sound, Bytes, IsBytes, codes, equal, equal_sound,
}
use left_my_codes.Hex.{digit}
use left_my_codes.Hex.Print.{hex_digits}
use left_my_codes.Serial.{Call, set_speed, Termios}
use left_my_codes.Serial.Line.{no_parity, set_parity-letter}
use left_my_codes.Serial.Init.{
  promoted, upper_hex_2, Reading, failed, bytes, print_bytes, read_round, read_rounds, com_init,
}

-- A byte in hexadecimal digits: two of them, but behind six more for one of 128 or more.
abbrev pub byte_text : ℕ → Bytes
byte_text c = (if ltb c 128 then [] else codes "FFFFFF") ++ hex_digits (c ∷ [])

byte_table : all_below 256 (λ c. equal (upper_hex_2 (promoted c)) (byte_text c)) ≡ true
unfolding all_below upper_hex_2 promoted equal digit
byte_table = refl

upper_hex_2-byte_text : (c : ℕ) → c < 256 → upper_hex_2 (promoted c) ≡ byte_text c
upper_hex_2-byte_text c h = equal_sound _ _ (all_below_sound _ byte_table c h)

abbrev pub bytes_text : Bytes → Bytes
bytes_text [] = []
bytes_text (c ∷ s) = byte_text c ++ bytes_text s

print_bytes-bytes_text : (s : Bytes) → IsBytes s → print_bytes s ≡ bytes_text s
unfolding print_bytes
print_bytes-bytes_text [] h = refl
print_bytes-bytes_text (c ∷ s) h =
    ap₂ (◌++◌) (upper_hex_2-byte_text c h.0) (print_bytes-bytes_text s h.1)

-- What is printed for one answer of `read`: nothing if it has no bytes; else two lines, the result
-- and the bytes, and the second one is empty for an error.
abbrev pub report : Reading → Bytes
report (bytes []) = []
report (bytes (c ∷ s)) =
    codes "res: " ++ decimal (length (c ∷ s)) ++ codes "\n" ++ bytes_text (c ∷ s) ++ codes "\n"
report (failed n) = codes "res: -" ++ decimal (suc n) ++ codes "\n" ++ codes "\n"

abbrev pub reports : List Reading → Bytes
reports [] = []
reports (r ∷ rs) = report r ++ reports rs

abbrev pub IsReading : Reading → Type 0
IsReading (bytes s) = IsBytes s
IsReading (failed n) = Unit {0}

read_round-report : (r : Reading) → IsReading r → read_round r ≡ report r
unfolding read_round
read_round-report (bytes []) h = refl
read_round-report (bytes (c ∷ s)) h =
    ap (λ t. codes "res: " ++ decimal (length (c ∷ s)) ++ codes "\n" ++ t ++ codes "\n")
      (print_bytes-bytes_text (c ∷ s) h)
read_round-report (failed n) h = refl

read_rounds-reports : (rs : List Reading) → All IsReading rs → read_rounds rs ≡ reports rs
unfolding read_rounds
read_rounds-reports [] h = refl
read_rounds-reports (r ∷ rs) h = ap₂ (◌++◌) (read_round-report r h.0) (read_rounds-reports rs h.1)

-- The line that `ComInit` asks for: 8 data bits, 1 stop bit, no parity.
abbrev pub asked : Termios → Termios
asked o = record o {
  csize = 8;
  cstopb = false;
  parenb = false;
  inpck = true;
  vtime = 150;
  vmin = 0;
}

-- On an open port whose options are read and whose new ones are taken, `ComInit` gives the line 8
-- data bits, 1 stop bit and no parity, and the speed by the calls of `set_speed`, writes
-- `Hello world!` once, and never ends: it prints a report of each answer of `read`, for errors too,
-- with two digits for a byte below 128 and eight for any other one.
pub com_init-reports :
    (speed_accepted : List Call → Bool) (o : Termios) (accepted : Termios → Bool) (bitlv : ℕ)
    (reads : List Reading)
    → accepted (asked o) ≡ true
    → All IsReading reads
    → com_init true speed_accepted (some o) accepted bitlv reads ≡ record {
      printed = codes "Start...\nOpen...\nWrite...\nReading...\n" ++ reports reads;
      speed_calls = set_speed speed_accepted bitlv;
      options = some (asked o);
      written = codes "Hello world!" ∷ [];
      exit = none;
    }
unfolding com_init
com_init-reports speed_accepted o accepted bitlv reads taken h =
    rw (set_parity-letter accepted o true false no_parity true, taken, read_rounds-reports reads h)
