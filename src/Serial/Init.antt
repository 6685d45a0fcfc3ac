-- ===== src/Serial/Init.antt =====
-- `ComInit` of LeftComSupt/src/SPofOpenFile.cpp: it opens a port, sets it up, writes a greeting and
-- prints what it reads, without an end.
pub mod Laws
use left_my_codes.Base.{
  decimal, ℕ, zero, suc, ◌+◌, ◌-◌, ◌/◌, ◌%◌, ◌^◌, Bool, true, false, Option, none, some, List, [],
  ◌∷◌, ◌++◌, ltb, if◌then◌else◌, length, Bytes, codes,
}
use left_my_codes.Hex.{digit}
use left_my_codes.Serial.{Call, set_speed, Termios, set_parity}

-- A `char` as the `unsigned int` that `%X` takes it for: `char` is signed.
unfoldable pub promoted : ℕ → ℕ
promoted c = if ltb c 128 then c else 2 ^ 32 - 256 + c

-- The digits of `n` before `later`; a number of 32 bits has at most 8.
unfoldable pub upper_hex : ℕ → ℕ → Bytes → Bytes
upper_hex zero n later = later
upper_hex (suc fuel) n later =
    let more = upper_hex fuel (n / 16) (digit (n % 16) ∷ later) in
    if ltb n 16 then digit n ∷ later else more

-- `%02X`
unfoldable pub upper_hex_2 : ℕ → Bytes
unfolding upper_hex
upper_hex_2 n = if ltb n 16 then b'0' ∷ upper_hex 8 n [] else upper_hex 8 n []

-- What `read` gives: `failed n` is the result `-(n + 1)`.
pub data Reading : Type 0 where
  failed : ℕ → Reading
  bytes : Bytes → Reading

unfoldable pub print_bytes : Bytes → Bytes
print_bytes [] = []
print_bytes (c ∷ buf) = upper_hex_2 (promoted c) ++ print_bytes buf

-- What a round of the loop prints.
unfoldable pub read_round : Reading → Bytes
unfolding print_bytes
read_round (bytes []) = []
read_round (bytes (c ∷ buf)) =
    codes "res: " ++ decimal (length (c ∷ buf)) ++ codes "\n" ++ print_bytes (c ∷ buf) ++ codes "\n"
read_round (failed n) = codes "res: -" ++ decimal (suc n) ++ codes "\n" ++ codes "\n"

unfoldable pub read_rounds : List Reading → Bytes
read_rounds [] = []
read_rounds (r ∷ reads) = read_round r ++ read_rounds reads

-- The number that `exit` is given, while the loop goes on for `none`.
pub record Run : Type 0 where
  pub printed : Bytes
  pub speed_calls : List Call
  pub options : Option Termios
  pub written : List Bytes
  pub exit : Option ℕ

-- `opened` says whether `open` gives a number that is not negative, `got` and the two `accepted`
-- what the calls of termios answer, and `reads` what `read` gives, round by round.
unfoldable pub com_init :
    Bool → (List Call → Bool) → Option Termios → (Termios → Bool) → ℕ → List Reading → Run
unfolding read_rounds
com_init false speed_accepted got accepted bitlv reads = record {
  printed = codes "Start...\n";
  speed_calls = [];
  options = none;
  written = [];
  exit = some 1;
}
com_init true speed_accepted got accepted bitlv reads =
    let calls = set_speed speed_accepted bitlv in
    let (taken, options) = set_parity accepted got 8 1 b'N' in
    if taken
    then record {
      printed = codes "Start...\nOpen...\nWrite...\nReading...\n" ++ read_rounds reads;
      speed_calls = calls;
      options = options;
      written = codes "Hello world!" ∷ [];
      exit = none;
    }
    else record {
      printed = codes "Start...\nOpen...\nSet Parity Error\n";
      speed_calls = calls;
      options = options;
      written = [];
      exit = some 0;
    }
