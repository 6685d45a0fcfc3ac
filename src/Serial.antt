-- ===== src/Serial.antt =====
-- The serial ports of LeftComSupt/src: `set_speed` and `set_Parity` of SPofOpenFile.cpp, and
-- `ChoseBaud` of MoxaSerialPort_Win.cpp. What the calls of termios answer is an argument, and what
-- they are given is a part of the result. Messages to `stderr` are left out.
pub mod Codes
pub mod Speed
pub mod Line
pub mod Init
pub mod Moxa
mod Tests
use left_my_codes.Base.{
  ℕ, Bool, true, false, Option, none, some, List, [], ◌∷◌, ◌++◌, ◌==◌, if◌then◌else◌, ◌>>=◌, ◌>>◌,
  ℤ, pos, negsuc, ◌||◌,
}

-- The cases of `ChoseBaud` with what they return.
abbrev pub baud_cases : List (ℕ × ℕ)
baud_cases =
    (50, 0)
    ∷ (75, 1)
    ∷ (110, 2)
    ∷ (134, 3)
    ∷ (150, 4)
    ∷ (300, 5)
    ∷ (600, 6)
    ∷ (1200, 7)
    ∷ (1800, 8)
    ∷ (4800, 0xA)
    ∷ (7200, 0xB)
    ∷ (9600, 0xC)
    ∷ (19200, 0xD)
    ∷ (38400, 0xE)
    ∷ (57600, 0xF)
    ∷ (115200, 0x10)
    ∷ (230400, 0x11)
    ∷ (460800, 0x12)
    ∷ (921600, 0x13)
    ∷ []

-- A `switch` over some cases, whose `default` returns -1.
unfoldable pub switch : List (ℕ × ℕ) → ℕ → ℤ
switch [] n = negsuc 0
switch ((label, code) ∷ cases) n =
    let rest = switch cases n in if n == label then pos code else rest

unfoldable pub chose_baud : ℕ → ℤ
chose_baud bitlv = switch baud_cases bitlv

-- The constants of termios.h that `speed_arr` has.
pub data Baud : Type 0 where
  b115200 b57600 b38400 b19200 b9600 b4800 b2400 b1200 b300 : Baud

abbrev pub speed_arr : List Baud
speed_arr =
    b115200 ∷ b57600 ∷ b38400 ∷ b19200 ∷ b9600 ∷ b4800 ∷ b2400 ∷ b1200 ∷ b300 ∷ b115200 ∷ b38400
    ∷ b19200 ∷ b9600 ∷ b4800 ∷ b2400 ∷ b1200 ∷ b300 ∷ []

abbrev pub name_arr : List ℕ
name_arr =
    115200 ∷ 57600 ∷ 38400 ∷ 19200 ∷ 9600 ∷ 4800 ∷ 2400 ∷ 1200 ∷ 300 ∷ 115200 ∷ 38400 ∷ 19200 ∷ 9600
    ∷ 4800 ∷ 2400 ∷ 1200 ∷ 300 ∷ []

-- `tcflush(fd, TCIOFLUSH)`, and `tcsetattr` with this speed for both directions
pub data Call : Type 0 where
  flush : Call
  set_both : Baud → Call

-- The loop over the two arrays, with the calls so far. `accepted` says of the calls up to a
-- `tcsetattr` whether it returns 0.
module _ (accepted : List Call → Bool) (speed : ℕ) where
  unfoldable pub set_speed_loop : List ℕ → List Baud → List Call → List Call
  set_speed_loop (n ∷ names) (b ∷ bauds) calls = elim (speed == n) [
    | false ↦ set_speed_loop names bauds calls
    | true ↦ elim (accepted (calls ++ flush ∷ set_both b ∷ [])) [
      | false ↦ calls ++ flush ∷ set_both b ∷ []
      | true ↦ set_speed_loop names bauds (calls ++ flush ∷ set_both b ∷ flush ∷ [])
    ]
  ]
  set_speed_loop _ _ calls = calls

  unfoldable pub set_speed : List Call
  unfolding set_speed_loop
  set_speed = set_speed_loop name_arr speed_arr []

-- What `struct termios` says of a line, flag by flag; `csize` is the number of data bits.
pub record Termios : Type 0 where
  pub csize : ℕ
  pub cstopb : Bool
  pub parenb : Bool
  pub parodd : Bool
  pub inpck : Bool
  pub icanon : Bool
  pub opost : Bool
  pub vtime : ℕ
  pub vmin : ℕ

-- `switch (databits)`; `none` is the `return (FALSE)` of a `default`.
unfoldable pub set_data_bits : ℕ → Termios → Option Termios
set_data_bits databits options =
    if databits == 7
    then some (record options { csize = 7 })
    else if databits == 8
    then some (record options { csize = 8 })
    else none

-- `switch (parity)`
unfoldable pub set_parity_flags : ℕ → Termios → Option Termios
set_parity_flags parity options =
    if parity == b'n' || parity == b'N'
    then some (record options { parenb = false; inpck = false })
    else if parity == b'o' || parity == b'O'
    then some (record options { parenb = true; parodd = true; inpck = true })
    else if parity == b'e' || parity == b'E'
    then some (record options { parenb = true; parodd = false; inpck = true })
    else if parity == b'S' || parity == b's'
    then some (record options { parenb = false; cstopb = false })
    else none

-- `switch (stopbits)`
unfoldable pub set_stop_bits : ℕ → Termios → Option Termios
set_stop_bits stopbits options =
    if stopbits == 1
    then some (record options { cstopb = false })
    else if stopbits == 2
    then some (record options { cstopb = true })
    else none

-- The options that `tcsetattr` is given, from those that `tcgetattr` gave. What the code changes
-- in them behind that call goes nowhere.
unfoldable pub new_options : Option Termios → ℕ → ℕ → ℕ → Option Termios
new_options got databits stopbits parity = do
  options ← got
  options ← set_data_bits databits options
  options ← set_parity_flags parity options
  options ← set_stop_bits stopbits options
  some (record options {
    inpck = if parity == b'n' then options.inpck else true;
    vtime = 150;
    vmin = 0;
  })

-- `true` for TRUE, which is 0, and `false` for FALSE; then what `tcsetattr` is given, if it is
-- called. `accepted` says whether it returns 0.
unfoldable pub set_parity : (Termios → Bool) → Option Termios → ℕ → ℕ → ℕ → Bool × Option Termios
unfolding new_options
set_parity accepted got databits stopbits parity = elim (new_options got databits stopbits parity) [
  | none ↦ (false, none)
  | some options ↦ (accepted options, some options)
]
