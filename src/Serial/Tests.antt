-- ===== src/Serial/Tests.antt =====
-- Runs of `set_speed` and `set_Parity`.
use left_my_codes.Base.{
  codes, decimal, pos, ◌≡◌, refl, ◌≢◌, ◌⊎◌, true, false, none, some, List, [], ◌∷◌, arith, All,
}
use left_my_codes.Hex.{digit}
use left_my_codes.Serial.Init.{bytes, failed, com_init}
use left_my_codes.Serial.Init.Laws.{asked, com_init-reports}
use left_my_codes.Serial.Moxa.{baudrate, parity, databits, stopbits, left_sp_ioctl}
use left_my_codes.Serial.{
  speed_arr, Baud, b9600, b57600, Call, flush, set_both, set_speed, Termios, set_parity,
}
use left_my_codes.Serial.Speed.{rate, Sets, set_speed-rate}
use left_my_codes.Serial.Line.{no_parity, letter, set_parity-letter}

set_speed-rate_example :
    (All (λ b. rate b ≢ 9600) speed_arr × (set_speed (λ calls. true) 9600 ≡ []))
    ⊎ ((b : Baud) × (rest : List Call) × (set_speed (λ calls. true) 9600
          ≡ flush ∷ set_both b ∷ rest)
        × (rate b ≡ 9600)
        × All (Sets 9600) rest)
set_speed-rate_example = set_speed-rate (λ calls. true) 9600

-- 9600 stands in the arrays twice, and is set twice; 57600 stands there once.
twice :
    (set_speed (λ calls. true) 9600
      ≡ flush ∷ set_both b9600 ∷ flush ∷ flush ∷ set_both b9600 ∷ flush ∷ [])
    × (set_speed (λ calls. true) 57600 ≡ flush ∷ set_both b57600 ∷ flush ∷ [])
unfolding set_speed
twice = (refl, refl)

abbrev cooked : Termios
cooked = record {
  csize = 8;
  cstopb = false;
  parenb = false;
  parodd = false;
  inpck = false;
  icanon = true;
  opost = true;
  vtime = 0;
  vmin = 1;
}

set_parity-letter_example :
    set_parity (λ o. true) (some cooked) 8 1 (letter no_parity true)
    ≡ (true, some (record cooked { inpck = true; vtime = 150; vmin = 0 }))
set_parity-letter_example = set_parity-letter (λ o. true) cooked true false no_parity true

com_init-reports_example :
    com_init true
      (λ calls. true)
      (some cooked)
      (λ o. true)
      9600
      (bytes (0x4F ∷ 0xFF ∷ []) ∷ bytes [] ∷ failed 0 ∷ [])
    ≡ record {
      printed = codes "Start...\nOpen...\nWrite...\nReading...\nres: 2\n4FFFFFFFFF\nres: -1\n\n";
      speed_calls = set_speed (λ calls. true) 9600;
      options = some (asked cooked);
      written = codes "Hello world!" ∷ [];
      exit = none;
    }
unfolding decimal digit
com_init-reports_example =
    com_init-reports (λ calls. true) cooked (λ o. true) 9600
      (bytes (0x4F ∷ 0xFF ∷ []) ∷ bytes [] ∷ failed 0 ∷ []) refl (ground arith)

-- The call of LeftComSupt/src/main.cpp, `LeftSPIoctl(1, ChoseBaud(115200), P_NONE, BIT_8, STOP_1)`,
-- asks for 0 data bits, 8 stop bits and the parity 1.
main_settings :
    left_sp_ioctl (λ calls. pos 0) 115200 0 8 1
    ≡ (pos 0, baudrate 115200 ∷ parity 1 ∷ databits 0 ∷ stopbits 8 ∷ [])
unfolding left_sp_ioctl
main_settings = refl
