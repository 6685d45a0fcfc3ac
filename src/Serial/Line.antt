-- ===== src/Serial/Line.antt =====
-- `set_Parity`: the options of the line.
use left_my_codes.Base.{
  ℕ, ◌≡◌, refl, ap, ◌≢◌, ◌⊎◌, inl, inr, Bool, true, false, Option, none, some, arith, ◌==◌,
  if◌then◌else◌, Option-cases, ◌>>=◌,
}
use left_my_codes.Serial.{
  Termios, set_data_bits, set_parity_flags, set_stop_bits, new_options, set_parity,
}

pub data Parity : Type 0 where
  no_parity odd even space : Parity

-- The letter for a parity, in upper case or in lower case.
abbrev pub letter : Parity → Bool → ℕ
letter no_parity upper = if upper then b'N' else b'n'
letter odd upper = if upper then b'O' else b'o'
letter even upper = if upper then b'E' else b'e'
letter space upper = if upper then b'S' else b's'

abbrev pub checked : Parity → Bool
checked no_parity = false
checked odd = true
checked even = true
checked space = false

-- The flag of odd parity, which stays as it was where there is no parity.
abbrev pub odd_flag : Parity → Bool → Bool
odd_flag odd old = true
odd_flag even old = false
odd_flag _ old = old

-- Input is checked for parity, for all letters but `n`.
abbrev pub input_checked : Parity → Bool → Bool
input_checked no_parity upper = upper
input_checked _ upper = true

data_bits-wide :
    (wide : Bool) (o : Termios)
    → set_data_bits (if wide then 8 else 7) o ≡ some (record o { csize = if wide then 8 else 7 })
unfolding set_data_bits
data_bits-wide true o = refl
data_bits-wide false o = refl

flags-letter :
    (q : Parity) (upper two : Bool) (o : Termios)
    → (do
      p ← set_parity_flags (letter q upper) o
      p ← set_stop_bits (if two then 2 else 1) p
      some (record p {
        inpck = if letter q upper == b'n' then p.inpck else true;
        vtime = 150;
        vmin = 0;
      }))
      ≡ some (record o {
        cstopb = two;
        parenb = checked q;
        parodd = odd_flag q o.parodd;
        inpck = input_checked q upper;
        vtime = 150;
        vmin = 0;
      })
unfolding set_parity_flags set_stop_bits
flags-letter no_parity true true o = refl
flags-letter no_parity true false o = refl
flags-letter no_parity false true o = refl
flags-letter no_parity false false o = refl
flags-letter odd true true o = refl
flags-letter odd true false o = refl
flags-letter odd false true o = refl
flags-letter odd false false o = refl
flags-letter even true true o = refl
flags-letter even true false o = refl
flags-letter even false true o = refl
flags-letter even false false o = refl
flags-letter space true true o = refl
flags-letter space true false o = refl
flags-letter space false true o = refl
flags-letter space false false o = refl

-- For 7 or 8 data bits, 1 or 2 stop bits and each letter of a parity, `set_Parity` gives
-- `tcsetattr` the line's options with these data bits, stop bits and parity, with the two times of
-- a read, and with the other flags as they were: also those of a terminal's input and output, which
-- the code clears too late. It returns TRUE if `tcsetattr` takes them. Of the letters for no
-- parity, `N` leaves the check of the input on and `n` off.
pub set_parity-letter :
    (accepted : Termios → Bool) (o : Termios) (wide two : Bool) (q : Parity) (upper : Bool)
    → let line : Termios = record o {
      csize = if wide then 8 else 7;
      cstopb = two;
      parenb = checked q;
      parodd = odd_flag q o.parodd;
      inpck = input_checked q upper;
      vtime = 150;
      vmin = 0;
    } in
      set_parity accepted (some o) (if wide then 8 else 7) (if two then 2 else 1) (letter q upper)
      ≡ (accepted line, some line)
unfolding set_parity new_options
set_parity-letter accepted o wide two q upper =
    let sized : Termios = record o { csize = if wide then 8 else 7 } in
    rw (set_parity, new_options, data_bits-wide wide o)
      (ap (λ r. elim r [ none ↦ (false, none) | some options ↦ (accepted options, some options) ])
        (flags-letter q upper two sized))

data_bits-refused : (d : ℕ) (o : Termios) → d ≢ 7 → d ≢ 8 → set_data_bits d o ≡ none
unfolding set_data_bits
data_bits-refused d o h g = ground arith

stop_bits-refused : (s : ℕ) (o : Termios) → s ≢ 1 → s ≢ 2 → set_stop_bits s o ≡ none
unfolding set_stop_bits
stop_bits-refused s o h g = ground arith

flags-refused :
    (p : ℕ) (o : Termios)
    → ((q : Parity) (upper : Bool) → p ≢ letter q upper)
    → set_parity_flags p o ≡ none
unfolding set_parity_flags
flags-refused p o h = ground (
  arith,
  h no_parity true,
  h no_parity false,
  h odd true,
  h odd false,
  h even true,
  h even false,
  h space true,
  h space false,
)

-- Without options from `tcgetattr`, and for other data bits, stop bits or letters, `set_Parity`
-- returns FALSE, and `tcsetattr` is not called.
pub set_parity_refuses :
    (accepted : Termios → Bool) (got : Option Termios) (databits stopbits parity : ℕ)
    → (got ≡ none)
      ⊎ ((databits ≢ 7) × (databits ≢ 8))
      ⊎ ((stopbits ≢ 1) × (stopbits ≢ 2))
      ⊎ ((q : Parity) (upper : Bool) → parity ≢ letter q upper)
    → set_parity accepted got databits stopbits parity ≡ (false, none)
unfolding set_parity new_options
set_parity_refuses accepted none databits stopbits parity why = refl
set_parity_refuses accepted (some o) databits stopbits parity why =
    elim (Option-cases (set_data_bits databits o)) [
      | inl e ↦ rw (set_parity, new_options, e)
      | inr (p, e) ↦ elim (Option-cases (set_parity_flags parity p)) [
        | inl e' ↦ rw (set_parity, new_options, e, e')
        | inr (p', e') ↦ elim (Option-cases (set_stop_bits stopbits p')) [
          | inl e'' ↦ rw (set_parity, new_options, e, e', e'')
          | inr (p'', e'') ↦ absurd (elim why [
            | inl h ↦ cc
            | inr (inl h) ↦ cc (data_bits-refused databits o h.0 h.1)
            | inr (inr (inl h)) ↦ cc (stop_bits-refused stopbits p' h.0 h.1)
            | inr (inr (inr h)) ↦ cc (flags-refused parity p h)
          ])
        ]
      ]
    ]
