-- ===== src/Serial/Codes.antt =====
-- `ChoseBaud`: the codes that it gives.
use left_my_codes.Base.{
  ℕ, ◌≡◌, refl, ap, ◌∙◌, ◌≢◌, inl, inr, some, List, [], ◌∷◌, arith, ◌==◌, Bool-cases, get_elem?,
  All, ℤ, pos, negsuc,
}
use left_my_codes.Serial.{baud_cases, switch, chose_baud}

-- The speeds in the order of their codes in LeftComSupt/src/PCOMM.H, B50 to B921600.
abbrev pub pcomm_speeds : List ℕ
pcomm_speeds =
    50 ∷ 75 ∷ 110 ∷ 134 ∷ 150 ∷ 300 ∷ 600 ∷ 1200 ∷ 1800 ∷ 2400 ∷ 4800 ∷ 7200 ∷ 9600 ∷ 19200 ∷ 38400
    ∷ 57600 ∷ 115200 ∷ 230400 ∷ 460800 ∷ 921600 ∷ []

-- The code of a speed is its place among them; -1 is for a speed that is none of the cases.
abbrev pub IsCode : List (ℕ × ℕ) → ℕ → ℤ → Type 0
IsCode cases n (pos code) = get_elem? pcomm_speeds code ≡ some n
IsCode cases n (negsuc k) = (k ≡ 0) × All (λ c. c.0 ≢ n) cases

IsCode-cons :
    (label code : ℕ) (cases : List (ℕ × ℕ)) (n : ℕ) (r : ℤ)
    → label ≢ n
    → IsCode cases n r
    → IsCode ((label, code) ∷ cases) n r
IsCode-cons label code cases n (pos c) ne h = h
IsCode-cons label code cases n (negsuc k) ne h = (h.0, (ne, h.1))

switch-IsCode :
    (cases : List (ℕ × ℕ)) (n : ℕ)
    → All (λ c. get_elem? pcomm_speeds c.1 ≡ some c.0) cases
    → IsCode cases n (switch cases n)
unfolding switch
switch-IsCode [] n h = (refl, tt)
switch-IsCode ((label, code) ∷ cases) n h = elim (Bool-cases (n == label)) [
  | inl same ↦ let e : label ≡ n = ground (arith, same) in rw (switch, same) (h.0 ∙ ap some e)
  | inr other ↦
      let ne : label ≢ n = ground (arith, other) in
      rw (switch, other)
        (IsCode-cons label code cases n (switch cases n) ne (switch-IsCode cases n h.1))
]

known : All (λ c. get_elem? pcomm_speeds c.1 ≡ some c.0) baud_cases
known = ground arith

-- `ChoseBaud` gives each speed of its cases the code that PCOMM.H has for it, and -1 for any other
-- speed.
pub chose_baud-IsCode : (n : ℕ) → IsCode baud_cases n (chose_baud n)
unfolding chose_baud
chose_baud-IsCode n = switch-IsCode baud_cases n known

-- A speed of PCOMM.H that `ChoseBaud` does not know.
missing : chose_baud 2400 ≡ negsuc 0
unfolding chose_baud switch
missing = refl
