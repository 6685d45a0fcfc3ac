-- ===== src/Serial/Moxa.antt =====
-- `left_SP_ioctl` of LeftComSupt/src/MoxaSerialPort_Linux.cpp, over the calls of the MOXA library.
use left_my_codes.Base.{
  ℕ, ◌≡◌, refl, ◌⊎◌, inl, inr, Bool, true, false, List, [], ◌∷◌, ◌++◌, arith, if◌then◌else◌, take,
  ℤ, pos, negsuc, ◌≤ℤ◌,
}

-- `mxsp_set_baudrate`, `mxsp_set_parity`, `mxsp_set_databits` and `mxsp_set_stopbits`
pub data Setting : Type 0 where
  baudrate parity databits stopbits : ℕ → Setting

abbrev pub negative : ℤ → Bool
negative (pos n) = false
negative (negsuc n) = true

-- The result and the calls. `answer` says what the last one of the calls so far returns.
unfoldable pub left_sp_ioctl : (List Setting → ℤ) → ℕ → ℕ → ℕ → ℕ → ℤ × List Setting
left_sp_ioctl answer baud bit stop p =
    let first = baudrate baud ∷ [] in
    let second = baudrate baud ∷ parity p ∷ [] in
    let third = baudrate baud ∷ parity p ∷ databits bit ∷ [] in
    let fourth = baudrate baud ∷ parity p ∷ databits bit ∷ stopbits stop ∷ [] in
    if negative (answer first)
    then (negsuc 0, first)
    else if negative (answer second)
    then (negsuc 0, second)
    else if negative (answer third)
    then (negsuc 0, third)
    else if negative (answer fourth)
    then (negsuc 0, fourth)
    else (pos 0, fourth)

-- The settings of `left_SP_ioctl`, in the order of its calls.
abbrev pub settings : ℕ → ℕ → ℕ → ℕ → List Setting
settings baud bit stop p = baudrate baud ∷ parity p ∷ databits bit ∷ stopbits stop ∷ []

-- A run over some settings behind those of `done`: it ends at the first one that is refused.
abbrev pub IsRun : (List Setting → ℤ) → List Setting → List Setting → ℤ × List Setting → Type 0
IsRun answer done [] run = run ≡ (pos 0, done)
IsRun answer done (s ∷ later) run =
    (((answer (done ++ s ∷ []) ≤ℤ negsuc 0) ≡ true) × (run ≡ (negsuc 0, done ++ s ∷ [])))
    ⊎ (((pos 0 ≤ℤ answer (done ++ s ∷ [])) ≡ true) × IsRun answer (done ++ s ∷ []) later run)

sign :
    (n : ℤ)
    → ((negative n ≡ true) × ((n ≤ℤ negsuc 0) ≡ true))
      ⊎ ((negative n ≡ false) × ((pos 0 ≤ℤ n) ≡ true))
sign (pos n) = inr (refl, ground arith)
sign (negsuc n) = inl (refl, ground arith)

-- `left_SP_ioctl` gives the port its speed, parity, data bits and stop bits in this order, and
-- returns 0 if no call returns a negative number; at the first one that does it returns -1 and
-- makes no other call.
pub left_sp_ioctl-IsRun :
    (answer : List Setting → ℤ) (baud bit stop p : ℕ)
    → IsRun answer [] (settings baud bit stop p) (left_sp_ioctl answer baud bit stop p)
unfolding left_sp_ioctl
left_sp_ioctl-IsRun answer baud bit stop p =
    let calls = settings baud bit stop p in
    elim (sign (answer (take 1 calls))) [
      | inl (e, below) ↦ inl (below, rw e refl)
      | inr (e, above) ↦ inr (
        above,
        elim (sign (answer (take 2 calls))) [
          | inl (e', below) ↦ inl (below, rw (e, e') refl)
          | inr (e', above) ↦ inr (
            above,
            elim (sign (answer (take 3 calls))) [
              | inl (e'', below) ↦ inl (below, rw (e, e', e'') refl)
              | inr (e'', above) ↦ inr (
                above,
                elim (sign (answer calls)) [
                  | inl (e''', below) ↦ inl (below, rw (e, e', e'', e''') refl)
                  | inr (e''', above) ↦ inr (above, rw (e, e', e'', e''') refl)
                ],
              )
            ],
          )
        ],
      )
    ]
