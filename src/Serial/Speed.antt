-- ===== src/Serial/Speed.antt =====
-- `set_speed`: the calls that it makes.
use left_my_codes.Base.{
  ℕ, ◌≡◌, refl, sym, ◌≢◌, ◌⊎◌, inl, inr, Bool, List, [], ◌∷◌, ◌++◌, map, append_assoc, append-nil,
  arith, ◌==◌, Bool-cases, All,
}
use left_my_codes.Serial.{
  Baud, b115200, b57600, b38400, b19200, b9600, b4800, b2400, b1200, b300, speed_arr, Call, flush,
  set_both, set_speed_loop, set_speed,
}

-- The bits per second that a constant stands for.
abbrev pub rate : Baud → ℕ
rate b115200 = 115200
rate b57600 = 57600
rate b38400 = 38400
rate b19200 = 19200
rate b9600 = 9600
rate b4800 = 4800
rate b2400 = 2400
rate b1200 = 1200
rate b300 = 300

-- A call that sets no speed but this one.
abbrev pub Sets : ℕ → Call → Type 0
Sets speed flush = Unit {0}
Sets speed (set_both b) = rate b ≡ speed

module _ (accepted : List Call → Bool) (speed : ℕ) where
  loop-append :
      (bauds : List Baud) (calls : List Call)
      → (rest : List Call) × (set_speed_loop accepted speed (map rate bauds) bauds calls
          ≡ calls ++ rest)
        × All (Sets speed) rest
  unfolding set_speed_loop
  loop-append [] calls = ([], sym (append-nil calls), tt)
  loop-append (b ∷ bauds) calls = elim (Bool-cases (speed == rate b)) [
    | inr other ↦ rw (set_speed_loop, other) (loop-append bauds calls)
    | inl same ↦
        let e : rate b ≡ speed = ground (arith, same) in
        elim (Bool-cases (accepted (calls ++ flush ∷ set_both b ∷ []))) [
          | inr refused ↦
              rw (set_speed_loop, same, refused) (flush ∷ set_both b ∷ [], refl, (tt, (e, tt)))
          | inl done ↦
              let (rest, written, all) =
                loop-append bauds (calls ++ flush ∷ set_both b ∷ flush ∷ []) in
              rw (set_speed_loop, same, done)
                (
                  flush ∷ set_both b ∷ flush ∷ rest,
                  simp append_assoc at written,
                  (tt, (e, (tt, all))),
                )
        ]
  ]

  -- What the loop does over some speeds: nothing, if the speed is none of them.
  abbrev Outcome : List Baud → List Call → Type 0
  Outcome bauds calls =
      (All (λ b. rate b ≢ speed) bauds × (calls ≡ []))
      ⊎ ((b : Baud) × (rest : List Call) × (calls ≡ flush ∷ set_both b ∷ rest)
          × (rate b ≡ speed)
          × All (Sets speed) rest)

  loop-Outcome :
      (bauds : List Baud) → Outcome bauds (set_speed_loop accepted speed (map rate bauds) bauds [])
  unfolding set_speed_loop
  loop-Outcome [] = inl (tt, refl)
  loop-Outcome (b ∷ bauds) = elim (Bool-cases (speed == rate b)) [
    | inr other ↦
        let ne : rate b ≢ speed = ground (arith, other) in
        rw (set_speed_loop, other)
          (elim (loop-Outcome bauds) [
            | inl (none_of, e) ↦ inl ((ne, none_of), e)
            | inr found ↦ inr found
          ])
    | inl same ↦
        let e : rate b ≡ speed = ground (arith, same) in
        elim (Bool-cases (accepted (flush ∷ set_both b ∷ []))) [
          | inr refused ↦ rw (set_speed_loop, same, refused) (inr (b, [], refl, e, tt))
          | inl done ↦
              let (rest, written, all) = loop-append bauds (flush ∷ set_both b ∷ flush ∷ []) in
              rw (set_speed_loop, same, done) (inr (b, flush ∷ rest, written, e, (tt, all)))
        ]
  ]

-- Whatever `tcsetattr` answers: `set_speed` makes no call for a speed that no constant of the table
-- stands for; for any other it clears the line and sets this speed, and it sets no other after it.
pub set_speed-rate :
    (accepted : List Call → Bool) (speed : ℕ)
    → (All (λ b. rate b ≢ speed) speed_arr × (set_speed accepted speed ≡ []))
      ⊎ ((b : Baud) × (rest : List Call) × (set_speed accepted speed ≡ flush ∷ set_both b ∷ rest)
          × (rate b ≡ speed)
          × All (Sets speed) rest)
unfolding set_speed
set_speed-rate accepted speed = loop-Outcome accepted speed speed_arr
