-- ===== src/Orders/Pieces.antt =====
-- The orders of a text, told without the code: the pieces between the signs that are not empty.
use left_my_codes.Base.{
  ℕ, ◌≡◌, refl, ◌≢◌, inl, inr, false, List, [], ◌∷◌, ◌++◌, arith, ◌==◌, if◌then◌else◌, Bool-cases,
  All, Bytes, IsText,
}

-- The character in front of the first of some pieces.
abbrev pub grow : ℕ → List Bytes → List Bytes
grow c [] = (c ∷ []) ∷ []
grow c (w ∷ ws) = (c ∷ w) ∷ ws

-- The pieces between the signs, with empty ones.
abbrev pub pieces : ℕ → Bytes → List Bytes
pieces sign [] = [] ∷ []
pieces sign (c ∷ s) = let rest = pieces sign s in if c == sign then [] ∷ rest else grow c rest

abbrev pub nonempty : List Bytes → List Bytes
nonempty [] = []
nonempty ([] ∷ ws) = nonempty ws
nonempty ((c ∷ w) ∷ ws) = (c ∷ w) ∷ nonempty ws

abbrev pub words : ℕ → Bytes → List Bytes
words sign s = nonempty (pieces sign s)

-- The words, each with a sign behind it.
abbrev pub signed : ℕ → List Bytes → Bytes
signed sign [] = []
signed sign (w ∷ ws) = w ++ sign ∷ signed sign ws

-- A word of an order: some characters, none of them a sign or a NUL.
abbrev pub IsWord : ℕ → Bytes → Type 0
IsWord sign w = (w ≢ []) × All (λ c. (c ≢ sign) × (c ≢ 0)) w

pieces_cons : (sign : ℕ) (s : Bytes) → (w : Bytes) × (ws : List Bytes) × (pieces sign s ≡ w ∷ ws)
pieces_cons sign [] = ([], [], refl)
pieces_cons sign (c ∷ s) =
    let (w, ws, e) = pieces_cons sign s in
    elim (Bool-cases (c == sign)) [
      | inl here ↦ ([], w ∷ ws, rw (here, e))
      | inr there ↦ (c ∷ w, ws, rw (there, e))
    ]

-- A character before a piece that is not empty.
pub signed-grow :
    (sign c d : ℕ) (s : Bytes)
    → (d == sign) ≡ false
    → signed sign (nonempty (grow c (pieces sign (d ∷ s)))) ≡ c ∷ signed sign (words sign (d ∷ s))
signed-grow sign c d s e = let (w, ws, e') = pieces_cons sign s in rw (e, e')

pieces-IsWord :
    (sign : ℕ) (s : Bytes) → IsText s → All (All (λ c. (c ≢ sign) × (c ≢ 0))) (pieces sign s)
pieces-IsWord sign [] h = (tt, tt)
pieces-IsWord sign (c ∷ s) h =
    let (w, ws, e) = pieces_cons sign s in
    let rest = rw e at (pieces-IsWord sign s h.1) in
    elim (Bool-cases (c == sign)) [
      | inl here ↦ rw (here, e) ((tt, rest))
      | inr there ↦ rw (there, e) ((((ground arith, h.0), rest.0), rest.1))
    ]

nonempty-IsWord :
    (sign : ℕ) (ws : List Bytes)
    → All (All (λ c. (c ≢ sign) × (c ≢ 0))) ws
    → All (IsWord sign) (nonempty ws)
nonempty-IsWord sign [] h = tt
nonempty-IsWord sign ([] ∷ ws) h = nonempty-IsWord sign ws h.1
nonempty-IsWord sign ((c ∷ w) ∷ ws) h = ((λ e. cc, h.0), nonempty-IsWord sign ws h.1)

pub words-IsWord : (sign : ℕ) (s : Bytes) → IsText s → All (IsWord sign) (words sign s)
words-IsWord sign s h = nonempty-IsWord sign (pieces sign s) (pieces-IsWord sign s h)
