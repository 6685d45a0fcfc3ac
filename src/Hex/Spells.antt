-- ===== src/Hex/Spells.antt =====
-- `StrToHex`: the texts that it accepts.
use left_my_codes.Base.{
  ℕ, suc, ◌+◌, ◌-◌, ◌*◌, ◌%◌, ◌≤◌, ◌<◌, ◌≡◌, refl, sym, ap, ◌∙◌, ◌≢◌, ◌⊎◌, inl, inr, true, false,
  ◌&&◌, none, some, [], ◌∷◌, ◌++◌, arith, leb, Bool-cases, length, Bytes, read, List-cases,
}
use mathlib.Core.Path.{subst}
use left_my_codes.Hex.{high_value, low_value, str_to_hex}
use left_my_codes.Hex.Parse.{
  Reads, nil as nothing, pair, str_to_hex-Reads, str_to_hex_rejects_unread,
}

-- A character is the hexadecimal digit of a value: `0` to `9`, `a` to `f` or `A` to `F`.
abbrev pub IsDigit : ℕ → ℕ → Type 0
IsDigit c v =
    ((v < 10) × (c ≡ b'0' + v))
    ⊎ ((10 ≤ v) × (v < 16) × (c + 10 ≡ b'a' + v))
    ⊎ ((10 ≤ v) × (v < 16) × (c + 10 ≡ b'A' + v))

-- The text has two digits for each of the bytes, the higher one first.
pub data Spells : Bytes → Bytes → Type 0 where
  nil : Spells [] []
  two_digits :
      {c d v w : ℕ} {s bs : Bytes}
      → IsDigit c v
      → IsDigit d w
      → Spells s bs
      → Spells (c ∷ d ∷ s) ((v * 16 + w) ∷ bs)

high_value-IsDigit : (c v : ℕ) → IsDigit c v → high_value c ≡ some (v * 16)
unfolding high_value
high_value-IsDigit c v (inl (small, e)) = ground arith
high_value-IsDigit c v (inr (inl (big, small, e))) = ground arith
high_value-IsDigit c v (inr (inr (big, small, e))) = ground arith

low_value-IsDigit : (c v : ℕ) → IsDigit c v → low_value c ≡ some v
unfolding low_value
low_value-IsDigit c v (inl (small, e)) = ground arith
low_value-IsDigit c v (inr (inl (big, small, e))) = ground arith
low_value-IsDigit c v (inr (inr (big, small, e))) = ground arith

-- Any other character has no value in the code.
IsDigit-cases : (c : ℕ) → ((v : ℕ) × IsDigit c v) ⊎ ((high_value c ≡ none) × (low_value c ≡ none))
unfolding high_value low_value
IsDigit-cases c = elim (Bool-cases (leb b'0' c && leb c b'9')) [
  | inl here ↦ inl (c - b'0', inl (ground (arith, here), ground (arith, here)))
  | inr other ↦ elim (Bool-cases (leb b'A' c && leb c b'F')) [
    | inl here ↦ inl (
      c + 10 - b'A',
      inr (inr (ground (arith, here), ground (arith, here), ground (arith, here))),
    )
    | inr other' ↦ elim (Bool-cases (leb b'a' c && leb c b'f')) [
      | inl here ↦ inl (
        c + 10 - b'a',
        inr (inl (ground (arith, here), ground (arith, here), ground (arith, here))),
      )
      | inr other'' ↦ inr (rw (other, other', other'') refl, rw (other, other', other'') refl)
    ]
  ]
]

IsDigit-lt : (c v : ℕ) → IsDigit c v → v < 16
IsDigit-lt c v h = ground (arith, h)

Spells-Reads : {s bs : Bytes} → Spells s bs → Reads s bs
Spells-Reads nil = nothing
Spells-Reads (two_digits {c} {d} {v} {w} {s} {bs} high low p) =
    let small : (v * 16 + w) % 256 ≡ v * 16 + w =
      omega (arith, IsDigit-lt c v high, IsDigit-lt d w low) in
    subst (λ b. Reads (c ∷ d ∷ s) (b ∷ bs)) small
      (pair (high_value-IsDigit c v high) (low_value-IsDigit d w low) (Spells-Reads p))

-- What the code reads is spelled by the text.
Reads-Spells : {s bs : Bytes} → Reads s bs → (cs : Bytes) × Spells s cs × (length cs ≡ length bs)
Reads-Spells nothing = ([], nil, refl)
Reads-Spells (pair {c} {d} eh el p) = elim (IsDigit-cases c) [
  | inr (bad, _) ↦ absurd (cc)
  | inl (v, high) ↦ elim (IsDigit-cases d) [
    | inr (_, bad) ↦ absurd (cc)
    | inl (w, low) ↦
        let (cs, q, n) = Reads-Spells p in ((v * 16 + w) ∷ cs, two_digits high low q, ap suc n)
  ]
]

-- With room for the bytes and a NUL, a text of two digits for each of one byte or more, in upper
-- case or in lower case, is accepted: the bytes are at the front of the array and a NUL is at
-- `LenOfAnswer - 1`.
pub str_to_hex-Spells :
    {text bs : Bytes} (answer : Bytes) (len : ℕ)
    → Spells text bs
    → bs ≢ []
    → length bs < len
    → len ≤ length answer
    → (rest : Bytes) × (str_to_hex text answer len ≡ some (true, bs ++ rest))
      × (length (bs ++ rest) ≡ length answer)
      × (read rest (len - 1 - length bs) ≡ some 0)
str_to_hex-Spells answer len p = str_to_hex-Reads answer len (Spells-Reads p)

-- Any other text, one of no bytes, and a length that is too short for the bytes and a NUL give
-- `NULL`. The array is at least as long as that length.
pub str_to_hex_rejects :
    (text answer : Bytes) (len : ℕ)
    → ((bs : Bytes) → Spells text bs → (bs ≡ []) ⊎ (len ≤ length bs))
    → len ≤ length answer
    → (a : Bytes) × (str_to_hex text answer len ≡ some (false, a))
str_to_hex_rejects text answer len bad = str_to_hex_rejects_unread text answer len λ bs r.
    let (cs, p, n) = Reads-Spells r in
    elim (bad cs p) [
      | inl none_of ↦
          let empty : length bs ≡ 0 = sym n ∙ ap length none_of in
          inl (elim (List-cases bs) [
            | inl e ↦ e
            | inr (x, xs, e) ↦ absurd (omega (arith, empty, ap length e))
          ])
      | inr short ↦ inr (omega (arith, n))
    ]
