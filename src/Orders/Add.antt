-- ===== src/Orders/Add.antt =====
-- `AddSign`: what it writes.
use left_my_codes.Base.{
  ℕ, suc, ◌+◌, ◌-◌, ◌≤◌, ◌≡◌, refl, sym, ap, ◌∙◌, ◌≢◌, inl, inr, true, false, ◌&&◌, some, [], ◌∷◌,
  ◌++◌, append_assoc, arith, ◌==◌, if◌then◌else◌, Bool-cases, ◌>>=◌, length, drop, length-append,
  length-drop, Bytes, store, store-append, read-append, store-back, c_str, IsText, c_str-append,
  >>=-eq-some,
}
use left_my_codes.Orders.{add_sign_loop, add_first_sign, add_last_sign, add_sign}
use left_my_codes.Orders.Pieces.{words, signed, signed-grow}

-- A text with each row of signs cut to one, and one at its end.
abbrev pub squeezed : ℕ → Bytes → Bytes
squeezed sign [] = []
squeezed sign (c ∷ []) = if c == sign then c ∷ [] else c ∷ sign ∷ []
squeezed sign (c ∷ d ∷ s) =
    let rest = squeezed sign (d ∷ s) in if d == sign && c == sign then rest else c ∷ rest

module _ (sign : ℕ) where
  -- The words of a text behind a sign, and of one that begins with another character.
  squeezed-signed :
      (s : Bytes)
      → (squeezed sign (sign ∷ s) ≡ sign ∷ signed sign (words sign s))
        × ((c : ℕ) → (c == sign) ≡ false → squeezed sign (c ∷ s) ≡ signed sign (words sign (c ∷ s)))
  squeezed-signed [] = let same : (sign == sign) ≡ true = ground arith in (rw same, λ c e. rw e)
  squeezed-signed (d ∷ s) =
      let same : (sign == sign) ≡ true = ground arith in
      let (behind, begun) = squeezed-signed s in
      elim (Bool-cases (d == sign)) [
        | inl here ↦
            let e : d ≡ sign = ground (arith, here) in
            (
              rw (here, same) (ap (λ x. squeezed sign (x ∷ s)) e ∙ behind),
              λ c other. rw (other, here) (ap (◌∷◌ c) (ap (λ x. squeezed sign (x ∷ s)) e ∙ behind)),
            )
        | inr there ↦
            let word = rw there at (begun d there) in
            (
              rw there (ap (◌∷◌ sign) word),
              λ c other.
                  rw (there, other)
                    (ap (◌∷◌ c) word ∙ sym (rw there at (signed-grow sign c d s there))),
            )
      ]

  length-squeezed : (s : Bytes) → length (squeezed sign s) ≤ length s + 1
  length-squeezed [] = omega arith
  length-squeezed (c ∷ []) = ground arith
  length-squeezed (c ∷ d ∷ s) = ground (arith, length-squeezed (d ∷ s))

  -- The loop and the lines behind it, from the characters `s` on, with `front` written.
  loop-squeezed :
      (c : ℕ) (s front back : Bytes) (j first_len : ℕ)
      → j ≡ length front
      → first_len ≡ length front + suc (length s)
      → length s + 3 ≤ length back
      → (do
        (first_len, buff) ← add_sign_loop sign (c ∷ s) j first_len (front ++ back)
        add_last_sign sign first_len buff)
        ≡ (let out = squeezed sign (c ∷ s) in
            some (front ++ (out ++ 0 ∷ drop (suc (length out)) back)))
  unfolding add_sign_loop add_last_sign store
  loop-squeezed c s front [] j first_len ej en room = absurd (omega arith)
  loop-squeezed c s front (x ∷ []) j first_len ej en room = absurd (omega arith)
  loop-squeezed c s front (x ∷ y ∷ []) j first_len ej en room = absurd (omega arith)
  loop-squeezed c [] front (x ∷ y ∷ z ∷ back) j first_len ej en room =
      let n = length front in
      let len : first_len ≡ suc n = omega arith in
      let written = store-append front x (y ∷ z ∷ back) j c ej in
      let there = read-append front c (y ∷ z ∷ back) n refl in
      elim (Bool-cases (c == sign)) [
        | inl here ↦
            let ended : store (front ++ c ∷ y ∷ z ∷ back) (suc n) 0
                ≡ some (front ++ c ∷ 0 ∷ z ∷ back) =
              store-back front (c ∷ y ∷ z ∷ back) (suc n) 1 0 (omega arith) refl in
            rw (written, len, there, here, ended)
        | inr other ↦
            let signed : store (front ++ c ∷ y ∷ z ∷ back) (suc n) sign
                ≡ some (front ++ c ∷ sign ∷ z ∷ back) =
              store-back front (c ∷ y ∷ z ∷ back) (suc n) 1 sign (omega arith) refl in
            let ended : store (front ++ c ∷ sign ∷ z ∷ back) (suc n + 1) 0
                ≡ some (front ++ c ∷ sign ∷ 0 ∷ back) =
              store-back front (c ∷ sign ∷ z ∷ back) (suc n + 1) 2 0 (omega arith) refl in
            rw (written, len, there, other, signed, ended)
      ]
  loop-squeezed c (d ∷ s) front (x ∷ y ∷ z ∷ back) j first_len ej en room =
      elim (Bool-cases (d == sign && c == sign)) [
        | inl skip ↦ rw skip (
            loop-squeezed d s front (x ∷ y ∷ z ∷ back) j (first_len - 1) ej (omega arith)
              (omega arith))
        | inr keep ↦
            let rest =
              loop-squeezed d s (front ++ c ∷ []) (y ∷ z ∷ back) (j + 1) first_len
                (omega (arith, length-append front (c ∷ [])))
                (omega (arith, length-append front (c ∷ []))) (omega arith) in
            rw (keep, store-append front x (y ∷ z ∷ back) j c ej) (simp append_assoc at rest)
      ]

add_sign_steps :
    (sign : ℕ) (order_buff buff : Bytes) {text b out : Bytes} {j first_len : ℕ}
    → c_str order_buff ≡ some text
    → add_first_sign sign text buff ≡ some (j, first_len, b)
    → (do (first_len, b) ← add_sign_loop sign text j first_len b; add_last_sign sign first_len b)
      ≡ some out
    → add_sign (some order_buff) (some buff) sign ≡ some (0, some out)
unfolding add_sign
add_sign_steps sign order_buff buff {text} {b} {out} {j} {first_len} read_text first written =
    let (a, looped, ended) =
      >>=-eq-some (add_sign_loop sign text j first_len b) (λ a. add_last_sign sign a.0 a.1)
        written in
    rw (read_text, first, looped, ended)

first_sign_missing :
    (sign : ℕ) (text : Bytes) (x : ℕ) (b : Bytes)
    → (elim text [ [] ↦ 0 | c ∷ s ↦ c ] == sign) ≡ false
    → add_first_sign sign text (x ∷ b) ≡ some (1, length text + 1, sign ∷ b)
unfolding add_first_sign store
first_sign_missing sign text x b e = rw e

first_sign_there :
    (sign c : ℕ) (s buff : Bytes)
    → (c == sign) ≡ true
    → add_first_sign sign (c ∷ s) buff ≡ some (0, suc (length s), buff)
unfolding add_first_sign
first_sign_there sign c s buff e = rw e

only_sign :
    (sign y : ℕ) (b : Bytes)
    → (do (first_len, b) ← add_sign_loop sign [] 1 1 (sign ∷ y ∷ b); add_last_sign sign first_len b)
      ≡ some (sign ∷ 0 ∷ b)
unfolding add_sign_loop add_last_sign store
only_sign sign y b = let same : (sign == sign) ≡ true = ground arith in rw same

-- The room that the words need, and what is behind them.
length-written :
    (out b : Bytes)
    → suc (length out) ≤ length b
    → length (out ++ 0 ∷ drop (suc (length out)) b) ≡ length b
length-written out b h =
    omega
      (arith, length-append out (0 ∷ drop (suc (length out)) b), length-drop (suc (length out)) b)

-- With room for it, `AddSign` writes the words of the text, the pieces between signs that are not
-- empty: a sign, then each word with one sign behind it, and a NUL. The array holds the text's
-- length and three characters more.
pub add_sign-words :
    (sign : ℕ) (text junk buff : Bytes)
    → sign ≢ 0
    → IsText text
    → length text + 3 ≤ length buff
    → (rest : Bytes) × (add_sign (some (text ++ 0 ∷ junk)) (some buff) sign
        ≡ some (0, some (sign ∷ signed sign (words sign text) ++ 0 ∷ rest)))
      × (length (sign ∷ signed sign (words sign text) ++ 0 ∷ rest) ≡ length buff)
add_sign-words sign text junk [] real h room = absurd (omega arith)
add_sign-words sign [] junk (x ∷ []) real h room = absurd (omega arith)
add_sign-words sign [] junk (x ∷ y ∷ b) real h room = (
  b,
  add_sign_steps sign (0 ∷ junk) (x ∷ y ∷ b) (c_str-append [] junk tt)
      (first_sign_missing sign [] x (y ∷ b) (ground (arith, real))) (only_sign sign y b),
  refl,
)
add_sign-words sign (c ∷ s) junk (x ∷ b) real h room =
    let read_text = c_str-append (c ∷ s) junk h in
    let l = length-squeezed sign (c ∷ s) in
    let out = squeezed sign (c ∷ s) in
    let (behind, begun) = squeezed-signed sign s in
    elim (Bool-cases (c == sign)) [
      | inl here ↦
          let e : c ≡ sign = ground (arith, here) in
          let words_out : out ≡ sign ∷ signed sign (words sign s) =
            ap (λ c. squeezed sign (c ∷ s)) e ∙ behind in
          let written =
            loop-squeezed sign c s [] (x ∷ b) 0 (suc (length s)) refl (omega arith) (omega arith) in
          let rest = drop (suc (length out)) (x ∷ b) in
          rw here (
            (
              rest,
              add_sign_steps sign (c ∷ (s ++ 0 ∷ junk)) (x ∷ b) read_text
                  (first_sign_there sign c s (x ∷ b) here)
                  (written ∙ ap (λ t. some (t ++ 0 ∷ rest)) words_out),
              ap (λ t. length (t ++ 0 ∷ rest)) (sym words_out)
                  ∙ length-written out (x ∷ b) (omega arith),
            ))
      | inr other ↦
          let words_out : out ≡ signed sign (words sign (c ∷ s)) = begun c other in
          let written =
            loop-squeezed sign c s (sign ∷ []) b 1 (length (c ∷ s) + 1) refl (omega arith)
              (omega arith) in
          let rest = drop (suc (length out)) b in
          (
            rest,
            add_sign_steps sign (c ∷ (s ++ 0 ∷ junk)) (x ∷ b) read_text
                (first_sign_missing sign (c ∷ s) x b other)
                (written ∙ ap (λ t. some (sign ∷ (t ++ 0 ∷ rest))) words_out),
            ap suc (
                ap (λ t. length (t ++ 0 ∷ rest)) (sym words_out)
                ∙ length-written out b (omega arith)),
          )
    ]
