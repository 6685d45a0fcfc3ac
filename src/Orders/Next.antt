-- ===== src/Orders/Next.antt =====
-- `getNextOrder`, on a text that `AddSign` wrote.
use left_my_codes.Base.{
  zeros_append, ℕ, zero, suc, ◌+◌, ◌-◌, ◌≤◌, ◌<◌, ◌≡◌, refl, sym, ap, ◌∙◌, ◌≢◌, inl, inr, true,
  false, Option, none, some, List, [], ◌∷◌, ◌++◌, append_assoc, append-nil, arith, leb, ◌==◌,
  Bool-cases, ◌>>=◌, length, drop, replicate, All, length-append, length-replicate,
  drop-length-append, Bytes, store, clear, slice-append, overwrite-append, store-in, store-back,
  clear-in, clear-replicate, c_str, IsText, c_str-append, starts_with, strstr, some_inj,
}
use mathlib.Core.Path.{subst}
use left_my_codes.Orders.{copy_order, find_last, get_next_order, cut_str, add_sign}
use left_my_codes.Orders.Pieces.{words, signed, IsWord, words-IsWord}
use left_my_codes.Orders.Add.{add_sign-words}

strstr-word :
    (sign : ℕ) (w s : Bytes)
    → All (λ c. (c ≢ sign) × (c ≢ 0)) w
    → strstr (w ++ sign ∷ s) (sign ∷ []) ≡ some (length w)
unfolding strstr starts_with
strstr-word sign [] s h = let same : (sign == sign) ≡ true = ground arith in rw same
strstr-word sign (c ∷ w) s h =
    let other : (c == sign) ≡ false = ground (arith, h.0) in rw (other, strstr-word sign w s h.1)

word-IsText :
    (sign : ℕ) (w s : Bytes) → All (λ c. (c ≢ sign) × (c ≢ 0)) w → IsText s → IsText (w ++ s)
word-IsText sign [] s h g = g
word-IsText sign (c ∷ w) s h g = (h.0.1, word-IsText sign w s h.1 g)

word-IsText' : (sign : ℕ) (w : Bytes) → All (λ c. (c ≢ sign) × (c ≢ 0)) w → IsText w
word-IsText' sign w h = rw append-nil at (word-IsText sign w [] h tt)

zeros_cons : (k : ℕ) (r : Bytes) → 0 < k → (b : Bytes) × (replicate k 0 ++ r ≡ 0 ∷ b)
zeros_cons zero r h = absurd (omega arith)
zeros_cons (suc k) r h = (replicate k 0 ++ r, refl)

copy_order-word :
    (sign len : ℕ) (w s order : Bytes)
    → All (λ c. (c ≢ sign) × (c ≢ 0)) w
    → length w < len
    → len ≤ length order
    → length w + 2 ≤ length order
    → (o : Bytes) × (copy_order (sign ∷ (w ++ s)) order len 0 (some (length w)) ≡ some (true, o, s))
      × (c_str o ≡ some w)
      × (length o ≡ length order)
unfolding copy_order
copy_order-word sign len w s order h short room enough =
    let n = length w in
    let zeros : Bytes = replicate n 0 in
    let l : n ≡ length zeros = sym (length-replicate n 0) in
    let (b, cut) = zeros_cons (len - n) (drop len order) (omega arith) in
    let cleared : clear order len ≡ some (zeros ++ 0 ∷ b) =
      clear-replicate order len room
      ∙ ap some (zeros_append n len (drop len order) (omega arith) ∙ ap (λ t. zeros ++ t) cut) in
    let (_, cleared', same) = clear-in order len room in
    let whole : length (zeros ++ 0 ∷ b) ≡ length order =
      ap length (some_inj (sym cleared ∙ cleared')) ∙ same in
    let (b', stored, same', _) = store-in b 0 0 (omega (arith, length-append zeros (0 ∷ b))) in
    let after : n + 1 ≡ suc n = omega arith in
    let moved : drop (n + 1) (sign ∷ (w ++ s)) ≡ s =
      ap (λ k. drop k (sign ∷ (w ++ s))) after ∙ drop-length-append w s in
    let ended : store (w ++ 0 ∷ b) (n + 1) 0 ≡ some (w ++ 0 ∷ b') =
      simp append_assoc at
        (store-back (w ++ 0 ∷ []) b (n + 1) 0 0 (omega (arith, length-append w (0 ∷ []))) stored) in
    (
      w ++ 0 ∷ b',
      rw (
        cleared,
        slice-append (sign ∷ []) w s 1 n refl refl,
        overwrite-append [] zeros (0 ∷ b) w 0 refl l,
        ended,
        moved,
      ),
      c_str-append w b' (word-IsText' sign w h),
      omega (arith, length-append w (0 ∷ b'), length-append zeros (0 ∷ b)),
    )

-- Between a sign and the next, `getNextOrder` finds a word of the text, copies it with a NUL
-- behind it to `order`, and moves `*buf` on to the sign behind the word. `Len` has to be more than
-- the word's length, and the array at least `Len` and two more than the word's length.
pub get_next_order-word :
    (sign len : ℕ) (w s junk order : Bytes)
    → sign ≢ 0
    → IsWord sign w
    → IsText s
    → length w < len
    → len ≤ length order
    → length w + 2 ≤ length order
    → (o : Bytes) × (get_next_order (sign ∷ (w ++ sign ∷ (s ++ 0 ∷ junk))) order len sign
        ≡ some (true, o, sign ∷ (s ++ 0 ∷ junk)))
      × (c_str o ≡ some w)
      × (length o ≡ length order)
unfolding get_next_order find_last
get_next_order-word sign len [] s junk order real h g short room enough = absurd (h.0 refl)
get_next_order-word sign len (c ∷ w) s junk order real h g short room enough =
    let word : Bytes = c ∷ w in
    let (o, copied, there, same) =
      copy_order-word sign len word (sign ∷ (s ++ 0 ∷ junk)) order h.1 short room enough in
    let text : c_str (word ++ sign ∷ (s ++ 0 ∷ junk)) ≡ some (word ++ sign ∷ s) =
      simp append_assoc at
        (c_str-append (word ++ sign ∷ s) junk (word-IsText sign word (sign ∷ s) h.1 (real, g))) in
    let all_text : c_str (sign ∷ (word ++ sign ∷ (s ++ 0 ∷ junk)))
        ≡ some (sign ∷ (word ++ sign ∷ s)) =
      simp append_assoc at (
        c_str-append (sign ∷ (word ++ sign ∷ s)) junk
          (real, word-IsText sign word (sign ∷ s) h.1 (real, g))) in
    let cut : (sign == 0) ≡ false = ground arith in
    let cut' : cut_str sign ≡ sign ∷ [] = rw cut in
    let more : (c == 0) ≡ false = ground (arith, h.1.0) in
    let long : leb (length (sign ∷ (word ++ sign ∷ s))) 1 ≡ false = ground arith in
    let at_start : strstr (sign ∷ (word ++ sign ∷ s)) (sign ∷ []) ≡ some 0 =
      strstr-word sign [] (word ++ sign ∷ s) tt in
    (
      o,
      rw (all_text, long, cut, at_start, more, text)
          (ap
              (λ p.
                copy_order (sign ∷ (word ++ sign ∷ (s ++ 0 ∷ junk))) order len 0
                  (strstr (word ++ sign ∷ s) p))
              cut'
            ∙ ap (copy_order (sign ∷ (word ++ sign ∷ (s ++ 0 ∷ junk))) order len 0)
                (strstr-word sign word s h.1)
            ∙ copied),
      there,
      same,
    )

-- At the last sign `getNextOrder` returns `NULL` and changes nothing.
get_next_order-end :
    (sign len : ℕ) (junk order : Bytes)
    → sign ≢ 0
    → get_next_order (sign ∷ 0 ∷ junk) order len sign ≡ some (false, order, sign ∷ 0 ∷ junk)
unfolding get_next_order find_last
get_next_order-end sign len junk order real =
    let text : c_str (sign ∷ 0 ∷ junk) ≡ some (sign ∷ []) =
      c_str-append (sign ∷ []) junk (real, tt) in
    let cut : (sign == 0) ≡ false = ground arith in
    elim (Bool-cases (leb len 1)) [
      | inl short ↦ rw (text, short)
      | inr room ↦ rw (text, room, cut, strstr-word sign [] [] tt)
    ]

-- A caller's loop: `getNextOrder` until it returns `NULL`, with the C string that each call leaves
-- in `order`. `fuel` bounds the calls.
unfoldable pub next_orders : ℕ → Bytes → Bytes → ℕ → ℕ → Option (List Bytes)
next_orders zero buf order len sign = none
next_orders (suc fuel) buf order len sign = do
  (found, order, buf) ← get_next_order buf order len sign
  elim found [
    | false ↦ some []
    | true ↦ do word ← c_str order; words ← next_orders fuel buf order len sign; some (word ∷ words)
  ]

signed-IsText :
    (sign : ℕ) (ws : List Bytes) → sign ≢ 0 → All (IsWord sign) ws → IsText (signed sign ws)
signed-IsText sign [] real h = tt
signed-IsText sign (w ∷ ws) real h =
    word-IsText sign w (sign ∷ signed sign ws) h.0.1 (real, signed-IsText sign ws real h.1)

next_orders-signed :
    (sign len : ℕ) (ws : List Bytes) (junk order : Bytes)
    → sign ≢ 0
    → All (IsWord sign) ws
    → All (λ w. (length w < len) × (length w + 2 ≤ length order)) ws
    → len ≤ length order
    → next_orders (suc (length ws)) (sign ∷ (signed sign ws ++ 0 ∷ junk)) order len sign ≡ some ws
unfolding next_orders
next_orders-signed sign len [] junk order real h fits room =
    rw (get_next_order-end sign len junk order real)
next_orders-signed sign len (w ∷ ws) junk order real h fits room =
    let (o, got, word, same) =
      get_next_order-word sign len w (signed sign ws) junk order real h.0
        (signed-IsText sign ws real h.1) fits.0.0 room fits.0.1 in
    let rest =
      next_orders-signed sign len ws junk o real h.1
        (subst (λ n. All (λ w. (length w < len) × (length w + 2 ≤ n)) ws) (sym same) fits.1)
        (omega (arith, same)) in
    let at_word : get_next_order (sign ∷ (signed sign (w ∷ ws) ++ 0 ∷ junk)) order len sign
        ≡ some (true, o, sign ∷ (signed sign ws ++ 0 ∷ junk)) =
      simp append_assoc got in
    rw (at_word, word, rest)

-- The round trip: the orders that a caller takes from what `AddSign` wrote are the words of the
-- text, all of them and in their order. `Len` is more than the longest word's length, and `order`
-- has `Len` characters and one more than the longest word and its NUL.
pub next_orders-add_sign :
    (sign len : ℕ) (text junk buff order : Bytes)
    → sign ≢ 0
    → IsText text
    → length text + 3 ≤ length buff
    → All (λ w. (length w < len) × (length w + 2 ≤ length order)) (words sign text)
    → len ≤ length order
    → (out : Bytes) × (add_sign (some (text ++ 0 ∷ junk)) (some buff) sign ≡ some (0, some out))
      × (next_orders (suc (length (words sign text))) out order len sign ≡ some (words sign text))
next_orders-add_sign sign len text junk buff order real h room fits enough =
    let (rest, written, _) = add_sign-words sign text junk buff real h room in
    (
      sign ∷ (signed sign (words sign text) ++ 0 ∷ rest),
      written,
      next_orders-signed sign len (words sign text) rest order real (words-IsWord sign text h) fits
          enough,
    )
