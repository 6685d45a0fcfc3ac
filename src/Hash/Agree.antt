-- ===== src/Hash/Agree.antt =====
-- `hash_` and `hash_compile_time`, against each other and on two strings.
use left_my_codes.Base.{
  ℕ, ◌*◌, ◌%◌, ◌^◌, ◌<◌, bit_xor, ◌≡◌, refl, sym, ap, ◌∙◌, ◌≢◌, [], ◌∷◌, ◌++◌, arith, bit_xor_comm,
  bit_xor-bit_xor, bit_xor-lt, Bytes, IsBytes,
}
use left_my_codes.Hash.{
  prime, basis, extend, mix, hash_loop, hash_, hash_compile_time, literal_hash,
}

loop-compile_time : (str : Bytes) (ret : ℕ) → hash_loop ret str ≡ hash_compile_time str ret
unfolding hash_loop hash_compile_time mix
loop-compile_time [] ret = refl
loop-compile_time (c ∷ str) ret =
    rw (bit_xor_comm ret (extend c))
      (loop-compile_time str (bit_xor (extend c) ret * prime % 2 ^ 64))

-- For every string the loop at run time gives the hash that the operator `_hash` gives at
-- compile time.
pub hash-literal_hash : (str : Bytes) → hash_ str ≡ literal_hash str
unfolding hash_ literal_hash
hash-literal_hash str = loop-compile_time str basis

extend-lt : (c : ℕ) → c < 256 → extend c < 2 ^ 64
unfolding extend
extend-lt c h = ground arith

extend-injective : (c d : ℕ) → c < 256 → d < 256 → extend c ≡ extend d → c ≡ d
unfolding extend
extend-injective c d hc hd e = ground arith

-- `prime` is odd, so multiplication by it can be undone.
prime_cancel : (x : ℕ) → x < 2 ^ 64 → x * prime % 2 ^ 64 * 0xCE965057AFF6957B % 2 ^ 64 ≡ x
prime_cancel x h = omega arith

prime_injective :
    (x y : ℕ) → x < 2 ^ 64 → y < 2 ^ 64 → x * prime % 2 ^ 64 ≡ y * prime % 2 ^ 64 → x ≡ y
prime_injective x y hx hy e =
    sym (prime_cancel x hx) ∙ ap (λ z. z * 0xCE965057AFF6957B % 2 ^ 64) e ∙ prime_cancel y hy

bit_xor_right_injective : (a b c : ℕ) → bit_xor a c ≡ bit_xor b c → a ≡ b
bit_xor_right_injective a b c e =
    sym (bit_xor-bit_xor a c) ∙ ap (λ x. bit_xor x c) e ∙ bit_xor-bit_xor b c

mix-lt : (x c : ℕ) → mix x c < 2 ^ 64
unfolding mix
mix-lt x c = omega arith

mix-xor_eq :
    (x y c d : ℕ)
    → x < 2 ^ 64
    → y < 2 ^ 64
    → c < 256
    → d < 256
    → mix x c ≡ mix y d
    → bit_xor x (extend c) ≡ bit_xor y (extend d)
unfolding mix
mix-xor_eq x y c d hx hy hc hd =
    prime_injective (bit_xor x (extend c)) (bit_xor y (extend d))
      (bit_xor-lt 64 x (extend c) hx (extend-lt c hc))
      (bit_xor-lt 64 y (extend d) hy (extend-lt d hd))

loop-injective :
    (str : Bytes) (x y : ℕ)
    → IsBytes str
    → x < 2 ^ 64
    → y < 2 ^ 64
    → hash_loop x str ≡ hash_loop y str
    → x ≡ y
unfolding hash_loop
loop-injective [] x y h hx hy e = e
loop-injective (c ∷ str) x y h hx hy e = bit_xor_right_injective x y (extend c) (
    mix-xor_eq x y c c hx hy h.0 h.0
      (loop-injective str (mix x c) (mix y c) h.1 (mix-lt x c) (mix-lt y c) e))

loop-change :
    (front str : Bytes) (x c d : ℕ)
    → IsBytes str
    → x < 2 ^ 64
    → c < 256
    → d < 256
    → hash_loop x (front ++ c ∷ str) ≡ hash_loop x (front ++ d ∷ str)
    → c ≡ d
unfolding hash_loop
loop-change [] str x c d h hx hc hd e =
    let mixed = loop-injective str (mix x c) (mix x d) h (mix-lt x c) (mix-lt x d) e in
    let xored = mix-xor_eq x x c d hx hx hc hd mixed in
    extend-injective c d hc hd (
      bit_xor_right_injective (extend c) (extend d) x
        (bit_xor_comm (extend c) x ∙ xored ∙ bit_xor_comm x (extend d)))
loop-change (b ∷ front) str x c d h hx hc hd e =
    loop-change front str (mix x b) c d h (mix-lt x b) hc hd e

-- Two strings that differ in exactly one character have different hashes, whatever stands before
-- it; the characters from there on are bytes.
pub hash-change :
    (front back : Bytes) (c d : ℕ)
    → IsBytes back
    → c < 256
    → d < 256
    → c ≢ d
    → hash_ (front ++ c ∷ back) ≢ hash_ (front ++ d ∷ back)
unfolding hash_
hash-change front back c d h hc hd ne e =
    ne (loop-change front back basis c d h (omega arith) hc hd e)
