-- ===== src/Hash.antt =====
-- The string hash of LeftMyCodes/src/MyCodes.{h,cpp}: `hash_`, which runs over a C string, and
-- `hash_compile_time`, which the operator `_hash` calls on the labels of a `switch`.
pub mod Agree
mod Tests
use left_my_codes.Base.{ℕ, ◌+◌, ◌-◌, ◌*◌, ◌%◌, ◌^◌, bit_xor, [], ◌∷◌, ltb, if◌then◌else◌, Bytes}

abbrev pub prime : ℕ
prime = 0x100000001B3

abbrev pub basis : ℕ
basis = 0xCBF29CE484222325

-- A `char` as an `unsigned long long`: `char` is signed, so its top bit is copied up.
pub extend : ℕ → ℕ
extend c = if ltb c 128 then c else 2 ^ 64 - 256 + c

-- One round of the loop: `ret ^= *str; ret *= prime;`
pub mix : ℕ → ℕ → ℕ
unfolding extend
mix ret c = bit_xor ret (extend c) * prime % 2 ^ 64

pub hash_loop : ℕ → Bytes → ℕ
hash_loop ret [] = ret
hash_loop ret (c ∷ str) = hash_loop (mix ret c) str

unfoldable pub hash_ : Bytes → ℕ
unfolding hash_loop mix
hash_ str = hash_loop basis str

pub hash_compile_time : Bytes → ℕ → ℕ
unfolding extend
hash_compile_time [] last_value = last_value
hash_compile_time (c ∷ str) last_value =
    hash_compile_time str (bit_xor (extend c) last_value * prime % 2 ^ 64)

-- `operator"" _hash`
unfoldable pub literal_hash : Bytes → ℕ
unfolding hash_compile_time
literal_hash p = hash_compile_time p basis
