-- ===== src/Hash/Tests.antt =====
-- Runs of the hashes.
use left_my_codes.Base.{◌≡◌, ◌≢◌, ◌∷◌, ◌++◌, arith, Bytes, IsBytes, codes}
use left_my_codes.Hash.{hash_, literal_hash}
use left_my_codes.Hash.Agree.{hash-literal_hash, hash-change}

hash-literal_hash_example : hash_ (codes "start") ≡ literal_hash (codes "start")
hash-literal_hash_example = hash-literal_hash (codes "start")

abbrev rt : Bytes
rt = codes "rt"

rt-IsBytes : IsBytes rt
rt-IsBytes = (omega arith, (omega arith, tt))

hash-change_example : hash_ (codes "st" ++ 97 ∷ rt) ≢ hash_ (codes "st" ++ 98 ∷ rt)
hash-change_example =
    hash-change (codes "st") rt 97 98 rt-IsBytes (omega arith) (omega arith) (omega arith)
