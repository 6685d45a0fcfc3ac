-- ===== src/Windows/Proc/Tests.antt =====
-- Runs of `ExWinProc` and `DefHandDropFiles`.
use Prim.Native.String.{String}
use left_my_codes.Base.{
  ℕ, ◌+◌, ◌*◌, ◌≡◌, refl, some, List, [], ◌∷◌, ◌++◌, replicate, Bytes, store, ℤ, pos, codes,
}
use left_my_codes.Windows.Proc.{painted, fill_loop, paint, name_of, ex_win_proc}

abbrev number : Bytes → ℕ
number [] = 0
number (c ∷ s) = c + 128 * number s

abbrev value : String → ℕ
value label = number (codes label)

abbrev no_answer : ℕ → ℤ
no_answer n = pos 0

abbrev two_names : List Bytes
two_names = codes "a.txt" ∷ codes "b" ∷ []

painted_square :
    ex_win_proc value no_answer no_answer 2 3 (λ i. 9) [] [] (value "WM_PAINT")
    ≡ some (
      pos 0,
      name_of value no_answer (value "WM_PAINT") ++ painted (replicate 6 0xFF4040) 24 ∷ [],
    )
unfolding ex_win_proc paint fill_loop store
painted_square = refl
