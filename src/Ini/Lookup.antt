-- ===== src/Ini/Lookup.antt =====
-- `GetIniInfo` on the nodes of a file.
use left_my_codes.Base.{
  All-imp, ℕ, suc, ◌≤◌, ◌≡◌, refl, inl, inr, Option, none, some, List, [], ◌∷◌, ◌++◌, append_assoc,
  arith, leb, if◌then◌else◌, Bool-cases, length, drop, All, length-append, Bytes, overwrite,
  overwrite-start, equal,
}
use left_my_codes.Errors.{left_success, left_error_len, left_error_iniinfo_nofound}
use left_my_codes.Ini.{IniInfo, head_info, find_info, get_ini_info, analysis_ini_file}
use left_my_codes.Ini.Lines.{Line, entry, other, IsLine, print_cut-plain}
use left_my_codes.Ini.Analysis.{ini_text, nodes, analysis_ini_file-nodes}

-- The value in the first line with this key.
abbrev pub lookup : Bytes → List Line → Option Bytes
lookup key [] = none
lookup key (entry k v ∷ ls) = let rest = lookup key ls in if equal k key then some v else rest
lookup key (other s ∷ ls) = lookup key ls

-- The answer to a search that found this value, or none.
abbrev pub answer : Option Bytes → Bytes → ℕ → ℕ × Option Bytes
answer none buf len = (left_error_iniinfo_nofound, some buf)
answer (some v) buf len =
    if leb len (length v)
    then (left_error_len, some buf)
    else (left_success, some (v ++ 0 ∷ drop (suc (length v)) buf))

find_info-nodes :
    (key buf : Bytes) (len : ℕ) (ls : List Line)
    → len ≤ length buf
    → All IsLine ls
    → find_info key buf len (nodes ls) ≡ some (answer (lookup key ls) buf len)
unfolding find_info
find_info-nodes key buf len [] room h = refl
find_info-nodes key buf len (other s ∷ ls) room h = find_info-nodes key buf len ls room h.1
find_info-nodes key buf len (entry k v ∷ ls) room h = elim (Bool-cases (equal k key)) [
  | inr differ ↦ rw differ (find_info-nodes key buf len ls room h.1)
  | inl same ↦ elim (Bool-cases (leb len (length v))) [
    | inl short ↦ rw (same, short)
    | inr fits ↦
        let printed = print_cut-plain len v (All-imp v (λ c p. p.2) h.0.1) (ground arith) in
        let text = v ++ 0 ∷ [] in
        let l : length text ≡ suc (length v) = omega (arith, length-append v (0 ∷ [])) in
        let written : overwrite buf 0 text ≡ some (v ++ 0 ∷ drop (suc (length v)) buf) =
          rw l at (simp append_assoc at (overwrite-start buf text (ground (arith, l)))) in
        rw (same, fits, printed, written)
  ]
]

-- `GetIniInfo` after `AnalysisIniFile`, for a file of lines as there: the value in the first line
-- with the key and a NUL at the front of the array, `LEFT_ERROR_LEN` if there is no room for them
-- in `ValueLen`, `LEFT_ERROR_INIINFO_NOFOUND` if no line has the key, and the array unchanged for
-- an error.
pub get_ini_info-analysis_ini_file :
    (ls : List Line) (old : List IniInfo) (key buf : Bytes) (len : ℕ)
    → All IsLine ls
    → len ≤ length buf
    → (list : List IniInfo) × (analysis_ini_file (some (some (ini_text ls))) (some old)
        ≡ some (0, some list))
      × (get_ini_info (some key) (some buf) len list ≡ some (answer (lookup key ls) buf len))
unfolding get_ini_info find_info
get_ini_info-analysis_ini_file ls old key buf len h room =
    (head_info ∷ nodes ls, analysis_ini_file-nodes ls old h, find_info-nodes key buf len ls room h)
