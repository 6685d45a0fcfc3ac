-- ===== src/Ini.antt =====
-- The ini files of LeftMyCodes/src/MyCodes.cpp: `AnalysisIniFile`, also as the copies in
-- CompleteConfidence/include/LeftMyCodes and LeftComSupt/include/LeftMyCodes have it, and
-- `GetIniInfo`. A pointer to a node is the list of the nodes from there on, [] for `NULL`. What is
-- printed to `std::cout` is left out.
pub mod Lines
pub mod Analysis
pub mod Lookup
pub mod Free
mod Tests
use left_my_codes.Errors.{
  left_success, left_error_len, left_error_argvs, left_error_io_fileopen,
  left_error_iniinfo_nofound, max_ini_info_len,
}
use left_my_codes.Base.{
  ℕ, zero, suc, ◌+◌, ◌-◌, Bool, false, Option, none, some, List, [], ◌∷◌, ◌++◌, leb, ◌==◌,
  if◌then◌else◌, ◌>>=◌, ◌>>◌, length, take, drop, Bytes, overwrite, codes, c_str, equal, strstr,
  print_plain,
}

pub record IniInfo : Type 0 where
  pub key : Option Bytes
  pub value : Option Bytes

-- The head of a list, cleared by `memset`
abbrev pub head_info : IniInfo
head_info = record { key = none; value = none }

-- `std::istream::getline` with room for `n` characters: those up to the end of the line, and what
-- is behind it; `none` if it fails, which a longer line and the end of the file make it do.
unfoldable pub read_line : ℕ → Bytes → Option (Bytes × Bytes)
read_line n [] = some ([], [])
read_line zero (c ∷ s) = if c == 10 then some ([], s) else none
read_line (suc n) (c ∷ s) =
    let rest = read_line n s in
    if c == 10 then some ([], s) else do (line, behind) ← rest; some (c ∷ line, behind)

unfoldable pub getline : Bytes → ℕ → Option (Bytes × Bytes)
unfolding read_line
getline [] size = none
getline (c ∷ s) size = read_line (size - 1) (c ∷ s)

-- The text that `snprintf` leaves for a format with no argument behind it.
unfoldable pub print_cut : ℕ → Bytes → Option Bytes
print_cut size format = do text ← print_plain format; some (take (size - 1) text)

-- The body of the loop for the C string `words`: the new node, `none` if it has no sign of equality.
unfoldable pub ini_node : Bytes → Option ℕ → Option (Option IniInfo)
unfolding print_cut
ini_node words none = some none
ini_node words (some cut) = do
  key ← print_cut (length (take cut words) + 1) (take cut words)
  value ← print_cut (length (drop (cut + 1) words) + 1) (drop (cut + 1) words)
  some (some (record { key = some key; value = some value }))

-- A new node behind the last one: `fake->Next = p; … fake = fake->Next;`
abbrev pub append_node : List IniInfo → Option IniInfo → List IniInfo
append_node list none = list
append_node list (some p) = list ++ p ∷ []

-- The copies' `(*InfoHead)->Next = p; … *InfoHead = (*InfoHead)->Next;`
abbrev pub move_to_node : List IniInfo → Option IniInfo → List IniInfo
move_to_node list none = list
move_to_node list (some p) = p ∷ []

-- `while (ini.getline(words, sizeof(words) - 1))`, with `fuel` for the rounds.
module _ (link : List IniInfo → Option IniInfo → List IniInfo) where
  unfoldable pub ini_loop : ℕ → Bytes → List IniInfo → Option (List IniInfo)
  ini_loop zero ini list = none
  ini_loop (suc fuel) ini list = elim (getline ini (max_ini_info_len - 1)) [
    | none ↦ some list
    | some (line, ini) ↦ do
      words ← c_str (line ++ 0 ∷ [])
      p ← ini_node words (strstr words (codes "="))
      ini_loop fuel ini (link list p)
  ]

  -- `path` is what opening the file gives, with `none` for a `NULL` path; `info_head` is what
  -- `*InfoHead` points to, `none` for a `NULL` pointer. A round of the loop reads a character.
  unfoldable pub analysis :
      Option (Option Bytes) → Option (List IniInfo) → Option (ℕ × Option (List IniInfo))
  unfolding ini_loop
  analysis none info_head = some (left_error_argvs, info_head)
  analysis (some path) none = some (left_error_argvs, none)
  analysis (some none) (some _) = some (left_error_io_fileopen, some (head_info ∷ []))
  analysis (some (some ini)) (some _) = do
    list ← ini_loop (suc (length ini)) ini (head_info ∷ [])
    some (left_success, some list)

abbrev pub analysis_ini_file :
    Option (Option Bytes) → Option (List IniInfo) → Option (ℕ × Option (List IniInfo))
analysis_ini_file = analysis append_node

-- As the copies have it.
abbrev pub analysis_ini_file_1_3_1 :
    Option (Option Bytes) → Option (List IniInfo) → Option (ℕ × Option (List IniInfo))
analysis_ini_file_1_3_1 = analysis move_to_node

abbrev same_key : Option Bytes → Bytes → Bool
same_key none key = false
same_key (some k) key = equal k key

-- The `while` of `GetIniInfo`.
unfoldable pub find_info : Bytes → Bytes → ℕ → List IniInfo → Option (ℕ × Option Bytes)
find_info key value_buf value_len [] = some (left_error_iniinfo_nofound, some value_buf)
find_info key value_buf value_len (info ∷ next) =
    let rest = find_info key value_buf value_len next in
    if same_key info.key key
    then elim info.value [
      | none ↦ rest
      | some value ↦
          if leb value_len (length value) then some (left_error_len, some value_buf) else (do
            text ← print_cut value_len value
            value_buf ← overwrite value_buf 0 (text ++ 0 ∷ [])
            some (left_success, some value_buf))
    ]
    else rest

-- The error number, and the caller's array; `none` for `NULL`. A negative `ValueLen` is as 0.
unfoldable pub get_ini_info :
    Option Bytes → Option Bytes → ℕ → List IniInfo → Option (ℕ × Option Bytes)
unfolding find_info
get_ini_info none value_buf value_len info_head = some (left_error_argvs, value_buf)
get_ini_info (some key) none value_len info_head = some (left_error_argvs, none)
get_ini_info (some key) (some value_buf) value_len [] = some (left_error_argvs, some value_buf)
get_ini_info (some key) (some value_buf) value_len (info ∷ next) =
    find_info key value_buf value_len (info ∷ next)
