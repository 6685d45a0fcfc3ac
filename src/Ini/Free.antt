-- ===== src/Ini/Free.antt =====
-- `DelIniInfoList`, over a heap of nodes and texts. A pointer is `none` for `NULL`; what is freed
-- twice, or read when it is not there, is a fault.
use left_my_codes.Base.{ℕ, zero, suc, Option, none, some, ◌==◌, if◌then◌else◌, ◌>>=◌, ◌>>◌, Bytes}
pub mod Cells
pub mod Laws
use left_my_codes.Errors.{left_success}

abbrev pub Addr : Type 0
Addr = ℕ

-- How a node was made: by `new IniInfo`, as `AnalysisIniFile` does, or by `new IniInfo[...]`.
pub data Maker : Type 0 where
  one many : Maker

-- A text is made by `new char[...]`.
pub data Object : Type 0 where
  text : Bytes → Object
  info : Maker → Option Addr → Option Addr → Option Addr → Object

abbrev pub Heap : Type 0
Heap = Addr → Option Object

unfoldable pub erase : Addr → Heap → Heap
erase a h b = if b == a then none else h b

-- `infoList->Next`, `infoList->Key` and `infoList->Value`
unfoldable pub read_info : Heap → Addr → Option (Option Addr × Option Addr × Option Addr)
read_info h p = elim (h p) [
  | none ↦ none
  | some (text s) ↦ none
  | some (info made next key value) ↦ some (next, key, value)
]

-- `delete[]`, which is undefined for what `new` made, and so a fault.
unfoldable pub free : Addr → Heap → Option Heap
free a h = elim (h a) [
  | none ↦ none
  | some (text s) ↦ some (erase a h)
  | some (info many next key value) ↦ some (erase a h)
  | some (info one next key value) ↦ none
]

-- `if (p) delete[] p;`
unfoldable pub free_if : Option Addr → Heap → Option Heap
free_if none h = some h
free_if (some a) h = free a h

-- The loop from the node `p` on, with fuel for its rounds.
unfoldable pub del_loop : ℕ → Addr → Heap → Option Heap
del_loop zero p h = none
del_loop (suc fuel) p h = do
  (next, key, value) ← read_info h p
  h ← free_if key h
  (next, key, value) ← read_info h p
  h ← free_if value h
  (next, key, value) ← read_info h p
  h ← free p h
  elim next [ none ↦ some h | some q ↦ del_loop fuel q h ]

-- The first read of the loop is behind no test, so `NULL` is a fault.
unfoldable pub del_ini_info_list : ℕ → Option Addr → Heap → Option (ℕ × Heap)
unfolding del_loop
del_ini_info_list fuel none h = none
del_ini_info_list fuel (some p) h = do h ← del_loop fuel p h; some (left_success, h)
