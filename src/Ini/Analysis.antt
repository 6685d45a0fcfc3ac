-- ===== src/Ini/Analysis.antt =====
-- `AnalysisIniFile` on a file of lines.
use left_my_codes.Base.{
  ℕ, zero, suc, ◌≤◌, ◌<◌, ◌≡◌, refl, sym, Option, some, List, [], ◌∷◌, ◌++◌, append_assoc,
  append-nil, arith, length, All, length-append, Bytes, c_str-append,
}
use left_my_codes.Ini.{
  IniInfo, head_info, append_node, move_to_node, ini_loop, analysis, analysis_ini_file,
  analysis_ini_file_1_3_1,
}
use left_my_codes.Ini.Lines.{
  Line, entry, other, line_text, IsLine, info, line_node, getline-append, ini_node-line,
  line-IsText, line-whole, line-room, getline-nil,
}

-- A file of lines, each with its end.
abbrev pub ini_text : List Line → Bytes
ini_text [] = []
ini_text (l ∷ ls) = line_text l ++ 10 ∷ ini_text ls

-- The nodes of the lines with a key, in their order.
abbrev pub nodes : List Line → List IniInfo
nodes [] = []
nodes (entry k v ∷ ls) = info k v ∷ nodes ls
nodes (other s ∷ ls) = nodes ls

-- The last of them, or the head if there is none.
abbrev pub last_node : IniInfo → List IniInfo → IniInfo
last_node head [] = head
last_node head (n ∷ ns) = last_node n ns

module _ (link : List IniInfo → Option IniInfo → List IniInfo) where
  abbrev linked : List IniInfo → List Line → List IniInfo
  linked list [] = list
  linked list (l ∷ ls) = linked (link list (line_node l)) ls

  loop-linked :
      (fuel : ℕ) (ls : List Line) (list : List IniInfo)
      → length ls < fuel
      → All IsLine ls
      → ini_loop link fuel (ini_text ls) list ≡ some (linked list ls)
  unfolding ini_loop
  loop-linked zero ls list enough h = absurd (omega arith)
  loop-linked (suc fuel) [] list enough h = rw (ini_loop, getline-nil)
  loop-linked (suc fuel) (l ∷ ls) list enough h =
      let room : length (line_text l) ≤ 126 = line-room l h.0 in
      rw
        (
          ini_loop,
          getline-append (line_text l) (ini_text ls) (line-whole l h.0) room,
          c_str-append (line_text l) [] (line-IsText l h.0),
          ini_node-line l h.0,
        )
        (loop-linked fuel ls (link list (line_node l)) (omega arith) h.1)

linked-append :
    (list : List IniInfo) (ls : List Line) → linked append_node list ls ≡ list ++ nodes ls
linked-append list [] = sym (append-nil list)
linked-append list (entry k v ∷ ls) =
    simp append_assoc at (linked-append (list ++ info k v ∷ []) ls)
linked-append list (other s ∷ ls) = linked-append list ls

linked-move :
    (n : IniInfo) (ls : List Line) → linked move_to_node (n ∷ []) ls ≡ last_node n (nodes ls) ∷ []
linked-move n [] = refl
linked-move n (entry k v ∷ ls) = linked-move (info k v) ls
linked-move n (other s ∷ ls) = linked-move n ls

lines_fit : (ls : List Line) → length ls ≤ length (ini_text ls)
lines_fit [] = omega arith
lines_fit (l ∷ ls) = omega (arith, lines_fit ls, length-append (line_text l) (10 ∷ ini_text ls))

-- For every file of lines of at most 126 characters, each with its end and with no character that
-- `snprintf` would take for a conversion, `AnalysisIniFile` succeeds, and `*InfoHead` is the empty
-- head and behind it a node for each line that has a sign of equality, in their order: the key is
-- what stands before the first sign of equality, the value what stands behind it.
pub analysis_ini_file-nodes :
    (ls : List Line) (old : List IniInfo)
    → All IsLine ls
    → analysis_ini_file (some (some (ini_text ls))) (some old)
      ≡ some (0, some (head_info ∷ nodes ls))
unfolding analysis
analysis_ini_file-nodes ls old h = rw (
  loop-linked append_node (suc (length (ini_text ls))) ls (head_info ∷ [])
      (omega (arith, lines_fit ls)) h,
  linked-append (head_info ∷ []) ls,
)

-- For the same file the copies of `AnalysisIniFile` leave `*InfoHead` at the last node: the nodes
-- before it can no longer be reached from it.
pub analysis_ini_file_1_3_1-last_node :
    (ls : List Line) (old : List IniInfo)
    → All IsLine ls
    → analysis_ini_file_1_3_1 (some (some (ini_text ls))) (some old)
      ≡ some (0, some (last_node head_info (nodes ls) ∷ []))
unfolding analysis
analysis_ini_file_1_3_1-last_node ls old h = rw (
  loop-linked move_to_node (suc (length (ini_text ls))) ls (head_info ∷ [])
      (omega (arith, lines_fit ls)) h,
  linked-move head_info ls,
)
