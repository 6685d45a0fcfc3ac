-- ===== src/Ini/Tests.antt =====
-- Runs of `AnalysisIniFile` and `GetIniInfo`.
use left_my_codes.Base.{
  if◌then◌else◌, ◌==◌, none, ◌≡◌, refl, some, List, [], ◌∷◌, ◌++◌, arith, replicate, All, Bytes,
  codes, equal, none,
}
use left_my_codes.Ini.{IniInfo, analysis_ini_file, analysis_ini_file_1_3_1, get_ini_info}
use left_my_codes.Ini.Lines.{Line, entry, other, IsLine, info}
use left_my_codes.Ini.Analysis.{ini_text, analysis_ini_file_1_3_1-last_node}
use left_my_codes.Ini.Free.{Heap, text, Maker, one, many, info as info_node, del_ini_info_list}
use left_my_codes.Ini.Free.Cells.{Cell}
use left_my_codes.Ini.Free.Laws.{Outcome, del_ini_info_list-Outcome}
use left_my_codes.Ini.Lookup.{lookup, answer, get_ini_info-analysis_ini_file}

abbrev lines : List Line
lines =
    entry (codes "ip") (codes "1=2") ∷ other (codes "[]") ∷ entry (codes "port") (codes "80") ∷ []

abbrev room : Bytes
room = replicate 6 9

lines-IsLine : All IsLine lines
lines-IsLine = ground arith

lines_text : ini_text lines ≡ codes "ip=1=2\n[]\nport=80\n"
lines_text = refl

analysis_ini_file_1_3_1-last_node_example :
    analysis_ini_file_1_3_1 (some (some (codes "ip=1=2\n[]\nport=80\n"))) (some [])
    ≡ some (0, some (info (codes "port") (codes "80") ∷ []))
analysis_ini_file_1_3_1-last_node_example = analysis_ini_file_1_3_1-last_node lines [] lines-IsLine

get_ini_info-analysis_ini_file_example :
    (list : List IniInfo) × (analysis_ini_file (some (some (ini_text lines))) (some [])
      ≡ some (0, some list))
    × (get_ini_info (some (codes "ip")) (some room) 6 list
        ≡ some (answer (lookup (codes "ip") lines) room 6))
get_ini_info-analysis_ini_file_example =
    get_ini_info-analysis_ini_file lines [] (codes "ip") room 6 lines-IsLine (omega arith)

found : answer (lookup (codes "ip") lines) room 6 ≡ (0, some (codes "1=2" ++ 0 ∷ 9 ∷ 9 ∷ []))
unfolding equal
found = refl

-- The head, which has neither a key nor a value, and a node.
abbrev two_infos : Maker → Heap
two_infos made p =
    if p == 10
    then some (info_node made (some 20) none none)
    else if p == 20
    then some (info_node made none (some 30) (some 40))
    else if p == 30
    then some (text (codes "ip"))
    else if p == 40
    then some (text (codes "1"))
    else if p == 50
    then some (text (codes "other"))
    else none

abbrev two_cells : List Cell
two_cells = (10, none, none) ∷ (20, some 30, some 40) ∷ []

fault_of_one : Outcome one (two_infos one) two_cells (del_ini_info_list 2 (some 10) (two_infos one))
fault_of_one =
    del_ini_info_list-Outcome one 2 (two_infos one) (10, none, none) ((20, some 30, some 40) ∷ [])
      (omega arith) (refl, tt, tt, tt, tt, refl, (refl, (_, refl), (_, refl), refl, refl, refl, tt))

del_ini_info_list-Outcome_example :
    Outcome many (two_infos many) two_cells (del_ini_info_list 2 (some 10) (two_infos many))
del_ini_info_list-Outcome_example =
    del_ini_info_list-Outcome many 2 (two_infos many) (10, none, none) ((20, some 30, some 40) ∷ [])
      (omega arith) (refl, tt, tt, tt, tt, refl, (refl, (_, refl), (_, refl), refl, refl, refl, tt))
