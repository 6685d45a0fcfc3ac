-- ===== src/Ini/Free/Laws.antt =====
-- What `DelIniInfoList` frees.
use left_my_codes.Base.{
  ℕ, zero, suc, ◌≤◌, ◌≡◌, refl, ◌∙◌, Option, none, some, List, [], ◌∷◌, arith, length, ◌>>=◌,
}
use left_my_codes.Errors.{left_success}
use left_my_codes.Ini.Free.{
  Addr, Maker, one, many, info, Heap, erase, read_info, free, del_loop, del_ini_info_list,
}
use left_my_codes.Ini.Free.Cells.{
  Cell, start, IsInfos, IsInfos-erase, erase_if, free_if-ok, Apart-Leaves, Freed, Freed-cons,
}

read_info-ok :
    (h : Heap) (p : Addr) {next key value : Option Addr} {made : Maker}
    → h p ≡ some (info made next key value)
    → read_info h p ≡ some (next, key, value)
unfolding read_info
read_info-ok h p there = rw (read_info, there)

free-many :
    (h : Heap) (p : Addr) {next key value : Option Addr}
    → h p ≡ some (info many next key value)
    → free p h ≡ some (erase p h)
unfolding free
free-many h p there = rw (free, there)

free-one :
    (h : Heap) (p : Addr) {next key value : Option Addr}
    → h p ≡ some (info one next key value)
    → free p h ≡ none
unfolding free
free-one h p there = rw (free, there)

-- A round of the loop as far as the end of the node itself.
del_loop-node :
    (fuel : ℕ) (h : Heap) (made : Maker) (p : Addr) (key value : Option Addr) (cs : List Cell)
    → IsInfos made h ((p, key, value) ∷ cs)
    → let g = erase_if value (erase_if key h) in
      (del_loop (suc fuel) p h
        ≡ (do h ← free p g; elim (start cs) [ none ↦ some h | some q ↦ del_loop fuel q h ]))
      × (g p ≡ some (info made (start cs) key value))
      × IsInfos made (erase p g) cs
unfolding del_loop
del_loop-node fuel h made p key value cs (there, k, v, key_apart, value_apart, apart, rest) =
    let first = Apart-Leaves h key value p cs key_apart in
    let h' = erase_if key h in
    let then_ = Apart-Leaves h' value none p cs value_apart in
    let there' = first.node ∙ there in
    let there'' = then_.node ∙ there' in
    (
      rw (
        read_info-ok h p there,
        free_if-ok h key k,
        read_info-ok h' p there',
        free_if-ok h' value (first.part v),
        read_info-ok (erase_if value h') p there'',
      ),
      there'',
      IsInfos-erase made (erase_if value h') p cs apart (then_.list made (first.list made rest)),
    )

-- What an array gives back by `delete[]` is freed.
del_loop-Freed :
    (fuel : ℕ) (h : Heap) (c : Cell) (cs : List Cell)
    → length (c ∷ cs) ≤ fuel
    → IsInfos many h (c ∷ cs)
    → (g : Heap) × (del_loop fuel c.0 h ≡ some g) × Freed h (c ∷ cs) g
del_loop-Freed zero h c cs enough is = absurd (omega (arith, enough))
del_loop-Freed (suc fuel) h (p, key, value) [] enough is =
    let g = erase p (erase_if value (erase_if key h)) in
    let (done, there, rest) = del_loop-node fuel h many p key value [] is in
    (
      g,
      done ∙ rw (free-many (erase_if value (erase_if key h)) p there) refl,
      Freed-cons h _ p key value [] (λ b. refl),
    )
del_loop-Freed (suc fuel) h (p, key, value) (c ∷ cs) enough is =
    let g = erase p (erase_if value (erase_if key h)) in
    let (done, there, rest) = del_loop-node fuel h many p key value (c ∷ cs) is in
    let (g', more, freed) = del_loop-Freed fuel g c cs (omega (arith, enough)) rest in
    (
      g',
      done ∙ rw (free-many (erase_if value (erase_if key h)) p there) more,
      Freed-cons h g' p key value (c ∷ cs) freed,
    )

del_loop-one :
    (fuel : ℕ) (h : Heap) (c : Cell) (cs : List Cell)
    → IsInfos one h (c ∷ cs)
    → del_loop (suc fuel) c.0 h ≡ none
del_loop-one fuel h (p, key, value) cs is =
    let (done, there, rest) = del_loop-node fuel h one p key value cs is in
    done ∙ rw (free-one (erase_if value (erase_if key h)) p there) refl

-- What becomes of a list at `h` in a call whose result is `result`.
abbrev pub Outcome : Maker → Heap → List Cell → Option (ℕ × Heap) → Type 0
Outcome many h cs result = (g : Heap) × (result ≡ some (left_success, g)) × Freed h cs g
Outcome one h cs result = result ≡ none

-- `DelIniInfoList` of a list of one node or more, with its keys and values made by `new char[...]`:
-- for nodes made by `new IniInfo[...]` it ends, after as many rounds as it has nodes, with
-- `LEFT_SUCCESS`; all of its nodes, keys and values are freed, each of them once, and nothing else
-- on the heap is changed. For nodes made by `new IniInfo`, as `AnalysisIniFile` makes them, it is
-- undefined, by its `delete[]` of the first of them.
pub del_ini_info_list-Outcome :
    (made : Maker) (fuel : ℕ) (h : Heap) (c : Cell) (cs : List Cell)
    → length (c ∷ cs) ≤ fuel
    → IsInfos made h (c ∷ cs)
    → Outcome made h (c ∷ cs) (del_ini_info_list fuel (some c.0) h)
unfolding del_ini_info_list
del_ini_info_list-Outcome many fuel h c cs enough is =
    let (g, done, freed) = del_loop-Freed fuel h c cs enough is in (g, rw done, freed)
del_ini_info_list-Outcome one zero h c cs enough is = absurd (omega (arith, enough))
del_ini_info_list-Outcome one (suc fuel) h c cs enough is = rw (del_loop-one fuel h c cs is) refl
