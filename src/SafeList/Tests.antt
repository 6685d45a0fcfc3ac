-- ===== src/SafeList/Tests.antt =====
-- Runs of the list of buffers.
use left_my_codes.Base.{
  slice, overwrite, ◌≡◌, refl, inl, inr, none, some, [], ◌∷◌, ◌++◌, arith, ◌==◌, if◌then◌else◌,
  List, ℕ, Option, Bytes, ap, sym, true, Bool,
}
use left_my_codes.SafeList.{add, get_last, new_element, delete}
use left_my_codes.SafeList.Nodes.{Heap, load, write, link_next, link_last}
use left_my_codes.SafeList.Chain.{Cells, element, head_node, IsList}
use left_my_codes.SafeList.Queue.{
  Call, put, get, call, calls, AllNew, calls_spec, queue, calls-queue,
}
use left_my_codes.SafeList.Race.{Outcome, add_around_get_last, add_around_get_last-Outcome}
use left_my_codes.SafeList.Twice.{get_last_around_get_last, get_last_around_get_last-IsList}
use left_my_codes.SafeList.Lost.{add_around_add, add_around_add-IsList}

abbrev nothing : Heap
nothing p = none

abbrev empty_list : Heap
empty_list p = if p == 1 then some (head_node 0 1) else none

abbrev one_element : Heap
one_element p =
    if p == 1
    then some (head_node 2 2)
    else if p == 2
    then some (element (7 ∷ 8 ∷ []) 1 1)
    else none

empty_list-IsList : IsList empty_list 1 []
empty_list-IsList = record {
  last = 0;
  real = omega arith;
  at_head = refl;
  last_is = inr (refl, refl);
  chain = tt;
}

one_element-IsList : IsList one_element 1 ([] ++ (2, 7 ∷ 8 ∷ []) ∷ [])
one_element-IsList = record {
  last = 2;
  real = omega arith;
  at_head = refl;
  last_is = inl refl;
  chain = (omega arith, omega arith, tt, refl, tt);
}

abbrev some_calls : List Call
some_calls =
    put 3 (some (5 ∷ 6 ∷ [])) 2 ∷ get (some (0 ∷ 0 ∷ 9 ∷ [])) 3 ∷ get (some (0 ∷ [])) 1 ∷ []

some_calls-AllNew : AllNew 1 one_element some_calls
unfolding call add new_element get_last delete load write link_next link_last slice overwrite
some_calls-AllNew = ((omega arith, refl), (tt, (tt, tt)))

calls-queue_example :
    (g : Heap) × (ys : Cells) × (calls 1 some_calls one_element
      ≡ some ((calls_spec ((7 ∷ 8 ∷ []) ∷ []) some_calls).0, g))
    × IsList g 1 ys
    × (queue ys ≡ (calls_spec ((7 ∷ 8 ∷ []) ∷ []) some_calls).1)
calls-queue_example =
    calls-queue one_element 1 ((2, 7 ∷ 8 ∷ []) ∷ []) some_calls one_element-IsList
      (omega arith, (omega arith, (omega arith, tt))) some_calls-AllNew

unused_after :
    (r : ℕ × Option Bytes) (g : Heap)
    → get_last 1 (some (0 ∷ 0 ∷ [])) 2 one_element ≡ some (r, g)
    → g 3 ≡ none
unfolding get_last delete load write link_next link_last slice overwrite
unused_after r g e =
    sym (
      ap (λ (o : Option ((ℕ × Option Bytes) × Heap)). elim o [ none ↦ none | some (r, g) ↦ g 3 ]) e)

add_around_get_last-Outcome_example :
    Outcome
      (add_around_get_last 1 3 (5 ∷ 6 ∷ []) 2 (0 ∷ 0 ∷ []) 2 one_element)
      1
      3
      (5 ∷ 6 ∷ [])
      (7 ∷ 8 ∷ [])
      (0 ∷ 0 ∷ [])
      []
add_around_get_last-Outcome_example =
    add_around_get_last-Outcome one_element 1 3 2 (5 ∷ 6 ∷ []) [] (7 ∷ 8 ∷ []) (0 ∷ 0 ∷ []) 2 []
      (omega arith) (omega arith) (omega arith) one_element-IsList (omega arith) (omega arith)
      unused_after

unused_after_add : (g : Heap) → add 1 4 (some (9 ∷ [])) 1 one_element ≡ some (true, g) → g 3 ≡ none
unfolding add new_element load write link_next link_last slice
unused_after_add g e =
    sym (ap (λ (o : Option (Bool × Heap)). elim o [ none ↦ none | some (r, g) ↦ g 3 ]) e)

add_around_add-IsList_example :
    (g : Heap) × (add_around_add 1 3 (5 ∷ 6 ∷ []) 2 4 (9 ∷ []) 1 one_element ≡ some (true, g))
    × IsList g 1 ((3, 5 ∷ 6 ∷ []) ∷ (2, 7 ∷ 8 ∷ []) ∷ [])
add_around_add-IsList_example =
    add_around_add-IsList one_element 1 3 4 (5 ∷ 6 ∷ []) [] (9 ∷ []) [] ((2, 7 ∷ 8 ∷ []) ∷ [])
      (omega arith) (omega arith) one_element-IsList (omega arith) (omega arith) refl
      unused_after_add

abbrev two_elements : Heap
two_elements p =
    if p == 1
    then some (head_node 2 3)
    else if p == 2
    then some (element (7 ∷ 8 ∷ []) 3 1)
    else if p == 3
    then some (element (5 ∷ []) 1 2)
    else none

two_elements-IsList : IsList two_elements 1 (([] ++ (3, 5 ∷ []) ∷ []) ++ (2, 7 ∷ 8 ∷ []) ∷ [])
two_elements-IsList = record {
  last = 2;
  real = omega arith;
  at_head = refl;
  last_is = inl refl;
  chain =
      (omega arith, omega arith, (omega arith, tt), refl, (omega arith, omega arith, tt, refl, tt));
}

get_last_around_get_last-IsList_example :
    (g : Heap) × (get_last_around_get_last 1 (0 ∷ 0 ∷ []) 2 (0 ∷ 0 ∷ 9 ∷ []) 3 two_elements
      ≡ some (((2, some (7 ∷ 8 ∷ [])), (2, some (7 ∷ 8 ∷ 9 ∷ []))), g))
    × IsList g 1 []
get_last_around_get_last-IsList_example =
    get_last_around_get_last-IsList two_elements 1 2 3 (7 ∷ 8 ∷ []) (5 ∷ []) (0 ∷ 0 ∷ [])
      (0 ∷ 0 ∷ 9 ∷ []) 2 3 [] (omega arith) (omega arith) (omega arith) (omega arith)
      two_elements-IsList
