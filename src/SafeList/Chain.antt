-- ===== src/SafeList/Chain.antt =====
-- When a heap holds a list: its elements, the newest first, linked both ways around the head.
use left_my_codes.Base.{
  ◌≡◌, ◌∙◌, ◌≢◌, ◌⊎◌, Option, none, some, List, [], ◌∷◌, arith, length, All, Bytes,
}
use left_my_codes.SafeList.Nodes.{Ptr, null, head, boddy, Node, Heap, write}

-- The elements with their addresses and contents, the newest first.
abbrev pub Cells : Type 0
Cells = List (Ptr × Bytes)

abbrev pub element : Bytes → Ptr → Ptr → Node
element s last next = record {
  role = boddy;
  buf = some s;
  len = length s;
  last = last;
  next = next;
}

abbrev pub head_node : Ptr → Ptr → Node
head_node last next = record { role = head; buf = none; len = 0; last = last; next = next }

-- Where the chain of `xs` begins, with the head `this` at its end.
abbrev pub first : Ptr → Cells → Ptr
first this [] = this
first this ((p, s) ∷ xs) = p

-- Where it ends, with `prev` before it.
abbrev pub final : Ptr → Cells → Ptr
final prev [] = prev
final prev ((p, s) ∷ xs) = final p xs

-- `a` is the address of none of `xs`.
abbrev pub Avoids : Ptr → Cells → Type 0
Avoids a = All (λ c. c.0 ≢ a)

-- From `prev` on, through `xs` back to the head `this`: each node is an element with its content,
-- the one before it and the one behind it, at an address of its own.
abbrev pub Chain : Heap → Ptr → Ptr → Cells → Type 0
Chain h this prev [] = Unit {0}
Chain h this prev ((p, s) ∷ xs) =
    (p ≢ null)
    × (p ≢ this)
    × Avoids p xs
    × (h p ≡ some (element s prev (first this xs)))
    × Chain h this p xs

-- `h` holds at `this` a list of `xs`. An empty list that never had an element has no last one;
-- one that lost its last element has the head for it.
pub record IsList (h : Heap) (this : Ptr) (xs : Cells) : Type 0 where
  pub last : Ptr
  pub real : this ≢ null
  pub at_head : h this ≡ some (head_node last (first this xs))
  pub last_is : (last ≡ final this xs) ⊎ ((xs ≡ []) × (last ≡ null))
  pub chain : Chain h this this xs

pub write_ne : (h : Heap) (p a : Ptr) (c : Option Node) → a ≢ p → write h p c a ≡ h a
unfolding write
write_ne h p a c ne = ground arith

pub write_eq : (h : Heap) (p : Ptr) (c : Option Node) → write h p c p ≡ c
unfolding write
write_eq h p c = ground arith

-- A write elsewhere leaves a chain.
pub Chain-write :
    (h : Heap) (this prev : Ptr) (xs : Cells) (p : Ptr) (c : Option Node)
    → Avoids p xs
    → Chain h this prev xs
    → Chain (write h p c) this prev xs
Chain-write h this prev [] p c away chain = tt
Chain-write h this prev ((q, s) ∷ xs) p c away (real, apart, own, there, rest) =
    (real, apart, own, write_ne h p q c away.0 ∙ there, Chain-write h this q xs p c away.1 rest)

-- No element stands at the head's address, nor at one that holds no node.
pub Chain-Avoids_this :
    (h : Heap) (this prev : Ptr) (xs : Cells) → Chain h this prev xs → Avoids this xs
Chain-Avoids_this h this prev [] chain = tt
Chain-Avoids_this h this prev ((q, s) ∷ xs) (real, apart, own, there, rest) =
    (apart, Chain-Avoids_this h this q xs rest)

pub Chain-Avoids_unused :
    (h : Heap) (this prev a : Ptr) (xs : Cells) → h a ≡ none → Chain h this prev xs → Avoids a xs
Chain-Avoids_unused h this prev a [] e chain = tt
Chain-Avoids_unused h this prev a ((q, s) ∷ xs) e (real, apart, own, there, rest) =
    (λ same. cc, Chain-Avoids_unused h this q a xs e rest)
