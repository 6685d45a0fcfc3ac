-- ===== src/Ini/Free/Cells.antt =====
-- The heap of `DelIniInfoList` that has the nodes of a list, and the one without them.
use left_my_codes.Base.{
  ◌||◌, ◌≡◌, refl, ◌∙◌, Bool, true, false, Option, none, some, List, [], ◌∷◌, arith, ◌==◌,
  if◌then◌else◌, Bytes,
}
use left_my_codes.Ini.Free.{free, free_if, Addr, Maker, Object, text, info, Heap, erase}

-- A node: where it stands, its key and its value.
abbrev pub Cell : Type 0
Cell = Addr × Option Addr × Option Addr

abbrev pub start : List Cell → Option Addr
start [] = none
start (c ∷ cs) = some c.0

abbrev is_at : Option Addr → Addr → Bool
is_at none b = false
is_at (some a) b = b == a

-- Whether a node, a key or a value of the list stands at `b`.
abbrev owns : List Cell → Addr → Bool
owns [] b = false
owns ((p, key, value) ∷ cs) b = is_at key b || is_at value b || b == p || owns cs b

abbrev IsThere : Heap → Option Addr → Type 0
IsThere h none = Unit {0}
IsThere h (some a) = (s : Bytes) × (h a ≡ some (text s))

-- No other part of the list stands where this one does.
abbrev Apart : Option Addr → List Cell → Type 0
Apart none cs = Unit {0}
Apart (some a) cs = owns cs a ≡ false

-- `h` holds the nodes of a list, each linked to the next one, all of their parts at places of
-- their own.
abbrev pub IsInfos : Maker → Heap → List Cell → Type 0
IsInfos made h [] = Unit {0}
IsInfos made h ((p, key, value) ∷ cs) =
    (h p ≡ some (info made (start cs) key value))
    × IsThere h key
    × IsThere h value
    × Apart key ((p, none, value) ∷ cs)
    × Apart value ((p, none, none) ∷ cs)
    × (owns cs p ≡ false)
    × IsInfos made h cs

or-false : (x y : Bool) → (x || y) ≡ false → (x ≡ false) × (y ≡ false)
or-false true y e = absurd (cc e)
or-false false y e = (refl, e)

erase-other : (h : Heap) (a b : Addr) → (b == a) ≡ false → erase a h b ≡ h b
unfolding erase
erase-other h a b e = rw e

eq_flip : (a b : Addr) → (a == b) ≡ false → (b == a) ≡ false
eq_flip a b e = ground (arith, e)

IsThere-erase :
    (h : Heap) (a : Addr) (q : Option Addr)
    → is_at q a ≡ false
    → IsThere h q
    → IsThere (erase a h) q
IsThere-erase h a none e there = tt
IsThere-erase h a (some b) e (o, there) = (o, erase-other h a b (eq_flip a b e) ∙ there)

-- The end of another object leaves a list.
pub IsInfos-erase :
    (made : Maker) (h : Heap) (a : Addr) (cs : List Cell)
    → owns cs a ≡ false
    → IsInfos made h cs
    → IsInfos made (erase a h) cs
IsInfos-erase made h a [] away is = tt
IsInfos-erase made h a ((p, key, value) ∷ cs) away
      (there, k, v, key_apart, value_apart, apart, rest) =
    let (rest_away, cs_away) = or-false (is_at key a || is_at value a || a == p) (owns cs a) away in
    let (parts_away, p_away) = or-false (is_at key a || is_at value a) (a == p) rest_away in
    let (key_away, value_away) = or-false (is_at key a) (is_at value a) parts_away in
    (
      erase-other h a p (eq_flip a p p_away) ∙ there,
      IsThere-erase h a key key_away k,
      IsThere-erase h a value value_away v,
      key_apart,
      value_apart,
      apart,
      IsInfos-erase made h a cs cs_away rest,
    )

abbrev pub erase_if : Option Addr → Heap → Heap
erase_if none h = h
erase_if (some a) h = erase a h

pub free_if-ok : (h : Heap) (q : Option Addr) → IsThere h q → free_if q h ≡ some (erase_if q h)
unfolding free_if free
free_if-ok h none there = refl
free_if-ok h (some a) (o, there) = rw (free_if, free, there)

-- What the end of a key or a value leaves: the node at `p`, another such part, and the other nodes.
pub record Leaves (h : Heap) (q r : Option Addr) (p : Addr) (cs : List Cell) : Type 0 where
  pub node : erase_if q h p ≡ h p
  pub part : IsThere h r → IsThere (erase_if q h) r
  pub list : (made : Maker) → IsInfos made h cs → IsInfos made (erase_if q h) cs

pub Apart-Leaves :
    (h : Heap) (q r : Option Addr) (p : Addr) (cs : List Cell)
    → Apart q ((p, none, r) ∷ cs)
    → Leaves h q r p cs
Apart-Leaves h none r p cs apart = record { node = refl; part = λ t. t; list = λ made t. t }
Apart-Leaves h (some a) r p cs apart =
    let (both, cs_away) = or-false (is_at r a || a == p) (owns cs a) apart in
    let (part_away, p_away) = or-false (is_at r a) (a == p) both in
    record {
      node = erase-other h a p (eq_flip a p p_away);
      part = IsThere-erase h a r part_away;
      list = λ made is. IsInfos-erase made h a cs cs_away is;
    }

erase_if-at :
    (h : Heap) (q : Option Addr) (b : Addr) → erase_if q h b ≡ (if is_at q b then none else h b)
unfolding erase
erase_if-at h none b = refl
erase_if-at h (some a) b = refl

-- The heap without the objects of a list.
abbrev pub Freed : Heap → List Cell → Heap → Type 0
Freed h cs g = (b : Addr) → g b ≡ (if owns cs b then none else h b)

gone :
    (k v n r : Bool) (o : Option Object)
    → (if r then none else if n then none else if v then none else if k then none else o)
      ≡ (if k || v || n || r then none else o)
gone k v n r o = ground arith

pub Freed-cons :
    (h g : Heap) (p : Addr) (key value : Option Addr) (cs : List Cell)
    → Freed (erase p (erase_if value (erase_if key h))) cs g
    → Freed h ((p, key, value) ∷ cs) g
unfolding erase
Freed-cons h g p key value cs freed b =
    let at_key = erase_if-at h key b in
    let at_value = erase_if-at (erase_if key h) value b in
    freed b ∙ rw (at_value, at_key) (gone (is_at key b) (is_at value b) (b == p) (owns cs b) (h b))
