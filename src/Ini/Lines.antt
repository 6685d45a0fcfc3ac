-- ===== src/Ini/Lines.antt =====
-- The lines of an ini file, and the node that the loop makes of each.
use left_my_codes.Base.{
  strstr-char, strstr-none, All-imp, ℕ, zero, suc, ◌+◌, ◌-◌, ◌≤◌, ◌<◌, ◌≡◌, refl, ap, ◌∙◌, ◌≢◌,
  false, Option, none, some, [], ◌∷◌, ◌++◌, arith, ◌==◌, length, take, drop, All,
  take-length-append, drop-length-append, All-append, Bytes, drop-add, codes, IsText, strstr,
  print_plain-eq,
}
use left_my_codes.Ini.{IniInfo, read_line, getline, print_cut, ini_node}

-- A character that a line may have: no NUL, no end of line, and no sign of a conversion, since a
-- line is printed as a format.
abbrev pub IsPlain : ℕ → Type 0
IsPlain c = (c ≢ 0) × (c ≢ 10) × (c ≢ b'%')

-- A line of an ini file: a key and its value, or anything without a sign of equality.
pub data Line : Type 0 where
  entry : Bytes → Bytes → Line
  other : Bytes → Line

abbrev pub line_text : Line → Bytes
line_text (entry k v) = k ++ b'=' ∷ v
line_text (other s) = s

-- At most 126 characters, as many as the array has room for.
abbrev pub IsLine : Line → Type 0
IsLine (entry k v) =
    All (λ c. IsPlain c × (c ≢ b'=')) k × All IsPlain v × (length (k ++ b'=' ∷ v) ≤ 126)
IsLine (other s) = All (λ c. IsPlain c × (c ≢ b'=')) s × (length s ≤ 126)

abbrev pub info : Bytes → Bytes → IniInfo
info k v = record { key = some k; value = some v }

abbrev pub line_node : Line → Option IniInfo
line_node (entry k v) = some (info k v)
line_node (other s) = none

read_line-append :
    (n : ℕ) (line s : Bytes)
    → All (λ c. c ≢ 10) line
    → length line ≤ n
    → read_line n (line ++ 10 ∷ s) ≡ some (line, s)
unfolding read_line
read_line-append zero [] s h room = refl
read_line-append (suc n) [] s h room = refl
read_line-append zero (c ∷ line) s h room = absurd (omega arith)
read_line-append (suc n) (c ∷ line) s h room =
    let more : (c == 10) ≡ false = ground (arith, h.0) in
    rw (more, read_line-append n line s h.1 (omega arith))

pub getline-append :
    (line s : Bytes)
    → All (λ c. c ≢ 10) line
    → length line ≤ 126
    → getline (line ++ 10 ∷ s) 127 ≡ some (line, s)
unfolding getline
getline-append [] s h room = read_line-append 126 [] s h room
getline-append (c ∷ line) s h room = read_line-append 126 (c ∷ line) s h room

pub print_cut-plain :
    (size : ℕ) (s : Bytes) → All (λ c. c ≢ b'%') s → length s < size → print_cut size s ≡ some s
unfolding print_cut
print_cut-plain size s h room =
    rw (print_plain-eq s h) (ap some (take_all (size - 1) s (omega arith)))
  where
    take_all : (n : ℕ) (s : Bytes) → length s ≤ n → take n s ≡ s
    take_all zero [] h = refl
    take_all (suc n) [] h = refl
    take_all zero (c ∷ s) h = absurd (omega arith)
    take_all (suc n) (c ∷ s) h = ap (◌∷◌ c) (take_all n s (omega arith))

pub ini_node-line :
    (l : Line)
    → IsLine l
    → ini_node (line_text l) (strstr (line_text l) (codes "=")) ≡ some (line_node l)
unfolding ini_node
ini_node-line (other s) h = let e = strstr-none b'=' s (All-imp s (λ c p. p.1) h.0) in rw e
ini_node-line (entry k v) (hk, hv, room) =
    let e = strstr-char b'=' k v (All-imp k (λ c p. p.1) hk) in
    let behind : drop (length k + 1) (k ++ b'=' ∷ v) ≡ v =
      drop-add (length k) 1 (k ++ b'=' ∷ v) ∙ ap (drop 1) (drop-length-append k (b'=' ∷ v)) in
    let key = print_cut-plain (length k + 1) k (All-imp k (λ c p. p.0.2) hk) (omega arith) in
    let value = print_cut-plain (length v + 1) v (All-imp v (λ c p. p.2) hv) (omega arith) in
    rw (e, take-length-append k (b'=' ∷ v), behind, key, value)

pub line-IsText : (l : Line) → IsLine l → IsText (line_text l)
line-IsText (other s) h = All-imp s (λ c p. p.0.0) h.0
line-IsText (entry k v) (hk, hv, room) =
    All-append (λ c. c ≢ 0) k (b'=' ∷ v) (All-imp k (λ c p. p.0.0) hk)
      (omega arith, All-imp v (λ c p. p.0) hv)

pub line-whole : (l : Line) → IsLine l → All (λ c. c ≢ 10) (line_text l)
line-whole (other s) h = All-imp s (λ c p. p.0.1) h.0
line-whole (entry k v) (hk, hv, room) =
    All-append (λ c. c ≢ 10) k (b'=' ∷ v) (All-imp k (λ c p. p.0.1) hk)
      (omega arith, All-imp v (λ c p. p.1) hv)

pub line-room : (l : Line) → IsLine l → length (line_text l) ≤ 126
line-room (other s) h = h.1
line-room (entry k v) (hk, hv, room) = room

pub getline-nil : getline [] 127 ≡ none
unfolding getline
getline-nil = refl
