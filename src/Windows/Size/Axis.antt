-- ===== src/Windows/Size/Axis.antt =====
-- `ExSizeChange` along one axis: the integers of a window and of the cursor.
use left_my_codes.Base.{◌+◌, ◌≡◌, refl, Bool, true, false, ◌&&◌, arith, ℤ, pos}
use left_my_codes.Base.{
  ℤ, pos, ◌+ℤ◌, ◌-ℤ◌, ◌==ℤ◌, ◌≤ℤ◌, pos_part, neg_part, int_laws, -ℤ_parts, +ℤ_parts,
}

-- Along one axis, with the window at `w` and its client area `i` behind it, the cursor first at `c`,
-- then at `k`, and now at `n`.
pub grab :
    (w i v k c n : ℤ)
    → (v +ℤ (k -ℤ c) +ℤ (n -ℤ (w +ℤ (k -ℤ c) +ℤ i) -ℤ (c -ℤ (w +ℤ i)))) ≡ (v +ℤ (n -ℤ c))
grab w i v k c n = omega int_laws

pub keep_size : (u w v d : ℤ) → (u +ℤ (v +ℤ d -ℤ (w +ℤ d))) ≡ (u +ℤ (v -ℤ w))
keep_size u w v d = omega int_laws

pub moved_size : (w v d : ℤ) → (v +ℤ d -ℤ (w +ℤ d)) ≡ (v -ℤ w)
moved_size w v d = omega int_laws

pub given_size : (w s : ℤ) → (w +ℤ s -ℤ w) ≡ s
given_size w s = omega int_laws

pub carry : (w v d : ℤ) → (w +ℤ d +ℤ (v -ℤ w)) ≡ (v +ℤ d)
carry w v d = omega int_laws

same_place : (a b : ℤ) → (a ==ℤ b) ≡ true → pos_part a + neg_part b ≡ pos_part b + neg_part a
same_place a b h = ground (arith, h)

pub still : (w i k c n : ℤ) → ((n -ℤ (w +ℤ (k -ℤ c) +ℤ i)) ==ℤ (c -ℤ (w +ℤ i))) ≡ true → k ≡ n
still w i k c n h =
    let e = same_place (n -ℤ (w +ℤ (k -ℤ c) +ℤ i)) (c -ℤ (w +ℤ i)) h in omega (int_laws, e)

pub still_size : (w k n : ℤ) → ((n -ℤ w) ==ℤ (k -ℤ w)) ≡ true → k ≡ n
still_size w k n h = let e = same_place (n -ℤ w) (k -ℤ w) h in omega (int_laws, e)

pub both_true : (a b : Bool) → (a && b) ≡ true → (a ≡ true) × (b ≡ true)
both_true true b h = (refl, h)
both_true false b h = cc

pub stretch : (w v k c n : ℤ) → (v +ℤ (k -ℤ c) +ℤ (n -ℤ w -ℤ (k -ℤ w))) ≡ (v +ℤ (n -ℤ c))
stretch w v k c n = omega int_laws

pub around : (w v : ℤ) → (w +ℤ (v -ℤ w)) ≡ v
around w v = omega int_laws

pub no_move : (v c : ℤ) → (v +ℤ (c -ℤ c)) ≡ v
no_move v c = omega int_laws

pub not_before : (w c : ℤ) → (pos 0 ≤ℤ (c -ℤ w)) ≡ (w ≤ℤ c)
not_before w c = ground (arith, -ℤ_parts c w)

pub not_behind : (w i v c : ℤ) → ((c -ℤ (w +ℤ i)) ≤ℤ (v -ℤ w)) ≡ (c ≤ℤ (v +ℤ i))
not_behind w i v c = ground (arith, -ℤ_parts c (w +ℤ i), -ℤ_parts v w, +ℤ_parts w i, +ℤ_parts v i)
