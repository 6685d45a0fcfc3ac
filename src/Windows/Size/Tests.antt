-- ===== src/Windows/Size/Tests.antt =====
-- Runs of `ExSizeChange`.
use left_my_codes.Base.{
  ◌≡◌, refl, inl, inr, true, none, some, List, [], ◌∷◌, if◌then◌else◌, Bool-cases, ℤ, pos, negsuc,
}
use left_my_codes.Base.{ℤ, pos, negsuc, ◌+ℤ◌, ◌-ℤ◌, ◌≤ℤ◌}
use left_my_codes.Windows.Size.{
  Point, Rect, client_pos, move_to, size_to, first_round, move_round, size_round, rounds, after,
  hold,
}
use left_my_codes.Windows.Size.Thread.{
  IsStable, Turn, away, turn, please_exs, ex_size_change, after_turns, ex_size_change-after_turns,
}

abbrev square : Rect
square = record { left = pos 200; top = pos 200; right = pos 600; bottom = pos 600 }

abbrev middle : Point
middle = record { x = pos 400; y = pos 300 }

abbrev path : List Point
path = record { x = pos 380; y = pos 300 } ∷ record { x = negsuc 19; y = pos 310 } ∷ []

-- A window with a border and a title, which is never smaller than 120.
abbrev border : Point
border = record { x = pos 8; y = pos 31 }

abbrev at_least : ℤ → ℤ
at_least n = if n ≤ℤ pos 120 then pos 120 else n

abbrev given : Point → Point
given size = record { x = at_least size.x; y = at_least size.y }

at_least_again : (n : ℤ) → at_least (at_least n) ≡ at_least n
at_least_again n = elim (Bool-cases (n ≤ℤ pos 120)) [
  | inl small ↦ rw small refl
  | inr large ↦ rw (large, large) refl
]

given_again : IsStable given
given_again size = rw (at_least_again size.x, at_least_again size.y) refl

moved_off :
    hold border (move_round border) square middle path
    ≡ record { left = negsuc 219; top = pos 210; right = pos 180; bottom = pos 610 }
unfolding hold after rounds move_round move_to first_round client_pos ◌+ℤ◌ ◌-ℤ◌
moved_off = refl

sized_down :
    hold border (size_round border given) square middle path
    ≡ record { left = pos 200; top = pos 200; right = pos 320; bottom = pos 610 }
unfolding hold after rounds size_round size_to first_round client_pos ◌+ℤ◌ ◌-ℤ◌
sized_down = refl

abbrev some_turns : List Turn
some_turns = away ∷ turn (some (middle, path)) none ∷ turn none (some (middle, path)) ∷ []

ex_size_change-after_turns_example :
    (please_exs 1 9 ≡ (0, true))
    × (ex_size_change border given 9 square some_turns
        ≡ (none, after_turns border given square some_turns))
unfolding ◌-ℤ◌
ex_size_change-after_turns_example =
    ex_size_change-after_turns border given 9 square some_turns given_again refl
