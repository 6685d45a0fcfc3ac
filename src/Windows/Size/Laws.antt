-- ===== src/Windows/Size/Laws.antt =====
-- `ExSizeChange`: where a window is when the cursor has moved.
use left_my_codes.Base.{
  ◌||◌, ◌≡◌, refl, inl, inr, Bool, true, false, not, ◌&&◌, none, some, List, [], ◌∷◌, if◌then◌else◌,
  Bool-cases, ℤ,
}
use left_my_codes.Base.{◌+ℤ◌, ◌-ℤ◌, ◌==ℤ◌, ◌≤ℤ◌}
use left_my_codes.Windows.Size.Axis.{
  grab, keep_size, carry, still, still_size, both_true, stretch, around, no_move, not_before,
  not_behind,
}
use left_my_codes.Windows.Size.{
  Point, Rect, Drag, client_pos, move_to, size_to, first_round, move_round, size_round, rounds,
  after, hold,
}

-- The window `window`, moved as far as from `from` to `to`.
abbrev pub moved : Rect → Point → Point → Rect
moved window from to = record {
  left = window.left +ℤ (to.x -ℤ from.x);
  top = window.top +ℤ (to.y -ℤ from.y);
  right = window.right +ℤ (to.x -ℤ from.x);
  bottom = window.bottom +ℤ (to.y -ℤ from.y);
}

Rect_eq :
    {a b c d a' b' c' d' : ℤ}
    → a ≡ a'
    → b ≡ b'
    → c ≡ c'
    → d ≡ d'
    → ◌≡◌ {A = Rect}
        (record { left = a; top = b; right = c; bottom = d })
        (record { left = a'; top = b'; right = c'; bottom = d' })
Rect_eq p q r s = cc

abbrev pub size_of : Rect → Point
size_of window = record { x = window.right -ℤ window.left; y = window.bottom -ℤ window.top }

-- The rectangle `window`, its lower right corner moved as far as from `from` to `to`.
abbrev pub reach : Rect → Point → Point → Rect
reach window from to = record window {
  right = window.right +ℤ (to.x -ℤ from.x);
  bottom = window.bottom +ℤ (to.y -ℤ from.y);
}

-- A window at the upper left corner of `window`, of the size that is given for the one of `window`.
abbrev pub fitted : (Point → Point) → Rect → Rect
fitted granted window = record window {
  right = window.left +ℤ (granted (size_of window)).x;
  bottom = window.top +ℤ (granted (size_of window)).y;
}

abbrev pub stretched : (Point → Point) → Rect → Point → Point → Rect
stretched granted window from to = fitted granted (reach window from to)

-- Whether the cursor is as far from the corner of the client area as a place in the window is from
-- the corner of the window.
abbrev pub inside : Point → Rect → Point → Bool
inside inset window p =
    ((window.left +ℤ inset.x) ≤ℤ p.x)
    && ((window.top +ℤ inset.y) ≤ℤ p.y)
    && (p.x ≤ℤ (window.right +ℤ inset.x))
    && (p.y ≤ℤ (window.bottom +ℤ inset.y))

-- The last place of the cursor.
abbrev pub last_of : Point → List Point → Point
last_of p [] = p
last_of p (q ∷ later) = last_of q later

if_inside :
    (a b c d : Bool) (s : Drag)
    → (if not a || not b || not c || not d then none else some s)
      ≡ (if a && b && c && d then some s else none)
if_inside false b c d s = refl
if_inside true false c d s = refl
if_inside true true false d s = refl
if_inside true true true false s = refl
if_inside true true true true s = refl

module _ (inset : Point) (w : Rect) (c : Point) where
  abbrev moving : Point → Drag
  moving k = record { rect = moved w c k; pt = client_pos inset w c; window = moved w c k }

  move_round-moving : (k n : Point) → move_round inset (moving k) n ≡ moving n
  unfolding move_round client_pos move_to
  move_round-moving k n =
      let rt = client_pos inset (moved w c k) n in
      let pt = client_pos inset w c in
      elim (Bool-cases ((rt.x ==ℤ pt.x) && (rt.y ==ℤ pt.y))) [
        | inl same ↦
            let (x_same, y_same) = both_true (rt.x ==ℤ pt.x) (rt.y ==ℤ pt.y) same in
            rw
              (
                same,
                still w.left inset.x k.x c.x n.x x_same,
                still w.top inset.y k.y c.y n.y y_same,
              )
              refl
        | inr other ↦
            rw
              (
                other,
                grab w.left inset.x w.left k.x c.x n.x,
                grab w.left inset.x w.right k.x c.x n.x,
                grab w.top inset.y w.top k.y c.y n.y,
                grab w.top inset.y w.bottom k.y c.y n.y,
                keep_size (w.left +ℤ (n.x -ℤ c.x)) w.left w.right (k.x -ℤ c.x),
                keep_size (w.top +ℤ (n.y -ℤ c.y)) w.top w.bottom (k.y -ℤ c.y),
                carry w.left w.right (n.x -ℤ c.x),
                carry w.top w.bottom (n.y -ℤ c.y),
              )
              refl
      ]

  rounds-moving :
      (k : Point) (cs : List Point)
      → rounds (move_round inset) (moving k) cs ≡ moving (last_of k cs)
  unfolding rounds
  rounds-moving k [] = refl
  rounds-moving k (n ∷ cs) = rw (move_round-moving k n) (rounds-moving n cs)

  abbrev at_first : Drag
  at_first = record { rect = w; pt = client_pos inset w c; window = w }

  started : first_round inset w c ≡ (if inside inset w c then some at_first else none)
  unfolding first_round client_pos
  started =
      rw
        (
          not_before (w.left +ℤ inset.x) c.x,
          not_before (w.top +ℤ inset.y) c.y,
          not_behind w.left inset.x w.right c.x,
          not_behind w.top inset.y w.bottom c.y,
        )
        (if_inside ((w.left +ℤ inset.x) ≤ℤ c.x) ((w.top +ℤ inset.y) ≤ℤ c.y)
          (c.x ≤ℤ (w.right +ℤ inset.x)) (c.y ≤ℤ (w.bottom +ℤ inset.y)) at_first)

  start_moving : at_first ≡ moving c
  start_moving =
      rw (no_move w.left c.x, no_move w.right c.x, no_move w.top c.y, no_move w.bottom c.y) refl

  -- While the left button is down, from a place of the cursor in the window on, the window moves as
  -- far as the cursor has moved, with its size as it was.
  pub hold-moved :
      (cursors : List Point)
      → hold inset (move_round inset) w c cursors
        ≡ (if inside inset w c then moved w c (last_of c cursors) else w)
  unfolding hold after
  hold-moved cursors = elim (Bool-cases (inside inset w c)) [
    | inl here ↦ rw (started, here, start_moving, after, rounds-moving c cursors) refl
    | inr outside ↦ rw (started, outside) refl
  ]

  module _ (granted : Point → Point) where
    abbrev sizing : Point → Drag
    sizing k = record {
      rect = reach w c k;
      pt = client_pos inset w k;
      window = stretched granted w c k;
    }

    size_round-sizing : (k n : Point) → size_round inset granted (sizing k) n ≡ sizing n
    unfolding size_round client_pos size_to
    size_round-sizing k n =
        let rt = client_pos inset w n in
        let pt = client_pos inset w k in
        elim (Bool-cases ((rt.x ==ℤ pt.x) && (rt.y ==ℤ pt.y))) [
          | inl same ↦
              let (x_same, y_same) = both_true (rt.x ==ℤ pt.x) (rt.y ==ℤ pt.y) same in
              rw
                (
                  same,
                  still_size (w.left +ℤ inset.x) k.x n.x x_same,
                  still_size (w.top +ℤ inset.y) k.y n.y y_same,
                )
                refl
          | inr other ↦
              rw
                (
                  other,
                  stretch (w.left +ℤ inset.x) w.right k.x c.x n.x,
                  stretch (w.top +ℤ inset.y) w.bottom k.y c.y n.y,
                )
                refl
        ]

    rounds-sizing :
        (k : Point) (cs : List Point)
        → rounds (size_round inset granted) (sizing k) cs ≡ sizing (last_of k cs)
    unfolding rounds
    rounds-sizing k [] = refl
    rounds-sizing k (n ∷ cs) = rw (size_round-sizing k n) (rounds-sizing n cs)

    start_sizing : granted (size_of w) ≡ size_of w → at_first ≡ sizing c
    start_sizing is =
        rw
          (
            no_move w.right c.x,
            no_move w.bottom c.y,
            is,
            around w.left w.right,
            around w.top w.bottom,
          )
          refl

    -- While the right button is down, its size does, as far as it is granted.
    pub hold-stretched :
        (cursors : List Point)
        → granted (size_of w) ≡ size_of w
        → hold inset (size_round inset granted) w c cursors
          ≡ (if inside inset w c then stretched granted w c (last_of c cursors) else w)
    unfolding hold after
    hold-stretched cursors is = elim (Bool-cases (inside inset w c)) [
      | inl here ↦ rw (started, here, start_sizing is, after, rounds-sizing c cursors) refl
      | inr outside ↦ rw (started, outside) refl
    ]
