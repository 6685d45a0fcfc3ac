-- ===== src/Windows/Flags/Laws.antt =====
-- `WindowsInfo`: the bits behind the names of the styles, and the rounds with one foreground window.
use left_my_codes.Base.{
  ℕ, zero, suc, ◌/◌, ◌%◌, ◌^◌, ◌≡◌, refl, ap, ◌≢◌, inl, inr, Bool, true, false, ◌&&◌, none, some,
  List, [], ◌∷◌, map, arith, ltb, ◌==◌, if◌then◌else◌, Bool-cases, replicate, ◌||◌,
}
use Prim.Native.String.{String}
use left_my_codes.Windows.Flags.{
  styles, ex_styles, class_styles, flag_names, Info, WindowApi, windows_info_round, windows_info,
  print_info,
}
use left_my_codes.Base.{shares, bit_and-shares}

-- The bits of each name, counted from the lowest, 0.
abbrev pub style_bits : List (List ℕ × String)
style_bits =
    ([], "WS_OVERLAPPED")
    ∷ (31 ∷ [], "WS_POPUP")
    ∷ (30 ∷ [], "WS_CHILD")
    ∷ (29 ∷ [], "WS_MINIMIZE")
    ∷ (28 ∷ [], "WS_VISIBLE")
    ∷ (27 ∷ [], "WS_DISABLED")
    ∷ (26 ∷ [], "WS_CLIPSIBLINGS")
    ∷ (25 ∷ [], "WS_CLIPCHILDREN")
    ∷ (24 ∷ [], "WS_MAXIMIZE")
    ∷ (22 ∷ 23 ∷ [], "WS_CAPTION")
    ∷ (23 ∷ [], "WS_BORDER")
    ∷ (22 ∷ [], "WS_DLGFRAME")
    ∷ (21 ∷ [], "WS_VSCROLL")
    ∷ (20 ∷ [], "WS_HSCROLL")
    ∷ (19 ∷ [], "WS_SYSMENU")
    ∷ (18 ∷ [], "WS_THICKFRAME")
    ∷ (17 ∷ [], "WS_GROUP")
    ∷ (16 ∷ [], "WS_TABSTOP")
    ∷ (17 ∷ [], "WS_MINIMIZEBOX")
    ∷ (16 ∷ [], "WS_MAXIMIZEBOX")
    ∷ []

abbrev pub ex_style_bits : List (List ℕ × String)
ex_style_bits =
    (0 ∷ [], "WS_EX_DLGMODALFRAME")
    ∷ (2 ∷ [], "WS_EX_NOPARENTNOTIFY")
    ∷ (3 ∷ [], "WS_EX_TOPMOST")
    ∷ (4 ∷ [], "WS_EX_ACCEPTFILES")
    ∷ (5 ∷ [], "WS_EX_TRANSPARENT")
    ∷ (6 ∷ [], "WS_EX_MDICHILD")
    ∷ (7 ∷ [], "WS_EX_TOOLWINDOW")
    ∷ (8 ∷ [], "WS_EX_WINDOWEDGE")
    ∷ (9 ∷ [], "WS_EX_CLIENTEDGE")
    ∷ (10 ∷ [], "WS_EX_CONTEXTHELP")
    ∷ (12 ∷ [], "WS_EX_RIGHT")
    ∷ ([], "WS_EX_LEFT")
    ∷ (13 ∷ [], "WS_EX_RTLREADING")
    ∷ ([], "WS_EX_LTRREADING")
    ∷ (14 ∷ [], "WS_EX_LEFTSCROLLBAR")
    ∷ ([], "WS_EX_RIGHTSCROLLBAR")
    ∷ (16 ∷ [], "WS_EX_CONTROLPARENT")
    ∷ (17 ∷ [], "WS_EX_STATICEDGE")
    ∷ (18 ∷ [], "WS_EX_APPWINDOW")
    ∷ (19 ∷ [], "WS_EX_LAYERED")
    ∷ (20 ∷ [], "WS_EX_NOINHERITLAYOUT")
    ∷ (21 ∷ [], "WS_EX_NOREDIRECTIONBITMAP")
    ∷ (22 ∷ [], "WS_EX_LAYOUTRTL")
    ∷ (25 ∷ [], "WS_EX_COMPOSITED")
    ∷ (27 ∷ [], "WS_EX_NOACTIVATE")
    ∷ []

abbrev pub class_style_bits : List (List ℕ × String)
class_style_bits =
    (0 ∷ [], "CS_VREDRAW")
    ∷ (1 ∷ [], "CS_HREDRAW")
    ∷ (3 ∷ [], "CS_DBLCLKS")
    ∷ (5 ∷ [], "CS_OWNDC")
    ∷ (6 ∷ [], "CS_CLASSDC")
    ∷ (7 ∷ [], "CS_PARENTDC")
    ∷ (9 ∷ [], "CS_NOCLOSE")
    ∷ (11 ∷ [], "CS_SAVEBITS")
    ∷ (12 ∷ [], "CS_BYTEALIGNCLIENT")
    ∷ (13 ∷ [], "CS_BYTEALIGNWINDOW")
    ∷ (14 ∷ [], "CS_GLOBALCLASS")
    ∷ (16 ∷ [], "CS_IME")
    ∷ (17 ∷ [], "CS_DROPSHADOW")
    ∷ []

-- A number after `k` halvings.
abbrev pub halve : ℕ → ℕ → ℕ
halve zero n = n
halve (suc k) n = halve k n / 2

-- Whether the word has a 1 at one of the places.
abbrev pub any_bit : List ℕ → ℕ → Bool
any_bit [] word = false
any_bit (k ∷ ks) word = halve k word % 2 == 1 || any_bit ks word

abbrev pub bit_names : List (List ℕ × String) → ℕ → List String
bit_names [] word = []
bit_names ((ks, name) ∷ table) word =
    let rest = bit_names table word in if any_bit ks word then name ∷ rest else rest

-- The places of the ones among `n` digits, the first of them at place `k`.
places : ℕ → ℕ → ℕ → List ℕ
places zero k mask = []
places (suc n) k mask =
    let rest = places n (suc k) (mask / 2) in if mask % 2 == 1 then k ∷ rest else rest

shares-any_bit : (n k word mask : ℕ) → shares n (halve k word) mask ≡ any_bit (places n k mask) word
unfolding places
shares-any_bit zero k word mask = refl
shares-any_bit (suc n) k word mask = ground (arith, shares-any_bit n (suc k) word (mask / 2))

are_words : List (ℕ × String) → Bool
are_words [] = true
are_words ((mask, name) ∷ table) = ltb mask (2 ^ 32) && are_words table

abbrev decode : List (ℕ × String) → List (List ℕ × String)
decode = map (λ row. (places 32 0 row.0, row.1))

flag_names-decode :
    (table : List (ℕ × String)) (word : ℕ)
    → are_words table ≡ true
    → flag_names table word ≡ bit_names (decode table) word
unfolding flag_names are_words
flag_names-decode [] word h = refl
flag_names-decode ((mask, name) ∷ table) word h = elim (Bool-cases (ltb mask (2 ^ 32))) [
  | inl below ↦ ground (
    arith,
    bit_and-shares 32 word mask (ground (arith, below)),
    shares-any_bit 32 0 word mask,
    flag_names-decode table word (rw below at h),
  )
  | inr over ↦ absurd (cc (ap (λ b. b && are_words table) over))
]

-- For every word, the tables of `WindowsInfo` print the names of those styles that have a bit in the
-- word, the bits counted as in the three lists above; a style with no bit is never printed.
pub flag_names-bits :
    (word : ℕ)
    → (flag_names styles word ≡ bit_names style_bits word)
      × (flag_names ex_styles word ≡ bit_names ex_style_bits word)
      × (flag_names class_styles word ≡ bit_names class_style_bits word)
unfolding styles ex_styles class_styles places are_words
flag_names-bits word = (
  flag_names-decode styles word refl,
  flag_names-decode ex_styles word refl,
  flag_names-decode class_styles word refl,
)

module _ (api : WindowApi) (fgrnd_win : ℕ) where
  -- The window that `FindWindow` has for the class of the one in the foreground.
  abbrev pub found : ℕ
  found = api.find_window (api.get_class_name fgrnd_win)

  abbrev pub found_info : Info
  found_info = print_info api (api.get_class_name fgrnd_win) found

  asleep : (n : ℕ) → windows_info api fgrnd_win (replicate n fgrnd_win) ≡ replicate n none
  unfolding windows_info windows_info_round
  asleep zero = refl
  asleep (suc n) = let same : (fgrnd_win == fgrnd_win) ≡ true = ground arith in rw (same, asleep n)

  awake :
      (win : ℕ) → win ≢ fgrnd_win → windows_info_round api win fgrnd_win ≡ (found, some found_info)
  unfolding windows_info_round
  awake win other = let apart : (fgrnd_win == win) ≡ false = ground arith in rw apart

  awake-replicate :
      (n win : ℕ)
      → win ≢ fgrnd_win
      → found ≢ fgrnd_win
      → windows_info api win (replicate n fgrnd_win) ≡ replicate n (some found_info)
  unfolding windows_info
  awake-replicate zero win other missed = refl
  awake-replicate (suc n) win other missed =
      rw (awake win other, awake-replicate n found missed missed)

-- While one window stays in the foreground, not the `Win` of before: the first round of
-- `WindowsInfo` prints the class of the window and the styles of the window that `FindWindow` has
-- for this class; if this is the same window each later round sleeps, and otherwise each later
-- round prints the same again, without a sleep.
pub windows_info-replicate :
    (api : WindowApi) (n win fgrnd_win : ℕ)
    → win ≢ fgrnd_win
    → windows_info api win (replicate (suc n) fgrnd_win)
      ≡ some (found_info api fgrnd_win)
        ∷ replicate n
            (if found api fgrnd_win == fgrnd_win then none else some (found_info api fgrnd_win))
unfolding windows_info
windows_info-replicate api n win fgrnd_win other =
    elim (Bool-cases (found api fgrnd_win == fgrnd_win)) [
      | inl same ↦
          let eq : found api fgrnd_win ≡ fgrnd_win = ground (arith, same) in
          rw (awake api fgrnd_win win other, same, eq, asleep api fgrnd_win n)
      | inr missed ↦
          let ne : found api fgrnd_win ≢ fgrnd_win = ground (arith, missed) in
          rw (
            awake api fgrnd_win win other,
            missed,
            awake-replicate api fgrnd_win n (found api fgrnd_win) ne ne,
          )
    ]
