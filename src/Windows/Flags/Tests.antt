-- ===== src/Windows/Flags/Tests.antt =====
-- Runs of the rounds of `WindowsInfo`.
use left_my_codes.Base.{
  ◌≡◌, refl, none, some, [], ◌∷◌, arith, ◌==◌, if◌then◌else◌, replicate, codes,
}
use left_my_codes.Windows.Flags.{
  WindowApi, windows_info, styles, ex_styles, class_styles, flag_names,
}
use left_my_codes.Windows.Flags.Laws.{
  bit_names, style_bits, ex_style_bits, class_style_bits, found, found_info, flag_names-bits,
  windows_info-replicate,
}

-- Window 7 and window 4 are of one class, and `FindWindow` has window 4 for it.
abbrev two_windows : WindowApi
two_windows = record {
  get_class_name = λ win. codes "Edit";
  find_window = λ name. 4;
  get_style = λ win. 0x94C00000;
  get_ex_style = λ win. 0x00040101;
  get_class_style = λ win. 3;
}

window_styles : found_info two_windows 7 ≡ record {
  class_name = codes "Edit";
  style_names =
      "WS_POPUP" ∷ "WS_VISIBLE" ∷ "WS_CLIPSIBLINGS" ∷ "WS_CAPTION" ∷ "WS_BORDER" ∷ "WS_DLGFRAME"
      ∷ [];
  ex_style_names = "WS_EX_DLGMODALFRAME" ∷ "WS_EX_WINDOWEDGE" ∷ "WS_EX_APPWINDOW" ∷ [];
  class_style_names = "CS_VREDRAW" ∷ "CS_HREDRAW" ∷ [];
}
unfolding flag_names styles ex_styles class_styles
window_styles = refl

flag_names-bits_example :
    (flag_names styles 0x00C00000 ≡ bit_names style_bits 0x00C00000)
    × (flag_names ex_styles 0x00C00000 ≡ bit_names ex_style_bits 0x00C00000)
    × (flag_names class_styles 0x00C00000 ≡ bit_names class_style_bits 0x00C00000)
flag_names-bits_example = flag_names-bits 0x00C00000

windows_info-replicate_example :
    windows_info two_windows 0 (replicate 3 7)
    ≡ some (found_info two_windows 7)
      ∷ replicate 2 (if found two_windows 7 == 7 then none else some (found_info two_windows 7))
windows_info-replicate_example = windows_info-replicate two_windows 2 0 7 (omega arith)
