-- ===== src/Windows/Flags.antt =====
-- `LeftWindows::WindowsInfo` of LeftSupport/LeftSupport/LeftWindows.cpp: the names of the styles of a
-- window. A style is an `int`, here the word of its 32 bits; what the API answers is a parameter.
pub mod Laws
mod Tests
use left_my_codes.Base.{ℕ, bit_and, Option, none, some, List, [], ◌∷◌, ◌==◌, if◌then◌else◌, Bytes}
use Prim.Native.String.{String}

unfoldable pub styles : List (ℕ × String)
styles =
    (0x00000000, "WS_OVERLAPPED")
    ∷ (0x80000000, "WS_POPUP")
    ∷ (0x40000000, "WS_CHILD")
    ∷ (0x20000000, "WS_MINIMIZE")
    ∷ (0x10000000, "WS_VISIBLE")
    ∷ (0x08000000, "WS_DISABLED")
    ∷ (0x04000000, "WS_CLIPSIBLINGS")
    ∷ (0x02000000, "WS_CLIPCHILDREN")
    ∷ (0x01000000, "WS_MAXIMIZE")
    ∷ (0x00C00000, "WS_CAPTION")
    ∷ (0x00800000, "WS_BORDER")
    ∷ (0x00400000, "WS_DLGFRAME")
    ∷ (0x00200000, "WS_VSCROLL")
    ∷ (0x00100000, "WS_HSCROLL")
    ∷ (0x00080000, "WS_SYSMENU")
    ∷ (0x00040000, "WS_THICKFRAME")
    ∷ (0x00020000, "WS_GROUP")
    ∷ (0x00010000, "WS_TABSTOP")
    ∷ (0x00020000, "WS_MINIMIZEBOX")
    ∷ (0x00010000, "WS_MAXIMIZEBOX")
    ∷ []

unfoldable pub ex_styles : List (ℕ × String)
ex_styles =
    (0x00000001, "WS_EX_DLGMODALFRAME")
    ∷ (0x00000004, "WS_EX_NOPARENTNOTIFY")
    ∷ (0x00000008, "WS_EX_TOPMOST")
    ∷ (0x00000010, "WS_EX_ACCEPTFILES")
    ∷ (0x00000020, "WS_EX_TRANSPARENT")
    ∷ (0x00000040, "WS_EX_MDICHILD")
    ∷ (0x00000080, "WS_EX_TOOLWINDOW")
    ∷ (0x00000100, "WS_EX_WINDOWEDGE")
    ∷ (0x00000200, "WS_EX_CLIENTEDGE")
    ∷ (0x00000400, "WS_EX_CONTEXTHELP")
    ∷ (0x00001000, "WS_EX_RIGHT")
    ∷ (0x00000000, "WS_EX_LEFT")
    ∷ (0x00002000, "WS_EX_RTLREADING")
    ∷ (0x00000000, "WS_EX_LTRREADING")
    ∷ (0x00004000, "WS_EX_LEFTSCROLLBAR")
    ∷ (0x00000000, "WS_EX_RIGHTSCROLLBAR")
    ∷ (0x00010000, "WS_EX_CONTROLPARENT")
    ∷ (0x00020000, "WS_EX_STATICEDGE")
    ∷ (0x00040000, "WS_EX_APPWINDOW")
    ∷ (0x00080000, "WS_EX_LAYERED")
    ∷ (0x00100000, "WS_EX_NOINHERITLAYOUT")
    ∷ (0x00200000, "WS_EX_NOREDIRECTIONBITMAP")
    ∷ (0x00400000, "WS_EX_LAYOUTRTL")
    ∷ (0x02000000, "WS_EX_COMPOSITED")
    ∷ (0x08000000, "WS_EX_NOACTIVATE")
    ∷ []

unfoldable pub class_styles : List (ℕ × String)
class_styles =
    (0x0001, "CS_VREDRAW")
    ∷ (0x0002, "CS_HREDRAW")
    ∷ (0x0008, "CS_DBLCLKS")
    ∷ (0x0020, "CS_OWNDC")
    ∷ (0x0040, "CS_CLASSDC")
    ∷ (0x0080, "CS_PARENTDC")
    ∷ (0x0200, "CS_NOCLOSE")
    ∷ (0x0800, "CS_SAVEBITS")
    ∷ (0x1000, "CS_BYTEALIGNCLIENT")
    ∷ (0x2000, "CS_BYTEALIGNWINDOW")
    ∷ (0x4000, "CS_GLOBALCLASS")
    ∷ (0x00010000, "CS_IME")
    ∷ (0x00020000, "CS_DROPSHADOW")
    ∷ []

-- The lines `if (Style & mask) std::cout << " | name";` of a table, in their order.
unfoldable pub flag_names : List (ℕ × String) → ℕ → List String
flag_names [] style = []
flag_names ((mask, name) ∷ table) style =
    let rest = flag_names table style in if bit_and style mask == 0 then rest else name ∷ rest

-- The four lines that a round prints.
pub record Info : Type 0 where
  class_name : Bytes
  style_names : List String
  ex_style_names : List String
  class_style_names : List String

-- `GetClassName`, `FindWindow` of a class, `GetWindowLong` of `GWL_STYLE` and of `GWL_EXSTYLE` and
-- `GetClassLong` of `GCL_STYLE`, with a number for an `HWND`.
pub record WindowApi : Type 0 where
  get_class_name : ℕ → Bytes
  find_window : Bytes → ℕ
  get_style : ℕ → ℕ
  get_ex_style : ℕ → ℕ
  get_class_style : ℕ → ℕ

module _ (api : WindowApi) where
  abbrev pub print_info : Bytes → ℕ → Info
  print_info name win = record {
    class_name = name;
    style_names = flag_names styles (api.get_style win);
    ex_style_names = flag_names ex_styles (api.get_ex_style win);
    class_style_names = flag_names class_styles (api.get_class_style win);
  }

  -- One round of the loop, from `Win` and the foreground window: the new `Win`, and what is printed
  -- or `none` for the `Sleep(50)`.
  unfoldable pub windows_info_round : ℕ → ℕ → ℕ × Option Info
  windows_info_round win fgrnd_win =
      let name = api.get_class_name fgrnd_win in
      let found = api.find_window name in
      if fgrnd_win == win then (win, none) else (found, some (print_info name found))

  -- The rounds of the loop, one for each foreground window.
  unfoldable pub windows_info : ℕ → List ℕ → List (Option Info)
  windows_info win [] = []
  windows_info win (fgrnd_win ∷ later) =
      let now = windows_info_round win fgrnd_win in now.1 ∷ windows_info now.0 later
