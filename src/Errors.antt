-- ===== src/Errors.antt =====
-- The error numbers of LeftMyCodes/src/MyCodes.h, and its bound on the line of an ini file.
use Prim.Native.Nat.{ℕ}

abbrev pub left_success : ℕ
left_success = 0

abbrev pub left_error_len : ℕ
left_error_len = 1

abbrev pub left_error_argvs : ℕ
left_error_argvs = 2

abbrev pub left_error_io_fileopen : ℕ
left_error_io_fileopen = 0xFFFE0001

abbrev pub left_error_iniinfo_nofound : ℕ
left_error_iniinfo_nofound = 0xFFFD0001

abbrev pub max_ini_info_len : ℕ
max_ini_info_len = 128
