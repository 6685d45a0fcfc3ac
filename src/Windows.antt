-- ===== src/Windows.antt =====
-- The windows of LeftSupport/LeftSupport/LeftWindows.cpp: the names of messages (`Messages`) and of
-- styles (`Flags`), the list of windows (`List`), windows moved by the mouse (`Size`), and
-- copies of windows (`Copy`).
pub mod Messages
pub mod Flags
pub mod List
pub mod Size
pub mod Copy
pub mod Proc
pub mod Class
