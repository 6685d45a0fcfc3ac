-- ===== src/Lib.antt =====
-- A model of the C++ libraries of this repository, and proofs of what they do.
--
-- The parts:
-- Base: what the other modules share. `Base.Buffer` has arrays of bytes: a read or a write out of
-- an array's bounds is `none`, a fault, as is everything else that is undefined, but for the
-- `delete[]` of a void pointer in the thread of `CopyScreem`, which is left out; `Base.Text`
-- has C strings, `strstr` and `snprintf` with no argument behind the format; `Base.Decimal` has
-- `%d`, and `Base.Room` the writes that have room; `Base.Lists`, `Base.Bits`, `Base.Tests` and
-- `Base.Int` have lists, bit operations, Boolean tests and integers.
-- Hash, Hex, Ini, Orders and SafeList model LeftMyCodes/src/MyCodes.cpp and MyCodes.h: the string
-- hash (`hash_`, `hash_compile_time`), `StrToHex` and `HexToStr`, `AnalysisIniFile` and
-- `GetIniInfo`, `AddSign` and `getNextOrder`, and the class `ThrSfeList`. `SafeList.Queue` has
-- runs of calls of one list, `SafeList.Race`, `SafeList.Lost` and `SafeList.Twice` two threads one
-- of which runs between the steps of the other. `Ini.Free` has `DelIniInfoList`, over a heap of
-- nodes and texts, each as it was made, so that a wrong `delete` is a fault. `Hex.Parse` has what
-- `StrToHex` does with the values of digits, and `Hex.Spells` which texts it reads. Ini also has `AnalysisIniFile` as the copies in CompleteConfidence/include/LeftMyCodes and in
-- LeftComSupt/include/LeftMyCodes have it. Errors has the error numbers.
-- WebSocket models CompleteConfidence/src/WebSocket.cpp and WebSocket.h: `DecipheringStr` (Mask),
-- `PackageAddHead` (Frame), `ReadPacket` (Packet), `CountMagicStr` and `GetAnswerStr` (Handshake).
-- ReadPacket calls DecipheringStr; the server's replies are what PackageAddHead builds
-- (RoundTrip).
-- Serial models LeftComSupt/src/SPofOpenFile.cpp (`set_speed`, `set_Parity`, and `ComInit`, in
-- `Init`, which calls both), LeftComSupt/src/MoxaSerialPort_Win.cpp (`ChoseBaud`) and
-- LeftComSupt/src/MoxaSerialPort_Linux.cpp (`left_SP_ioctl`, in `Moxa`). A termios is a record of
-- the flags that the code uses, and a run of `set_speed` is the list of its calls.
--
-- Server models CompleteConfidence/src/main.cpp. `Reply` has what both variants of
-- `socket_read_cb` do with a message: a handshake goes to GetAnswerStr, a packet to ReadPacket,
-- and its payload comes back under the head of PackageAddHead, with the text of Time. `Event` is
-- the variant over libevent, and `Loop` its callbacks over many connections, with `WebSocketMain`,
-- and in `Loop.Session` a client of it; `Conn` is the one of `OneConn`, and `Setup` has `server`,
-- `client` and `main`, which chooses by the hash of Hash. Time models `GetTimeStr` of
-- LeftMyCodes/src/MyCodes.cpp.
-- Windows models LeftSupport/LeftSupport/LeftWindows.cpp and LeftWindows.h: `Messages` has
-- `OutputWindowCallbackMacro` with its cases, `Flags` has `WindowsInfo`, `List` the list of
-- windows that the constructor and `CreateParentsWin` build on a heap of nodes, `Class` the window
-- class of the constructor and of `reRegClass`, `Size` the loops of `ExSizeChange` and
-- `PleaseExs`, which starts them, `Proc` the answers to messages (`DefWinProc`, `ExWinProc` and
-- `DefHandDropFiles`), and `Copy` has `CopyScreem`: its calls and threads, which share an event,
-- are a step relation, one step for a statement. What `SetWindowPos` grants, and where the client
-- area of a window begins, are parameters of `Size`.
--
-- State and operations. A function of the source is a function of the same name in lower case. An
-- array that it writes is an argument and, as it is left, a part of the result; a pointer that it
-- returns is `true`, `NULL` is `false`; an argument that may be `NULL` is an `Option`. A byte is a
-- number below 256; where `char` is signed, the sign is written out. `ThrSfeList` stands on a heap
-- of nodes, and the address that `new` returns is an argument.
--
-- Loops are recursion on the text or on the number of rounds. `ini_loop` has fuel, one more than
-- the file has characters, which is enough since every round reads one. `next_orders`, the loop of
-- a caller of `getNextOrder`, has one more than the number of words.
--
-- `del_loop` has fuel for the nodes of the list. `upper_hex` has 8 rounds, since a number of 32
-- bits has at most 8 digits.
--
-- A loop that never ends (`OneConn`, `WindowsInfo`, `ExSizeChange`, the reading of `ComInit`,
-- the loop of libevent) is recursion on the list of what the system
-- answers, round by round, and the theorems hold for every such list. `decimal_digits` has more
-- fuel than the number that it prints, and each round takes a digit.
--
-- Not modelled: a `WebSocketMain` whose listener libevent cannot make; the pictures of windows in
-- LeftWindows.cpp that are copied by calls of Win32 alone (`GetNewHdc`, `GetSrcBit`, the `BitBlt`
-- of `CopyScreem`); the records of CompleteConfidence/MessageFormat.h, which no code uses;
-- the threads of LeftMyCodes/src/main.cpp, which only call `Add` and `GetLast` and print; and the
-- calls of the operating system that only pass on what they are given (`ShowLastError`,
-- `GetToken`, `GetSelfModuleHandle`, `CoutEx`). The class `SHA1` and `base64_encode` are copies of
-- other libraries, and parameters of the handshake; easylogging is one too, and what is logged is
-- left out; libevent and the MOXA library are parameters. What sockets, `localtime`, termios and
-- Win32 answer is a parameter. The lock of ThrSfeList, which `GetLast` takes and gives back around
-- a copy, is left out: `Add` takes no lock that another thread can hold, so it keeps no two calls
-- apart.
mod Base
pub mod Errors
pub mod Hash
pub mod Hex
pub mod WebSocket
pub mod SafeList
pub mod Orders
pub mod Ini
pub mod Serial
pub mod Windows
pub mod Time
pub mod Server
