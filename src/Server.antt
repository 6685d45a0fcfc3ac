-- ===== src/Server.antt =====
-- The WebSocket server of CompleteConfidence/src/main.cpp. `Reply` has what both variants of
-- `socket_read_cb` do with a message; `Event` is the variant over libevent, `Conn` the one over a
-- thread for each connection, and `Setup` has `server` and `main`.
pub mod Reply
pub mod Event
pub mod Loop
pub mod Conn
pub mod Setup
mod Samples
mod Tests
