-- ===== src/WebSocket.antt =====
-- The WebSocket layer of CompleteConfidence/src/WebSocket.{h,cpp}: the masks of a payload
-- (`Mask`), the head that a reply is given (`Frame`), the packets that a client sends (`Packet`),
-- both together (`RoundTrip`), and the handshake (`Handshake`).
pub mod Mask
pub mod Frame
pub mod Packet
pub mod Handshake
pub mod RoundTrip
mod Tests
