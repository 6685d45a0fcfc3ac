-- ===== src/WebSocket/Packet/Limits.antt =====
-- `ReadPacket` on payloads that its local array of 1024 bytes does not hold.
