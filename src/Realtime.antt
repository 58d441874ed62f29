-- ===== src/Realtime.antt =====
-- src/server/realtime: what stands between the sockets and the match engine.
pub mod Limits
pub mod Heartbeat
pub mod Tickets
