-- ===== src/Arena/Rounds/Engine.antt =====
-- Each call of the match engine leaves the answers and the evaluations alone.
pub mod Heads
pub mod Rooms
pub mod Endings
pub mod Executions
pub mod Presence
pub mod Calls
