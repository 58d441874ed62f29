-- ===== src/Match.antt =====
-- src/server/match/match-engine.ts: the MatchEngine, one module for each group of its methods.
pub mod Config
pub mod Receipts
pub mod Events
pub mod Locks
pub mod Problems
pub mod Results
pub mod Countdown
pub mod Snapshot
pub mod Rooms
pub mod Lobby
pub mod Finish
pub mod Disconnects
pub mod Ending
pub mod Executions
pub mod Completion
pub mod Rematch
pub mod Presence
pub mod Calls
pub mod Lifecycle
