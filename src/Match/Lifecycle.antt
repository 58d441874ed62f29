-- ===== src/Match/Lifecycle.antt =====
-- How the rows of `matches` change: what each method of the engine may do to a match.
pub mod Rows
pub mod Frame
pub mod Writes
pub mod Steps
pub mod Rooms
pub mod Endings
pub mod Plays
