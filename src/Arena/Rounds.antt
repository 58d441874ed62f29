-- ===== src/Arena/Rounds.antt =====
-- What the two services do to the answers and the evaluations of the rounds.
pub mod Rows
pub mod Frame
pub mod Engine
pub mod Writes
pub mod Preparation
pub mod Service
pub mod History
