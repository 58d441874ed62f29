-- ===== src/Arena.antt =====
-- src/server/arena/arena-service.ts and src/shared/ai-ml-answer.ts: the rounds in which two players,
-- or one, answer a question that an AI judges.
pub mod Answer
pub mod Material
pub mod Telemetry
pub mod Config
pub mod Commands
pub mod Endings
pub mod Preparation
pub mod Claims
pub mod Judgment
pub mod Failure
pub mod Submission
pub mod Deadlines
pub mod Recovery
pub mod Calls
pub mod Lifecycle
pub mod Rounds
pub mod Agreement
pub mod Leases
