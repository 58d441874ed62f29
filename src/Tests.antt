-- ===== src/Tests.antt =====
-- Matches, submissions and judgments on which the theorems and the code are tried.
pub mod Fixtures
pub mod Rounds
pub mod Judging
pub mod Evaluating
pub mod Answering
pub mod Choosing
pub mod Playing
pub mod Logging
pub mod Ticketing
pub mod Limiting
pub mod Budgeting
pub mod Ending
