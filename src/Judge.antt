-- ===== src/Judge.antt =====
-- src/server/ai-ml: the rules by which a judgment of written answers is accepted.
pub mod Scoring
pub mod Budget
