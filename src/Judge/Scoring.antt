-- ===== src/Judge/Scoring.antt =====
-- src/server/ai-ml/scoring.ts. A number of the judge is a natural number or `other`: negative,
-- fractional, infinite or not a number. The explanation and the provider's data are not modelled.
pub mod Types
pub mod Official
pub mod Criteria
pub mod Duel
