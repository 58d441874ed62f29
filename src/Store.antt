-- ===== src/Store.antt =====
-- The PostgreSQL tables that the services share (db/migrations), and transactions on them.
pub mod Json
pub mod Evaluations
pub mod Rows
pub mod Tables
pub mod Tx
pub mod Watch
pub mod Rollback
pub mod Clock
pub mod Outcomes
