-- ===== src/Domain.antt =====
-- src/server/domain: the words of the program, its errors and its state machine.
pub mod Types
pub mod Errors
pub mod StateMachine
