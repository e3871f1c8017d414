-- ===== src/Rules.antt =====
-- internal/rules: conditions over observations, the alert state machine and the engine.
pub mod State
pub mod Condition
pub mod Levels
pub mod Outcome
pub mod Transition
pub mod Memory
pub mod Status
pub mod Evaluation
pub mod Engine
