-- ===== src/Agent.antt =====
-- internal/agent: the scheduler that runs the collectors, the rule engine and the notifications.
pub mod Status
pub mod Scheduler
pub mod Interleaving
