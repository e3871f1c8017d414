-- ===== src/Tests.antt =====
-- Inputs on which the theorems are applied, and runs of the definitions.
mod Fixtures
mod IncidentRuns
mod RuleRuns
mod NotifyRuns
mod PathRuns
mod StorageRuns
mod MigrationRuns
mod FilewatchRuns
mod ResourceRuns
mod AgentRuns
