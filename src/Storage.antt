-- ===== src/Storage.antt =====
-- internal/storage: records, validation, the tables behind them and the transactions over them.
pub mod Records
pub mod Paths
pub mod Errors
pub mod Tables
pub mod Database
pub mod Validation
pub mod Columns
pub mod Incidents
pub mod RuleState
pub mod Deliveries
pub mod CollectorState
pub mod Metadata
pub mod Summary
pub mod Migrations
