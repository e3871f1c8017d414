-- ===== src/Filewatch.antt =====
-- internal/collectors/filewatch: what the collector sees of a watched file or directory.
pub mod Types
pub mod Names
pub mod Changes
pub mod Manifest
pub mod Snapshots
pub mod Collect
