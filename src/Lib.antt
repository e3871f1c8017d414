-- ===== src/Lib.antt =====
-- Pooly Sentinel watches a host. Collectors make observations; the rule engine judges them and keeps, for
-- each rule and target, the memory of an alert; what the alert raises or resolves goes to the incident
-- engine as a candidate; the transitions of incidents go to the notification service, which hands them
-- to receivers and records every attempt. The engines reach the database through store interfaces.
--
-- Files and what they model:
--   Effect: Go errors, results with a state beside them, contexts (internal/storage/errors.go, `Error`).
--   Redaction: internal/redaction/redact.go, `Redact`.
--   Resources, Resources/Metrics: internal/collectors/resources/types.go, the observations that the rule
--     engine reads, and `NewMetric`.
--   Resources/Counters, Resources/Cpu: internal/collectors/resources/state.go, the counters of a day, and
--     cpu.go, the parser of /proc/stat; the text of a day and the quoted name in a message are parameters.
--   Storage/Records, Errors, Validation: internal/storage/records.go, errors.go, repository_helpers.go and
--     time.go.
--   Storage/Tables: the tables of internal/storage/migrations.go with their keys, checks and references;
--     a statement is a function on them that may refuse.
--   Storage/Database: internal/storage/sqlite.go, `Store`, over a driver each of whose calls may fail;
--     `transaction` is what rule_transaction.go and notification_transaction.go have in common.
--   Storage/Incidents, RuleState, Deliveries, CollectorState, Metadata, Summary: the repository functions
--     of internal/storage/incidents.go, rule_state.go, notification_delivery.go, collector_state.go,
--     metadata.go and summary.go; a name that ends in `_row` is the function over a handle, which the
--     store and its transactions share.
--   Storage/Migrations: internal/storage/migrations.go, `validateMigrations` and `runMigrations`.
--   Storage/Columns: internal/storage/time.go and repository_helpers.go, how instants and texts become
--     columns and are read from them; the text of an instant and its parser are functions of the driver.
--     The rows of incidents and of the memories of rules are such columns; those of the other tables are
--     the records that they are read back as.
--   Stores: internal/storage behind the store interfaces of the engines and of the notification service.
--   Filewatch: internal/collectors/filewatch/baseline.go and hash.go. Snapshots is `SnapshotTarget`,
--     Manifest `manifestHash`, Changes `compareSnapshots`, Names the names of targets, and Collect
--     `collectTarget`.
--   Storage/Paths: internal/storage/path.go, `SafeEvidencePath` and `sanitizeSegment`.
--   Incidents/Incident, Fingerprint, Lifecycle: internal/incidents/incident.go, fingerprint.go and
--     lifecycle.go; `apply` is `Engine.Apply`, `settle` what it does after the lookup, `update_active`,
--     `resolve` and `reclassify` the functions and branches below it.
--   Incidents/Lifecycle/Contract: what `Apply` relies on in its store, and the life of an incident.
--   Rules/State, Condition: internal/rules/state.go and condition.go.
--   Rules/Levels, Outcome: internal/rules/engine.go, the helpers below `transitionState`.
--   Rules/Transition: internal/rules/engine.go, `transitionState`; `settle` is its branch without a
--     condition, `alarm` and `await` the others.
--   Rules/Memory, Status, Evaluation, Engine: the rest of internal/rules/engine.go up to `Evaluate`.
--   Notify/Types, Dedupe, Receiver, Renderer: internal/notify/types.go, dedupe.go, receiver.go and
--     renderer.go.
--   Notify/Report, Attempt, Delivery: internal/notify/delivery.go; `Report` and its methods,
--     `deliverToReceiver`, and the functions above it.
--   Agent/Status, Scheduler: internal/agent/scheduler.go; `finish_cycle` and `cycle_status` are the
--     functions of these names, `run_once` is `RunOnce` with the cycle lock, `overlapped_run` without it.
--   Agent/Interleaving: internal/agent/scheduler.go, the sections under the lock in any order.
--   Tests: inputs on which the theorems are applied.
--
-- Choices. A `time.Time` is the number of nanoseconds since the zero time, so that instants before it
-- have no counterpart; a `time.Duration` is a signed integer, and a difference of instants saturates at
-- the ends of int64. An int64 that is counted up wraps around. A string is a list of bytes, and the
-- functions of package `strings` are those on ASCII text. A map is an association list. A call that can
-- fail takes a state and returns a result beside the state; a store, a receiver and a context act on
-- one state type, the world, which is a parameter. Loops run over lists by recursion on the list; only
-- the digits of an attempt number use fuel, 20, which is enough for an int64.
--
-- Parameters: the regular expressions of the redaction, SHA-256, the format of instants, of
-- durations and of errors, `float64` with what the program does with it, package `path/filepath`,
-- the HTTP client, the clock, the calls of the
-- database driver and of the file system, what a statement of a migration does, and what `context.WithTimeout` makes of a context. A nil context, a
-- nil receiver of a method, and a nil store of the incident engine are not represented.
--
-- In the tables, an instant is kept as it is, since its text reads back as the instant; the order of rows
-- goes by the texts, as in the source. A failure while rows are read counts as the failure of their query.
-- Of several fields that a validation finds missing, Go's map reports any; here it is the first.
--
-- Not modelled: the other collectors, the scheduler's loop with its ticker, the lifecycle of the agent,
-- the files of internal/storage, the configuration, retention, reports, the API and the command line.
pub mod Prelude
pub mod Effect
pub mod Redaction
pub mod Storage
pub mod Stores
pub mod Incidents
pub mod Resources
pub mod Rules
pub mod Notify
pub mod Filewatch
pub mod Agent
mod Tests
