-- ===== src/Storage/CollectorState.antt =====
-- internal/storage/collector_state.go: what collectors keep between their runs.
use pooly_sentinel.Prelude.{ℕ, Bool, List, Text, text, text_eq, text_leb, sort_by, if◌then◌else◌}
use pooly_sentinel.Effect.{Exec, ◌>>◌}
use pooly_sentinel.Redaction.{Patterns, redact}
use pooly_sentinel.Storage.Records.{CollectorStateRecord}
use pooly_sentinel.Storage.Tables.{find_row, has_collector_key, put_collector_state}
use pooly_sentinel.Storage.Database.{
  Driver, Db, check_input, with_database, exec, query_rows, query_row,
}
use pooly_sentinel.Storage.Validation.{
  required, nullable_string, nullable_time, time_or, validate_collector_state,
}

-- The row that `UpsertCollectorState` writes.
unfoldable pub stored_collector_state : Patterns → ℕ → CollectorStateRecord → CollectorStateRecord
unfolding nullable_string nullable_time time_or
stored_collector_state p now r = record r {
  status = redact p r.status;
  state_json = redact p r.state_json;
  last_attempt_at = nullable_time r.last_attempt_at;
  last_success_at = nullable_time r.last_success_at;
  last_error_class = nullable_string p r.last_error_class;
  last_error_summary = nullable_string p r.last_error_summary;
  updated_at = time_or now r.updated_at;
}

-- `ORDER BY collector, target`.
unfoldable pub by_collector : CollectorStateRecord → CollectorStateRecord → Bool
by_collector a b =
    if text_eq a.collector b.collector
    then text_leb a.target b.target
    else text_leb a.collector b.collector

module _ (p : Patterns) {W : Type 0} (d : Driver W) where
  unfoldable pub upsert_collector_state : CollectorStateRecord → Exec (Db W) (Unit {0})
  unfolding check_input with_database exec stored_collector_state put_collector_state
      validate_collector_state text
  upsert_collector_state r =
      check_input p d (text "upsert collector state") (validate_collector_state r)
      >> with_database p d (λ s.
        exec p d (text "upsert collector state")
          (put_collector_state (stored_collector_state p (d.now s.world) r)) s)

  unfoldable pub get_collector_state : Text → Text → Exec (Db W) CollectorStateRecord
  unfolding check_input with_database query_row find_row has_collector_key required text
  get_collector_state collector target =
      check_input p d (text "get collector state") (required collector (text "collector"))
      >> (check_input p d (text "get collector state") (required target (text "target"))
          >> with_database p d (
              query_row p d (text "scan collector state")
                (λ t. find_row (has_collector_key collector target) t.collector_state)))

  unfoldable pub list_collector_state : Exec (Db W) (List CollectorStateRecord)
  unfolding with_database query_rows by_collector text
  list_collector_state =
      with_database p d
        (query_rows p d (text "list collector state") (λ t. sort_by by_collector t.collector_state))
