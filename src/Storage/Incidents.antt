-- ===== src/Storage/Incidents.antt =====
-- internal/storage/incidents.go and summary.go: the incidents of a store. The functions over a handle
-- serve the store and its transactions.
pub mod RoundTrip
use pooly_sentinel.Prelude.{
  ℕ, ◌+◌, ℤ, pos, pos_part, leb_ℤ, Bool, true, false, not, ◌&&◌, ◌||◌, Option, none, some, List, [],
  ◌∷◌, Text, text, text_eq, text_leb, is_empty, sort_by, take, leb, ◌==◌, if◌then◌else◌,
}
use pooly_sentinel.Effect.{Error, Result, ok, err, message, Exec, lift, ◌>>=◌, ◌>>◌}
use pooly_sentinel.Redaction.{Patterns, redact}
use pooly_sentinel.Storage.Records.{IncidentRecord}
use pooly_sentinel.Storage.Tables.{
  Tables, IncidentRow, find_row, has_id, has_fingerprint, put_incident, set_last_alerted,
  any_incident,
}
use pooly_sentinel.Storage.Database.{
  Driver, Db, affected, check_input, with_database, exec, query_rows, query_row,
}
use pooly_sentinel.Storage.Columns.{
  null_string, string_from_null, format_time, parse_time, null_time, scan_nullable_time, column,
  scan_rows,
}
use pooly_sentinel.Storage.Validation.{required, required_time, validate_incident}

-- `ORDER BY updated_at DESC, id`.
unfoldable pub newer_first : IncidentRow → IncidentRow → Bool
newer_first a b =
    if text_eq a.updated_at b.updated_at
    then text_leb a.id b.id
    else text_leb b.updated_at a.updated_at

module _ (p : Patterns) {W : Type 0} (d : Driver W) where
  -- The columns that `upsertIncident` writes.
  unfoldable pub incident_row : ℕ → IncidentRecord → IncidentRow
  unfolding format_time null_time null_string
  incident_row now r = record {
    id = r.id;
    fingerprint = redact p r.fingerprint;
    node_id = r.node_id;
    type = r.type;
    target = r.target;
    condition = r.condition;
    severity = redact p r.severity;
    status = redact p r.status;
    summary = redact p r.summary;
    first_seen = format_time p d now r.first_seen;
    last_seen = format_time p d now r.last_seen;
    last_alerted = null_time p d now r.last_alerted;
    occurrence_count = r.occurrence_count;
    evidence_path = null_string p r.evidence_path;
    resolved_at = null_time p d now r.resolved_at;
    last_transition = null_time p d now r.last_transition;
    updated_at = format_time p d now r.updated_at;
  }

  -- `scanIncident`, of a row.
  unfoldable pub scan_incident : IncidentRow → Result IncidentRecord
  unfolding column parse_time scan_nullable_time string_from_null text
  scan_incident row =
      column p d (text "scan incident first_seen") (parse_time p d row.first_seen) (λ first_seen.
        column p d (text "scan incident last_seen") (parse_time p d row.last_seen) (λ last_seen.
          column p d (text "scan incident last_alerted") (scan_nullable_time p d row.last_alerted)
            (λ last_alerted.
              column p d (text "scan incident resolved_at") (scan_nullable_time p d row.resolved_at)
                (λ resolved_at.
                  column p d (text "scan incident updated_at") (parse_time p d row.updated_at)
                    (λ updated_at.
                      column p d (text "scan incident last_transition")
                        (scan_nullable_time p d row.last_transition)
                        (λ last_transition. ok (record {
                          id = row.id;
                          fingerprint = row.fingerprint;
                          node_id = row.node_id;
                          type = row.type;
                          target = row.target;
                          condition = row.condition;
                          severity = row.severity;
                          status = row.status;
                          summary = row.summary;
                          first_seen = first_seen;
                          last_seen = last_seen;
                          last_alerted = last_alerted;
                          occurrence_count = row.occurrence_count;
                          evidence_path = string_from_null row.evidence_path;
                          resolved_at = resolved_at;
                          last_transition = last_transition;
                          updated_at = updated_at;
                        })))))))

  -- `upsertIncident`.
  unfoldable pub upsert_incident_row : IncidentRecord → Exec (Db W) (Unit {0})
  unfolding exec incident_row put_incident text
  upsert_incident_row r s =
      exec p d (text "upsert incident") (put_incident (incident_row (d.now s.world) r)) s

  unfoldable pub upsert_incident : IncidentRecord → Exec (Db W) (Unit {0})
  unfolding check_input with_database upsert_incident_row validate_incident text
  upsert_incident r =
      check_input p d (text "upsert incident") (validate_incident r)
      >> with_database p d (upsert_incident_row r)

  -- `getIncident`.
  unfoldable pub get_incident_row : Text → Exec (Db W) IncidentRecord
  unfolding query_row find_row has_id scan_incident text
  get_incident_row id =
      query_row p d (text "scan incident") (λ t. find_row (has_id id) t.incidents) >>= λ row.
      lift (scan_incident row)

  unfoldable pub get_incident : Text → Exec (Db W) IncidentRecord
  unfolding check_input with_database get_incident_row required text
  get_incident id =
      check_input p d (text "get incident") (required id (text "incident id"))
      >> with_database p d (get_incident_row id)

  unfoldable pub get_incident_by_fingerprint_row : Text → Exec (Db W) IncidentRecord
  unfolding query_row find_row has_fingerprint scan_incident text
  get_incident_by_fingerprint_row fp =
      query_row p d (text "scan incident") (λ t. find_row (has_fingerprint fp) t.incidents)
      >>= λ row. lift (scan_incident row)

  unfoldable pub get_incident_by_fingerprint : Text → Exec (Db W) IncidentRecord
  unfolding check_input with_database get_incident_by_fingerprint_row required text
  get_incident_by_fingerprint fp =
      check_input p d (text "get incident by fingerprint")
        (required fp (text "incident fingerprint"))
      >> with_database p d (get_incident_by_fingerprint_row fp)

  unfoldable pub list_incidents : Exec (Db W) (List IncidentRecord)
  unfolding with_database query_rows newer_first scan_rows scan_incident text
  list_incidents = with_database p d (
      query_rows p d (text "list incidents") (λ t. sort_by newer_first t.incidents) >>= λ rows.
      lift (scan_rows scan_incident rows))

  -- summary.go, `ListRecentIncidents`.
  unfoldable pub list_recent_incidents : ℤ → Exec (Db W) (List IncidentRecord)
  unfolding check_input with_database query_rows newer_first scan_rows scan_incident text
  list_recent_incidents limit =
      check_input p d (text "list recent incidents") (
        if leb_ℤ (pos 1) limit && leb_ℤ limit (pos 1000)
        then ok tt
        else err (message (text "limit must be between 1 and 1000")))
      >> with_database p d (
          query_rows p d (text "list recent incidents")
            (λ t. take (pos_part limit) (sort_by newer_first t.incidents))
          >>= λ rows. lift (scan_rows scan_incident rows))

  unfoldable pub update_incident_last_alerted_row : Text → ℕ → Exec (Db W) (Unit {0})
  unfolding affected exec set_last_alerted any_incident format_time text
  update_incident_last_alerted_row id alerted_at s =
      affected (text "update incident last_alerted") (any_incident id s.tables) (
        exec p d (text "update incident last_alerted")
          (set_last_alerted id (format_time p d (d.now s.world) alerted_at)
            (format_time p d (d.now s.world) (d.now s.world)))
          s)

  unfoldable pub check_last_alerted : Text → ℕ → Exec (Db W) (Unit {0})
  unfolding check_input required required_time text
  check_last_alerted id alerted_at =
      check_input p d (text "update incident last_alerted") (required id (text "incident id"))
      >> check_input p d (text "update incident last_alerted")
          (required_time (text "last_alerted") alerted_at)

  unfoldable pub update_incident_last_alerted : Text → ℕ → Exec (Db W) (Unit {0})
  unfolding check_last_alerted with_database update_incident_last_alerted_row
  update_incident_last_alerted id alerted_at =
      check_last_alerted id alerted_at
      >> with_database p d (update_incident_last_alerted_row id alerted_at)
