-- ===== src/Storage/Incidents/RoundTrip.antt =====
-- internal/storage/incidents.go: an incident that was written is read back.
use pooly_sentinel.Prelude.{
  ◌≡◌, refl, ℕ, ◌<◌, ◌∙◌, true, false, none, some, Text, text, text_eq, text_eq_iff, text_eq_refl,
  arith,
}
use pooly_sentinel.Effect.{ok}
use pooly_sentinel.Redaction.{Patterns, redact}
use pooly_sentinel.Storage.Records.{IncidentRecord}
use pooly_sentinel.Storage.Tables.{Tables, IncidentRow, find_row, put_row, has_id, put_incident}
use pooly_sentinel.Storage.Tables.Rows.{find_row-put_row_self, find_row-put_row_other}
use pooly_sentinel.Storage.Database.{Driver, Db, query_row}
use pooly_sentinel.Storage.Database.Calls.{
  exec_ok, with_database_ok, checked_ok, query_row_found, checked_found,
}
use pooly_sentinel.Storage.Columns.{column}
use pooly_sentinel.Storage.Columns.Reading.{
  string_from_null-null_string, IsReadable, or_zero, parse_time-format_time,
  scan_nullable_time-null_time, scan_found,
}
use pooly_sentinel.Storage.Validation.{
  nullable_string, nullable_time, time_or, required, required_fields, validate_incident,
}
use pooly_sentinel.Storage.Incidents.{
  incident_row, scan_incident, upsert_incident_row, upsert_incident, get_incident_row, get_incident,
}

-- The record that stands for what was written.
unfoldable pub kept_incident : Patterns → ℕ → IncidentRecord → IncidentRecord
unfolding nullable_string nullable_time time_or
kept_incident p now r = record r {
  fingerprint = redact p r.fingerprint;
  severity = redact p r.severity;
  status = redact p r.status;
  summary = redact p r.summary;
  first_seen = time_or now r.first_seen;
  last_seen = time_or now r.last_seen;
  last_alerted = nullable_time r.last_alerted;
  evidence_path = nullable_string p r.evidence_path;
  resolved_at = nullable_time r.resolved_at;
  last_transition = nullable_time r.last_transition;
  updated_at = time_or now r.updated_at;
}

-- The instants that are written are below the limit.
pub record IsBefore (limit now : ℕ) (r : IncidentRecord) : Type 0 where
  pub first_seen : time_or now r.first_seen < limit
  pub last_seen : time_or now r.last_seen < limit
  pub last_alerted : or_zero r.last_alerted < limit
  pub resolved_at : or_zero r.resolved_at < limit
  pub last_transition : or_zero r.last_transition < limit
  pub updated_at : time_or now r.updated_at < limit

validate_incident_id :
    (r : IncidentRecord) → validate_incident r ≡ ok tt → required r.id (text "incident id") ≡ ok tt
unfolding validate_incident required_fields required
validate_incident_id r h = ground arith

put_incident_rows :
    (r : IncidentRow) (t t' : Tables)
    → put_incident r t ≡ some t'
    → t'.incidents ≡ put_row (has_id r.id) r t.incidents
unfolding put_incident
put_incident_rows r t t' h = ground arith

module _ (p : Patterns) {W : Type 0} (d : Driver W) where
  upsert_incident_rows :
      (r : IncidentRecord) (s s' : Db W)
      → upsert_incident p d r s ≡ (ok tt, s')
      → (validate_incident r ≡ ok tt)
        × (s'.is_open ≡ true)
        × (s'.tables.incidents
            ≡ put_row (has_id r.id) (incident_row p d (d.now s.world) r) s.tables.incidents)
  unfolding upsert_incident upsert_incident_row incident_row
  upsert_incident_rows r s s' h =
      let (valid, rest) =
        checked_ok p d (text "upsert incident") (validate_incident r) _ s s' tt h in
      let (unlocked, ran) = with_database_ok p d (upsert_incident_row p d r) s s' tt rest in
      let (put, same) =
        exec_ok p d (text "upsert incident") (put_incident (incident_row p d (d.now s.world) r)) s
          s' ran in
      (valid, same ∙ unlocked, put_incident_rows _ s.tables s'.tables put)

  module _ (limit : ℕ) (readable : IsReadable d limit) where
    scan_incident-incident_row :
        (now : ℕ) (r : IncidentRecord)
        → IsBefore limit now r
        → scan_incident p d (incident_row p d now r) ≡ ok (kept_incident p now r)
    unfolding scan_incident incident_row kept_incident
    scan_incident-incident_row now r h =
        rw
          (
            parse_time-format_time p d limit readable now r.first_seen h.first_seen,
            parse_time-format_time p d limit readable now r.last_seen h.last_seen,
            scan_nullable_time-null_time p d limit readable now r.last_alerted h.last_alerted,
            scan_nullable_time-null_time p d limit readable now r.resolved_at h.resolved_at,
            parse_time-format_time p d limit readable now r.updated_at h.updated_at,
            scan_nullable_time-null_time p d limit readable now r.last_transition h.last_transition,
            string_from_null-null_string p r.evidence_path,
            column,
          )
          refl

    -- An incident whose upsert succeeded is read back by its id, with its texts redacted and with the present
    -- in place of a zero time, unless the driver fails, where the instants that are written are below a
    -- limit up to which the text of an instant parses as that instant.
    pub get_incident-upsert_incident :
        (r : IncidentRecord) (s s' : Db W)
        → IsBefore limit (d.now s.world) r
        → upsert_incident p d r s ≡ (ok tt, s')
        → (d.call s'.world).0 ≡ none
        → (get_incident p d r.id s').0 ≡ ok (kept_incident p (d.now s.world) r)
    unfolding get_incident get_incident_row incident_row
    get_incident-upsert_incident r s s' early h live =
        let row = incident_row p d (d.now s.world) r in
        let (valid, unlocked, rows) = upsert_incident_rows r s s' h in
        let select =
          query_row p d (text "scan incident") (λ t. find_row (has_id r.id) t.incidents) in
        checked_found p d (text "get incident") _ (get_incident_row p d r.id) s' _
          (validate_incident_id r valid) unlocked
          (scan_found select (scan_incident p d) s' row (
              query_row_found p d (text "scan incident") (λ t. find_row (has_id r.id) t.incidents)
                s' _ live
                (rw rows
                  (find_row-put_row_self (has_id r.id) row s.tables.incidents (text_eq_refl r.id))))
            ∙ scan_incident-incident_row (d.now s.world) r early)

  -- An incident of another id is as before.
  pub find_row-upsert_incident :
      (r : IncidentRecord) (id : Text) (s s' : Db W)
      → upsert_incident p d r s ≡ (ok tt, s')
      → text_eq r.id id ≡ false
      → find_row (has_id id) s'.tables.incidents ≡ find_row (has_id id) s.tables.incidents
  unfolding has_id incident_row
  find_row-upsert_incident r id s s' h other =
      let (valid, unlocked, rows) = upsert_incident_rows r s s' h in
      rw rows (
        find_row-put_row_other (has_id r.id) (incident_row p d (d.now s.world) r) (has_id id)
          s.tables.incidents other (λ x k. ground (arith, text_eq_iff x.id r.id)))
