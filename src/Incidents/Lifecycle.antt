-- ===== src/Incidents/Lifecycle.antt =====
-- internal/incidents/lifecycle.go. The store is an interface; a context and a store are always
-- given, so the checks for nil have no counterpart.
pub mod Contract
pub mod Records
pub mod Refinement
pub mod Occurrences
use pooly_sentinel.Prelude.{
  ℕ, Bool, true, false, not, Option, none, some, Text, text, text_eq, is_empty, length, take, ltb,
  ◌==◌, if◌then◌else◌, incr_int64, pos, [],
}
use pooly_sentinel.Effect.{
  Result, ok, err, Exec, Context, pure, raise, lift, ◌>>=◌, ◌>>◌, check_context, message, is_error,
  not_found,
}
use pooly_sentinel.Redaction.{Patterns, redact}
use pooly_sentinel.Storage.Records.{IncidentRecord}
use pooly_sentinel.Incidents.Incident.{
  severity_none, severity_text, to_severity, severity_eq, severity_rank, is_blank, open_status,
  resolved, status_text, Action, action_none, opened, updated, escalated, action_resolved, reopened,
  Candidate, Transition,
}
use pooly_sentinel.Incidents.Fingerprint.{
  normalize_fingerprint_component, fingerprint, incident_id_for_fingerprint,
}

-- The interface `Store`.
pub record Store (S : Type 0) : Type 0 where
  pub get_incident_by_fingerprint : Context S → Text → Exec S IncidentRecord
  pub upsert_incident : Context S → IncidentRecord → Exec S (Unit {0})

pub transition : Action → IncidentRecord → Transition
transition action r = record {
  action = action;
  incident_id = r.id;
  fingerprint = r.fingerprint;
  severity = to_severity r.severity;
  status = r.status;
  summary = r.summary;
}

-- The transition of a candidate that is not active, for an incident that the store does not know.
pub unknown_transition : Text → Text → Transition
unknown_transition id fp = record {
  action = action_none;
  incident_id = id;
  fingerprint = fp;
  severity = severity_none;
  status = status_text resolved;
  summary = [];
}

-- What `errors.Is(err, storage.ErrNotFound)` makes of a lookup: no record, and no failure.
unfoldable pub or_missing : Result IncidentRecord → Result (Option IncidentRecord)
or_missing (ok r) = ok (some r)
or_missing (err e) = if is_error e not_found then ok none else err e

-- The `if` chain at the head of `updateActive`.
pub reclassify : IncidentRecord → Candidate → ℕ → Action × IncidentRecord
reclassify r c now =
    if text_eq r.status (status_text resolved)
    then (reopened, record r { resolved_at = none; last_transition = some now })
    else if ltb (severity_rank (to_severity r.severity)) (severity_rank c.severity)
    then (escalated, record r { last_transition = some now })
    else if not (severity_eq (to_severity r.severity) c.severity)
    then (updated, record r { last_transition = some now })
    else (updated, r)

module _ (p : Patterns) where
  unfoldable pub safe_summary : Text → Text
  safe_summary summary =
      let value = redact p summary in
      if ltb 240 (length value)
      then take 240 value
      else if is_empty value
      then text "rule condition observed"
      else value

  or_redacted : Text → Result Text → Text
  or_redacted value (ok normalized) = normalized
  or_redacted value (err e) = redact p value

  unfoldable pub normalize_for_record : Text → Text
  unfolding or_redacted
  normalize_for_record value = or_redacted value (normalize_fingerprint_component p value)

  -- The record that `Apply` builds for an incident that the store does not know.
  pub opened_record : Text → Text → Candidate → ℕ → IncidentRecord
  opened_record incident_id fp c now = record {
    id = incident_id;
    fingerprint = fp;
    node_id = normalize_for_record c.node_id;
    type = normalize_for_record c.type;
    target = normalize_for_record c.target;
    condition = normalize_for_record c.condition;
    severity = severity_text c.severity;
    status = status_text open_status;
    summary = safe_summary c.summary;
    first_seen = now;
    last_seen = now;
    last_alerted = none;
    occurrence_count = pos 1;
    evidence_path = redact p c.evidence_path;
    resolved_at = none;
    last_transition = some now;
    updated_at = now;
  }

  -- The assignments of `updateActive` that cannot fail.
  pub refreshed_record : IncidentRecord → Candidate → ℕ → IncidentRecord
  refreshed_record r c now = record r {
    status = status_text open_status;
    severity = severity_text c.severity;
    summary = safe_summary c.summary;
    last_seen = now;
    occurrence_count = incr_int64 r.occurrence_count;
    updated_at = now;
    evidence_path = if is_empty r.evidence_path then redact p c.evidence_path else r.evidence_path;
  }

  pub resolved_record : IncidentRecord → Candidate → ℕ → IncidentRecord
  resolved_record r c now = record r {
    status = status_text resolved;
    severity = severity_text severity_none;
    summary = safe_summary c.summary;
    last_seen = now;
    resolved_at = some now;
    last_transition = some now;
    updated_at = now;
  }

  -- The record of an incident that was resolved already.
  pub still_resolved_record : IncidentRecord → Candidate → ℕ → IncidentRecord
  still_resolved_record r c now = record r {
    last_seen = now;
    updated_at = now;
    summary = safe_summary c.summary;
  }

  module _ (sum256 : Text → Text) {S : Type 0} (ctx : Context S) (store : Store S) where
    -- `if record.Fingerprint == ""`, then `if record.ID == ""`.
    pub fill_identity : IncidentRecord → Candidate → Exec S IncidentRecord
    fill_identity r c = do
      fp ← lift (
          if is_empty r.fingerprint
          then fingerprint p c.node_id c.type c.target c.condition
          else ok r.fingerprint)
      id ← lift (if is_empty r.id then incident_id_for_fingerprint sum256 fp else ok r.id)
      pure (record r { fingerprint = fp; id = id })

    pub update_active : IncidentRecord → Candidate → ℕ → Exec S Transition
    unfolding fill_identity reclassify refreshed_record transition
    update_active r c now =
        let (action, r₁) = reclassify r c now in
        fill_identity (refreshed_record r₁ c now) c >>= λ r₂.
        store.upsert_incident ctx r₂ >> pure (transition action r₂)

    pub resolve : IncidentRecord → Candidate → ℕ → Exec S Transition
    unfolding still_resolved_record resolved_record transition
    resolve r c now =
        if text_eq r.status (status_text resolved)
        then store.upsert_incident ctx (still_resolved_record r c now)
          >> pure (transition updated (still_resolved_record r c now))
        else store.upsert_incident ctx (resolved_record r c now)
          >> pure (transition action_resolved (resolved_record r c now))

    pub find_existing : Text → Exec S (Option IncidentRecord)
    unfolding or_missing
    find_existing fp s =
        let (r, s') = store.get_incident_by_fingerprint ctx fp s in (or_missing r, s')

    -- The rest of `Apply`, once it has looked the fingerprint up.
    pub settle : Text → Text → Candidate → ℕ → Bool → Option IncidentRecord → Exec S Transition
    unfolding unknown_transition opened_record update_active resolve transition
    settle id fp c now false none = pure (unknown_transition id fp)
    settle id fp c now false (some r) = resolve r c now
    settle id fp c now true none =
        if is_blank c.severity
        then raise (message (text "active incident candidate requires severity"))
        else store.upsert_incident ctx (opened_record id fp c now)
          >> pure (transition opened (opened_record id fp c now))
    settle id fp c now true (some r) =
        if is_blank c.severity
        then raise (message (text "active incident candidate requires severity"))
        else update_active r c now

    -- `clock` is what the engine's clock shows.
    unfoldable pub apply : ℕ → Candidate → Exec S Transition
    unfolding settle find_existing
    apply clock c = do
      check_context ctx
      let now = if c.observed_at == 0 then clock else c.observed_at
      fp ← lift (fingerprint p c.node_id c.type c.target c.condition)
      id ← lift (incident_id_for_fingerprint sum256 fp)
      existing ← find_existing fp
      settle id fp c now c.active existing
