-- ===== src/Incidents/Lifecycle/Contract.antt =====
-- internal/incidents/lifecycle.go: what the engine relies on in its store, what it keeps of every
-- record in it, and the life of an incident that its operations implement.
use pooly_sentinel.Prelude.{
  ℕ, ◌≡◌, ◌⊎◌, Bool, true, false, Option, none, some, Text, text_eq, is_empty, ltb, if◌then◌else◌,
}
use pooly_sentinel.Effect.{Error, ok, err, Context, is_error, not_found}
use pooly_sentinel.Storage.Records.{IncidentRecord}
use pooly_sentinel.Incidents.Incident.{
  Severity, severity_rank, to_severity, open_status, resolved, status_text, Action, action_none,
  opened, updated, escalated, action_resolved, reopened,
}
use pooly_sentinel.Incidents.Lifecycle.{Store}

-- A store that keeps one record for each fingerprint and does not fail, under a context that is not
-- canceled.
pub record Reliable {S : Type 0} (ctx : Context S) (store : Store S) : Type 0 where
  pub view : S → Text → Option IncidentRecord
  pub put : IncidentRecord → S → S
  pub poll_live : (s : S) → ctx.poll s ≡ (none, s)
  pub get_found :
      (s : S) (fp : Text) (r : IncidentRecord)
      → view s fp ≡ some r
      → store.get_incident_by_fingerprint ctx fp s ≡ (ok r, s)
  pub missing : Error
  pub missing_is : is_error missing not_found ≡ true
  pub get_missing :
      (s : S) (fp : Text)
      → view s fp ≡ none
      → store.get_incident_by_fingerprint ctx fp s ≡ (err missing, s)
  pub upsert_puts : (s : S) (r : IncidentRecord) → store.upsert_incident ctx r s ≡ (ok tt, put r s)
  pub view-put :
      (s : S) (r : IncidentRecord) (fp : Text)
      → view (put r s) fp ≡ (if text_eq r.fingerprint fp then some r else view s fp)

-- A record under its fingerprint: it has an id, it is open or resolved, and an instant of resolution
-- exactly in the second case.
pub record IsStored (fp : Text) (r : IncidentRecord) : Type 0 where
  pub named : r.fingerprint ≡ fp
  pub identified : is_empty r.id ≡ false
  pub status_known :
      ((r.status ≡ status_text open_status) × (r.resolved_at ≡ none))
      ⊎ ((r.status ≡ status_text resolved) × ((t : ℕ) × (r.resolved_at ≡ some t)))

-- The life of one incident.
pub data Life : Type 0 where
  absent : Life
  open_at : Severity → Life
  over : Life

-- What a candidate does to it, by whether it is active and its severity.
unfoldable pub next : Life → Bool → Severity → Life × Action
next absent false severity = (absent, action_none)
next absent true severity = (open_at severity, opened)
next (open_at before) false severity = (over, action_resolved)
next (open_at before) true severity = (
  open_at severity,
  if ltb (severity_rank before) (severity_rank severity) then escalated else updated,
)
next over false severity = (over, updated)
next over true severity = (open_at severity, reopened)

-- The life that a record of the store stands for.
unfoldable pub life : Option IncidentRecord → Life
life none = absent
life (some r) =
    if text_eq r.status (status_text resolved) then over else open_at (to_severity r.severity)
