-- ===== src/Incidents/Lifecycle/Records.antt =====
-- internal/incidents/lifecycle.go: the records that `Apply` writes are well formed and stand for the next
-- life of the incident.
use pooly_sentinel.Prelude.{
  ℕ, ◌≡◌, ◌⊎◌, refl, true, false, none, some, Text, text, text_eq, text_eq_iff, text_eq_refl,
  is_empty, if◌then◌else◌, arith, Bool-cases, inl, inr, ◌==◌,
}
use pooly_sentinel.Redaction.{Patterns}
use pooly_sentinel.Storage.Records.{IncidentRecord}
use pooly_sentinel.Incidents.Incident.{
  Severity, warning, failure, critical, severity_text, to_severity, is_blank, open_status, resolved,
  status_text, Action, opened, updated, action_resolved, Candidate,
}
use pooly_sentinel.Incidents.Lifecycle.{
  reclassify, refreshed_record, resolved_record, still_resolved_record, opened_record,
}
use pooly_sentinel.Incidents.Lifecycle.Contract.{IsStored, next, life}

-- The severities that a candidate for an open incident has.
abbrev pub IsAlert : Severity → Type 0
IsAlert severity = (severity ≡ warning) ⊎ ((severity ≡ failure) ⊎ (severity ≡ critical))

to_severity-severity_text : (s : Severity) → IsAlert s → to_severity (severity_text s) ≡ s
unfolding to_severity severity_text text text_eq
to_severity-severity_text s h = ground arith

pub is_blank-alert : (s : Severity) → IsAlert s → is_blank s ≡ false
unfolding is_blank
is_blank-alert s h = ground arith

open_not_resolved : text_eq (status_text open_status) (status_text resolved) ≡ false
unfolding status_text text text_eq
open_not_resolved = refl

-- The instant that `Apply` works with.
abbrev pub instant : ℕ → Candidate → ℕ
instant clock c = if c.observed_at == 0 then clock else c.observed_at

module _ (p : Patterns) (c : Candidate) (now : ℕ) where
  -- The record that `updateActive` writes.
  abbrev pub updated_record : IncidentRecord → IncidentRecord
  updated_record r = refreshed_record p (reclassify r c now).1 c now

  pub reclassify-next :
      (r : IncidentRecord)
      → IsAlert c.severity
      → (life (some (updated_record r)), (reclassify r c now).0)
        ≡ next (life (some r)) true c.severity
  unfolding life next reclassify refreshed_record
  reclassify-next r a = ground (arith, to_severity-severity_text c.severity, open_not_resolved)

  pub updated_record-IsStored :
      (fp : Text) (r : IncidentRecord) → IsStored fp r → IsStored fp (updated_record r)
  unfolding reclassify refreshed_record
  updated_record-IsStored fp r h =
      ground (arith, open_not_resolved, text_eq_iff r.status (status_text resolved))

  pub opened_record-IsStored :
      (id fp : Text) → is_empty id ≡ false → IsStored fp (opened_record p id fp c now)
  unfolding opened_record
  opened_record-IsStored id fp h = record {
    named = refl;
    identified = h;
    status_known = inl (refl, refl);
  }

  pub opened_record-next :
      (id fp : Text)
      → IsAlert c.severity
      → (life (some (opened_record p id fp c now)), opened) ≡ next (life none) true c.severity
  unfolding life next opened_record
  opened_record-next id fp a =
      ground (arith, to_severity-severity_text c.severity, open_not_resolved)

  -- The action and the record of `resolve`.
  unfoldable pub resolution : IncidentRecord → Action × IncidentRecord
  resolution r =
      if text_eq r.status (status_text resolved)
      then (updated, still_resolved_record p r c now)
      else (action_resolved, resolved_record p r c now)

  pub resolution-next :
      (r : IncidentRecord)
      → (life (some (resolution r).1), (resolution r).0) ≡ next (life (some r)) false c.severity
  unfolding life next resolution still_resolved_record resolved_record
  resolution-next r = ground (arith, text_eq_refl (status_text resolved))

  pub resolution-IsStored :
      (fp : Text) (r : IncidentRecord) → IsStored fp r → IsStored fp (resolution r).1
  unfolding resolution still_resolved_record resolved_record
  resolution-IsStored fp r h = elim (Bool-cases (text_eq r.status (status_text resolved))) [
    | inl already ↦
        rw already
          (record { named = h.named; identified = h.identified; status_known = h.status_known })
    | inr first ↦ rw first (record {
      named = h.named;
      identified = h.identified;
      status_known = inr (refl, (now, refl));
    })
  ]
