-- ===== src/Notify/Delivery.antt =====
-- internal/notify/delivery.go: the delivery of incidents and transitions to all receivers.
pub mod Counts
use pooly_sentinel.Prelude.{
  ℕ, ◌+◌, ℤ, pos, Bool, true, false, not, ◌&&◌, ◌||◌, Option, none, some, List, [], ◌∷◌, ◌++◌, Text,
  text, text_eq, is_empty, length, take, ltb, if◌then◌else◌,
}
use pooly_sentinel.Effect.{
  Error, Result, ok, err, message, Exec, Context, pure, raise, ◌>>=◌, ◌>>◌, check_context,
}
use pooly_sentinel.Redaction.{Patterns, redact}
use pooly_sentinel.Storage.Records.{IncidentRecord, NotificationDeliveryRecord}
use pooly_sentinel.Storage.Paths.{Filepath}
use pooly_sentinel.Incidents.Incident
use pooly_sentinel.Incidents.Incident.{
  Severity, severity_none, to_severity, Action, opened, reopened, escalated, action_resolved,
}
use pooly_sentinel.Notify.Types.{
  Event, event_opened, event_escalated, event_resolved, event_eq, Status, delivered, failed,
  dry_run, skipped, status_text, Payload, DeliveryResult, Report, DeliveryOutcome, Receiver,
  DeliveryTransaction, Store,
}
use pooly_sentinel.Notify.Report.{empty_report, add_result, add, skip_report, new_result}
use pooly_sentinel.Notify.Dedupe.{delivery_key, delivery_id, next_attempt}
use pooly_sentinel.Notify.Renderer.{render_payload}
use pooly_sentinel.Notify.Attempt.{Service, nil_store, Reported, deliver_to_receiver}

unfoldable pub event_from_transition : Incident.Transition → Option Event
event_from_transition t = elim t.action [
  | opened ↦ some event_opened
  | reopened ↦ some event_opened
  | escalated ↦ some event_escalated
  | action_resolved ↦ some event_resolved
  | _ ↦ none
]

-- `severity`, for the receivers' filters.
unfoldable pub delivery_severity : IncidentRecord → Event → Severity
delivery_severity incident event =
    if event_eq event event_resolved then severity_none else to_severity incident.severity

module _ {S : Type 0} where
  -- What an iteration of the loop of `DeliverIncident` leaves to do.
  unfoldable pub go_on :
      Report → Reported S DeliveryResult → (Report → S → Reported S Report) → Reported S Report
  go_on report (result, none, s) rest = rest (add_result report result) s
  go_on report (result, some e, s) rest = (add_result report result, some e, s)

  -- `if err := ctx.Err(); err != nil { return report, err }`.
  unfoldable pub unless_canceled :
      Report → Option Error × S → (S → Reported S Report) → Reported S Report
  unless_canceled report (none, s) rest = rest s
  unless_canceled report (some e, s) rest = (report, some e, s)

  -- What an iteration of the loop of `DeliverTransitions` leaves to do after `DeliverIncident`.
  unfoldable pub go_on_with :
      Report → Reported S Report → (Report → S → Reported S Report) → Reported S Report
  go_on_with report (partial, none, s) rest = rest (add report partial) s
  go_on_with report (partial, some e, s) rest = (add report partial, some e, s)

module _ (p : Patterns) (sum256 : Text → Text) (format_time : ℕ → Text) (f : Filepath) {S : Type 0}
    (ctx : Context S) (service : Service S) where
  unfoldable pub deliver_to_all :
      IncidentRecord
      → Payload
      → Event
      → Severity
      → List (Receiver S)
      → Report
      → S
      → Reported S Report
  unfolding go_on unless_canceled deliver_to_receiver
  deliver_to_all incident payload event severity [] report s = (report, none, s)
  deliver_to_all incident payload event severity (receiver ∷ rest) report s =
      unless_canceled report (ctx.poll s) (λ s₁.
        go_on report
          (deliver_to_receiver p sum256 format_time f ctx service receiver incident payload event
            severity s₁)
          (deliver_to_all incident payload event severity rest))

  -- From the test `len(s.Receivers) == 0` on.
  unfoldable pub deliver_enabled :
      IncidentRecord → Event → List (Receiver S) → S → Reported S Report
  unfolding text deliver_to_all delivery_severity
  deliver_enabled incident event [] s =
      (skip_report incident.id event (text "no receivers configured"), none, s)
  deliver_enabled incident event (receiver ∷ rest) s =
      deliver_to_all incident (render_payload p f service.evidence_root incident event) event
        (delivery_severity incident event) (receiver ∷ rest) empty_report s

  unfoldable pub deliver_incident : IncidentRecord → Event → S → Reported S Report
  unfolding text unless_canceled deliver_enabled
  deliver_incident incident event s = unless_canceled empty_report (ctx.poll s) (λ s₁.
      if not service.enabled && not service.dry_run_mode
      then (skip_report incident.id event (text "notifications disabled"), none, s₁)
      else deliver_enabled incident event service.receivers s₁)

  -- From the lookup of the incident on.
  unfoldable pub deliver_found :
      Report
      → Event
      → Result IncidentRecord × S
      → (Report → S → Reported S Report)
      → Reported S Report
  unfolding deliver_incident go_on_with
  deliver_found report event (err e, s) rest = (report, some e, s)
  deliver_found report event (ok incident, s) rest =
      go_on_with report (deliver_incident incident event s) rest

  unfoldable pub deliver_all : List Incident.Transition → Report → S → Reported S Report
  unfolding event_from_transition nil_store deliver_found
  deliver_all [] report s = (report, none, s)
  deliver_all (t ∷ rest) report s = elim (event_from_transition t) [
    | none ↦ deliver_all rest report s
    | some event ↦ (elim service.store [
      | none ↦ (report, some nil_store, s)
      | some store ↦
          deliver_found report event (store.get_incident ctx t.incident_id s) (deliver_all rest)
    ])
  ]

  unfoldable pub deliver_transitions : List Incident.Transition → S → Reported S Report
  unfolding deliver_all
  deliver_transitions transitions = deliver_all transitions empty_report
