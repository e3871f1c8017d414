-- ===== src/Notify/Attempt.antt =====
-- internal/notify/delivery.go, `deliverToReceiver`. A clock is always given; a store may be missing.
pub mod Once
use pooly_sentinel.Prelude.{
  ℕ, ◌+◌, ℤ, pos, Bool, true, false, not, ◌&&◌, ◌||◌, Option, none, some, List, [], ◌∷◌, ◌++◌, Text,
  text, text_eq, is_empty, length, take, ltb, if◌then◌else◌,
}
use pooly_sentinel.Effect.{
  Error, Result, ok, err, message, Exec, Context, pure, raise, ◌>>=◌, ◌>>◌, check_context,
}
use pooly_sentinel.Redaction.{Patterns, redact}
use pooly_sentinel.Storage.Records.{IncidentRecord, NotificationDeliveryRecord}
use pooly_sentinel.Storage.Paths.{Filepath}
use pooly_sentinel.Incidents.Incident
use pooly_sentinel.Incidents.Incident.{
  Severity, severity_none, to_severity, Action, opened, reopened, escalated, action_resolved,
}
use pooly_sentinel.Notify.Types.{
  Event, event_opened, event_escalated, event_resolved, event_eq, Status, delivered, failed,
  dry_run, skipped, status_text, Payload, DeliveryResult, Report, DeliveryOutcome, Receiver,
  DeliveryTransaction, Store,
}
use pooly_sentinel.Notify.Report.{empty_report, add_result, add, skip_report, new_result}
use pooly_sentinel.Notify.Dedupe.{delivery_key, delivery_id, next_attempt}
use pooly_sentinel.Notify.Renderer.{render_payload}

pub record Service (S : Type 0) : Type 0 where
  pub enabled : Bool
  pub dry_run_mode : Bool
  pub store : Option (Store S)
  pub receivers : List (Receiver S)
  pub clock_now : S → ℕ × S
  pub evidence_root : Text

unfoldable pub nil_store : Error
unfolding text
nil_store = message (text "notification store is nil")

-- What `deliverToReceiver` and the functions above it return: a value, and the error beside it.
abbrev pub Reported : Type 0 → Type 0 → Type 0
Reported S A = A × Option Error × S

-- `if err != nil { return result, err }; return result, nil`.
unfoldable pub report_unit : {S A : Type 0} → A → Result (Unit {0}) × S → Reported S A
report_unit a (ok u, s) = (a, none, s)
report_unit a (err e, s) = (a, some e, s)

module _ (p : Patterns) where
  unfoldable pub safe_result_summary : Text → Text
  unfolding text
  safe_result_summary summary =
      let value = redact p summary in
      if is_empty value
      then text "notification delivery result"
      else if ltb 300 (length value)
      then take 300 value
      else value

  -- `record`, for an outcome, a key, an attempt and the instant after the attempt.
  unfoldable pub delivery_record :
      Text → Text → Text → DeliveryOutcome → Text → ℤ → ℕ → NotificationDeliveryRecord
  unfolding safe_result_summary
  delivery_record incident_id receiver_id cost_class outcome key attempt now = record {
    id = delivery_id key attempt;
    incident_id = incident_id;
    receiver = receiver_id;
    cost_class = cost_class;
    status = status_text (if outcome.success then delivered else failed);
    attempt = attempt;
    attempted_at = now;
    delivered_at = if outcome.success then some now else none;
    error_class = if outcome.success then [] else safe_result_summary outcome.error_class;
    error_summary = if outcome.success then [] else safe_result_summary outcome.summary;
  }

  -- `result` after the attempt.
  unfoldable pub attempt_result : DeliveryResult → DeliveryOutcome → DeliveryResult
  unfolding safe_result_summary
  attempt_result result outcome = record result {
    status = some (if outcome.success then delivered else failed);
    error_class = if outcome.success then [] else safe_result_summary outcome.error_class;
    summary = safe_result_summary outcome.summary;
  }

  module _ (sum256 : Text → Text) (format_time : ℕ → Text) (f : Filepath) {S : Type 0}
      (ctx : Context S) (service : Service S) where
    -- The function handed to `NotificationDeliveryTransaction`.
    unfoldable pub write_attempt :
        NotificationDeliveryRecord → Bool → Text → ℕ → DeliveryTransaction S → Exec S (Unit {0})
    write_attempt r success incident_id now tx =
        if success
        then (tx.insert_notification_delivery ctx r
            >> tx.update_incident_last_alerted ctx incident_id now)
        else tx.insert_notification_delivery ctx r

    -- From `receiver.Deliver` on.
    unfoldable pub attempt_delivery :
        Store S
        → Receiver S
        → Text
        → Payload
        → Text
        → ℤ
        → DeliveryResult
        → S
        → Reported S DeliveryResult
    unfolding write_attempt report_unit attempt_result
    attempt_delivery store receiver incident_id payload key attempt result s =
        let (outcome, s₁) = receiver.deliver ctx payload s in
        let (now, s₂) = service.clock_now s₁ in
        let r =
          delivery_record incident_id receiver.id receiver.cost_class outcome key attempt now in
        report_unit (attempt_result result outcome) (
          store.notification_delivery_transaction ctx
            (write_attempt r outcome.success incident_id now) s₂)

    -- From the list of earlier deliveries on.
    unfoldable pub deliver_unless_done :
        Store S
        → Receiver S
        → IncidentRecord
        → Payload
        → Event
        → DeliveryResult
        → Result (List NotificationDeliveryRecord) × S
        → Reported S DeliveryResult
    unfolding text attempt_delivery
    deliver_unless_done store receiver incident payload event result (err e, s) =
        (result, some e, s)
    deliver_unless_done store receiver incident payload event result (ok deliveries, s) =
        let key = delivery_key sum256 format_time incident receiver.id event in
        let (attempt, found) = next_attempt deliveries key in
        let result' = record result { attempt = attempt } in
        if found
        then (
          record result' {
            status = some skipped;
            summary = text "duplicate notification suppressed";
          },
          none,
          s,
        )
        else attempt_delivery store receiver incident.id payload key attempt result' s

    unfoldable pub deliver_to_receiver :
        Receiver S → IncidentRecord → Payload → Event → Severity → S → Reported S DeliveryResult
    unfolding text new_result nil_store deliver_unless_done
    deliver_to_receiver receiver incident payload event severity s =
        let result = new_result incident.id receiver.id event in
        if not receiver.enabled && not service.dry_run_mode
        then (record result { status = some skipped; summary = text "receiver disabled" }, none, s)
        else if not (receiver.matches event severity)
        then (
          record result { status = some skipped; summary = text "receiver filters did not match" },
          none,
          s,
        )
        else if service.dry_run_mode
        then (
          record result {
            status = some dry_run;
            summary = redact p (text "dry-run payload rendered for " ++ receiver.summary);
          },
          none,
          s,
        )
        else (elim service.store [
          | none ↦ (result, some nil_store, s)
          | some store ↦
              deliver_unless_done store receiver incident payload event result
                (store.list_notification_deliveries ctx incident.id s)
        ])
