-- ===== src/Notify/Types.antt =====
-- internal/notify/types.go.
use pooly_sentinel.Prelude.{ℕ, ℤ, Bool, true, false, Option, List, Text, text}
use pooly_sentinel.Effect.{Exec, Context}
use pooly_sentinel.Storage.Records.{IncidentRecord, NotificationDeliveryRecord}
use pooly_sentinel.Incidents.Incident.{Severity}

pub data Event : Type 0 where
  event_opened event_escalated event_resolved event_reopened : Event

unfoldable pub event_text : Event → Text
unfolding text
event_text event_opened = text "opened"
event_text event_escalated = text "escalated"
event_text event_resolved = text "resolved"
event_text event_reopened = text "reopened"

-- `a == b`.
unfoldable pub event_eq : Event → Event → Bool
event_eq event_opened event_opened = true
event_eq event_escalated event_escalated = true
event_eq event_resolved event_resolved = true
event_eq event_reopened event_reopened = true
event_eq _ _ = false

pub data Status : Type 0 where
  delivered failed dry_run skipped : Status

unfoldable pub status_text : Status → Text
unfolding text
status_text delivered = text "delivered"
status_text failed = text "failed"
status_text dry_run = text "dry_run"
status_text skipped = text "skipped"

-- The fields that the receivers read outside package `net/http`.
pub record ReceiverSpec : Type 0 where
  pub id : Text
  pub display_name : Text
  pub enabled : Bool
  pub type : Text
  pub url : Text
  pub events : List Event
  pub severities : List Severity
  pub cost_class : Text

pub record Payload : Type 0 where
  pub event : Event
  pub incident_id : Text
  pub fingerprint : Text
  pub node_id : Text
  pub type : Text
  pub target : Text
  pub condition : Text
  pub severity : Text
  pub status : Text
  pub summary : Text
  pub first_seen : ℕ
  pub last_seen : ℕ
  pub occurrence_count : ℤ
  pub last_transition : Option ℕ
  pub resolved_at : Option ℕ
  pub evidence_path : Text

-- The status of a result that an error cuts short is the empty string, `none`.
pub record DeliveryResult : Type 0 where
  pub incident_id : Text
  pub receiver_id : Text
  pub event : Event
  pub status : Option Status
  pub attempt : ℤ
  pub error_class : Text
  pub summary : Text

pub record Report : Type 0 where
  pub results : List DeliveryResult
  pub delivered_count : ℕ
  pub failed_count : ℕ
  pub skipped_count : ℕ
  pub dry_run_count : ℕ

pub record DeliveryOutcome : Type 0 where
  pub success : Bool
  pub error_class : Text
  pub summary : Text

-- The interface `Receiver`; `deliver` may change the world outside.
pub record Receiver (S : Type 0) : Type 0 where
  pub id : Text
  pub enabled : Bool
  pub type : Text
  pub cost_class : Text
  pub matches : Event → Severity → Bool
  pub summary : Text
  pub deliver : Context S → Payload → S → DeliveryOutcome × S

-- The interface `NotificationDeliveryTransaction` of internal/storage/notification_transaction.go.
pub record DeliveryTransaction (S : Type 0) : Type 0 where
  pub insert_notification_delivery : Context S → NotificationDeliveryRecord → Exec S (Unit {0})
  pub update_incident_last_alerted : Context S → Text → ℕ → Exec S (Unit {0})

-- The interface `Store`.
pub record Store (S : Type 0) : Type 0 where
  pub get_incident : Context S → Text → Exec S IncidentRecord
  pub list_notification_deliveries : Context S → Text → Exec S (List NotificationDeliveryRecord)
  pub notification_delivery_transaction :
      Context S → (DeliveryTransaction S → Exec S (Unit {0})) → Exec S (Unit {0})
