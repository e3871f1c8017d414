-- ===== src/Storage/Records.antt =====
-- internal/storage/records.go. A `time.Time` is the number of nanoseconds since the zero time, and a
-- `*time.Time` an optional one; `UTC` changes the time zone only, so it is the identity here.
use pooly_sentinel.Prelude.{ℕ, ℤ, Option, Text}

pub record MetadataRecord : Type 0 where
  pub key : Text
  pub value : Text
  pub updated_at : ℕ

pub record CollectorStateRecord : Type 0 where
  pub collector : Text
  pub target : Text
  pub status : Text
  pub state_json : Text
  pub last_attempt_at : Option ℕ
  pub last_success_at : Option ℕ
  pub last_error_class : Text
  pub last_error_summary : Text
  pub updated_at : ℕ

pub record IncidentRecord : Type 0 where
  pub id : Text
  pub fingerprint : Text
  pub node_id : Text
  pub type : Text
  pub target : Text
  pub condition : Text
  pub severity : Text
  pub status : Text
  pub summary : Text
  pub first_seen : ℕ
  pub last_seen : ℕ
  pub last_alerted : Option ℕ
  pub occurrence_count : ℤ
  pub evidence_path : Text
  pub resolved_at : Option ℕ
  pub last_transition : Option ℕ
  pub updated_at : ℕ

pub record NotificationDeliveryRecord : Type 0 where
  pub id : Text
  pub incident_id : Text
  pub receiver : Text
  pub cost_class : Text
  pub status : Text
  pub attempt : ℤ
  pub attempted_at : ℕ
  pub delivered_at : Option ℕ
  pub error_class : Text
  pub error_summary : Text

pub record RuleEvaluationStateRecord : Type 0 where
  pub rule_id : Text
  pub target : Text
  pub state : Text
  pub severity : Text
  pub condition_met_since : Option ℕ
  pub recovery_since : Option ℕ
  pub last_evaluated_at : ℕ
  pub last_observed_at : Option ℕ
  pub last_result_summary : Text
  pub pending_severity : Text
  pub updated_at : ℕ
