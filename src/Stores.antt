-- ===== src/Stores.antt =====
-- internal/storage behind the interfaces of internal/incidents, internal/rules and internal/notify: the
-- methods of `Store`, and those of the two transactions in rule_transaction.go and
-- notification_transaction.go. The driver polls the context inside each of its calls. The
-- function of a transaction works on its transaction only, so a store and its transaction share one state.
pub mod Atomic
use pooly_sentinel.Prelude.{ℕ, Option, some, Text, text}
use pooly_sentinel.Effect.{Error, Exec, Context, ◌>>◌}
use pooly_sentinel.Redaction.{Patterns}
use pooly_sentinel.Storage.Records.{
  IncidentRecord, NotificationDeliveryRecord, RuleEvaluationStateRecord,
}
use pooly_sentinel.Storage.Database.{Driver, Db, check_input, transaction}
use pooly_sentinel.Storage.Validation.{
  required, validate_incident, validate_rule_evaluation_state, validate_notification_delivery,
}
use pooly_sentinel.Storage.Incidents.{
  upsert_incident_row, upsert_incident, get_incident, get_incident_by_fingerprint_row,
  get_incident_by_fingerprint, update_incident_last_alerted_row, check_last_alerted,
}
use pooly_sentinel.Storage.RuleState.{
  upsert_rule_state_row, upsert_rule_evaluation_state, check_rule_key, get_rule_state_row,
  get_rule_evaluation_state,
}
use pooly_sentinel.Storage.Deliveries.{insert_delivery_row, list_notification_deliveries}
use pooly_sentinel.Incidents.Lifecycle
use pooly_sentinel.Rules.Memory
use pooly_sentinel.Rules.Evaluation.{Outcome}
use pooly_sentinel.Rules.Engine.{Transactional, EngineStore}
use pooly_sentinel.Notify.Types

-- A context of the world outside, seen by code that works on a store.
unfoldable pub polled : {W : Type 0} → Db W → Option Error × W → Option Error × Db W
polled s (e, w) = (e, record s { world = w })

unfoldable pub on_world : {W : Type 0} → Context W → Context (Db W)
unfolding polled
on_world ctx = record { poll = λ s. polled s (ctx.poll s.world) }

module _ (p : Patterns) {W : Type 0} (d : Driver W) where
  -- The methods of `Store` that `incidents.Store` asks for.
  unfoldable pub incident_store : Lifecycle.Store (Db W)
  unfolding get_incident_by_fingerprint upsert_incident
  incident_store = record {
    get_incident_by_fingerprint = λ ctx fp. get_incident_by_fingerprint p d fp;
    upsert_incident = λ ctx r. upsert_incident p d r;
  }

  -- The methods of `Store` that `rules.Store` asks for.
  unfoldable pub rule_store : Memory.Store (Db W)
  unfolding get_rule_evaluation_state upsert_rule_evaluation_state incident_store
  rule_store = record {
    get_rule_evaluation_state = λ ctx rule_id target. get_rule_evaluation_state p d rule_id target;
    upsert_rule_evaluation_state = λ ctx r. upsert_rule_evaluation_state p d r;
    incidents = incident_store;
  }

  -- The methods of `ruleEvaluationTx`.
  unfoldable pub rule_tx : Memory.Store (Db W)
  unfolding check_rule_key check_input get_rule_state_row upsert_rule_state_row
      get_incident_by_fingerprint_row upsert_incident_row required validate_incident
      validate_rule_evaluation_state text
  rule_tx = record {
    get_rule_evaluation_state = λ ctx rule_id target.
        check_rule_key p d rule_id target >> get_rule_state_row p d rule_id target;
    upsert_rule_evaluation_state = λ ctx r.
        check_input p d (text "upsert rule evaluation state") (validate_rule_evaluation_state r)
        >> upsert_rule_state_row p d r;
    incidents = record {
      get_incident_by_fingerprint = λ ctx fp.
          check_input p d (text "get incident by fingerprint")
            (required fp (text "incident fingerprint"))
          >> get_incident_by_fingerprint_row p d fp;
      upsert_incident = λ ctx r.
          check_input p d (text "upsert incident") (validate_incident r)
          >> upsert_incident_row p d r;
    };
  }

  -- `RuleEvaluationTransaction`.
  unfoldable pub rule_evaluation_transaction : {A : Type 0} → Exec (Db W) A → Exec (Db W) A
  unfolding transaction text
  rule_evaluation_transaction =
      transaction p d (text "rule evaluation transaction begin")
        (text "rule evaluation transaction commit")

  -- `Store`, which the type assertion of `evaluateMaybeTransactional` finds to be transactional.
  unfoldable pub engine_store : EngineStore (Db W)
  unfolding rule_store rule_tx rule_evaluation_transaction
  engine_store = record {
    plain = rule_store;
    transactional = some (record { tx = rule_tx; run = λ ctx fn. rule_evaluation_transaction fn });
  }

  -- The methods of `notificationDeliveryTx`.
  unfoldable pub delivery_tx : Types.DeliveryTransaction (Db W)
  unfolding check_input insert_delivery_row validate_notification_delivery check_last_alerted
      update_incident_last_alerted_row text
  delivery_tx = record {
    insert_notification_delivery = λ ctx r.
        check_input p d (text "insert notification delivery") (validate_notification_delivery r)
        >> insert_delivery_row p d r;
    update_incident_last_alerted = λ ctx id alerted_at.
        check_last_alerted p d id alerted_at >> update_incident_last_alerted_row p d id alerted_at;
  }

  -- `NotificationDeliveryTransaction`.
  unfoldable pub delivery_transaction :
      (Types.DeliveryTransaction (Db W) → Exec (Db W) (Unit {0})) → Exec (Db W) (Unit {0})
  unfolding transaction delivery_tx text
  delivery_transaction fn =
      transaction p d (text "notification delivery transaction begin")
        (text "notification delivery transaction commit") (fn delivery_tx)

  -- The methods of `Store` that `notify.Store` asks for.
  unfoldable pub delivery_store : Types.Store (Db W)
  unfolding get_incident list_notification_deliveries delivery_transaction
  delivery_store = record {
    get_incident = λ ctx id. get_incident p d id;
    list_notification_deliveries = λ ctx id. list_notification_deliveries p d id;
    notification_delivery_transaction = λ ctx fn. delivery_transaction fn;
  }
