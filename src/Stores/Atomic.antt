-- ===== src/Stores/Atomic.antt =====
-- internal/storage/rule_transaction.go and notification_transaction.go as internal/rules/engine.go and
-- internal/notify/delivery.go use them: a failure leaves the tables as they were.
use pooly_sentinel.Prelude.{
  ◌≡◌, refl, ◌∙◌, ℕ, ℤ, Bool, true, false, not, ◌&&◌, none, some, List, Text, text, if◌then◌else◌,
}
use pooly_sentinel.Effect.{Error, Result, ok, err, Context, Exec}
use pooly_sentinel.Effect.Keeps.{then-Keeps}
use pooly_sentinel.Redaction.{Patterns}
use pooly_sentinel.Resources.{Float64, Observation}
use pooly_sentinel.Storage.Records.{IncidentRecord, NotificationDeliveryRecord}
use pooly_sentinel.Storage.Paths.{Filepath}
use pooly_sentinel.Storage.Tables.{Tables}
use pooly_sentinel.Storage.Database.{Driver, Db, check_input}
use pooly_sentinel.Storage.Database.Atomic.{Leaves, failed, succeeded, transaction-Leaves}
use pooly_sentinel.Storage.Database.Frame.{
  On, query_rows-Keeps, check_input-Keeps, with_database-Keeps,
}
use pooly_sentinel.Storage.Deliveries.{list_notification_deliveries}
use pooly_sentinel.Incidents.Incident.{Severity}
use pooly_sentinel.Rules.Condition.{Rule}
use pooly_sentinel.Rules.Evaluation.{evaluate_rule_target}
use pooly_sentinel.Rules.Engine.{Engine, evaluate_maybe_transactional}
use pooly_sentinel.Notify.Types
use pooly_sentinel.Notify.Types.{Event, Payload, DeliveryResult, Receiver}
use pooly_sentinel.Notify.Dedupe.{next_attempt, delivery_key}
use pooly_sentinel.Notify.Report.{new_result}
use pooly_sentinel.Notify.Attempt.{
  Service, Reported, delivery_record, attempt_result, write_attempt, report_unit, attempt_delivery,
  deliver_unless_done, deliver_to_receiver,
}
use pooly_sentinel.Stores.{
  on_world, engine_store, rule_tx, rule_evaluation_transaction, delivery_store, delivery_tx,
  delivery_transaction,
}

module _ (p : Patterns) {W : Type 0} (d : Driver W) where
  rule_evaluation_transaction-Leaves :
      {A : Type 0} (fn : Exec (Db W) A) (s : Db W)
      → Leaves s.tables (rule_evaluation_transaction p d fn s)
  unfolding rule_evaluation_transaction
  rule_evaluation_transaction-Leaves fn s =
      transaction-Leaves p d (text "rule evaluation transaction begin")
        (text "rule evaluation transaction commit") fn s

  delivery_transaction-Leaves :
      (fn : Types.DeliveryTransaction (Db W) → Exec (Db W) (Unit {0})) (s : Db W)
      → Leaves s.tables (delivery_transaction p d fn s)
  unfolding delivery_transaction
  delivery_transaction-Leaves fn s =
      transaction-Leaves p d (text "notification delivery transaction begin")
        (text "notification delivery transaction commit") (fn (delivery_tx p d)) s

  -- The evaluation of a rule at a target that ends in an error leaves the tables as they were: neither
  -- the memory of the rule nor the incident is changed without the other.
  pub evaluate_maybe_transactional-Leaves :
      (sum256 : Text → Text) {F : Type 0} (fl : Float64 F) (ctx : Context W) (e : Engine F)
      (r : Rule F) (target : Text) (os : List (Observation F)) (s : Db W)
      → Leaves s.tables (
          evaluate_maybe_transactional p sum256 fl
            (on_world ctx)
            (engine_store p d)
            e
            r
            target
            os
            s)
  unfolding evaluate_maybe_transactional engine_store
  evaluate_maybe_transactional-Leaves sum256 fl ctx e r target os s =
      rule_evaluation_transaction-Leaves
        (evaluate_rule_target p sum256 (on_world ctx) (rule_tx p d) fl r target e.node_id os
          e.clock_now)
        s

  -- An error of an attempt means tables as they were.
  abbrev FailsClean : {A : Type 0} → Tables → Reported (Db W) A → Type 0
  FailsClean before (a, e, s) = (x : Error) → e ≡ some x → s.tables ≡ before

  if-FailsClean :
      {A : Type 0} (b : Bool) (x y : Reported (Db W) A) (before : Tables)
      → FailsClean before x
      → FailsClean before y
      → FailsClean before (if b then x else y)
  if-FailsClean true x y before h k = h
  if-FailsClean false x y before h k = k

  report_unit-FailsClean :
      {A : Type 0} (a : A) (before : Tables) (out : Result (Unit {0}) × Db W)
      → Leaves before out
      → FailsClean before (report_unit a out)
  unfolding report_unit
  report_unit-FailsClean a before _ (failed e s h) x k = h
  report_unit-FailsClean a before _ (succeeded u s) x k = cc

  list_notification_deliveries_pure :
      (id : Text) (s : Db W) → (list_notification_deliveries p d id s).1.tables ≡ s.tables
  unfolding list_notification_deliveries
  list_notification_deliveries_pure id s =
      then-Keeps (On p d (λ t. t ≡ s.tables)) (check_input p d _ _) _
        (check_input-Keeps p d (λ t. t ≡ s.tables) _ _)
        (with_database-Keeps p d (λ t. t ≡ s.tables) _
          (query_rows-Keeps p d (λ t. t ≡ s.tables) _ _))
        s refl

  module _ (sum256 : Text → Text) (format_time : ℕ → Text) (f : Filepath) (ctx : Context (Db W))
      (service : Service (Db W)) (receiver : Receiver (Db W))
      (quiet : (payload : Payload) (s : Db W)
        → (receiver.deliver ctx payload s).1.tables ≡ s.tables)
      (ticks : (s : Db W) → (service.clock_now s).1.tables ≡ s.tables) where
    attempt_delivery-FailsClean :
        (incident_id : Text) (payload : Payload) (key : Text) (attempt : ℤ)
        (result : DeliveryResult) (s : Db W)
        → FailsClean s.tables (
            attempt_delivery p sum256 format_time f ctx service
              (delivery_store p d)
              receiver
              incident_id
              payload
              key
              attempt
              result
              s)
    unfolding attempt_delivery delivery_store
    attempt_delivery-FailsClean incident_id payload key attempt result s x k =
        let (outcome, s₁) = receiver.deliver ctx payload s in
        let (now, s₂) = service.clock_now s₁ in
        let r =
          delivery_record p incident_id receiver.id receiver.cost_class outcome key attempt now in
        report_unit-FailsClean (attempt_result p result outcome) s₂.tables
          (delivery_transaction p d
            (write_attempt p sum256 format_time f ctx service r outcome.success incident_id now) s₂)
          (delivery_transaction-Leaves
            (write_attempt p sum256 format_time f ctx service r outcome.success incident_id now) s₂)
          x k
        ∙ ticks s₁
        ∙ quiet payload s

    deliver_unless_done-FailsClean :
        (incident : IncidentRecord) (payload : Payload) (event : Event) (result : DeliveryResult)
        (before : Tables) (listed : Result (List NotificationDeliveryRecord) × Db W)
        → listed.1.tables ≡ before
        → FailsClean before (
            deliver_unless_done p sum256 format_time f ctx service
              (delivery_store p d)
              receiver
              incident
              payload
              event
              result
              listed)
    unfolding deliver_unless_done
    deliver_unless_done-FailsClean incident payload event result before (err e, s) h x k = h
    deliver_unless_done-FailsClean incident payload event result before (ok ds, s) h x k =
        let key = delivery_key sum256 format_time incident receiver.id event in
        let (attempt, found) = next_attempt ds key in
        let result' = record result { attempt = attempt } in
        if-FailsClean found
          (
            record result' {
              status = some Types.skipped;
              summary = text "duplicate notification suppressed";
            },
            none,
            s,
          )
          (attempt_delivery p sum256 format_time f ctx service (delivery_store p d) receiver
            incident.id payload key attempt result' s)
          before (λ y e. cc)
          (λ y e. attempt_delivery-FailsClean incident.id payload key attempt result' s y e ∙ h) x k

    deliver_to_receiver-FailsClean :
        (incident : IncidentRecord) (payload : Payload) (event : Event) (severity : Severity)
        (s : Db W)
        → service.store ≡ some (delivery_store p d)
        → FailsClean s.tables (
            deliver_to_receiver p sum256 format_time f ctx service receiver incident payload event
              severity s)
    unfolding deliver_to_receiver delivery_store list_notification_deliveries
    deliver_to_receiver-FailsClean incident payload event severity s stored =
        if-FailsClean (not receiver.enabled && not service.dry_run_mode) _ _ s.tables (λ y e. cc)
          (if-FailsClean (not (receiver.matches event severity)) _ _ s.tables (λ y e. cc)
            (if-FailsClean service.dry_run_mode _ _ s.tables (λ y e. cc)
              (rw stored (
                deliver_unless_done-FailsClean incident payload event
                  (new_result incident.id receiver.id event) s.tables
                  (list_notification_deliveries p d incident.id s)
                  (list_notification_deliveries_pure incident.id s)))))

    -- Where an attempt at a notification returns an error, since the earlier attempts could not be listed
    -- or the attempt could not be recorded, the tables are as they were, for a receiver and a clock that
    -- leave them alone: no attempt is recorded without the instant of the alert, or the other way round.
    pub deliver_to_receiver_atomic :
        (incident : IncidentRecord) (payload : Payload) (event : Event) (severity : Severity)
        (s : Db W) (x : Error)
        → service.store ≡ some (delivery_store p d)
        → (deliver_to_receiver p sum256 format_time f ctx service receiver incident payload event
            severity s).1
          ≡ some x
        → (deliver_to_receiver p sum256 format_time f ctx service receiver incident payload event
            severity s).2.tables
          ≡ s.tables
    deliver_to_receiver_atomic incident payload event severity s x stored h =
        deliver_to_receiver-FailsClean incident payload event severity s stored x h
