-- ===== src/Notify/Attempt/Once.antt =====
-- internal/notify/delivery.go and dedupe.go: a notification that was delivered is not sent again.
use pooly_sentinel.Prelude.{
  ℕ, ℤ, ◌≡◌, refl, ap, ◌∙◌, Bool, true, false, none, some, List, [], ◌∷◌, ◌++◌, Text, text,
  text_eq_refl, has_prefix, any, arith,
}
use pooly_sentinel.Effect.{Context, ok, Exec, bind-eq_ok}
use pooly_sentinel.Redaction.{Patterns}
use pooly_sentinel.Storage.Records.{IncidentRecord, NotificationDeliveryRecord}
use pooly_sentinel.Storage.Paths.{Filepath}
use pooly_sentinel.Incidents.Incident.{Severity}
use pooly_sentinel.Notify.Types.{
  Event, Payload, DeliveryResult, DeliveryOutcome, Receiver, Store, DeliveryTransaction, delivered,
  skipped, status_text,
}
use pooly_sentinel.Notify.Report.{new_result}
use pooly_sentinel.Notify.Dedupe.{delivery_key, delivery_id, attempt_prefix, next_attempt}
use pooly_sentinel.Notify.Dedupe.Attempts.{is_success, is_under, count_attempts-found}
use pooly_sentinel.Notify.Attempt.{
  Service, Reported, report_unit, attempt_result, delivery_record, write_attempt, attempt_delivery,
  deliver_unless_done, deliver_to_receiver,
}

-- A store that lists what was recorded of an incident, and commits what a transaction that succeeds
-- has written.
pub record Recording {S : Type 0} (ctx : Context S) (store : Store S) : Type 0 where
  pub log : S → Text → List NotificationDeliveryRecord
  pub listed :
      (s : S) (id : Text) → store.list_notification_deliveries ctx id s ≡ (ok (log s id), s)
  pub tx : DeliveryTransaction S
  pub put : NotificationDeliveryRecord → S → S
  pub mark : Text → ℕ → S → S
  pub inserts :
      (s : S) (r : NotificationDeliveryRecord)
      → tx.insert_notification_delivery ctx r s ≡ (ok tt, put r s)
  pub updates :
      (s : S) (id : Text) (t : ℕ)
      → tx.update_incident_last_alerted ctx id t s ≡ (ok tt, mark id t s)
  pub commits :
      (s s' : S) (fn : DeliveryTransaction S → Exec S (Unit {0}))
      → fn tx s ≡ (ok tt, s')
      → store.notification_delivery_transaction ctx fn s ≡ (ok tt, s')
  pub log-put :
      (s : S) (r : NotificationDeliveryRecord) (q : NotificationDeliveryRecord → Bool)
      → q r ≡ true
      → any q (log (put r s) r.incident_id) ≡ true
  pub log-mark : (s : S) (id : Text) (t : ℕ) (i : Text) → log (mark id t s) i ≡ log s i

has_prefix-append : (s t : Text) → has_prefix (s ++ t) s ≡ true
unfolding has_prefix
has_prefix-append [] t = refl
has_prefix-append (c ∷ s) t = ground (arith, has_prefix-append s t)

delivery_id-is_under :
    (key : Text) (n : ℤ) → has_prefix (delivery_id key n) (attempt_prefix key) ≡ true
unfolding delivery_id
delivery_id-is_under key n = has_prefix-append (attempt_prefix key) _

next_attempt-found :
    (key : Text) (ds : List NotificationDeliveryRecord)
    → (next_attempt ds key).1 ≡ any (is_success key) ds
unfolding next_attempt
next_attempt-found key ds = count_attempts-found key ds _ false

module _ (p : Patterns) (sum256 : Text → Text) (format_time : ℕ → Text) (f : Filepath) {S : Type 0}
    (ctx : Context S) (service : Service S) (store : Store S)
    (recording : Recording ctx store) where
  open recording use {log, listed, tx, put, mark, inserts, updates, commits, log-put, log-mark}

  module _ (receiver : Receiver S) (incident : IncidentRecord) (payload : Payload)
      (event : Event) where
    abbrev key : Text
    key = delivery_key sum256 format_time incident receiver.id event

    write_attempt-run :
        (success : Bool) (r : NotificationDeliveryRecord) (now : ℕ) (s : S)
        → success ≡ true
        → write_attempt p sum256 format_time f ctx service r success incident.id now tx s
          ≡ (ok tt, mark incident.id now (put r s))
    unfolding write_attempt
    write_attempt-run true r now s h =
        bind-eq_ok (tx.insert_notification_delivery ctx r) _ (inserts s r)
        ∙ updates (put r s) incident.id now
    write_attempt-run false r now s h = ground arith

    delivery_record-is_success :
        (outcome : DeliveryOutcome) (n : ℤ) (now : ℕ)
        → outcome.success ≡ true
        → is_success key
            (delivery_record p incident.id receiver.id receiver.cost_class outcome key n now)
          ≡ true
    unfolding is_success is_under delivery_record
    delivery_record-is_success outcome n now h =
        rw (delivery_id-is_under key n, h) (text_eq_refl (status_text delivered))

    -- An attempt that succeeds leaves a record of success under its key.
    attempt_delivery-run :
        (n : ℤ) (result : DeliveryResult) (s : S)
        → (receiver.deliver ctx payload s).0.success ≡ true
        → (r : DeliveryResult) × (s' : S) × (attempt_delivery p sum256 format_time f ctx service
              store receiver incident.id payload key n result s
            ≡ (r, none, s'))
          × (r.status ≡ some delivered)
          × (any (is_success key) (log s' incident.id) ≡ true)
    unfolding attempt_delivery attempt_result delivery_record report_unit
    attempt_delivery-run n result s sent =
        let (outcome, s₁) = receiver.deliver ctx payload s in
        let (now, s₂) = service.clock_now s₁ in
        let r = delivery_record p incident.id receiver.id receiver.cost_class outcome key n now in
        let s' = mark incident.id now (put r s₂) in
        (
          attempt_result p result outcome,
          s',
          ap (report_unit (attempt_result p result outcome))
              (commits s₂ s' _ (write_attempt-run outcome.success r now s₂ sent)),
          rw sent refl,
          rw (log-mark (put r s₂) incident.id now incident.id)
              (log-put s₂ r (is_success key) (delivery_record-is_success outcome n now sent)),
        )

    -- A duplicate is suppressed, and the store and the receiver are left alone.
    done-run :
        (result : DeliveryResult) (s : S)
        → any (is_success key) (log s incident.id) ≡ true
        → (r : DeliveryResult) × (deliver_unless_done p sum256 format_time f ctx service store
              receiver incident payload event result
              (ok (log s incident.id), s)
            ≡ (r, none, s))
          × (r.status ≡ some skipped)
    unfolding deliver_unless_done
    done-run result s found = (
      record result {
        attempt = (next_attempt (log s incident.id) key).0;
        status = some skipped;
        summary = text "duplicate notification suppressed";
      },
      rw (next_attempt-found key (log s incident.id) ∙ found) refl,
      refl,
    )

    fresh-run :
        (result : DeliveryResult) (s : S)
        → any (is_success key) (log s incident.id) ≡ false
        → deliver_unless_done p sum256 format_time f ctx service store receiver incident payload
            event result
            (ok (log s incident.id), s)
          ≡ attempt_delivery p sum256 format_time f ctx service store receiver incident.id payload
              key
              (next_attempt (log s incident.id) key).0
              (record result { attempt = (next_attempt (log s incident.id) key).0 })
              s
    unfolding deliver_unless_done
    fresh-run result s fresh = rw (next_attempt-found key (log s incident.id) ∙ fresh) refl

    module _ (severity : Severity) (enabled : receiver.enabled ≡ true)
        (heard : receiver.matches event severity ≡ true) (live : service.dry_run_mode ≡ false)
        (given : service.store ≡ some store) where
      abbrev deliver : S → Reported S DeliveryResult
      deliver =
          deliver_to_receiver p sum256 format_time f ctx service receiver incident payload event
            severity

      open_run :
          (s : S)
          → deliver s
            ≡ deliver_unless_done p sum256 format_time f ctx service store receiver incident payload
                event
                (new_result incident.id receiver.id event)
                (ok (log s incident.id), s)
      unfolding deliver_to_receiver
      open_run s = rw (enabled, heard, live, given, listed s incident.id) refl

      -- A receiver that is enabled and hears of the event, and whose attempt succeeds where none under the
      -- key was recorded as delivered, reports a delivery; and the same call right after it is skipped,
      -- with the receiver and the store left alone.
      pub delivered_once :
          (s : S)
          → any (is_success key) (log s incident.id) ≡ false
          → (receiver.deliver ctx payload s).0.success ≡ true
          → (r : DeliveryResult) × (r' : DeliveryResult) × (s' : S) × (deliver s ≡ (r, none, s'))
            × (r.status ≡ some delivered)
            × (deliver s' ≡ (r', none, s'))
            × (r'.status ≡ some skipped)
      delivered_once s fresh sent =
          let result = new_result incident.id receiver.id event in
          let n = (next_attempt (log s incident.id) key).0 in
          let (r, s', ran, good, kept) =
            attempt_delivery-run n (record result { attempt = n }) s sent in
          let (r', again, skip) = done-run result s' kept in
          (
            r,
            r',
            s',
            open_run s ∙ (fresh-run result s fresh ∙ ran),
            good,
            open_run s' ∙ again,
            skip,
          )
