-- ===== src/Tests/NotifyRuns.antt =====
-- Runs of internal/notify, over a store that never fails.
use pooly_sentinel.Prelude.{
  ℕ, ◌≡◌, refl, ap, pos, leb_ℤ, Bool, true, false, Option, none, some, List, [], ◌∷◌, Text, text,
  text_eq, text_eq_refl, any, all, if◌then◌else◌,
}
use pooly_sentinel.Effect.{ok, err, Error, Result}
use pooly_sentinel.Storage.Records.{IncidentRecord, NotificationDeliveryRecord}
use pooly_sentinel.Incidents.Incident
use pooly_sentinel.Incidents.Incident.{opened, warning, severity_eq}
use pooly_sentinel.Notify.Types.{
  event_opened, event_eq, ReceiverSpec, Receiver, DeliveryResult, Store, DeliveryTransaction,
  delivered, skipped,
}
use pooly_sentinel.Notify.Dedupe.{next_attempt, delivery_key}
use pooly_sentinel.Notify.Dedupe.Attempts.{
  has_successor, is_earlier, is_success, next_attempt-covers,
}
use pooly_sentinel.Notify.Receiver.{noop_receiver, noop_deliver, noop_outcome, outcome, matches}
use pooly_sentinel.Notify.Renderer.{render_payload}
use pooly_sentinel.Notify.Report.Counters.{IsCounted}
use pooly_sentinel.Notify.Attempt.{Service, deliver_to_receiver}
use pooly_sentinel.Notify.Delivery.{deliver_transitions}
use pooly_sentinel.Notify.Delivery.Counts.{deliver_transitions-IsCounted}
use pooly_sentinel.Notify.Attempt.Once.{Recording, delivered_once}
use pooly_sentinel.Tests.Fixtures.{no_patterns, zero_digest, always_live, unix_paths}

abbrev Log : Type 0
Log = List NotificationDeliveryRecord

for_incident : Log → Text → Log
for_incident [] id = []
for_incident (r ∷ rs) id =
    let rest = for_incident rs id in if text_eq r.incident_id id then r ∷ rest else rest

abbrev log_tx : DeliveryTransaction Log
log_tx = record {
  insert_notification_delivery = λ ctx r s. (ok tt, r ∷ s);
  update_incident_last_alerted = λ ctx id t s. (ok tt, s);
}

abbrev pub cpu_incident : IncidentRecord
cpu_incident = record {
  id = text "inc_1";
  fingerprint = text "n:cpu:host:load";
  node_id = text "n";
  type = text "cpu";
  target = text "host";
  condition = text "load";
  severity = text "warn";
  status = text "open";
  summary = text "load is high";
  first_seen = 5;
  last_seen = 7;
  last_alerted = none;
  occurrence_count = pos 2;
  evidence_path = [];
  resolved_at = none;
  last_transition = some 5;
  updated_at = 7;
}

-- What a transaction leaves of the log that it started with.
commit_or_roll_back : Log → Result (Unit {0}) × Log → Result (Unit {0}) × Log
commit_or_roll_back before (ok u, after) = (ok u, after)
commit_or_roll_back before (err e, after) = (err e, before)

abbrev log_store : Store Log
log_store = record {
  get_incident = λ ctx id s. (ok cpu_incident, s);
  list_notification_deliveries = λ ctx id s. (ok (for_incident s id), s);
  notification_delivery_transaction = λ ctx fn s. commit_or_roll_back s (fn log_tx s);
}

for_incident-put :
    (s : Log) (r : NotificationDeliveryRecord) (q : NotificationDeliveryRecord → Bool)
    → q r ≡ true
    → any q (for_incident (r ∷ s) r.incident_id) ≡ true
unfolding for_incident
for_incident-put s r q h = rw (text_eq_refl r.incident_id, h) refl

log_recording : Recording always_live log_store
unfolding commit_or_roll_back
log_recording = record {
  log = for_incident;
  listed = λ s id. refl;
  tx = log_tx;
  put = λ r s. r ∷ s;
  mark = λ id t s. s;
  inserts = λ s r. refl;
  updates = λ s id t. refl;
  commits = λ s s' fn h. ap (commit_or_roll_back s) h;
  log-put = for_incident-put;
  log-mark = λ s id t i. refl;
}

abbrev pub noop_spec : ReceiverSpec
noop_spec = record {
  id = text "ops";
  display_name = [];
  enabled = true;
  type = text "noop";
  url = [];
  events = event_opened ∷ [];
  severities = warning ∷ [];
  cost_class = [];
}

abbrev noop : Receiver Log
noop = noop_receiver no_patterns noop_spec

abbrev noop_service : Service Log
noop_service = record {
  enabled = true;
  dry_run_mode = false;
  store = some log_store;
  receivers = noop ∷ [];
  clock_now = λ s. (9, s);
  evidence_root = [];
}

abbrev pub no_format : ℕ → Text
no_format t = []

noop_enabled : noop.enabled ≡ true
unfolding noop_receiver
noop_enabled = refl

noop_matches : noop.matches event_opened warning ≡ true
unfolding noop_receiver matches event_eq severity_eq
noop_matches = refl

noop_succeeds :
    (noop.deliver always_live
      (render_payload no_patterns unix_paths [] cpu_incident event_opened)
      []).0.success
    ≡ true
unfolding noop_receiver noop_deliver noop_outcome outcome
noop_succeeds = refl

nothing_logged :
    any
      (is_success (delivery_key zero_digest no_format cpu_incident noop.id event_opened))
      (log_recording.log [] cpu_incident.id)
    ≡ false
unfolding log_recording for_incident
nothing_logged = refl

abbrev deliver_cpu : Log → DeliveryResult × Option Error × Log
deliver_cpu =
    deliver_to_receiver no_patterns zero_digest no_format unix_paths always_live noop_service noop
      cpu_incident (render_payload no_patterns unix_paths [] cpu_incident event_opened) event_opened
      warning

delivered_once_example :
    (r : DeliveryResult) × (r' : DeliveryResult) × (s' : Log) × (deliver_cpu [] ≡ (r, none, s'))
    × (r.status ≡ some delivered)
    × (deliver_cpu s' ≡ (r', none, s'))
    × (r'.status ≡ some skipped)
delivered_once_example =
    delivered_once no_patterns zero_digest no_format unix_paths always_live noop_service log_store
      log_recording noop cpu_incident
      (render_payload no_patterns unix_paths [] cpu_incident event_opened) event_opened warning
      noop_enabled noop_matches refl refl [] nothing_logged noop_succeeds

abbrev cpu_opened : Incident.Transition
cpu_opened = record {
  action = opened;
  incident_id = text "inc_1";
  fingerprint = text "n:cpu:host:load";
  severity = warning;
  status = text "open";
  summary = text "load is high";
}

deliver_transitions-IsCounted_example :
    IsCounted
      (deliver_transitions no_patterns zero_digest no_format unix_paths always_live noop_service
        (cpu_opened ∷ [])
        []).0
deliver_transitions-IsCounted_example =
    deliver_transitions-IsCounted no_patterns zero_digest no_format unix_paths always_live
      noop_service (cpu_opened ∷ []) []

-- A second attempt under a key, after one that failed.
abbrev failed_once : NotificationDeliveryRecord
failed_once = record {
  id = text "k_a001";
  incident_id = text "inc_1";
  receiver = text "ops";
  cost_class = text "free_core";
  status = text "failed";
  attempt = pos 1;
  attempted_at = 9;
  delivered_at = none;
  error_class = text "timeout";
  error_summary = text "timeout";
}

all_successors : all has_successor (failed_once ∷ []) ≡ true
unfolding has_successor
all_successors = refl

next_attempt-covers_example :
    (leb_ℤ (pos 1) (next_attempt (failed_once ∷ []) (text "k")).0 ≡ true)
    × ((all
            (is_earlier (text "k") (next_attempt (failed_once ∷ []) (text "k")).0)
            (failed_once ∷ [])
          ≡ true)
        × ((next_attempt (failed_once ∷ []) (text "k")).1
            ≡ any (is_success (text "k")) (failed_once ∷ [])))
next_attempt-covers_example = next_attempt-covers (text "k") (failed_once ∷ []) all_successors
