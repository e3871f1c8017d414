-- ===== src/Tests/StorageRuns.antt =====
-- Runs of internal/storage, over a driver that counts its calls and never fails.
use pooly_sentinel.Prelude.{
  ℕ, arith, ◌+◌, ◌≡◌, refl, true, false, Option, none, some, [], ◌∷◌, Text, text, text_eq,
  if◌then◌else◌,
}
use pooly_sentinel.Effect.{
  Error, Result, ok, err, message, sentinel, canceled, write, query, is_error,
}
use pooly_sentinel.Redaction.{Patterns, redact}
use pooly_sentinel.Storage.Records.{RuleEvaluationStateRecord}
use pooly_sentinel.Storage.Errors.{wrap_error}
use pooly_sentinel.Storage.Errors.Hidden.{is_error-wrap_error}
use pooly_sentinel.Storage.Tables.{Tables, find_row, has_rule_key}
use pooly_sentinel.Storage.Database.{Driver, Db}
use pooly_sentinel.Storage.Database.Atomic.{Leaves}
use pooly_sentinel.Storage.Incidents.{incident_row, upsert_incident, get_incident}
use pooly_sentinel.Storage.Incidents.RoundTrip
use pooly_sentinel.Storage.Incidents.RoundTrip.{kept_incident, get_incident-upsert_incident}
use pooly_sentinel.Storage.Columns.Reading.{IsReadable, or_zero}
use pooly_sentinel.Storage.Validation.{time_or}
use pooly_sentinel.Storage.RuleState.{
  rule_state_row, upsert_rule_evaluation_state, get_rule_evaluation_state,
}
use pooly_sentinel.Storage.RuleState.RoundTrip.{
  IsBefore, kept_rule_state, get_rule_evaluation_state-upsert_rule_evaluation_state,
  upsert_rule_evaluation_state_unread,
}
use pooly_sentinel.Storage.Summary.{incident_status_counts}
use pooly_sentinel.Rules.Engine.{Engine, evaluate_maybe_transactional}
use pooly_sentinel.Stores.{on_world, engine_store, delivery_store}
use pooly_sentinel.Stores.Atomic.{evaluate_maybe_transactional-Leaves, deliver_to_receiver_atomic}
use pooly_sentinel.Notify.Types.{event_opened, event_eq, Receiver, DeliveryResult, Payload}
use pooly_sentinel.Incidents.Incident.{warning, severity_eq}
use pooly_sentinel.Notify.Receiver.{noop_receiver, noop_deliver, matches}
use pooly_sentinel.Notify.Renderer.{render_payload}
use pooly_sentinel.Notify.Attempt.{Service, deliver_to_receiver}
use pooly_sentinel.Storage.Deliveries.{list_notification_deliveries}
use pooly_sentinel.Tests.RuleRuns.{cpu_observed}
use pooly_sentinel.Tests.Fixtures.{
  unix_paths, no_patterns, zero_digest, always_live, whole, cpu_rule,
}
use pooly_sentinel.Tests.NotifyRuns.{cpu_incident, noop_spec, no_format}

-- The instants of these runs are written as texts of one number.
abbrev first_number : Text → Result ℕ
first_number [] = err (message [])
first_number (t ∷ s) = ok t

abbrev pub counting : Driver ℕ
counting = record {
  call = λ w. (none, w + 1);
  now = λ w. 1000 + w;
  constraint = message [];
  error_text = λ e. [];
  time_text = λ t. t ∷ [];
  parse_instant = first_number;
}

abbrev empty_tables : Tables
empty_tables = record {
  metadata = [];
  collector_state = [];
  incidents = [];
  notification_deliveries = [];
  rule_evaluation_state = [];
}

abbrev fresh : Db ℕ
fresh = record { is_open = true; tables = empty_tables; world = 0 }

abbrev with_cpu : Db ℕ
with_cpu = record {
  is_open = true;
  tables = record empty_tables {
    incidents = incident_row no_patterns counting 1000 cpu_incident ∷ [];
  };
  world = 1;
}

is_error-wrap_error_example :
    is_error
      (wrap_error no_patterns (λ e. []) (text "upsert incident") write (sentinel canceled))
      canceled
    ≡ false
unfolding is_error
is_error-wrap_error_example =
    is_error-wrap_error no_patterns (λ e. []) (text "upsert incident") write (sentinel canceled)
      canceled

cpu_stored : upsert_incident no_patterns counting cpu_incident fresh ≡ (ok tt, with_cpu)
unfolding upsert_incident redact
cpu_stored = refl

counting-IsReadable : IsReadable counting 2000
counting-IsReadable = record { given = λ t h. refl; parses = λ t h. refl }

incident_early : RoundTrip.IsBefore 2000 1000 cpu_incident
unfolding time_or or_zero
incident_early = record {
  first_seen = omega arith;
  last_seen = omega arith;
  last_alerted = omega arith;
  resolved_at = omega arith;
  last_transition = omega arith;
  updated_at = omega arith;
}

get_incident-upsert_incident_example :
    (get_incident no_patterns counting (text "inc_1") with_cpu).0
    ≡ ok (kept_incident no_patterns 1000 cpu_incident)
get_incident-upsert_incident_example =
    get_incident-upsert_incident no_patterns counting 2000 counting-IsReadable cpu_incident fresh
      with_cpu incident_early cpu_stored refl

abbrev cpu_memory : RuleEvaluationStateRecord
cpu_memory = record {
  rule_id = text "cpu";
  target = text "host";
  state = text "pending_warn";
  severity = text "none";
  condition_met_since = some 5;
  recovery_since = none;
  last_evaluated_at = 7;
  last_observed_at = some 5;
  last_result_summary = text "high";
  pending_severity = text "warn";
  updated_at = 7;
}

memory_early : IsBefore 2000 1000 cpu_memory
unfolding time_or or_zero
memory_early = record {
  condition_met_since = omega arith;
  recovery_since = omega arith;
  last_evaluated_at = omega arith;
  last_observed_at = omega arith;
  updated_at = omega arith;
}

abbrev with_memory : Text → Db ℕ
with_memory target = record {
  is_open = true;
  tables = record empty_tables {
    rule_evaluation_state =
        record (rule_state_row no_patterns counting 1000 cpu_memory) { target = target } ∷ [];
  };
  world = 1;
}

memory_stored :
    upsert_rule_evaluation_state no_patterns counting cpu_memory fresh
    ≡ (ok tt, with_memory (text "host"))
unfolding upsert_rule_evaluation_state redact
memory_stored = refl

get_rule_evaluation_state_example :
    (get_rule_evaluation_state no_patterns counting
      (text "cpu")
      (text "host")
      (with_memory (text "host"))).0
    ≡ ok (kept_rule_state no_patterns 1000 cpu_memory)
unfolding redact text
get_rule_evaluation_state_example =
    get_rule_evaluation_state-upsert_rule_evaluation_state no_patterns counting 2000
      counting-IsReadable cpu_memory fresh (with_memory (text "host")) memory_early refl refl
      memory_stored refl

-- A redaction that takes the target for a secret.
abbrev secretive : Patterns
secretive = record no_patterns {
  replace_key_value = λ s. if text_eq s (text "host") then text "[redacted]" else s;
}

memory_hidden :
    upsert_rule_evaluation_state secretive counting cpu_memory fresh
    ≡ (ok tt, with_memory (text "[redacted]"))
unfolding upsert_rule_evaluation_state redact text_eq
memory_hidden = refl

upsert_rule_evaluation_state_unread_example :
    find_row
      (has_rule_key (text "cpu") (text "host"))
      (with_memory (text "[redacted]")).tables.rule_evaluation_state
    ≡ find_row (has_rule_key (text "cpu") (text "host")) fresh.tables.rule_evaluation_state
unfolding redact text_eq text
upsert_rule_evaluation_state_unread_example =
    upsert_rule_evaluation_state_unread secretive counting cpu_memory fresh
      (with_memory (text "[redacted]")) refl memory_hidden

cpu_counted :
    incident_status_counts no_patterns counting with_cpu
    ≡ (ok ((text "open", 1) ∷ []), record with_cpu { world = 2 })
unfolding incident_status_counts incident_row redact
cpu_counted = refl

abbrev cpu_engine : Engine ℕ
cpu_engine = record { rules = cpu_rule ∷ []; node_id = text "n"; clock_now = 9 }

evaluate_maybe_transactional-Leaves_example : Leaves fresh.tables (
    evaluate_maybe_transactional no_patterns zero_digest whole
      (on_world always_live)
      (engine_store no_patterns counting)
      cpu_engine
      cpu_rule
      (text "all")
      (cpu_observed ∷ [])
      fresh)
evaluate_maybe_transactional-Leaves_example =
    evaluate_maybe_transactional-Leaves no_patterns counting zero_digest whole always_live
      cpu_engine cpu_rule (text "all") (cpu_observed ∷ []) fresh

-- A driver all of whose calls fail.
abbrev failing : Driver ℕ
failing = record counting { call = λ w. (some (message []), w + 1) }

abbrev noop_db : Receiver (Db ℕ)
noop_db = noop_receiver no_patterns noop_spec

abbrev db_service : Service (Db ℕ)
db_service = record {
  enabled = true;
  dry_run_mode = false;
  store = some (delivery_store no_patterns failing);
  receivers = noop_db ∷ [];
  clock_now = λ s. (9, s);
  evidence_root = [];
}

abbrev deliver_failing : Db ℕ → DeliveryResult × Option Error × Db ℕ
deliver_failing =
    deliver_to_receiver no_patterns zero_digest no_format unix_paths (on_world always_live)
      db_service noop_db cpu_incident
      (render_payload no_patterns unix_paths [] cpu_incident event_opened) event_opened warning

abbrev listing_failed : Error
listing_failed =
    wrap_error no_patterns (λ e. []) (text "list notification deliveries") query (message [])

noop_quiet :
    (payload : Payload) (s : Db ℕ)
    → (noop_db.deliver (on_world always_live) payload s).1.tables ≡ s.tables
unfolding noop_receiver noop_deliver on_world
noop_quiet payload s = refl

listing_fails : (deliver_failing with_cpu).1 ≡ some listing_failed
unfolding deliver_to_receiver noop_receiver matches event_eq severity_eq delivery_store
    list_notification_deliveries wrap_error redact is_error
listing_fails = refl

deliver_to_receiver_atomic_example : (deliver_failing with_cpu).2.tables ≡ with_cpu.tables
deliver_to_receiver_atomic_example =
    deliver_to_receiver_atomic no_patterns failing zero_digest no_format unix_paths
      (on_world always_live) db_service noop_db noop_quiet (λ s. refl) cpu_incident
      (render_payload no_patterns unix_paths [] cpu_incident event_opened) event_opened warning
      with_cpu listing_failed refl listing_fails
