-- ===== src/Tests/Fixtures.antt =====
-- Concrete values for the parameters: a redaction that changes nothing, a digest, and the store of
-- internal/incidents/incidents_test.go, a map that never fails.
use pooly_sentinel.Prelude.{
  has_prefix, ℕ, refl, ap, true, false, Option, none, some, List, [], ◌∷◌, Text, text_eq,
  if◌then◌else◌, pos, replicate, ltb, leb, ◌==◌, not, text,
}
use pooly_sentinel.Effect.{ok, err, Exec, Context, sentinel, not_found, is_error}
use pooly_sentinel.Redaction.{Patterns}
use pooly_sentinel.Resources.{Float64}
use pooly_sentinel.Storage.Paths.{Filepath}
use pooly_sentinel.Storage.Records.{IncidentRecord}
use pooly_sentinel.Incidents.Incident.{Candidate, warning}
use pooly_sentinel.Incidents.Lifecycle.{Store}
use pooly_sentinel.Incidents.Lifecycle.Contract.{Reliable}
use pooly_sentinel.Rules.State.{policy_stale}
use pooly_sentinel.Rules.Condition.{Rule, greater_than}

abbrev pub no_patterns : Patterns
no_patterns = record {
  replace_private_key = λ s. s;
  replace_discord_webhook = λ s. s;
  replace_generic_webhook_token_url = λ s. s;
  replace_authorized_key = λ s. s;
  replace_authorization = λ s. s;
  replace_query_secret = λ s. s;
  replace_key_value = λ s. s;
}

abbrev pub zero_digest : Text → Text
zero_digest s = replicate 32 0

abbrev pub always_live : {S : Type 0} → Context S
always_live = record { poll = λ s. (none, s) }

abbrev pub Table : Type 0
Table = List IncidentRecord

abbrev pub find_record : Table → Text → Option IncidentRecord
find_record [] fp = none
find_record (r ∷ rs) fp = if text_eq r.fingerprint fp then some r else find_record rs fp

abbrev pub find_or_fail : Option IncidentRecord → Exec Table IncidentRecord
find_or_fail none t = (err (sentinel not_found), t)
find_or_fail (some r) t = (ok r, t)

abbrev pub memory_store : Store Table
memory_store = record {
  get_incident_by_fingerprint = λ ctx fp s. find_or_fail (find_record s fp) s;
  upsert_incident = λ ctx r s. (ok tt, r ∷ s);
}

unfoldable pub memory_reliable : Reliable always_live memory_store
unfolding is_error
memory_reliable = record {
  view = find_record;
  put = λ r s. r ∷ s;
  poll_live = λ s. refl;
  get_found = λ s fp r h. ap (λ o. find_or_fail o s) h;
  missing = sentinel not_found;
  missing_is = refl;
  get_missing = λ s fp h. ap (λ o. find_or_fail o s) h;
  upsert_puts = λ s r. refl;
  view-put = λ s r fp. refl;
}

-- Whole numbers in place of `float64`.
abbrev pub whole : Float64 ℕ
whole = record {
  zero_value = 0;
  lt = ltb;
  le = leb;
  near = ◌==◌;
  far = λ a b. not (a == b);
  nonzero = λ a. not (a == 0);
  format_g = λ a. [];
}

-- `hold` nanoseconds above 90 for a critical alert, above 50 for a warning.
abbrev pub cpu_rule : Rule ℕ
cpu_rule = record {
  id = text "cpu";
  enabled = true;
  collector = text "cpu";
  metric = text "pooly_cpu_usage";
  target = [];
  event_category = [];
  warn = some (record {
    operator = greater_than;
    value = record { number = 50; string = []; bool = false; kind = text "number" };
    hold = pos 10;
  });
  fail = none;
  critical = some (record {
    operator = greater_than;
    value = record { number = 90; string = []; bool = false; kind = text "number" };
    hold = pos 10;
  });
  recover_for = pos 20;
  missing_data = policy_stale;
  stale_data = policy_stale;
  summary = [];
  labels = [];
}

abbrev pub disk_failed : Candidate
disk_failed = record {
  node_id = text "Node-1";
  type = text "systemd";
  target = text "ssh.service";
  condition = text "failed";
  severity = warning;
  active = true;
  summary = text "service failed";
  evidence_path = [];
  observed_at = 5;
}

-- Paths that are clean already and have no scheme.
abbrev pub unix_paths : Filepath
unix_paths = record {
  is_abs = λ s. has_prefix s (text "/");
  clean = λ s. s;
  rel = λ base target. some target;
  scheme = λ s. none;
}
