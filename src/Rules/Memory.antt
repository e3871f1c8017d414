-- ===== src/Rules/Memory.antt =====
-- internal/rules/engine.go, `loadMemory` and `saveMemory`: the memory of a rule at a target, and the
-- store that keeps it.
use pooly_sentinel.Prelude.{Bool, true, false, none, [], Text, if◌then◌else◌}
use pooly_sentinel.Effect.{Result, ok, err, Exec, Context, ◌>>◌, check_context, is_error, not_found}
use pooly_sentinel.Storage.Records.{RuleEvaluationStateRecord}
use pooly_sentinel.Incidents.Incident.{Severity, severity_none, severity_text, to_severity}
use pooly_sentinel.Incidents.Lifecycle
use pooly_sentinel.Rules.State.{state_ok, state_text, to_state, is_unset, EvaluationMemory}

-- The interface `Store`.
pub record Store (S : Type 0) : Type 0 where
  pub get_rule_evaluation_state : Context S → Text → Text → Exec S RuleEvaluationStateRecord
  pub upsert_rule_evaluation_state : Context S → RuleEvaluationStateRecord → Exec S (Unit {0})
  pub incidents : Lifecycle.Store S

remembered : RuleEvaluationStateRecord → EvaluationMemory
remembered r = record {
  state = to_state r.state;
  severity = to_severity r.severity;
  condition_met_since = r.condition_met_since;
  recovery_since = r.recovery_since;
  last_evaluated_at = r.last_evaluated_at;
  last_observed_at = r.last_observed_at;
  last_result_summary = r.last_result_summary;
  pending_severity = to_severity r.pending_severity;
}

-- The memory of a rule that the store does not know.
abbrev pub fresh_memory : EvaluationMemory
fresh_memory = record {
  state = state_ok;
  severity = severity_none;
  condition_met_since = none;
  recovery_since = none;
  last_evaluated_at = 0;
  last_observed_at = none;
  last_result_summary = [];
  pending_severity = Severity.unset;
}

-- The `return`s of `loadMemory`.
memory_of : Result RuleEvaluationStateRecord → Result EvaluationMemory
unfolding remembered
memory_of (ok r) = ok (remembered r)
memory_of (err e) = if is_error e not_found then ok fresh_memory else err e

-- `severity == ""`.
is_unset_severity : Severity → Bool
is_unset_severity Severity.unset = true
is_unset_severity _ = false

unfoldable pub memory_record : Text → Text → EvaluationMemory → RuleEvaluationStateRecord
unfolding is_unset_severity
memory_record rule_id target m = record {
  rule_id = rule_id;
  target = target;
  state = if is_unset m.state then state_text state_ok else state_text m.state;
  severity =
      if is_unset_severity m.severity
      then severity_text severity_none
      else severity_text m.severity;
  condition_met_since = m.condition_met_since;
  recovery_since = m.recovery_since;
  last_evaluated_at = m.last_evaluated_at;
  last_observed_at = m.last_observed_at;
  last_result_summary = m.last_result_summary;
  pending_severity = severity_text m.pending_severity;
  updated_at = m.last_evaluated_at;
}

module _ {S : Type 0} (ctx : Context S) (store : Store S) where
  unfoldable pub load_memory : Text → Text → Exec S EvaluationMemory
  unfolding memory_of
  load_memory rule_id target s =
      let (r, s') = store.get_rule_evaluation_state ctx rule_id target s in (memory_of r, s')

  unfoldable pub save_memory : Text → Text → EvaluationMemory → Exec S (Unit {0})
  unfolding memory_record
  save_memory rule_id target m = do
    check_context ctx
    store.upsert_rule_evaluation_state ctx (memory_record rule_id target m)
