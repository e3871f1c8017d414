-- ===== src/Rules/Evaluation.antt =====
-- internal/rules/engine.go: the evaluation of one rule at one target.
use pooly_sentinel.Prelude.{
  ℕ, Bool, true, false, not, ◌||◌, Option, none, some, List, [], ◌∷◌, Text, text, if◌then◌else◌,
}
use pooly_sentinel.Effect.{Exec, Context, pure, ◌>>=◌, ◌>>◌}
use pooly_sentinel.Redaction.{Patterns, redact}
use pooly_sentinel.Resources.{
  is_unsupported, Float64, Labels, Observation, is_counter_reset, is_error_none,
}
use pooly_sentinel.Incidents.Incident.{
  Severity, severity_none, warning, failure, severity_text, to_severity, is_blank, Candidate,
  Action, action_none,
}
use pooly_sentinel.Incidents.Incident
use pooly_sentinel.Incidents.Lifecycle
use pooly_sentinel.Rules.State.{
  State, state_ok, state_stale, unknown, is_unset, Policy, policy_unset, policy_ignore,
  policy_stale, policy_warn, policy_fail, EvaluationMemory,
}
use pooly_sentinel.Rules.Condition.{Rule}
use pooly_sentinel.Rules.Condition.Judge.{desired_severity_for_target}
use pooly_sentinel.Rules.Levels.{initialized}
use pooly_sentinel.Rules.Outcome.{RuleResult}
use pooly_sentinel.Rules.Transition.{Step, transition_state}
use pooly_sentinel.Rules.Memory.{Store, load_memory, save_memory}
use pooly_sentinel.Rules.Status.{ObservationStatus, observation_status}

abbrev pub Outcome : Type 0
Outcome = RuleResult × Option Incident.Transition

-- `desired := SeverityWarning; if policy == PolicyFail { desired = SeverityFailure }`, for the two
-- policies that raise an alert.
unfoldable pub policy_severity : Policy → Option Severity
policy_severity policy_warn = some warning
policy_severity policy_fail = some failure
policy_severity _ = none

-- `if policy == "" { policy = PolicyStale }`.
unfoldable pub or_stale : Policy → Policy
or_stale policy_unset = policy_stale
or_stale p = p

unfoldable pub is_ignore : Policy → Bool
is_ignore policy_ignore = true
is_ignore _ = false

module _ (p : Patterns) where
  unfoldable pub safe_labels : Labels → Labels
  safe_labels [] = []
  safe_labels ((key, value) ∷ rest) = (key, redact p value) ∷ safe_labels rest

  -- The result of the branches that leave the alert as it is.
  quiet_result : {F : Type 0} → Rule F → Text → State → Severity → Text → RuleResult
  unfolding safe_labels
  quiet_result r target state severity summary = record {
    rule_id = r.id;
    target = target;
    state = state;
    severity = severity;
    matched = false;
    summary = summary;
    incident_transition = none;
    labels = safe_labels r.labels;
  }

  module _ (sum256 : Text → Text) {S : Type 0} (ctx : Context S) (store : Store S) where
    -- `if candidate != nil { ... incidentEngine.Apply(ctx, store, *candidate) ... }`.
    apply_candidate : Text → ℕ → RuleResult → Option Candidate → Exec S Outcome
    apply_candidate node_id now result none = pure (result, none)
    apply_candidate node_id now result (some c) = do
      got ← Lifecycle.apply p sum256 ctx store.incidents now (record c { node_id = node_id })
      pure (record result { incident_transition = some got }, some got)

    -- What follows each call of `transitionState`.
    unfoldable pub commit_step :
        {F : Type 0} → Rule F → Text → Text → Bool → ℕ → Step → Exec S Outcome
    unfolding apply_candidate safe_labels save_memory
    commit_step r target node_id matched now step = do
      let result = record step.result {
        rule_id = r.id;
        target = target;
        matched = matched;
        labels = safe_labels r.labels;
      }
      save_memory ctx store r.id target step.memory
      apply_candidate node_id now result step.candidate

    -- The last lines of `evaluateMissing`.
    missing_quiet : {F : Type 0} → Rule F → Text → EvaluationMemory → ℕ → Exec S Outcome
    unfolding quiet_result or_stale is_ignore save_memory
    missing_quiet r target previous now = do
      let state =
          if is_ignore (or_stale r.missing_data)
          then (if is_unset previous.state then state_ok else previous.state)
          else state_stale
      let memory = record previous {
        last_evaluated_at = now;
        last_result_summary = text "missing data";
      }
      save_memory ctx store r.id target memory
      pure (quiet_result r target state memory.severity (text "missing data"), none)

    unfoldable pub evaluate_missing :
        {F : Type 0} → Rule F → Text → Text → EvaluationMemory → ℕ → Exec S Outcome
    unfolding policy_severity or_stale commit_step missing_quiet
    evaluate_missing r target node_id previous now =
        elim (policy_severity (or_stale r.missing_data)) [
          | some desired ↦ commit_step r target node_id false now (
              transition_state r target p previous desired (text "missing data policy matched") now
                now)
          | none ↦ missing_quiet r target previous now
        ]

    -- The branches of `evaluatePolicyStatus` that keep the alert as it is, with the state reported.
    status_quiet :
        {F : Type 0}
        → Rule F
        → Text
        → EvaluationMemory
        → ObservationStatus
        → State
        → ℕ
        → Exec S Outcome
    unfolding quiet_result save_memory initialized
    status_quiet r target previous status state now = do
      let memory = record (initialized previous) {
        last_evaluated_at = now;
        last_result_summary = status.summary;
      }
      save_memory ctx store r.id target memory
      pure (quiet_result r target state memory.severity status.summary, none)

    unfoldable pub evaluate_policy_status :
        {F : Type 0}
        → Rule F
        → Text
        → Text
        → EvaluationMemory
        → ObservationStatus
        → ℕ
        → Exec S Outcome
    unfolding policy_severity or_stale commit_step status_quiet is_unsupported is_counter_reset
    evaluate_policy_status r target node_id previous status now =
        if is_unsupported status.class || is_counter_reset status.class
        then status_quiet r target previous status
            (if is_counter_reset status.class then state_stale else unknown) now
        else (elim (policy_severity (or_stale r.stale_data)) [
          | some desired ↦
              commit_step r target node_id false now
                (transition_state r target p previous desired status.summary now now)
          | none ↦ status_quiet r target previous status state_stale now
        ])

    module _ {F : Type 0} (fl : Float64 F) where
      -- The branch of `evaluateRuleTarget` after the status check.
      evaluate_condition :
          Rule F → Text → Text → List (Observation F) → EvaluationMemory → ℕ → Exec S Outcome
      unfolding commit_step evaluate_missing
      evaluate_condition r target node_id os previous now =
          let (desired, reason, observed_at, matched) =
            desired_severity_for_target fl r os target in
          if not matched
          then evaluate_missing r target node_id previous now
          else commit_step r target node_id true now
              (transition_state r target p previous desired reason observed_at now)

      unfoldable pub evaluate_rule_target :
          Rule F → Text → Text → List (Observation F) → ℕ → Exec S Outcome
      unfolding load_memory observation_status is_error_none evaluate_policy_status
          evaluate_condition
      evaluate_rule_target r target node_id os now = do
        previous ← load_memory ctx store r.id target
        let status = observation_status r os
        if is_error_none status.class
            then evaluate_condition r target node_id os previous now
            else evaluate_policy_status r target node_id previous status now
