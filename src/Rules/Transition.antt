-- ===== src/Rules/Transition.antt =====
-- internal/rules/engine.go, `transitionState` and its helpers: the alert state machine of one rule
-- at one target.
pub mod Invariant
pub mod Alarm
pub mod Runs
use pooly_sentinel.Prelude.{
  ℕ, ℤ, pos, leb_ℤ, sub_time, Bool, true, false, not, ◌&&◌, Option, none, some, ◌++◌, [], Text,
  text, is_empty, is_set, ltb, leb, ◌==◌, length, take, replace_all, if◌then◌else◌,
}
use pooly_sentinel.Redaction.{Patterns, redact}
use pooly_sentinel.Resources.{Labels}
use pooly_sentinel.Incidents.Incident.{
  Severity, severity_none, warning, failure, critical, severity_text, severity_eq, severity_rank,
  Candidate,
}
use pooly_sentinel.Incidents.Incident
use pooly_sentinel.Rules.State.{
  State, state_ok, pending_warn, warn, pending_fail, fail, state_critical, recovering, recovered,
  is_unset, EvaluationMemory,
}
use pooly_sentinel.Rules.Condition.{Threshold, Rule}
use pooly_sentinel.Rules.Levels.{
  is_active, is_active_severity, state_for_severity, pending_state_for_severity, is_none,
  is_critical, initialized, elapsed, duration_for,
}
use pooly_sentinel.Rules.Outcome.{
  RuleResult, outcome, incident_candidate, render_summary, safe_summary,
}

-- What `transitionState` returns.
pub record Step : Type 0 where
  pub memory : EvaluationMemory
  pub candidate : Option Candidate
  pub result : RuleResult

module _ {F : Type 0} (r : Rule F) (target : Text) where
  -- The branch `desired == SeverityNone`.
  pub settle : EvaluationMemory → ℕ → Step
  unfolding outcome
  settle m now =
      let summary = m.last_result_summary in
      if is_active m.state
      then (elim m.recovery_since [
        | none ↦ record {
          memory = record m { recovery_since = some now; state = recovering };
          candidate = none;
          result = outcome recovering m.severity summary;
        }
        | some since ↦
            if elapsed r.recover_for since now
            then record {
              memory = record m {
                state = recovered;
                severity = severity_none;
                condition_met_since = none;
                pending_severity = severity_none;
              };
              candidate = some (incident_candidate r target severity_none false summary now);
              result = outcome recovered severity_none summary;
            }
            else record {
              memory = record m { state = recovering };
              candidate = none;
              result = outcome recovering m.severity summary;
            }
      ])
      else record {
        -- Both arms of the inner `if` set the state to OK.
        memory = record m {
          state = state_ok;
          severity = severity_none;
          condition_met_since = none;
          recovery_since = none;
          pending_severity = severity_none;
        };
        candidate = none;
        result = outcome state_ok severity_none summary;
      }

  -- `memory.Severity = desired; memory.State = stateForSeverity(desired)`, with its candidate.
  pub raise_alert : EvaluationMemory → Severity → ℕ → Step
  unfolding state_for_severity outcome
  raise_alert m desired now = record {
    memory = record m { severity = desired; state = state_for_severity desired };
    candidate = some (incident_candidate r target desired true m.last_result_summary now);
    result = outcome (state_for_severity desired) desired m.last_result_summary;
  }

  -- `memory.State = pendingStateForSeverity(desired)`, with no candidate.
  pub stay_pending : EvaluationMemory → Severity → Step
  unfolding pending_state_for_severity outcome
  stay_pending m desired = record {
    memory = record m { state = pending_state_for_severity desired };
    candidate = none;
    result = outcome (pending_state_for_severity desired) m.severity m.last_result_summary;
  }

  -- The assignments at the start of a pending phase.
  pub start_pending : EvaluationMemory → Severity → ℕ → Step
  unfolding stay_pending
  start_pending m desired now =
      stay_pending (record m { condition_met_since = some now; pending_severity = desired }) desired

  -- From the test `memory.PendingSeverity != desired` on.
  pub await : EvaluationMemory → Severity → ℕ → Step
  unfolding raise_alert start_pending stay_pending
  await m desired now =
      if not (severity_eq m.pending_severity desired)
      then start_pending m desired now
      else (elim m.condition_met_since [
        | none ↦ start_pending m desired now
        | some since ↦
            if elapsed (duration_for r desired) since now
            then raise_alert m desired now
            else stay_pending m desired
      ])

  -- The branches after `memory.RecoverySince = nil`. The two arms of the first `if` leave the same
  -- memory and candidate: where `desired` is critical, so are both.
  pub alarm : EvaluationMemory → Severity → ℕ → Step
  unfolding raise_alert await
  alarm m desired now =
      if is_active_severity m.severity desired && is_active m.state
      then if is_critical desired && not (is_critical m.severity)
        then raise_alert m critical now
        else raise_alert m desired now
      else await m desired now

  module _ (p : Patterns) where
    -- The memory before the branch on `desired`.
    pub observed_memory : EvaluationMemory → Severity → Text → ℕ → ℕ → EvaluationMemory
    unfolding initialized
    observed_memory previous desired reason observed_at now = record (initialized previous) {
      last_evaluated_at = now;
      last_observed_at =
          if observed_at == 0 then (initialized previous).last_observed_at else some observed_at;
      last_result_summary = safe_summary p (render_summary r target desired reason);
    }

    unfoldable pub transition_state : EvaluationMemory → Severity → Text → ℕ → ℕ → Step
    unfolding observed_memory settle alarm
    transition_state previous desired reason observed_at now =
        let m = observed_memory previous desired reason observed_at now in
        if is_none desired
        then settle m now
        else alarm (record m { recovery_since = none }) desired now
