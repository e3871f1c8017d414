-- ===== src/Rules/Transition/Runs/Hold.antt =====
-- internal/rules/engine.go, `transitionState`: sequences of evaluations in which the condition keeps
-- asking for one severity.
use pooly_sentinel.Prelude.{ℕ, ◌≡◌, true, Option, none, some, List, [], ◌∷◌, ◌⊎◌, arith, Text}
use pooly_sentinel.Redaction.{Patterns}
use pooly_sentinel.Incidents.Incident.{
  Severity, warning, critical, Candidate, severity_eq, severity_rank,
}
use pooly_sentinel.Rules.State.{EvaluationMemory, is_unset, state_ok, warn, state_critical}
use pooly_sentinel.Rules.Condition.{Rule}
use pooly_sentinel.Rules.Levels.{
  is_active, is_active_severity, is_none, is_critical, elapsed, duration_for, initialized,
  state_for_severity, pending_state_for_severity,
}
use pooly_sentinel.Rules.Outcome.{incident_candidate, safe_summary, render_summary}
use pooly_sentinel.Rules.Transition.{transition_state}
use pooly_sentinel.Rules.Transition.Invariant.{IsAlert}
use pooly_sentinel.Rules.Transition.Runs.{Sample, AllDesire, step, memory_after}

module _ (p : Patterns) {F : Type 0} (r : Rule F) (target : Text) (desired : Severity) where
  -- `desired` is pending since `since`, or it is up.
  abbrev IsHolding : EvaluationMemory → ℕ → Type 0
  IsHolding m since =
      (m.pending_severity ≡ desired)
      × (m.condition_met_since ≡ some since)
      × ((m.state ≡ pending_state_for_severity desired)
          ⊎ ((m.state ≡ state_for_severity desired) × (m.severity ≡ desired)))

  step_hold_begins :
      (m : EvaluationMemory) (x : Sample)
      → IsAlert desired
      → m.state ≡ state_ok
      → m.condition_met_since ≡ none
      → x.desired ≡ desired
      → IsHolding (step p r target m x).memory x.now
  unfolding transition_state is_active is_active_severity is_none is_critical initialized is_unset
      severity_eq severity_rank state_for_severity pending_state_for_severity
  step_hold_begins m x a o c d = ground arith

  step_holds :
      (m : EvaluationMemory) (x : Sample) (since : ℕ)
      → IsAlert desired
      → IsHolding m since
      → x.desired ≡ desired
      → IsHolding (step p r target m x).memory since
  unfolding transition_state is_active is_active_severity is_none is_critical initialized is_unset
      severity_eq severity_rank state_for_severity pending_state_for_severity
  step_holds m x since a h d = ground arith

  -- A candidate that asks for the alert `desired`.
  abbrev pub IsAlarm : Option Candidate → Type 0
  IsAlarm found =
      (c : Candidate) × (found ≡ some c)
      × (c.active ≡ true)
      × (c.severity ≡ desired)
      × (c.target ≡ target)

  step_fires :
      (m : EvaluationMemory) (x : Sample) (since : ℕ)
      → IsAlert desired
      → IsHolding m since
      → x.desired ≡ desired
      → elapsed (duration_for r desired) since x.now ≡ true
      → IsAlarm (step p r target m x).candidate
        × ((step p r target m x).memory.state ≡ state_for_severity desired)
        × ((step p r target m x).memory.severity ≡ desired)
  unfolding transition_state is_active is_active_severity is_none is_critical initialized is_unset
      severity_eq severity_rank state_for_severity pending_state_for_severity incident_candidate
  step_fires m x since a h d e =
      let summary = safe_summary p (render_summary r target x.desired x.reason) in
      (
        (
          incident_candidate r target desired true summary x.now,
          ground arith,
          ground arith,
          ground arith,
          ground arith,
        ),
        ground arith,
        ground arith,
      )

  memory_holds :
      (m : EvaluationMemory) (xs : List Sample) (since : ℕ)
      → IsAlert desired
      → IsHolding m since
      → AllDesire desired xs
      → IsHolding (memory_after p r target m xs) since
  unfolding memory_after
  memory_holds m [] since a h d = h
  memory_holds m (x ∷ xs) since a h d =
      memory_holds (step p r target m x).memory xs since a (step_holds m x since a h d.0) d.1

  -- From a quiet memory, a condition that asks for `desired` at every evaluation raises the alert, with
  -- its candidate, at the latest at the evaluation that comes the hold time after the first one.
  pub hold_raises :
      (m : EvaluationMemory) (first : Sample) (xs : List Sample) (last : Sample)
      → IsAlert desired
      → m.state ≡ state_ok
      → m.condition_met_since ≡ none
      → AllDesire desired (first ∷ xs)
      → last.desired ≡ desired
      → elapsed (duration_for r desired) first.now last.now ≡ true
      → let fired = step p r target (memory_after p r target m (first ∷ xs)) last in
        IsAlarm fired.candidate
        × (fired.memory.state ≡ state_for_severity desired)
        × (fired.memory.severity ≡ desired)
  unfolding memory_after
  hold_raises m first xs last a o c d l e =
      let begun = step_hold_begins m first a o c d.0 in
      let held = memory_holds (step p r target m first).memory xs first.now a begun d.1 in
      step_fires (memory_after p r target (step p r target m first).memory xs) last first.now a held
        l e

-- Where a critical alert that was raised by its own hold time falls back to a warning, one evaluation
-- that finds the condition critical again raises it at once: the hold time is measured from the old
-- instant.
module _ (p : Patterns) {F : Type 0} (r : Rule F) (target : Text) where
  pub critical_again_at_once :
      (m : EvaluationMemory) (eased again : Sample) (since : ℕ)
      → m.state ≡ state_critical
      → m.severity ≡ critical
      → m.pending_severity ≡ critical
      → m.condition_met_since ≡ some since
      → eased.desired ≡ warning
      → again.desired ≡ critical
      → elapsed (duration_for r critical) since again.now ≡ true
      → let warned = (step p r target m eased).memory in
        (warned.state ≡ warn) × IsAlarm p r target critical (step p r target warned again).candidate
  unfolding transition_state is_active is_active_severity is_none is_critical initialized is_unset
      severity_eq severity_rank state_for_severity incident_candidate
  critical_again_at_once m eased again since st se pe me d₁ d₂ e =
      let summary = safe_summary p (render_summary r target again.desired again.reason) in
      (
        ground arith,
        (
          incident_candidate r target critical true summary again.now,
          ground arith,
          ground arith,
          ground arith,
          ground arith,
        ),
      )
