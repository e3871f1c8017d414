-- ===== src/Rules/Transition/Invariant.antt =====
-- internal/rules/engine.go, `transitionState`: what holds of the memory of a rule between two
-- evaluations.
use pooly_sentinel.Prelude.{ℕ, ◌≡◌, Option, none, some, ◌⊎◌, Text, arith}
use pooly_sentinel.Redaction.{Patterns}
use pooly_sentinel.Incidents.Incident.{
  Severity, severity_none, warning, failure, critical, severity_eq, severity_rank,
}
use pooly_sentinel.Rules.State.{
  State, state_ok, pending_warn, warn, pending_fail, fail, state_critical, recovering, recovered,
  EvaluationMemory,
}
use pooly_sentinel.Rules.Condition.{Rule}
use pooly_sentinel.Rules.Levels.{is_active, is_active_severity, is_none, is_critical}
use pooly_sentinel.Rules.Transition.{transition_state}

-- An alert is one of the three severities above "none".
abbrev pub IsAlert : Severity → Type 0
IsAlert severity = (severity ≡ warning) ⊎ ((severity ≡ failure) ⊎ (severity ≡ critical))

-- What a condition asks for: "none" or an alert.
abbrev pub IsDesired : Severity → Type 0
IsDesired severity = (severity ≡ severity_none) ⊎ IsAlert severity

-- What each state says of the severity, the two instants and the pending severity. No other state is
-- kept in a memory.
abbrev pub Fits : State → Severity → Option ℕ → Option ℕ → Severity → Type 0
Fits state_ok severity met since pending =
    (severity ≡ severity_none) × (met ≡ none) × (since ≡ none)
Fits recovered severity met since pending = (severity ≡ severity_none) × (met ≡ none)
Fits warn severity met since pending = (severity ≡ warning) × (since ≡ none)
Fits fail severity met since pending = (severity ≡ failure) × (since ≡ none)
Fits state_critical severity met since pending = (severity ≡ critical) × (since ≡ none)
Fits recovering severity met since pending = IsAlert severity × ((t : ℕ) × (since ≡ some t))
Fits pending_warn severity met since pending =
    (pending ≡ warning) × (since ≡ none) × ((t : ℕ) × (met ≡ some t))
Fits pending_fail severity met since pending =
    ((pending ≡ failure) ⊎ (pending ≡ critical)) × (since ≡ none) × ((t : ℕ) × (met ≡ some t))
Fits _ severity met since pending = ⊥

pub record IsCoherent (m : EvaluationMemory) : Type 0 where
  pub fits : Fits m.state m.severity m.condition_met_since m.recovery_since m.pending_severity

module _ (p : Patterns) {F : Type 0} (r : Rule F) (target : Text) where
  -- An evaluation for one of the four severities keeps the memory coherent: its state is one of
  -- eight and fits the severity, the two instants and the pending severity.
  pub transition_state-IsCoherent :
      (m : EvaluationMemory) (desired : Severity) (reason : Text) (observed_at now : ℕ)
      → IsDesired desired
      → IsCoherent m
      → IsCoherent (transition_state r target p m desired reason observed_at now).memory
  unfolding transition_state is_active is_active_severity is_none is_critical severity_eq
      severity_rank
  transition_state-IsCoherent m desired reason observed_at now d h = ground arith
