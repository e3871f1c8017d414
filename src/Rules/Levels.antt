-- ===== src/Rules/Levels.antt =====
-- internal/rules/engine.go: the helpers of `transitionState` on states, severities and waits.
use pooly_sentinel.Prelude.{
  ℕ, ℤ, pos, leb_ℤ, sub_time, Bool, true, false, Option, none, some, leb, if◌then◌else◌,
}
use pooly_sentinel.Incidents.Incident.{
  Severity, severity_none, warning, failure, critical, severity_rank,
}
use pooly_sentinel.Rules.State.{
  State, state_ok, pending_warn, warn, pending_fail, fail, state_critical, recovering, recovered,
  is_unset, EvaluationMemory,
}
use pooly_sentinel.Rules.Condition.{Threshold, Rule}

unfoldable pub is_active : State → Bool
is_active warn = true
is_active fail = true
is_active state_critical = true
is_active recovering = true
is_active _ = false

unfoldable pub is_active_severity : Severity → Severity → Bool
is_active_severity current desired = leb (severity_rank desired) (severity_rank current)

unfoldable pub state_for_severity : Severity → State
state_for_severity critical = state_critical
state_for_severity failure = fail
state_for_severity warning = warn
state_for_severity _ = state_ok

unfoldable pub pending_state_for_severity : Severity → State
pending_state_for_severity severity =
    if leb (severity_rank failure) (severity_rank severity) then pending_fail else pending_warn

-- `severity == SeverityNone`.
unfoldable pub is_none : Severity → Bool
is_none severity_none = true
is_none _ = false

-- `severity == SeverityCritical`.
unfoldable pub is_critical : Severity → Bool
is_critical critical = true
is_critical _ = false

-- `state == StateRecovered`.
unfoldable pub is_recovered : State → Bool
is_recovered recovered = true
is_recovered _ = false

-- `if memory.State == "" { memory.State = StateOK; memory.Severity = SeverityNone }`.
unfoldable pub initialized : EvaluationMemory → EvaluationMemory
unfolding is_unset
initialized m =
    if is_unset m.state then record m { state = state_ok; severity = severity_none } else m

-- `now.Sub(*since) >= wait`, where `since` is set.
unfoldable pub elapsed : ℤ → ℕ → ℕ → Bool
unfolding sub_time
elapsed wait since now = leb_ℤ wait (sub_time now since)

-- `t.For` where the threshold is set, and otherwise 0.
for_or_zero : {F : Type 0} → Option (Threshold F) → ℤ
for_or_zero none = pos 0
for_or_zero (some t) = t.hold

unfoldable pub duration_for : {F : Type 0} → Rule F → Severity → ℤ
unfolding for_or_zero
duration_for r critical = for_or_zero r.critical
duration_for r failure = for_or_zero r.fail
duration_for r warning = for_or_zero r.warn
duration_for r _ = pos 0
