-- ===== src/Rules/Transition/Alarm.antt =====
-- internal/rules/engine.go, `transitionState`: when one evaluation opens or resolves an incident.
use pooly_sentinel.Prelude.{
  ℕ, ◌≡◌, ◌⊎◌, true, false, none, some, inl, inr, sym, ◌∙◌, Text, arith, ◌&&◌, Bool-cases,
}
use pooly_sentinel.Redaction.{Patterns}
use pooly_sentinel.Incidents.Incident.{Severity, severity_none, critical, Candidate, severity_eq}
use pooly_sentinel.Rules.State.{EvaluationMemory, is_unset}
use pooly_sentinel.Rules.Condition.{Rule}
use pooly_sentinel.Rules.Levels.{
  is_active, is_active_severity, elapsed, duration_for, is_critical, is_none, initialized,
}
use pooly_sentinel.Rules.Outcome.{incident_candidate}
use pooly_sentinel.Rules.Transition.{
  transition_state, settle, await, alarm, raise_alert, observed_memory,
}

-- The alert is up and at least as severe as `desired`.
abbrev pub IsRaised : EvaluationMemory → Severity → Type 0
IsRaised m desired = (is_active m.state ≡ true) × (is_active_severity m.severity desired ≡ true)

-- The condition has asked for `desired` since an instant that lies the rule's hold time back.
abbrev pub HasHeld : {F : Type 0} → Rule F → EvaluationMemory → Severity → ℕ → Type 0
HasHeld r m desired now =
    (since : ℕ) × (m.condition_met_since ≡ some since)
    × (severity_eq m.pending_severity desired ≡ true)
    × (elapsed (duration_for r desired) since now ≡ true)

-- The recovery began at an instant that lies the rule's recovery time back.
abbrev pub HasRecovered : {F : Type 0} → Rule F → EvaluationMemory → ℕ → Type 0
HasRecovered r m now =
    (since : ℕ) × (m.recovery_since ≡ some since) × (elapsed r.recover_for since now ≡ true)

is_none_sound : (desired : Severity) → is_none desired ≡ true → desired ≡ severity_none
unfolding is_none
is_none_sound desired h = ground arith

is_critical_sound : (desired : Severity) → is_critical desired ≡ true → desired ≡ critical
unfolding is_critical
is_critical_sound desired h = ground arith

module _ {F : Type 0} (r : Rule F) (target : Text) (m : EvaluationMemory) where
  settle-candidate :
      (now : ℕ) {c : Candidate}
      → (settle r target m now).candidate ≡ some c
      → (c.active ≡ false) × (is_active m.state ≡ true) × HasRecovered r m now
  unfolding settle incident_candidate
  settle-candidate now h = ground arith

  await-candidate :
      (desired : Severity) (now : ℕ) {c : Candidate}
      → (await r target m desired now).candidate ≡ some c
      → (c.active ≡ true) × (c.severity ≡ desired) × HasHeld r m desired now
  unfolding await incident_candidate
  await-candidate desired now h = ground arith

  raise_alert-candidate :
      (desired : Severity) (now : ℕ) {c : Candidate}
      → (raise_alert r target m desired now).candidate ≡ some c
      → (c.active ≡ true) × (c.severity ≡ desired)
  unfolding raise_alert incident_candidate
  raise_alert-candidate desired now h = ground arith

  alarm-candidate :
      (desired : Severity) (now : ℕ) {c : Candidate}
      → (alarm r target m desired now).candidate ≡ some c
      → (c.active ≡ true) × (c.severity ≡ desired) × (IsRaised m desired ⊎ HasHeld r m desired now)
  unfolding alarm incident_candidate
  alarm-candidate desired now h =
      elim (Bool-cases (is_active_severity m.severity desired && is_active m.state)) [
        | inl up ↦ ground (arith, is_critical_sound desired)
        | inr down ↦ ground (arith, await-candidate desired now (rw down at h))
      ]

  initialized-IsRaised :
      (desired : Severity) → IsRaised (initialized m) desired → IsRaised m desired
  unfolding initialized is_unset is_active
  initialized-IsRaised desired h = ground arith

  initialized-is_active : is_active (initialized m).state ≡ is_active m.state
  unfolding initialized is_unset is_active
  initialized-is_active = ground arith

  initialized-instants :
      ((initialized m).condition_met_since ≡ m.condition_met_since)
      × ((initialized m).recovery_since ≡ m.recovery_since)
      × ((initialized m).pending_severity ≡ m.pending_severity)
  unfolding initialized
  initialized-instants = ground arith

module _ (p : Patterns) {F : Type 0} (r : Rule F) (target : Text) (m : EvaluationMemory)
    (desired : Severity) (reason : Text) (observed_at now : ℕ) where
  -- A candidate that is active asks for the alert `desired`, and comes only while an alert at least as
  -- severe is up, or after the hold time of `desired`.
  pub alarm_justified :
      (c : Candidate)
      → (transition_state r target p m desired reason observed_at now).candidate ≡ some c
      → c.active ≡ true
      → (c.severity ≡ desired) × (IsRaised m desired ⊎ HasHeld r m desired now)
  unfolding transition_state
  alarm_justified c h a =
      let kept = initialized-instants r target m in
      let before = observed_memory r target p m desired reason observed_at now in
      elim (Bool-cases (is_none desired)) [
        | inl calm ↦ cc (a, (settle-candidate r target before now (rw calm at h)).0)
        | inr alert ↦
            let found =
              alarm-candidate r target (record before { recovery_since = none }) desired now
                (rw alert at h) in
            ground (arith, found, kept, initialized-IsRaised r target m desired)
      ]

  -- An evaluation hands over a candidate that resolves only where the condition is not true, an
  -- alert is up, and the recovery time has passed since the recovery began.
  pub resolution_justified :
      (c : Candidate)
      → (transition_state r target p m desired reason observed_at now).candidate ≡ some c
      → c.active ≡ false
      → (desired ≡ severity_none) × (is_active m.state ≡ true) × HasRecovered r m now
  unfolding transition_state
  resolution_justified c h a =
      let kept = initialized-instants r target m in
      let before = observed_memory r target p m desired reason observed_at now in
      elim (Bool-cases (is_none desired)) [
        | inl calm ↦
            let found = settle-candidate r target before now (rw calm at h) in
            (
              is_none_sound desired calm,
              sym (initialized-is_active r target m) ∙ found.1,
              rw (kept.1) at found.2,
            )
        | inr alert ↦ cc (
          a,
          (alarm-candidate r target (record before { recovery_since = none }) desired now
              (rw alert at h)).0,
        )
      ]
