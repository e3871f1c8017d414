-- ===== src/Rules/Transition/Runs/Recovery.antt =====
-- internal/rules/engine.go, `transitionState`: sequences of evaluations in which the condition is not
-- true.
use pooly_sentinel.Prelude.{
  ℕ, ◌≡◌, refl, true, false, none, some, List, [], ◌∷◌, ◌++◌, Text, arith, Bool-cases, inl, inr,
}
use pooly_sentinel.Redaction.{Patterns}
use pooly_sentinel.Incidents.Incident.{severity_none, Candidate, severity_eq}
use pooly_sentinel.Rules.State.{State, EvaluationMemory, is_unset, recovering}
use pooly_sentinel.Rules.Condition.{Rule}
use pooly_sentinel.Rules.Levels.{is_active, is_active_severity, is_none, initialized, elapsed}
use pooly_sentinel.Rules.Outcome.{incident_candidate, safe_summary, render_summary}
use pooly_sentinel.Rules.Transition.{transition_state}
use pooly_sentinel.Rules.Transition.Runs.{
  Sample, AllDesire, AllDesire-snoc, AllDesire-snoc_inv, step, candidates,
}

active-is_unset : (s : State) → is_active s ≡ true → is_unset s ≡ false
unfolding is_active is_unset
active-is_unset s h = ground arith

module _ (p : Patterns) {F : Type 0} (r : Rule F) (target : Text) where
  step_calm :
      (m : EvaluationMemory) (x : Sample)
      → x.desired ≡ severity_none
      → is_active m.state ≡ false
      → ((step p r target m x).candidate ≡ none)
        × (is_active (step p r target m x).memory.state ≡ false)
  unfolding transition_state is_none is_active initialized is_unset
  step_calm m x d h = ground arith

  -- Where no alert is up, evaluations that find the condition not true hand over nothing.
  pub candidates_calm :
      (m : EvaluationMemory) (xs : List Sample)
      → AllDesire severity_none xs
      → is_active m.state ≡ false
      → candidates p r target m xs ≡ []
  unfolding candidates
  candidates_calm m [] d h = refl
  candidates_calm m (x ∷ xs) d h =
      let (nothing, calm) = step_calm m x d.0 h in
      rw nothing (candidates_calm (step p r target m x).memory xs d.1 calm)

  -- The recovery that began at `since` is under way.
  abbrev IsRecovering : EvaluationMemory → ℕ → Type 0
  IsRecovering m since = (m.state ≡ recovering) × (m.recovery_since ≡ some since)

  step_recovery_begins :
      (m : EvaluationMemory) (x : Sample)
      → x.desired ≡ severity_none
      → is_active m.state ≡ true
      → m.recovery_since ≡ none
      → ((step p r target m x).candidate ≡ none) × IsRecovering (step p r target m x).memory x.now
  unfolding transition_state is_none is_active initialized is_unset
  step_recovery_begins m x d h n = ground arith

  step_recovery_waits :
      (m : EvaluationMemory) (x : Sample) (since : ℕ)
      → x.desired ≡ severity_none
      → IsRecovering m since
      → elapsed r.recover_for since x.now ≡ false
      → ((step p r target m x).candidate ≡ none) × IsRecovering (step p r target m x).memory since
  unfolding transition_state is_none is_active initialized is_unset
  step_recovery_waits m x since d h e = ground arith

  -- A candidate that resolves the incident.
  abbrev pub IsResolution : Candidate → Type 0
  IsResolution c = (c.active ≡ false) × (c.severity ≡ severity_none) × (c.target ≡ target)

  step_recovery_ends :
      (m : EvaluationMemory) (x : Sample) (since : ℕ)
      → x.desired ≡ severity_none
      → IsRecovering m since
      → elapsed r.recover_for since x.now ≡ true
      → ((c : Candidate) × ((step p r target m x).candidate ≡ some c) × IsResolution c)
        × (is_active (step p r target m x).memory.state ≡ false)
  unfolding transition_state is_none is_active initialized is_unset incident_candidate
  step_recovery_ends m x since d h e =
      let summary = safe_summary p (render_summary r target x.desired x.reason) in
      (
        (incident_candidate r target severity_none false summary x.now, ground arith, ground arith),
        ground arith,
      )

  -- Exactly one candidate, and it resolves the incident.
  abbrev pub OneResolution : List Candidate → Type 0
  OneResolution cs = (c : Candidate) × (cs ≡ c ∷ []) × IsResolution c

  recovering_resolves_once :
      (m : EvaluationMemory) (xs : List Sample) (last : Sample) (since : ℕ)
      → AllDesire severity_none xs
      → last.desired ≡ severity_none
      → IsRecovering m since
      → elapsed r.recover_for since last.now ≡ true
      → OneResolution (candidates p r target m (xs ++ last ∷ []))
  unfolding candidates
  recovering_resolves_once m [] last since d l h e =
      let (found, calm) = step_recovery_ends m last since l h e in
      (found.0, rw (found.1) refl, found.2)
  recovering_resolves_once m (x ∷ xs) last since d l h e =
      elim (Bool-cases (elapsed r.recover_for since x.now)) [
        | inl over ↦
            let (found, calm) = step_recovery_ends m x since d.0 h over in
            (found.0, rw (found.1) (rw (quiet calm)), found.2)
        | inr waits ↦
            let (nothing, under_way) = step_recovery_waits m x since d.0 h waits in
            rw nothing (
              recovering_resolves_once (step p r target m x).memory xs last since d.1 l under_way e)
      ]
    where
      quiet :
          is_active (step p r target m x).memory.state ≡ false
          → candidates p r target (step p r target m x).memory (xs ++ last ∷ []) ≡ []
      quiet calm =
          candidates_calm (step p r target m x).memory (xs ++ last ∷ [])
            (AllDesire-snoc xs last d.1 l) calm

  -- An alert that is up is resolved, by exactly one candidate, where the condition is found not true
  -- from some instant on until an evaluation that comes the recovery time later.
  pub recovery_resolves_once :
      (m : EvaluationMemory) (first : Sample) (xs : List Sample) (last : Sample)
      → is_active m.state ≡ true
      → m.recovery_since ≡ none
      → AllDesire severity_none (first ∷ xs ++ last ∷ [])
      → elapsed r.recover_for first.now last.now ≡ true
      → OneResolution (candidates p r target m (first ∷ xs ++ last ∷ []))
  unfolding candidates
  recovery_resolves_once m first xs last up fresh d e =
      let (nothing, begun) = step_recovery_begins m first d.0 up fresh in
      let (d', l) = AllDesire-snoc_inv xs last d.1 in
      rw nothing
        (recovering_resolves_once (step p r target m first).memory xs last first.now d' l begun e)

  step_pending :
      (m : EvaluationMemory) (x : Sample)
      → is_none x.desired ≡ false
      → is_active_severity m.severity x.desired ≡ false
      → severity_eq m.pending_severity x.desired ≡ false
      → is_unset m.state ≡ false
      → ((step p r target m x).candidate ≡ none)
        × (is_active (step p r target m x).memory.state ≡ false)
  unfolding transition_state initialized is_active
  step_pending m x d s e u = ground arith

  -- An alert that is up, a more severe condition at one evaluation, and from then on no condition at
  -- all: no evaluation hands over a candidate, so the incident of the alert is not resolved.
  pub escalation_loses_resolution :
      (m : EvaluationMemory) (x : Sample) (xs : List Sample)
      → is_active m.state ≡ true
      → is_none x.desired ≡ false
      → is_active_severity m.severity x.desired ≡ false
      → severity_eq m.pending_severity x.desired ≡ false
      → AllDesire severity_none xs
      → candidates p r target m (x ∷ xs) ≡ []
  unfolding candidates
  escalation_loses_resolution m x xs up d s e calm =
      let (nothing, lost) = step_pending m x d s e (active-is_unset m.state up) in
      rw nothing (candidates_calm (step p r target m x).memory xs calm lost)
