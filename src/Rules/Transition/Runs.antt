-- ===== src/Rules/Transition/Runs.antt =====
-- internal/rules/engine.go, `transitionState` over a sequence of evaluations: what each evaluation
-- finds, the memory that is left, and the candidates that go to the incident engine.
pub mod Hold
pub mod Recovery
use pooly_sentinel.Prelude.{ℕ, ◌≡◌, Option, none, some, List, [], ◌∷◌, ◌++◌, Text}
use pooly_sentinel.Redaction.{Patterns}
use pooly_sentinel.Incidents.Incident.{Severity, Candidate}
use pooly_sentinel.Rules.State.{EvaluationMemory}
use pooly_sentinel.Rules.Condition.{Rule}
use pooly_sentinel.Rules.Transition.{Step, transition_state}

-- What one evaluation finds.
pub record Sample : Type 0 where
  pub desired : Severity
  pub reason : Text
  pub observed_at : ℕ
  pub now : ℕ

abbrev pub AllDesire : Severity → List Sample → Type 0
AllDesire desired [] = Unit
AllDesire desired (x ∷ xs) = (x.desired ≡ desired) × AllDesire desired xs

pub AllDesire-snoc :
    {desired : Severity} (xs : List Sample) (last : Sample)
    → AllDesire desired xs
    → last.desired ≡ desired
    → AllDesire desired (xs ++ last ∷ [])
AllDesire-snoc [] last h l = (l, tt)
AllDesire-snoc (x ∷ xs) last h l = (h.0, AllDesire-snoc xs last h.1 l)

pub AllDesire-snoc_inv :
    {desired : Severity} (xs : List Sample) (last : Sample)
    → AllDesire desired (xs ++ last ∷ [])
    → AllDesire desired xs × (last.desired ≡ desired)
AllDesire-snoc_inv [] last h = (tt, h.0)
AllDesire-snoc_inv (x ∷ xs) last h =
    let (rest, l) = AllDesire-snoc_inv xs last h.1 in ((h.0, rest), l)

abbrev pub add_candidate : Option Candidate → List Candidate → List Candidate
add_candidate none cs = cs
add_candidate (some c) cs = c ∷ cs

module _ (p : Patterns) {F : Type 0} (r : Rule F) (target : Text) where
  abbrev pub step : EvaluationMemory → Sample → Step
  step m x = transition_state r target p m x.desired x.reason x.observed_at x.now

  pub memory_after : EvaluationMemory → List Sample → EvaluationMemory
  memory_after m [] = m
  memory_after m (x ∷ xs) = memory_after (step m x).memory xs

  pub candidates : EvaluationMemory → List Sample → List Candidate
  candidates m [] = []
  candidates m (x ∷ xs) = add_candidate (step m x).candidate (candidates (step m x).memory xs)
