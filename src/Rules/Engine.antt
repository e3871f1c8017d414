-- ===== src/Rules/Engine.antt =====
-- internal/rules/engine.go, `Evaluate`: all rules over one batch of observations. Contexts and stores
-- are always given, so the checks for nil have no counterpart.
use pooly_sentinel.Prelude.{
  ℕ, Bool, true, false, not, Option, none, some, List, [], ◌∷◌, ◌++◌, Text, if◌then◌else◌,
}
use pooly_sentinel.Effect.{Error, ok, err, Exec, Context, check_context}
use pooly_sentinel.Redaction.{Patterns}
use pooly_sentinel.Resources.{Float64, Observation}
use pooly_sentinel.Incidents.Incident.{
  Severity, severity_none, warning, failure, severity_text, to_severity, is_blank, Candidate,
  Action, action_none,
}
use pooly_sentinel.Incidents.Incident
use pooly_sentinel.Rules.Condition.{Rule}
use pooly_sentinel.Rules.Condition.Targets.{matching_targets}
use pooly_sentinel.Rules.Outcome.{RuleResult}
use pooly_sentinel.Rules.Memory.{Store}
use pooly_sentinel.Rules.Evaluation.{Outcome, evaluate_rule_target}

-- The interface `transactionalStore`: `run` gives its function the store `tx`.
pub record Transactional (S : Type 0) : Type 0 where
  pub tx : Store S
  pub run : Context S → Exec S Outcome → Exec S Outcome

-- A store, with the transactions that the type assertion of `evaluateMaybeTransactional` may find.
pub record EngineStore (S : Type 0) : Type 0 where
  pub plain : Store S
  pub transactional : Option (Transactional S)

pub record Engine (F : Type 0) : Type 0 where
  pub rules : List (Rule F)
  pub node_id : Text
  -- What `e.Clock.Now()` returns in this evaluation.
  pub clock_now : ℕ

pub record Evaluation : Type 0 where
  pub results : List RuleResult
  pub transitions : List Incident.Transition

unfoldable pub is_none_action : Action → Bool
is_none_action action_none = true
is_none_action _ = false

module _ (p : Patterns) (sum256 : Text → Text) {S F : Type 0} (fl : Float64 F) (ctx : Context S)
    (es : EngineStore S) where
  unfoldable pub evaluate_maybe_transactional :
      Engine F → Rule F → Text → List (Observation F) → Exec S Outcome
  unfolding evaluate_rule_target
  evaluate_maybe_transactional e r target os = elim es.transactional [
    | none ↦ evaluate_rule_target p sum256 ctx es.plain fl r target e.node_id os e.clock_now
    | some t ↦
        t.run ctx (evaluate_rule_target p sum256 ctx t.tx fl r target e.node_id os e.clock_now)
  ]

  -- `append` to the results, and to the transitions unless the action is "none".
  pub add_outcome : Evaluation → Outcome → Evaluation
  add_outcome ev (result, transition) = record {
    results = ev.results ++ result ∷ [];
    transitions = elim transition [
      | none ↦ ev.transitions
      | some t ↦ if is_none_action t.action then ev.transitions else ev.transitions ++ t ∷ []
    ];
  }

  -- The inner loop of `Evaluate`. The evaluation so far comes back beside an error.
  evaluate_targets :
      Engine F
      → Rule F
      → List (Observation F)
      → List Text
      → Evaluation
      → S
      → Evaluation × Option Error × S
  evaluate_targets e r os [] ev s = (ev, none, s)
  evaluate_targets e r os (target ∷ targets) ev s =
      let (out, s') = evaluate_maybe_transactional e r target os s in
      elim out [
        | ok o ↦ evaluate_targets e r os targets (add_outcome ev o) s'
        | err x ↦ (ev, some x, s')
      ]

  -- The loop of `Evaluate` over the rules.
  evaluate_rules :
      Engine F
      → List (Rule F)
      → List (Observation F)
      → Evaluation
      → S
      → Evaluation × Option Error × S
  evaluate_rules e [] os ev s = (ev, none, s)
  evaluate_rules e (r ∷ rs) os ev s =
      let (live, s₁) = check_context ctx s in
      elim live [
        | err x ↦ (ev, some x, s₁)
        | ok _ ↦
            if not r.enabled
            then evaluate_rules e rs os ev s₁
            else (let (ev', stop, s₂) = evaluate_targets e r os (matching_targets r os) ev s₁ in
                elim stop [ some x ↦ (ev', some x, s₂) | none ↦ evaluate_rules e rs os ev' s₂ ])
      ]

  unfoldable pub evaluate : Engine F → List (Observation F) → S → Evaluation × Option Error × S
  unfolding evaluate_maybe_transactional add_outcome evaluate_targets evaluate_rules
  evaluate e os s =
      let (live, s₁) = check_context ctx s in
      elim live [
        | err x ↦ (record { results = []; transitions = [] }, some x, s₁)
        | ok _ ↦ evaluate_rules e e.rules os (record { results = []; transitions = [] }) s₁
      ]
