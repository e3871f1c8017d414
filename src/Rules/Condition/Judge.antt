-- ===== src/Rules/Condition/Judge.antt =====
-- internal/rules/condition.go, `thresholdMatches` and `desiredSeverityForTarget`: the severity that the
-- matches at a target ask for.
pub mod Worst
use pooly_sentinel.Prelude.{
  ℕ, Bool, true, false, not, ◌&&◌, ◌||◌, Option, none, some, List, [], ◌∷◌, Text, text, text_eq,
  is_empty, is_set, equal_fold, ltb, ◌==◌, any, if◌then◌else◌,
}
use pooly_sentinel.Resources.{Float64, Metric, Observation}
use pooly_sentinel.Incidents.Incident.{Severity, severity_none, warning, failure, critical}
use pooly_sentinel.Rules.Condition.{
  Operator, greater_than, greater_than_or_equal, less_than, less_than_or_equal, equal, not_equal,
  boolean_true, boolean_false, state_match, event_category_match, other_operator, Value, Threshold,
  Rule, MatchResult, first_label, default_target, find_matches,
}

-- `a == b` on Booleans.
bool_eq : Bool → Bool → Bool
bool_eq true b = b
bool_eq false b = not b

module _ {F : Type 0} where
  -- The test of `desiredSeverityForTarget` that keeps a match.
  unfoldable pub concerns : Rule F → Text → MatchResult F → Bool
  concerns r target m =
      text_eq m.target target
      || (text_eq target (text "system") && text_eq m.target (text "all"))
      || (text_eq target (default_target r) && is_empty m.target)

  pub keep_concerned : Rule F → Text → List (MatchResult F) → List (MatchResult F)
  keep_concerned r target [] = []
  keep_concerned r target (m ∷ ms) =
      let rest = keep_concerned r target ms in if concerns r target m then m ∷ rest else rest

  -- `if observed.IsZero() || match.Observed.After(observed) { observed = match.Observed }`.
  pub latest : ℕ → MatchResult F → ℕ
  latest observed m = if observed == 0 || ltb observed m.observed then m.observed else observed

  module _ (fl : Float64 F) where
    numeric : MatchResult F → F
    numeric m = elim m.metric [ none ↦ fl.zero_value | some metric ↦ metric.value ]

    bool_value : MatchResult F → Bool
    unfolding numeric
    bool_value m = fl.nonzero (numeric m)

    metric_string : Option (Metric F) → Text
    unfolding first_label
    metric_string none = []
    metric_string (some metric) =
        first_label metric.labels
          (text "state"
            ∷ text "status"
            ∷ text "directive"
            ∷ text "port"
            ∷ text "unit"
            ∷ text "interface"
            ∷ text "mount"
            ∷ text "device"
            ∷ text "watch"
            ∷ [])
          (fl.format_g metric.value)

    string_value : MatchResult F → Text
    unfolding metric_string
    string_value m = elim m.event [ some e ↦ e.category | none ↦ metric_string m.metric ]

    is_category : MatchResult F → Text → Bool
    is_category m s = elim m.event [ some e ↦ equal_fold e.category s | none ↦ false ]

    -- The `switch` of `thresholdMatches`.
    operator_matches : Operator → Value F → MatchResult F → Bool
    unfolding numeric bool_value string_value is_category bool_eq
    operator_matches greater_than v m = fl.lt v.number (numeric m)
    operator_matches greater_than_or_equal v m = fl.le v.number (numeric m)
    operator_matches less_than v m = fl.lt (numeric m) v.number
    operator_matches less_than_or_equal v m = fl.le (numeric m) v.number
    operator_matches equal v m =
        if text_eq v.kind (text "string")
        then equal_fold (string_value m) v.string
        else if text_eq v.kind (text "bool")
        then bool_eq (bool_value m) v.bool
        else fl.near (numeric m) v.number
    operator_matches not_equal v m =
        if text_eq v.kind (text "string")
        then not (equal_fold (string_value m) v.string)
        else if text_eq v.kind (text "bool")
        then not (bool_eq (bool_value m) v.bool)
        else fl.far (numeric m) v.number
    operator_matches boolean_true v m = bool_value m
    operator_matches boolean_false v m = not (bool_value m)
    operator_matches state_match v m = equal_fold (string_value m) v.string
    operator_matches event_category_match v m = is_category m v.string
    operator_matches (other_operator _) v m = false

    unfoldable pub threshold_matches : Threshold F → MatchResult F → Bool
    unfolding operator_matches
    threshold_matches t m = operator_matches t.operator t.value m

    -- `r.Fail != nil && thresholdMatches(*r.Fail, match)`.
    pub meets : Option (Threshold F) → MatchResult F → Bool
    meets none m = false
    meets (some t) m = threshold_matches t m

    -- The first loop of `desiredSeverityForTarget`: the latest instant seen, and whether it returned
    -- from inside the loop.
    scan_critical : Option (Threshold F) → ℕ → List (MatchResult F) → ℕ × Bool
    unfolding latest meets
    scan_critical t observed [] = (observed, false)
    scan_critical t observed (m ∷ ms) =
        let rest = scan_critical t (latest observed m) ms in
        if meets t m then (latest observed m, true) else rest

    -- The loops of `desiredSeverityForTarget` over the matches that are left.
    unfoldable pub judge : Rule F → List (MatchResult F) → Severity × Text × ℕ × Bool
    unfolding scan_critical meets
    judge r [] = (severity_none, text "metric or event was not observed", 0, false)
    judge r (m ∷ ms) =
        let (observed, hit) = scan_critical r.critical 0 (m ∷ ms) in
        if hit
        then (critical, text "critical threshold matched", observed, true)
        else if any (meets r.fail) (m ∷ ms)
        then (failure, text "failure threshold matched", observed, true)
        else if any (meets r.warn) (m ∷ ms)
        then (warning, text "warning threshold matched", observed, true)
        else (severity_none, text "condition is not true", observed, true)

    unfoldable pub desired_severity_for_target :
        Rule F → List (Observation F) → Text → Severity × Text × ℕ × Bool
    unfolding keep_concerned concerns judge
    desired_severity_for_target r os target =
        let matches = find_matches r os in
        judge r (if is_set target then keep_concerned r target matches else matches)
