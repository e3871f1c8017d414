-- ===== src/Rules/Condition.antt =====
-- internal/rules/condition.go: rules, and which metrics and events of the observations they match.
pub mod Targets
pub mod Judge
use pooly_sentinel.Prelude.{
  ℕ, ℤ, Bool, true, false, not, ◌&&◌, ◌||◌, Option, none, some, List, [], ◌∷◌, ◌++◌, Text, text,
  text_eq, is_empty, is_set, equal_fold, ltb, ◌==◌, any, if◌then◌else◌,
}
use pooly_sentinel.Resources
use pooly_sentinel.Resources.{Float64, Labels, label, Metric, Observation}
use pooly_sentinel.Incidents.Incident.{Severity, severity_none, warning, failure, critical}
use pooly_sentinel.Rules.State.{Policy}

pub data Operator : Type 0 where
  greater_than greater_than_or_equal less_than less_than_or_equal equal not_equal : Operator
  boolean_true boolean_false state_match event_category_match : Operator
  other_operator : Text → Operator

pub record Value (F : Type 0) : Type 0 where
  pub number : F
  pub string : Text
  pub bool : Bool
  pub kind : Text

pub record Threshold (F : Type 0) : Type 0 where
  pub operator : Operator
  pub value : Value F
  pub hold : ℤ  -- the field `For`

pub record Rule (F : Type 0) : Type 0 where
  pub id : Text
  pub enabled : Bool
  pub collector : Text
  pub metric : Text
  pub target : Text
  pub event_category : Text
  pub warn : Option (Threshold F)
  pub fail : Option (Threshold F)
  pub critical : Option (Threshold F)
  pub recover_for : ℤ
  pub missing_data : Policy
  pub stale_data : Policy
  pub summary : Text
  pub labels : Labels

-- `Matched` is true in every result that the code builds, and nothing reads it.
pub record MatchResult (F : Type 0) : Type 0 where
  pub target : Text
  pub observed : ℕ
  pub metric : Option (Metric F)
  pub event : Option Resources.Event

-- The first of the keys with a label that is not empty.
unfoldable pub first_label : Labels → List Text → Text → Text
first_label labels [] default = default
first_label labels (key ∷ keys) default =
    if is_set (label labels key) then label labels key else first_label labels keys default

unfoldable pub target_matches : Text → Text → Bool
target_matches rule_target observed_target =
    if is_empty rule_target || text_eq rule_target (text "any")
    then true
    else if text_eq rule_target (text "system") && text_eq observed_target (text "all")
    then true
    else text_eq rule_target observed_target

-- The `case` list of `collectorMatches`.
is_resource_collector : Text → Bool
is_resource_collector c = any (text_eq c) (
    text "cpu"
    ∷ text "load"
    ∷ text "memory"
    ∷ text "pressure"
    ∷ text "filesystem"
    ∷ text "diskio"
    ∷ text "network"
    ∷ text "uptime"
    ∷ [])

unfoldable pub collector_matches : Text → Text → Bool
unfolding is_resource_collector
collector_matches rule_collector observation_collector =
    if text_eq rule_collector observation_collector
    then true
    else text_eq rule_collector (text "resources") && is_resource_collector observation_collector

-- The last lines of `metricTarget` and `eventTarget`.
observation_target : {F : Type 0} → Observation F → Text
observation_target o = if is_set o.target then o.target else text "system"

unfoldable pub metric_target : {F : Type 0} → Observation F → Metric F → Text
unfolding first_label observation_target
metric_target o m =
    first_label m.labels
      (text "mount"
        ∷ text "interface"
        ∷ text "device"
        ∷ text "unit"
        ∷ text "directive"
        ∷ text "port"
        ∷ text "watch"
        ∷ text "collector"
        ∷ [])
      (observation_target o)

unfoldable pub event_target : {F : Type 0} → Observation F → Resources.Event → Text
unfolding first_label observation_target
event_target o e =
    first_label e.labels
      (text "unit"
        ∷ text "stream"
        ∷ text "event_category"
        ∷ text "interface"
        ∷ text "device"
        ∷ text "watch"
        ∷ [])
      (observation_target o)

-- `ts := own; if ts.IsZero() { ts = observation.Timestamp }`.
abbrev timestamp_or : ℕ → ℕ → ℕ
timestamp_or own fallback = if own == 0 then fallback else own

module _ {F : Type 0} where
  unfoldable pub default_target : Rule F → Text
  default_target r =
      if is_set r.target && not (text_eq r.target (text "any")) then r.target else text "system"

  -- The loop of `findMatches` over the metrics of an observation.
  pub metric_matches : Rule F → Observation F → List (Metric F) → List (MatchResult F)
  metric_matches r o [] = []
  metric_matches r o (m ∷ ms) =
      let rest = metric_matches r o ms in
      if not (text_eq m.name r.metric)
      then rest
      else if not (target_matches r.target (metric_target o m))
      then rest
      else record {
        target = metric_target o m;
        observed = timestamp_or m.timestamp o.timestamp;
        metric = some m;
        event = none;
      }
        ∷ rest

  -- The loop of `findMatches` over the events of an observation.
  pub event_matches : Rule F → Observation F → List Resources.Event → List (MatchResult F)
  event_matches r o [] = []
  event_matches r o (e ∷ es) =
      let rest = event_matches r o es in
      if not (target_matches r.target (event_target o e))
      then rest
      else if is_set r.event_category && not (text_eq e.category r.event_category)
      then rest
      else record {
        target = event_target o e;
        observed = timestamp_or e.timestamp o.timestamp;
        metric = none;
        event = some e;
      }
        ∷ rest

  -- What one observation adds.
  pub observation_matches : Rule F → Observation F → List (MatchResult F)
  unfolding metric_matches event_matches
  observation_matches r o =
      if not (collector_matches r.collector o.collector)
      then []
      else (if is_set r.metric then metric_matches r o o.metrics else [])
        ++ (if is_set r.event_category then event_matches r o o.events else [])

  unfoldable pub find_matches : Rule F → List (Observation F) → List (MatchResult F)
  unfolding observation_matches
  find_matches r [] = []
  find_matches r (o ∷ os) = observation_matches r o ++ find_matches r os
