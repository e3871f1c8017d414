-- ===== src/Rules/Status.antt =====
-- internal/rules/engine.go, `observationStatus`: what the state of a collector says to a rule.
use pooly_sentinel.Prelude.{not, Option, none, some, List, [], ◌∷◌, ◌++◌, Text, text, if◌then◌else◌}
use pooly_sentinel.Resources.{
  Observation, ErrorClass, error_class_text, is_counter_reset, is_error_none, error_none,
  unsupported, counter_reset, internal_error,
}
use pooly_sentinel.Rules.Condition.{Rule, collector_matches}

-- The struct `ruleObservationStatus`.
pub record ObservationStatus : Type 0 where
  pub class : ErrorClass
  pub summary : Text

-- What one observation of the rule's collector says; `none` goes on with the next one.
unfoldable pub status_of : {F : Type 0} → Observation F → Option ObservationStatus
unfolding is_counter_reset is_error_none error_class_text
status_of o =
    if not o.supported
    then some (record { class = unsupported; summary = text "collector unsupported" })
    else if is_counter_reset o.error_class
    then some (record { class = counter_reset; summary = text "counter reset or first baseline" })
    else if o.stale
    then some (record { class = o.error_class; summary = text "stale observation" })
    else if not o.success
    then (let class = if is_error_none o.error_class then internal_error else o.error_class in
        some (record {
          class = class;
          summary = text "collector failure: " ++ error_class_text class;
        }))
    else none

unfoldable pub observation_status : {F : Type 0} → Rule F → List (Observation F) → ObservationStatus
unfolding status_of
observation_status r [] = record { class = error_none; summary = [] }
observation_status r (o ∷ os) =
    let rest = observation_status r os in
    if collector_matches r.collector o.collector
    then (elim (status_of o) [ none ↦ rest | some status ↦ status ])
    else rest
