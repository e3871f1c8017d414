-- ===== src/Storage/Validation.antt =====
-- internal/storage/repository_helpers.go and time.go. A loop over a Go map runs in an order of its own:
-- of several fields that are missing, the first in the source's order is the one reported here.
use pooly_sentinel.Prelude.{
  ℕ, pos, leb_ℤ, Option, none, some, List, [], ◌∷◌, ◌++◌, Text, text, is_empty, trim_space, ◌==◌,
  if◌then◌else◌,
}
use pooly_sentinel.Effect.{Result, ok, err, message, and_then}
use pooly_sentinel.Redaction.{Patterns, redact}
use pooly_sentinel.Storage.Records.{
  MetadataRecord, CollectorStateRecord, IncidentRecord, NotificationDeliveryRecord,
  RuleEvaluationStateRecord,
}

unfoldable pub required : Text → Text → Result (Unit {0})
unfolding text trim_space
required value field =
    if is_empty (trim_space value) then err (message (field ++ text " is required")) else ok tt

-- `requiredTime`.
unfoldable pub required_time : Text → ℕ → Result (Unit {0})
unfolding text
required_time field t = if t == 0 then err (message (field ++ text " is required")) else ok tt

-- A loop over the map `requiredFields`, of names to values.
unfoldable pub required_fields : List (Text × Text) → Result (Unit {0})
unfolding required
required_fields [] = ok tt
required_fields ((field, value) ∷ rest) =
    and_then (required value field) (λ _. required_fields rest)

-- A column that may be NULL: an empty text is stored as NULL, which is read back as an empty text.
unfoldable pub nullable_string : Patterns → Text → Text
nullable_string p value = if is_empty value then [] else redact p value

-- `nullableTime`: the zero time is stored as NULL.
unfoldable pub nullable_time : Option ℕ → Option ℕ
nullable_time none = none
nullable_time (some t) = if t == 0 then none else some t

-- `formatTime`: the zero time is stored as the present.
unfoldable pub time_or : ℕ → ℕ → ℕ
time_or now t = if t == 0 then now else t

unfoldable pub validate_metadata : MetadataRecord → Result (Unit {0})
unfolding required text
validate_metadata r = required r.key (text "metadata key")

unfoldable pub validate_collector_state : CollectorStateRecord → Result (Unit {0})
unfolding required text
validate_collector_state r =
    and_then (required r.collector (text "collector"))
      (λ _. and_then (required r.target (text "target")) (λ _. required r.status (text "status")))

unfoldable pub validate_incident : IncidentRecord → Result (Unit {0})
unfolding required_fields required_time text
validate_incident r =
    let fields =
      (text "id", r.id)
      ∷ (text "fingerprint", r.fingerprint)
      ∷ (text "node_id", r.node_id)
      ∷ (text "type", r.type)
      ∷ (text "target", r.target)
      ∷ (text "condition", r.condition)
      ∷ (text "severity", r.severity)
      ∷ (text "status", r.status)
      ∷ (text "summary", r.summary)
      ∷ [] in
    and_then (required_fields fields) (λ _.
      and_then (required_time (text "first_seen") r.first_seen) (λ _.
        and_then (required_time (text "last_seen") r.last_seen) (λ _.
          if leb_ℤ (pos 0) r.occurrence_count
          then ok tt
          else err (message (text "occurrence_count cannot be negative")))))

unfoldable pub validate_rule_evaluation_state : RuleEvaluationStateRecord → Result (Unit {0})
unfolding required_fields required_time text
validate_rule_evaluation_state r =
    let fields =
      (text "rule_id", r.rule_id)
      ∷ (text "target", r.target)
      ∷ (text "state", r.state)
      ∷ (text "severity", r.severity)
      ∷ (text "last_result_summary", r.last_result_summary)
      ∷ [] in
    and_then (required_fields fields)
      (λ _. required_time (text "last_evaluated_at") r.last_evaluated_at)

unfoldable pub validate_notification_delivery : NotificationDeliveryRecord → Result (Unit {0})
unfolding required_fields required_time text
validate_notification_delivery r =
    let fields =
      (text "id", r.id)
      ∷ (text "incident_id", r.incident_id)
      ∷ (text "receiver", r.receiver)
      ∷ (text "cost_class", r.cost_class)
      ∷ (text "status", r.status)
      ∷ [] in
    and_then (required_fields fields) (λ _.
      if leb_ℤ (pos 1) r.attempt
      then required_time (text "attempted_at") r.attempted_at
      else err (message (text "attempt must be greater than zero")))
