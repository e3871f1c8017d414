-- ===== src/Rules/Outcome.antt =====
-- internal/rules/engine.go: the results, candidates and summaries that `transitionState` makes.
use pooly_sentinel.Prelude.{
  ℕ, Bool, false, Option, none, ◌++◌, [], Text, text, is_empty, is_set, ltb, length, take,
  replace_all, if◌then◌else◌,
}
use pooly_sentinel.Redaction.{Patterns, redact}
use pooly_sentinel.Resources.{Labels}
use pooly_sentinel.Incidents.Incident.{
  Severity, severity_none, warning, failure, critical, severity_text, severity_eq, severity_rank,
  Candidate,
}
use pooly_sentinel.Incidents.Incident
use pooly_sentinel.Rules.State.{State}
use pooly_sentinel.Rules.Condition.{Rule}
use pooly_sentinel.Rules.Levels.{is_none}

-- The struct `Result`.
pub record RuleResult : Type 0 where
  pub rule_id : Text
  pub target : Text
  pub state : State
  pub severity : Severity
  pub matched : Bool
  pub summary : Text
  pub incident_transition : Option Incident.Transition
  pub labels : Labels

-- `Result{State: state, Severity: severity, Summary: summary}`.
unfoldable pub outcome : State → Severity → Text → RuleResult
outcome state severity summary = record {
  rule_id = [];
  target = [];
  state = state;
  severity = severity;
  matched = false;
  summary = summary;
  incident_transition = none;
  labels = [];
}

unfoldable pub incident_candidate :
    {F : Type 0} → Rule F → Text → Severity → Bool → Text → ℕ → Candidate
incident_candidate r target severity active summary now = record {
  node_id = [];
  type = if is_empty r.collector then text "rule" else r.collector;
  target = target;
  condition =
      if is_set r.event_category
      then r.event_category
      else if is_set r.metric
      then r.metric
      else r.id;
  severity = severity;
  active = active;
  summary = summary;
  evidence_path = [];
  observed_at = now;
}

unfoldable pub render_summary : {F : Type 0} → Rule F → Text → Severity → Text → Text
unfolding is_none
render_summary r target severity reason =
    if is_set r.summary
    then replace_all
        (replace_all (replace_all r.summary (text "{{rule_id}}") r.id) (text "{{target}}") target)
        (text "{{severity}}") (severity_text severity)
    else if is_none severity
    then r.id ++ (text " recovered for " ++ target)
    else r.id
      ++ (text " "
          ++ (severity_text severity ++ (text " for " ++ (target ++ (text ": " ++ reason)))))

module _ (p : Patterns) where
  unfoldable pub safe_summary : Text → Text
  safe_summary summary =
      let value = redact p summary in
      if is_empty value
      then text "rule evaluated"
      else if ltb 240 (length value)
      then take 240 value
      else value
