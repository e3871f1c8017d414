-- ===== src/Rules/State.antt =====
-- internal/rules/state.go. Go's `State` and `Policy` are strings: a string that is none of the named
-- constants is kept in `other`.
pub mod RoundTrip
use pooly_sentinel.Prelude.{
  ℕ, Bool, true, false, Option, Text, text, text_eq, [], if◌then◌else◌, is_empty,
}
use pooly_sentinel.Incidents.Incident.{Severity}

pub data State : Type 0 where
  -- The empty string.
  unset : State
  state_ok pending_warn warn pending_fail fail state_critical : State
  recovering recovered state_stale unknown : State
  other : Text → State

pub data Policy : Type 0 where
  policy_unset policy_ignore policy_stale policy_warn policy_fail : Policy
  policy_other : Text → Policy

-- `string(state)`.
unfoldable pub state_text : State → Text
state_text unset = []
state_text state_ok = text "OK"
state_text pending_warn = text "PENDING_WARN"
state_text warn = text "WARN"
state_text pending_fail = text "PENDING_FAIL"
state_text fail = text "FAIL"
state_text state_critical = text "CRITICAL"
state_text recovering = text "RECOVERING"
state_text recovered = text "RECOVERED"
state_text state_stale = text "STALE"
state_text unknown = text "UNKNOWN"
state_text (other s) = s

-- `State(s)`.
unfoldable pub to_state : Text → State
to_state s =
    if is_empty s
    then unset
    else if text_eq s (text "OK")
    then state_ok
    else if text_eq s (text "PENDING_WARN")
    then pending_warn
    else if text_eq s (text "WARN")
    then warn
    else if text_eq s (text "PENDING_FAIL")
    then pending_fail
    else if text_eq s (text "FAIL")
    then fail
    else if text_eq s (text "CRITICAL")
    then state_critical
    else if text_eq s (text "RECOVERING")
    then recovering
    else if text_eq s (text "RECOVERED")
    then recovered
    else if text_eq s (text "STALE")
    then state_stale
    else if text_eq s (text "UNKNOWN")
    then unknown
    else other s

-- `state == ""`.
unfoldable pub is_unset : State → Bool
is_unset unset = true
is_unset _ = false

pub record EvaluationMemory : Type 0 where
  pub state : State
  pub severity : Severity
  pub condition_met_since : Option ℕ
  pub recovery_since : Option ℕ
  pub last_evaluated_at : ℕ
  pub last_observed_at : Option ℕ
  pub last_result_summary : Text
  pub pending_severity : Severity
