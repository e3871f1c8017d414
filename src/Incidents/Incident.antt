-- ===== src/Incidents/Incident.antt =====
-- internal/incidents/incident.go. Go's `Severity`, `Status` and `Action` are strings: a string that
-- is none of the named constants is kept in `other`.
use pooly_sentinel.Prelude.{ℕ, Bool, true, false, Text, text, text_eq, [], if◌then◌else◌, is_empty}

pub data Severity : Type 0 where
  -- The empty string.
  unset : Severity
  severity_none warning failure critical : Severity
  other : Text → Severity

pub data Status : Type 0 where
  open_status resolved : Status

pub data Action : Type 0 where
  action_none opened updated escalated action_resolved reopened : Action

-- `string(severity)`.
unfoldable pub severity_text : Severity → Text
severity_text unset = []
severity_text severity_none = text "none"
severity_text warning = text "warning"
severity_text failure = text "failure"
severity_text critical = text "critical"
severity_text (other s) = s

-- `Severity(s)`.
unfoldable pub to_severity : Text → Severity
to_severity s =
    if is_empty s
    then unset
    else if text_eq s (text "none")
    then severity_none
    else if text_eq s (text "warning")
    then warning
    else if text_eq s (text "failure")
    then failure
    else if text_eq s (text "critical")
    then critical
    else other s

-- `a == b` on severities.
unfoldable pub severity_eq : Severity → Severity → Bool
severity_eq unset unset = true
severity_eq severity_none severity_none = true
severity_eq warning warning = true
severity_eq failure failure = true
severity_eq critical critical = true
severity_eq (other s) (other t) = text_eq s t
severity_eq _ _ = false

unfoldable pub severity_rank : Severity → ℕ
severity_rank critical = 3
severity_rank failure = 2
severity_rank warning = 1
severity_rank _ = 0

-- `severity == "" || severity == SeverityNone`.
unfoldable pub is_blank : Severity → Bool
is_blank unset = true
is_blank severity_none = true
is_blank _ = false

unfoldable pub status_text : Status → Text
status_text open_status = text "open"
status_text resolved = text "resolved"

pub record Candidate : Type 0 where
  pub node_id : Text
  pub type : Text
  pub target : Text
  pub condition : Text
  pub severity : Severity
  pub active : Bool
  pub summary : Text
  pub evidence_path : Text
  pub observed_at : ℕ

-- `status` is the text of the stored record, which may be any text.
pub record Transition : Type 0 where
  pub action : Action
  pub incident_id : Text
  pub fingerprint : Text
  pub severity : Severity
  pub status : Text
  pub summary : Text
