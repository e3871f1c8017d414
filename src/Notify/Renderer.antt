-- ===== src/Notify/Renderer.antt =====
-- internal/notify/renderer.go: what receivers are told of an incident.
use pooly_sentinel.Prelude.{Text, text, is_empty, length, take, ltb, if◌then◌else◌}
use pooly_sentinel.Redaction.{Patterns, redact}
use pooly_sentinel.Storage.Records.{IncidentRecord}
use pooly_sentinel.Storage.Paths.{Filepath, safe_evidence_path}
use pooly_sentinel.Notify.Types.{Event, Payload}
use pooly_sentinel.Notify.Dedupe.{known_time}

module _ (p : Patterns) where
  unfoldable pub safe_summary : Text → Text
  unfolding text
  safe_summary summary =
      let value = redact p summary in
      if is_empty value
      then text "incident lifecycle event"
      else if ltb 500 (length value)
      then take 500 value
      else value

  -- `RenderPayloadWithEvidenceRoot`; `known_time` is `utcPtr`.
  pub render_payload : Filepath → Text → IncidentRecord → Event → Payload
  unfolding known_time
  render_payload f root incident event = record {
    event = event;
    incident_id = redact p incident.id;
    fingerprint = redact p incident.fingerprint;
    node_id = redact p incident.node_id;
    type = redact p incident.type;
    target = redact p incident.target;
    condition = redact p incident.condition;
    severity = redact p incident.severity;
    status = redact p incident.status;
    summary = safe_summary incident.summary;
    first_seen = incident.first_seen;
    last_seen = incident.last_seen;
    occurrence_count = incident.occurrence_count;
    last_transition = known_time incident.last_transition;
    resolved_at = known_time incident.resolved_at;
    evidence_path = safe_evidence_path f p incident.evidence_path root;
  }
