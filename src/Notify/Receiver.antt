-- ===== src/Notify/Receiver.antt =====
-- internal/notify/receiver.go. Packages `encoding/json` and `net/http` are a parameter: what comes of
-- encoding the payload, building the request and doing it under the receiver's timeout.
use pooly_sentinel.Prelude.{
  ℕ, Bool, true, false, not, ◌&&◌, ◌||◌, Option, none, some, List, [], ◌∷◌, ◌++◌, Text, text,
  is_empty, is_set, any, length, take, ltb, if◌then◌else◌,
}
use pooly_sentinel.Effect.{Error, Context, is_error, canceled, deadline_exceeded}
use pooly_sentinel.Redaction.{Patterns, redact}
use pooly_sentinel.Incidents.Incident.{Severity, severity_eq}
use pooly_sentinel.Notify.Types.{
  Event, event_eq, event_resolved, ReceiverSpec, Payload, DeliveryOutcome, Receiver,
}

unfoldable pub cost_class_of : ReceiverSpec → Text
unfolding text
cost_class_of spec = if is_empty spec.cost_class then text "free_core" else spec.cost_class

-- `len(list) > 0 && !slices.Contains(list, x)`.
abbrev pub filters_out {ℓ} : {A : Type ℓ} → (A → A → Bool) → List A → A → Bool
filters_out same [] x = false
filters_out same (y ∷ ys) x = not (any (λ z. same z x) (y ∷ ys))

unfoldable pub matches : ReceiverSpec → Event → Severity → Bool
matches spec event severity =
    if filters_out event_eq spec.events event
    then false
    else if event_eq event event_resolved
    then true
    else if filters_out severity_eq spec.severities severity
    then false
    else true

unfoldable pub outcome : Bool → Text → Text → DeliveryOutcome
outcome success error_class summary = record {
  success = success;
  error_class = error_class;
  summary = summary;
}

unfoldable pub max_webhook_response_bytes : ℕ
max_webhook_response_bytes = 4096

-- What comes of a request: its payload or itself could not be made, `client.Do` failed (with
-- `netErr.Timeout()` and the text of the error), the body could not be read, or a status and the at
-- most 4097 bytes of the body that were read.
pub data Reply : Type 0 where
  encode_failed request_failed read_failed : Reply
  do_failed : Error → Bool → Text → Reply
  replied : ℕ → Text → Reply

pub record HttpClient (S : Type 0) : Type 0 where
  pub post : Context S → ReceiverSpec → Payload → S → Reply × S
  -- `fmt.Sprintf("webhook returned HTTP %d", status)`.
  pub status_summary : ℕ → Text

module _ (p : Patterns) where
  unfoldable pub summary_of : ReceiverSpec → Text
  summary_of spec =
      if is_set spec.display_name then redact p spec.display_name else redact p spec.id

  unfoldable pub classify_webhook_error : Error → Bool → Text → DeliveryOutcome
  unfolding outcome text
  classify_webhook_error e net_timeout shown =
      if is_error e canceled
      then outcome false (text "canceled") (text "webhook delivery canceled")
      else if is_error e deadline_exceeded
      then outcome false (text "timeout") (text "webhook delivery timed out")
      else if net_timeout
      then outcome false (text "timeout") (text "webhook delivery timed out")
      else outcome false (text "delivery_error") (redact p shown)

  -- The summary of a status that is not 2xx, from its text, the status and the body read.
  unfoldable pub http_summary : Text → ℕ → Text → Text
  unfolding text
  http_summary shown status read =
      let truncated = ltb max_webhook_response_bytes (length read) in
      let body = if truncated then take max_webhook_response_bytes read else read in
      let detailed =
        if (ltb status 300 || ltb 399 status) && ltb 0 (length body)
        then shown ++ (text ": " ++ redact p body)
        else shown in
      if truncated then detailed ++ text " (truncated)" else detailed

  module _ {S : Type 0} (client : HttpClient S) where
    unfoldable pub webhook_outcome : Reply → DeliveryOutcome
    unfolding outcome text classify_webhook_error http_summary
    webhook_outcome encode_failed =
        outcome false (text "render") (text "notification payload could not be encoded")
    webhook_outcome request_failed =
        outcome false (text "config") (text "webhook request could not be created")
    webhook_outcome read_failed =
        outcome false (text "response_read") (text "webhook response could not be read")
    webhook_outcome (do_failed e net_timeout shown) = classify_webhook_error e net_timeout shown
    webhook_outcome (replied status read) =
        if ltb status 200 || ltb 299 status
        then outcome false (text "http_status")
            (http_summary (client.status_summary status) status read)
        else outcome true [] (text "webhook delivered")

    unfoldable pub webhook_deliver : ReceiverSpec → Context S → Payload → S → DeliveryOutcome × S
    unfolding outcome text webhook_outcome
    webhook_deliver spec ctx payload s =
        if is_empty spec.url
        then (outcome false (text "config") (text "webhook URL is not configured"), s)
        else (let (reply, s') = client.post ctx spec payload s in (webhook_outcome reply, s'))

    pub webhook_receiver : ReceiverSpec → Receiver S
    webhook_receiver spec = record {
      id = spec.id;
      enabled = spec.enabled;
      type = spec.type;
      cost_class = cost_class_of spec;
      matches = matches spec;
      summary = summary_of spec;
      deliver = webhook_deliver spec;
    }

-- `if err := ctx.Err(); err != nil` of `NoopReceiver.Deliver`.
unfoldable pub noop_outcome : Option Error → DeliveryOutcome
unfolding outcome text
noop_outcome none = outcome true [] (text "noop delivered")
noop_outcome (some e) = outcome false (text "canceled") (text "noop delivery canceled")

unfoldable pub noop_deliver : {S : Type 0} → Context S → Payload → S → DeliveryOutcome × S
unfolding noop_outcome
noop_deliver ctx payload s = let (e, s') = ctx.poll s in (noop_outcome e, s')

unfoldable pub noop_receiver : {S : Type 0} → Patterns → ReceiverSpec → Receiver S
unfolding cost_class_of matches summary_of noop_deliver
noop_receiver p spec = record {
  id = spec.id;
  enabled = spec.enabled;
  type = spec.type;
  cost_class = cost_class_of spec;
  matches = matches spec;
  summary = summary_of p spec;
  deliver = noop_deliver;
}
