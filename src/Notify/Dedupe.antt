-- ===== src/Notify/Dedupe.antt =====
-- internal/notify/dedupe.go. SHA-256 and `time.Time.Format` are parameters.
pub mod Attempts
use pooly_sentinel.Prelude.{
  ℕ, zero, suc, ◌+◌, ◌/◌, ◌%◌, ℤ, pos, negsuc, leb_ℤ, incr_int64, Bool, true, false, not, ◌&&◌,
  ◌||◌, Option, none, some, List, [], ◌∷◌, ◌++◌, Text, text, text_eq, is_empty, has_prefix, join,
  take, length, ltb, leb, ◌==◌, if◌then◌else◌,
}
use pooly_sentinel.Storage.Records.{IncidentRecord, NotificationDeliveryRecord}
use pooly_sentinel.Incidents.Fingerprint.{encode_hex}
use pooly_sentinel.Notify.Types.{Event, event_text, delivered, status_text}

-- The instant of a pointer that is not nil and not the zero time.
unfoldable pub known_time : Option ℕ → Option ℕ
known_time none = none
known_time (some t) = if t == 0 then none else some t

unfoldable pub first_time : Option ℕ → ℕ → ℕ
first_time none otherwise = otherwise
first_time (some t) otherwise = t

unfoldable pub transition_time : IncidentRecord → ℕ
unfolding known_time first_time
transition_time incident = first_time (known_time incident.last_transition) (
    first_time (known_time incident.resolved_at)
      (if not (incident.last_seen == 0) then incident.last_seen else incident.first_seen))

module _ (sum256 : Text → Text) (format_time : ℕ → Text) where
  unfoldable pub delivery_key : IncidentRecord → Text → Event → Text
  unfolding text
  delivery_key incident receiver_id event =
      let raw =
        join
          (incident.id
            ∷ receiver_id
            ∷ event_text event
            ∷ incident.severity
            ∷ incident.status
            ∷ format_time (transition_time incident)
            ∷ [])
          (0 ∷ []) in
      text "del_" ++ encode_hex (take 12 (sum256 raw))

-- The decimal digits of a number below 10 ^ 20, which an int64 is.
digits : ℕ → ℕ → Text
digits zero n = []
digits (suc fuel) n =
    let higher = digits fuel (n / 10) in
    if ltb n 10 then (b'0' + n) ∷ [] else higher ++ ((b'0' + n % 10) ∷ [])

-- `fmt.Sprintf("%03d", n)` for 1 <= n.
unfoldable pub format_attempt : ℕ → Text
unfolding digits
format_attempt n =
    let s = digits 20 n in
    if ltb (length s) 2 then b'0' ∷ (b'0' ∷ s) else if ltb (length s) 3 then b'0' ∷ s else s

-- `key + "_a"`.
unfoldable pub attempt_prefix : Text → Text
unfolding text
attempt_prefix key = key ++ text "_a"

unfoldable pub positive_attempt : ℤ → ℕ
positive_attempt (pos (suc n)) = suc n
positive_attempt _ = 1

unfoldable pub delivery_id : Text → ℤ → Text
unfolding attempt_prefix format_attempt positive_attempt
delivery_id key attempt = attempt_prefix key ++ format_attempt (positive_attempt attempt)

-- The body of the loop of `nextAttempt` on its two variables.
unfoldable pub count_attempt : Text → NotificationDeliveryRecord → ℤ × Bool → ℤ × Bool
unfolding attempt_prefix
count_attempt key delivery (attempt, found) =
    if not (has_prefix delivery.id (attempt_prefix key)) then (attempt, found) else (
      if leb_ℤ attempt delivery.attempt then incr_int64 delivery.attempt else attempt,
      text_eq delivery.status (status_text delivered) || found,
    )

unfoldable pub count_attempts : Text → List NotificationDeliveryRecord → ℤ × Bool → ℤ × Bool
unfolding count_attempt
count_attempts key [] seen = seen
count_attempts key (delivery ∷ rest) seen =
    count_attempts key rest (count_attempt key delivery seen)

unfoldable pub next_attempt : List NotificationDeliveryRecord → Text → ℤ × Bool
unfolding count_attempts
next_attempt deliveries key = count_attempts key deliveries (pos 1, false)
