-- ===== src/Resources/Metrics.antt =====
-- internal/collectors/resources/types.go, `NewMetric`. The quotes of `%q` are a parameter.
use pooly_sentinel.Prelude.{
  ℕ, Bool, true, false, not, ◌&&◌, ◌||◌, List, [], ◌∷◌, ◌++◌, Text, text, text_eq, has_prefix,
  is_empty, is_set, drop, any, all, leb, ◌==◌, if◌then◌else◌,
}
use pooly_sentinel.Effect.{Result, ok, err, message, and_then}
use pooly_sentinel.Resources.{Labels, Metric}

pub data MetricKind : Type 0 where
  gauge counter : MetricKind
  other_kind : Text → MetricKind

unfoldable pub is_metric_char : ℕ → Bool
is_metric_char c = leb 97 c && leb c 122 || leb 48 c && leb c 57 || c == 95

-- `metricNamePattern.MatchString(name)`.
unfoldable pub is_metric_name : Text → Bool
unfolding is_metric_char has_prefix text
is_metric_name name =
    has_prefix name (text "pooly_") && is_set (drop 6 name) && all is_metric_char (drop 6 name)

unfoldable pub allowed_labels : List Text
unfolding text
allowed_labels =
    text "collector"
    ∷ text "cpu"
    ∷ text "mount"
    ∷ text "device"
    ∷ text "interface"
    ∷ text "pressure_type"
    ∷ text "window"
    ∷ text "unit"
    ∷ text "stream"
    ∷ text "directive"
    ∷ text "port"
    ∷ text "profile"
    ∷ text "watch"
    ∷ text "event_category"
    ∷ []

-- `strings.ContainsAny(value, "\n\r\t")`.
unfoldable pub has_control : Text → Bool
has_control value = any (λ c. c == 10 || c == 13 || c == 9) value

unfoldable pub kind_text : MetricKind → Text
unfolding text
kind_text gauge = text "gauge"
kind_text counter = text "counter"
kind_text (other_kind s) = s

unfoldable pub is_known_kind : MetricKind → Bool
is_known_kind (other_kind s) = false
is_known_kind _ = true

module _ (quote : Text → Text) where
  -- The loop over the labels.
  unfoldable pub check_labels : Labels → Result (Unit {0})
  unfolding allowed_labels has_control text_eq text
  check_labels [] = ok tt
  check_labels ((key, value) ∷ rest) =
      let others = check_labels rest in
      if not (any (text_eq key) allowed_labels)
      then err (message (text "label " ++ (quote key ++ text " is not allowed")))
      else if is_empty value
      then err (message (text "label " ++ (quote key ++ text " is empty")))
      else if has_control value
      then err (message (text "label " ++ (quote key ++ text " contains control characters")))
      else others

  unfoldable pub new_metric : {F : Type 0} → Text → F → MetricKind → Labels → ℕ → Result (Metric F)
  unfolding is_metric_name is_known_kind kind_text check_labels text
  new_metric name value kind labels timestamp =
      if not (is_metric_name name)
      then err (message (text "invalid metric name " ++ quote name))
      else if not (is_known_kind kind)
      then err (message (text "invalid metric kind " ++ quote (kind_text kind)))
      else and_then (check_labels labels)
          (λ _. ok (record { name = name; value = value; labels = labels; timestamp = timestamp }))
