-- ===== src/Resources.antt =====
-- internal/collectors/resources/types.go: the observations that collectors hand to the rule engine.
-- A `float64` has no counterpart: `F` stands for its values and `Float64` for what the program does
-- with them. A map from strings to strings is an association list, read with Go's default "".
pub mod Metrics
pub mod Counters
pub mod Cpu
use pooly_sentinel.Prelude.{ℕ, Bool, true, false, List, [], ◌∷◌, Text, text, text_eq, if◌then◌else◌}

pub record Float64 (F : Type 0) : Type 0 where
  pub zero_value : F
  -- a < b and a <= b.
  pub lt : F → F → Bool
  pub le : F → F → Bool
  -- `math.Abs(a - b) < 1e-12`.
  pub near : F → F → Bool
  -- `math.Abs(a - b) >= 1e-12`, which is not the negation where a or b is NaN.
  pub far : F → F → Bool
  -- `a != 0`.
  pub nonzero : F → Bool
  -- `fmt.Sprintf("%g", a)`.
  pub format_g : F → Text

abbrev pub Labels : Type 0
Labels = List (Text × Text)

-- `labels[key]`.
unfoldable pub label : Labels → Text → Text
label [] key = []
label ((k, v) ∷ rest) key = if text_eq k key then v else label rest key

pub data ErrorClass : Type 0 where
  -- `ErrorNone`, the empty string.
  error_none : ErrorClass
  unsupported source_missing permission_denied parse_error timeout counter_reset : ErrorClass
  state_error command_error oversized source_changed source_type internal_error : ErrorClass
  other_class : Text → ErrorClass

unfoldable pub error_class_text : ErrorClass → Text
error_class_text error_none = []
error_class_text unsupported = text "unsupported"
error_class_text source_missing = text "source_missing"
error_class_text permission_denied = text "permission_denied"
error_class_text parse_error = text "parse_error"
error_class_text timeout = text "timeout"
error_class_text counter_reset = text "counter_reset"
error_class_text state_error = text "state_error"
error_class_text command_error = text "command_error"
error_class_text oversized = text "oversized"
error_class_text source_changed = text "source_changed"
error_class_text source_type = text "source_type"
error_class_text internal_error = text "internal_error"
error_class_text (other_class s) = s

unfoldable pub is_counter_reset : ErrorClass → Bool
is_counter_reset counter_reset = true
is_counter_reset _ = false

unfoldable pub is_unsupported : ErrorClass → Bool
is_unsupported unsupported = true
is_unsupported _ = false

unfoldable pub is_error_none : ErrorClass → Bool
is_error_none error_none = true
is_error_none _ = false

-- The fields of `Metric` that the rule engine reads.
pub record Metric (F : Type 0) : Type 0 where
  pub name : Text
  pub value : F
  pub labels : Labels
  pub timestamp : ℕ

-- The fields of `Event` that the rule engine reads.
pub record Event : Type 0 where
  pub category : Text
  pub timestamp : ℕ
  pub labels : Labels

-- The fields of `Observation` that the rule engine and the scheduler read.
pub record Observation (F : Type 0) : Type 0 where
  pub collector : Text
  pub target : Text
  pub timestamp : ℕ
  pub success : Bool
  pub supported : Bool
  pub stale : Bool
  pub metrics : List (Metric F)
  pub summary : Text
  pub error_class : ErrorClass
  pub events : List Event
