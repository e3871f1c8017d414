-- ===== src/Storage/Errors.antt =====
-- internal/storage/errors.go. The text of an error that comes from outside is a parameter.
pub mod Hidden
use pooly_sentinel.Prelude.{Bool, true, false, ◌||◌, Text, if◌then◌else◌}
use pooly_sentinel.Effect.{
  Error, message, storage, sentinel, ErrorClass, class_not_found, is_error, not_found, closed,
  future_schema,
}
use pooly_sentinel.Redaction.{Patterns, redact}

-- `redaction.Error`, for an error that is not nil: only its redacted text is left.
unfoldable pub redacted_error : Patterns → (Error → Text) → Error → Error
redacted_error p error_text e = message (redact p (error_text e))

unfoldable pub wrap_error : Patterns → (Error → Text) → Text → ErrorClass → Error → Error
unfolding redacted_error
wrap_error p error_text op class e =
    if is_error e not_found || is_error e closed || is_error e future_schema
    then storage op class e
    else storage op class (redacted_error p error_text e)

-- `notFound`.
unfoldable pub not_found_error : Text → Error
not_found_error op = storage op class_not_found (sentinel not_found)
