-- ===== src/Storage/Errors/Hidden.antt =====
-- internal/storage/errors.go: which causes an error of the storage still shows.
use pooly_sentinel.Prelude.{◌≡◌, Bool, true, false, ◌&&◌, Text, arith}
use pooly_sentinel.Effect.{
  Error, sentinel, message, prefixed, storage, ErrorClass, Sentinel, is_error, same_sentinel,
  not_found, closed, future_schema, canceled, deadline_exceeded,
}
use pooly_sentinel.Redaction.{Patterns}
use pooly_sentinel.Storage.Errors.{wrap_error}

abbrev pub is_kept : Sentinel → Bool
is_kept not_found = true
is_kept closed = true
is_kept future_schema = true
is_kept _ = false

same_sentinel_sound : (s a : Sentinel) → same_sentinel s a ≡ true → s ≡ a
unfolding same_sentinel
same_sentinel_sound not_found a h = ground arith
same_sentinel_sound closed a h = ground arith
same_sentinel_sound future_schema a h = ground arith
same_sentinel_sound canceled a h = ground arith
same_sentinel_sound deadline_exceeded a h = ground arith

-- An error wraps at most one of the sentinels.
one_sentinel : (e : Error) (a b : Sentinel) → is_error e a ≡ true → is_error e b ≡ true → a ≡ b
unfolding is_error
one_sentinel (sentinel s) a b h k = cc (same_sentinel_sound s a h, same_sentinel_sound s b k)
one_sentinel (message m) a b h k = ground arith
one_sentinel (prefixed t e) a b h k = one_sentinel e a b h k
one_sentinel (storage op class e) a b h k = one_sentinel e a b h k

-- An error that the storage wraps is still known for a missing record, a closed store and a newer
-- schema, exactly where its cause is; and it is never known for a context that was canceled or whose
-- deadline has passed.
pub is_error-wrap_error :
    (p : Patterns) (error_text : Error → Text) (op : Text) (class : ErrorClass) (e : Error)
    (s : Sentinel)
    → is_error (wrap_error p error_text op class e) s ≡ (is_kept s && is_error e s)
unfolding wrap_error is_error
is_error-wrap_error p error_text op class e not_found = ground arith
is_error-wrap_error p error_text op class e closed = ground arith
is_error-wrap_error p error_text op class e future_schema = ground arith
is_error-wrap_error p error_text op class e canceled = ground (
  arith,
  one_sentinel e canceled not_found,
  one_sentinel e canceled closed,
  one_sentinel e canceled future_schema,
)
is_error-wrap_error p error_text op class e deadline_exceeded = ground (
  arith,
  one_sentinel e deadline_exceeded not_found,
  one_sentinel e deadline_exceeded closed,
  one_sentinel e deadline_exceeded future_schema,
)
