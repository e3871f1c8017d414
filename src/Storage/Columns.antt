-- ===== src/Storage/Columns.antt =====
-- internal/storage/time.go and repository_helpers.go: how instants and texts are written into columns, and
-- read from them.
pub mod Reading
use pooly_sentinel.Prelude.{
  ℕ, Option, none, some, List, [], ◌∷◌, Text, text, is_empty, ◌==◌, if◌then◌else◌,
}
use pooly_sentinel.Effect.{Result, ok, err, query, and_then}
use pooly_sentinel.Redaction.{Patterns, redact}
use pooly_sentinel.Storage.Database.{Driver, wrapped}

-- `nullableString`.
unfoldable pub null_string : Patterns → Text → Option Text
null_string p value = if is_empty value then none else some (redact p value)

unfoldable pub string_from_null : Option Text → Text
string_from_null none = []
string_from_null (some s) = s

module _ (p : Patterns) {W : Type 0} (d : Driver W) where
  -- `formatTime`, at the instant `now`.
  unfoldable pub format_time : ℕ → ℕ → Text
  format_time now t = d.time_text (if t == 0 then now else t)

  unfoldable pub parse_time : Text → Result ℕ
  parse_time value = if is_empty value then ok 0 else d.parse_instant value

  -- `nullableTime`.
  unfoldable pub null_time : ℕ → Option ℕ → Option Text
  unfolding format_time
  null_time now none = none
  null_time now (some t) = if t == 0 then none else some (format_time now t)

  unfoldable pub scan_nullable_time : Option Text → Result (Option ℕ)
  unfolding parse_time
  scan_nullable_time none = ok none
  scan_nullable_time (some value) =
      if is_empty value then ok none else and_then (parse_time value) (λ t. ok (some t))

  -- `x, err = ...; if err != nil { return wrapError(op, ErrorClassQuery, err) }`, and the rest.
  unfoldable pub column : {A B : Type 0} → Text → Result A → (A → Result B) → Result B
  unfolding wrapped
  column op (err e) rest = err (wrapped p d op query e)
  column op (ok a) rest = rest a

-- The loop `for rows.Next()`, with the scan of a row.
unfoldable pub scan_rows : {A B : Type 0} → (A → Result B) → List A → Result (List B)
scan_rows scan [] = ok []
scan_rows scan (row ∷ rows) =
    and_then (scan row) (λ r. and_then (scan_rows scan rows) (λ rs. ok (r ∷ rs)))
