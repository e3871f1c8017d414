-- ===== src/Storage/Columns/Reading.antt =====
-- internal/storage/time.go: a column that was written is read back.
use pooly_sentinel.Prelude.{
  ◌≡◌, refl, ap, ◌∙◌, ℕ, ◌<◌, false, Option, none, some, Text, is_empty, arith, if◌then◌else◌,
}
use pooly_sentinel.Effect.{Result, ok, and_then, Exec, lift, continue, ◌>>=◌}
use pooly_sentinel.Redaction.{Patterns}
use pooly_sentinel.Storage.Database.{Driver}
use pooly_sentinel.Storage.Validation.{nullable_string, nullable_time, time_or}
use pooly_sentinel.Storage.Columns.{
  null_string, string_from_null, format_time, parse_time, null_time, scan_nullable_time,
}

-- The instants below `limit` (those of the years up to 9999, for RFC 3339) have a text that is not empty
-- and parses as the instant.
pub record IsReadable {W : Type 0} (d : Driver W) (limit : ℕ) : Type 0 where
  pub given : (t : ℕ) → t < limit → is_empty (d.time_text t) ≡ false
  pub parses : (t : ℕ) → t < limit → d.parse_instant (d.time_text t) ≡ ok t

unfoldable pub or_zero : Option ℕ → ℕ
or_zero none = 0
or_zero (some t) = t

module _ (p : Patterns) {W : Type 0} (d : Driver W) (limit : ℕ)
    (readable : IsReadable d limit) where
  no_instant : scan_nullable_time p d none ≡ ok none
  unfolding scan_nullable_time
  no_instant = refl

  parse_text : (t : ℕ) → t < limit → parse_time p d (d.time_text t) ≡ ok t
  unfolding parse_time
  parse_text t h = rw (readable.given t h) (readable.parses t h)

  pub parse_time-format_time :
      (now t : ℕ)
      → time_or now t < limit
      → parse_time p d (format_time p d now t) ≡ ok (time_or now t)
  unfolding format_time time_or
  parse_time-format_time now t h = parse_text (time_or now t) h

  scan_text : (t : ℕ) → t < limit → scan_nullable_time p d (some (d.time_text t)) ≡ ok (some t)
  unfolding scan_nullable_time
  scan_text t h =
      ap (λ b. if b then ok none else and_then (parse_time p d (d.time_text t)) (λ u. ok (some u)))
        (readable.given t h)
      ∙ ap (λ r. and_then r (λ u. ok (some u))) (parse_text t h)

  pub scan_nullable_time-null_time :
      (now : ℕ) (o : Option ℕ)
      → or_zero o < limit
      → scan_nullable_time p d (null_time p d now o) ≡ ok (nullable_time o)
  unfolding null_time nullable_time format_time or_zero
  scan_nullable_time-null_time now none h = no_instant
  scan_nullable_time-null_time now (some t) h = ground (arith, no_instant, scan_text t h)

-- A row that is found is scanned.
pub scan_found :
    {S A B : Type 0} (m : Exec S A) (scan : A → Result B) (s : S) (row : A)
    → (m s).0 ≡ ok row
    → ((m >>= λ r. lift (scan r)) s).0 ≡ scan row
scan_found m scan s row h = ap (λ r. (continue r (λ x. lift (scan x)) (m s).1).0) h

pub string_from_null-null_string :
    (p : Patterns) (s : Text) → string_from_null (null_string p s) ≡ nullable_string p s
unfolding string_from_null null_string nullable_string
string_from_null-null_string p s = ground arith
