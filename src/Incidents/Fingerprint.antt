-- ===== src/Incidents/Fingerprint.antt =====
-- internal/incidents/fingerprint.go. SHA-256 is a parameter: `sum256` gives the digest's bytes.
pub mod Shape
pub mod Identity
use pooly_sentinel.Prelude.{
  ℕ, ◌+◌, ◌-◌, ◌/◌, ◌%◌, Bool, not, ◌&&◌, ◌||◌, List, [], ◌∷◌, ◌++◌, Text, text, text_eq, is_empty,
  to_lower, trim_space, contains, join, ltb, leb, ◌==◌, any, all, length, take, if◌then◌else◌,
}
use pooly_sentinel.Effect.{Result, ok, err, message, prefixed, and_then}
use pooly_sentinel.Redaction.{Patterns, redact}

abbrev pub max_fingerprint_component_length : ℕ
max_fingerprint_component_length = 128

abbrev pub max_fingerprint_length : ℕ
max_fingerprint_length = 512

-- The class `[a-z0-9._:@/-]` of `fingerprintComponentPattern`.
unfoldable pub is_component_char : ℕ → Bool
is_component_char c =
    (leb b'a' c && leb c b'z')
    || (leb b'0' c && leb c b'9')
    || c == b'.'
    || c == b'_'
    || c == b':'
    || c == b'@'
    || c == b'/'
    || c == b'-'

-- `fingerprintComponentPattern.MatchString(s)`.
unfoldable pub matches_component : Text → Bool
unfolding is_component_char
matches_component s = not (is_empty s) && all is_component_char s

-- The characters of `strings.ContainsAny(normalized, "\x00\r\n\t ")`.
unfoldable pub is_unsafe_char : ℕ → Bool
is_unsafe_char c = c == 0 || c == 13 || c == 10 || c == 9 || c == 32

module _ (p : Patterns) where
  -- The checks of `normalizeFingerprintComponent` on the normalized text, in their order.
  unfoldable pub check_component : Text → Result Text
  unfolding matches_component is_unsafe_char
  check_component s =
      if is_empty s
      then err (message (text "is required"))
      else if ltb max_fingerprint_component_length (length s)
      then err (message (text "exceeds 128 bytes"))
      else if any is_unsafe_char s
      then err (message (text "contains unsafe whitespace or control characters"))
      else if contains s (text "..")
      then err (message (text "contains unsafe traversal marker"))
      else if not (matches_component s)
      then err (message (text "contains unsupported characters"))
      else if not (text_eq (redact p s) s)
      then err (message (text "contains sensitive material"))
      else ok s

  unfoldable pub normalize_fingerprint_component : Text → Result Text
  normalize_fingerprint_component value = check_component (to_lower (trim_space value))

  -- `value, err := normalizeFingerprintComponent(part)`; an error is prefixed by the part's name.
  normalize_part : Text → Result Text → Result Text
  normalize_part name (ok value) = ok value
  normalize_part name (err e) = err (prefixed (name ++ text ": ") e)

  -- The loop of `Fingerprint`, over each part with its name.
  unfoldable pub normalize_parts : List (Text × Text) → Result (List Text)
  unfolding normalize_part
  normalize_parts [] = ok []
  normalize_parts ((name, part) ∷ rest) =
      and_then (normalize_part name (normalize_fingerprint_component part))
        λ value. and_then (normalize_parts rest) λ values. ok (value ∷ values)

  -- The checks of `Fingerprint` on the joined text.
  unfoldable pub check_fingerprint : Text → Result Text
  check_fingerprint s =
      if ltb max_fingerprint_length (length s)
      then err (message (text "fingerprint exceeds 512 bytes"))
      else if not (text_eq (redact p s) s)
      then err (message (text "fingerprint contains sensitive material"))
      else ok s

  unfoldable pub fingerprint : Text → Text → Text → Text → Result Text
  fingerprint node_id incident_type target condition =
      and_then
        (normalize_parts (
          (text "node_id", node_id)
          ∷ (text "type", incident_type)
          ∷ (text "target", target)
          ∷ (text "condition", condition)
          ∷ []))
        λ normalized. check_fingerprint (join normalized (text ":"))

hex_digit : ℕ → ℕ
hex_digit d = if ltb d 10 then b'0' + d else b'a' + (d - 10)

-- `hex.EncodeToString`.
unfoldable pub encode_hex : Text → Text
unfolding hex_digit
encode_hex [] = []
encode_hex (b ∷ s) = hex_digit (b / 16) ∷ hex_digit (b % 16) ∷ encode_hex s

module _ (sum256 : Text → Text) where
  unfoldable pub incident_id_for_fingerprint : Text → Result Text
  incident_id_for_fingerprint s =
      if is_empty (trim_space s)
      then err (message (text "fingerprint is required"))
      else if ltb max_fingerprint_length (length s)
      then err (message (text "fingerprint exceeds 512 bytes"))
      else ok (text "inc_" ++ encode_hex (take 16 (sum256 s)))
