-- ===== src/Storage/Paths.antt =====
-- internal/storage/path.go: paths and file names that evidence is shown and stored under. The
-- functions of packages `path/filepath` and `net/url` are parameters.
pub mod Segments
pub mod Names
use pooly_sentinel.Prelude.{
  ℕ, runes, Bool, true, false, not, ◌&&◌, ◌||◌, Option, none, some, List, [], ◌∷◌, ◌++◌, map,
  reverse, any, Text, text, text_eq, is_empty, is_set, trim_space, contains, has_prefix, ltb, leb,
  ◌==◌, if◌then◌else◌,
}
use pooly_sentinel.Effect.{Result, ok, err, message}
use pooly_sentinel.Redaction.{Patterns, redact, replacement}

-- `filepath.IsAbs`, `Clean` and `Rel`, and the scheme that `url.Parse` finds (`none` for an error).
pub record Filepath : Type 0 where
  pub is_abs : Text → Bool
  pub clean : Text → Text
  pub rel : Text → Text → Option Text
  pub scheme : Text → Option Text

-- `strings.HasSuffix(s, p)`.
unfoldable pub has_suffix : Text → Text → Bool
unfolding text_eq
has_suffix [] p = is_empty p
has_suffix (c ∷ s) p = text_eq (c ∷ s) p || has_suffix s p

-- `r < 0x20 || r == 0x7f` for some `r`.
unfoldable pub contains_control : Text → Bool
contains_control = any (λ r. ltb r 32 || r == 127)

unfoldable pub is_url : Option Text → Bool
is_url none = false
is_url (some scheme) = is_set scheme

module _ (f : Filepath) where
  unfoldable pub rel_escapes : Text → Bool
  unfolding has_suffix
  rel_escapes rel =
      if text_eq rel (text "..") || f.is_abs rel
      then true
      else has_prefix rel (text "../") || contains rel (text "/../") || has_suffix rel (text "/..")

  -- From the test `relEscapes(toClean)` on.
  unfoldable pub clean_relative : Text → Text
  unfolding rel_escapes
  clean_relative to_clean =
      let clean = f.clean to_clean in
      if rel_escapes to_clean
      then []
      else if text_eq clean (text ".") || text_eq clean (text "..") || f.is_abs clean
      then []
      else if rel_escapes clean
      then []
      else clean

  -- The branch `filepath.IsAbs(path)`, after the test of the root.
  unfoldable pub under_root : Option Text → Text
  unfolding rel_escapes clean_relative
  under_root none = []
  under_root (some rel) =
      if text_eq rel (text ".") || rel_escapes rel then [] else clean_relative rel

  module _ (p : Patterns) where
    -- The first test of `SafeEvidencePath`, on the trimmed path.
    unfoldable pub is_unsafe : Text → Bool
    unfolding contains_control
    is_unsafe path =
        is_empty path
        || contains path replacement
        || not (text_eq (redact p path) path)
        || contains_control path

    -- `SafeEvidencePath` once both arguments are trimmed.
    unfoldable pub safe_trimmed : Text → Text → Text
    unfolding is_unsafe is_url under_root clean_relative
    safe_trimmed path root =
        if is_unsafe path
        then []
        else if is_url (f.scheme path)
        then []
        else if f.is_abs path
        then (if is_empty root || contains_control root
            then []
            else under_root (f.rel (f.clean root) (f.clean path)))
        else clean_relative path

    unfoldable pub safe_evidence_path : Text → Text → Text
    unfolding safe_trimmed
    safe_evidence_path path root = safe_trimmed (trim_space path) (trim_space root)

-- What the `switch` of `sanitizeSegment` writes for a character.
unfoldable pub is_segment_char : ℕ → Bool
is_segment_char r =
    (leb b'a' r && leb r b'z')
    || (leb b'A' r && leb r b'Z')
    || (leb b'0' r && leb r b'9')
    || r == b'.'
    || r == b'-'
    || r == b'_'
    || r == b':'

unfoldable pub sanitize_char : ℕ → ℕ
unfolding is_segment_char
sanitize_char r = if is_segment_char r then r else b'_'

unfoldable pub trim_left_dots : Text → Text
trim_left_dots [] = []
trim_left_dots (c ∷ s) = let rest = trim_left_dots s in if c == b'.' then rest else c ∷ s

-- `strings.Trim(s, ".")`.
unfoldable pub trim_dots : Text → Text
unfolding trim_left_dots
trim_dots s = reverse (trim_left_dots (reverse (trim_left_dots s)))

-- From the tests of `out` on.
unfoldable pub checked_segment : Text → Result Text
checked_segment out =
    if is_empty out || text_eq out (text ".") || text_eq out (text "..")
    then err (message (text "value does not contain a safe path segment"))
    else ok out

unfoldable pub sanitize_segment : Text → Result Text
unfolding sanitize_char trim_dots checked_segment runes
sanitize_segment value =
    if is_empty value
    then err (message (text "value is required"))
    else checked_segment (trim_space (trim_dots (map sanitize_char (runes value))))
