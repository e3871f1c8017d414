-- ===== src/Storage/Paths/Names.antt =====
-- internal/storage/path.go, `sanitizeSegment`: the file names made of incident ids.
use pooly_sentinel.Prelude.{
  ◌≡◌, refl, ℕ, Bool, not, ◌&&◌, ltb, ◌==◌, runes, true, false, [], ◌∷◌, Text, text, text_eq,
  text_eq_iff, is_empty, is_empty_iff, subst, ◌≢◌, all, all-reverse, arith, map, reverse,
  trim_space,
}
use pooly_sentinel.Prelude.Strings.{trim_left}
use pooly_sentinel.Effect.{ok}
use pooly_sentinel.Storage.Paths.{
  is_segment_char, sanitize_char, trim_left_dots, trim_dots, checked_segment, sanitize_segment,
}

plain-map : (s : Text) → all is_segment_char (map sanitize_char s) ≡ true
unfolding is_segment_char sanitize_char
plain-map [] = refl
plain-map (c ∷ s) = ground (arith, plain-map s)

plain-trim_left_dots :
    (s : Text) → all is_segment_char s ≡ true → all is_segment_char (trim_left_dots s) ≡ true
unfolding trim_left_dots
plain-trim_left_dots [] h = refl
plain-trim_left_dots (c ∷ s) h = ground (arith, plain-trim_left_dots s)

plain-trim_left :
    (s : Text) → all is_segment_char s ≡ true → all is_segment_char (trim_left s) ≡ true
unfolding trim_left
plain-trim_left [] h = refl
plain-trim_left (c ∷ s) h = ground (arith, plain-trim_left s)

plain-trim_dots :
    (s : Text) → all is_segment_char s ≡ true → all is_segment_char (trim_dots s) ≡ true
unfolding trim_dots
plain-trim_dots s h = all-reverse _ (trim_left_dots (reverse (trim_left_dots s))) (
    plain-trim_left_dots (reverse (trim_left_dots s))
      (all-reverse _ (trim_left_dots s) (plain-trim_left_dots s h)))

plain-trim_space :
    (s : Text) → all is_segment_char s ≡ true → all is_segment_char (trim_space s) ≡ true
unfolding trim_space
plain-trim_space s h =
    all-reverse _ (trim_left (reverse (trim_left s)))
      (plain-trim_left (reverse (trim_left s)) (all-reverse _ (trim_left s) (plain-trim_left s h)))

-- Visible ASCII, but no slash and no backslash.
abbrev pub is_plain : ℕ → Bool
is_plain c = ltb 32 c && ltb c 127 && not (c == 47) && not (c == 92)

plain-all : (s : Text) → all is_segment_char s ≡ true → all is_plain s ≡ true
unfolding is_segment_char
plain-all [] h = refl
plain-all (c ∷ s) h = ground (arith, plain-all s)

-- A name of one file in its directory: visible ASCII with no slash and no backslash, and neither empty
-- nor one of the two names that stand for directories.
pub record IsFileName (s : Text) : Type 0 where
  pub plain : all is_plain s ≡ true
  pub nonempty : s ≢ []
  pub not_here : s ≢ text "."
  pub not_up : s ≢ text ".."

checked_segment_sound :
    (s out : Text)
    → checked_segment s ≡ ok out
    → (s ≡ out)
      × (is_empty s ≡ false)
      × (text_eq s (text ".") ≡ false)
      × (text_eq s (text "..") ≡ false)
unfolding checked_segment
checked_segment_sound s out h = ground arith

differs : (s t : Text) → text_eq s t ≡ false → s ≢ t
differs s t h = λ e. ground (arith, text_eq_iff s t)

set_differs : (s : Text) → is_empty s ≡ false → s ≢ []
set_differs s h = λ e. ground (arith, is_empty_iff s)

sanitize_segment_sound :
    (value out : Text)
    → sanitize_segment value ≡ ok out
    → checked_segment (trim_space (trim_dots (map sanitize_char (runes value)))) ≡ ok out
unfolding sanitize_segment
sanitize_segment_sound value out h = ground arith

-- Whatever text is made a segment of a path, the segment is a name of one file in its directory: visible
-- ASCII with no slash and no backslash, not empty, and neither "." nor "..".
pub sanitize_segment-IsFileName :
    (value out : Text) → sanitize_segment value ≡ ok out → IsFileName out
sanitize_segment-IsFileName value out h =
    let s = map sanitize_char (runes value) in
    let plain = plain-trim_space (trim_dots s) (plain-trim_dots s (plain-map (runes value))) in
    let (same, nonempty, not_here, not_up) =
      checked_segment_sound (trim_space (trim_dots s)) out (sanitize_segment_sound value out h) in
    subst IsFileName same (record {
      plain = plain-all (trim_space (trim_dots s)) plain;
      nonempty = set_differs (trim_space (trim_dots s)) nonempty;
      not_here = differs (trim_space (trim_dots s)) (text ".") not_here;
      not_up = differs (trim_space (trim_dots s)) (text "..") not_up;
    })
