-- ===== src/Incidents/Fingerprint/Shape.antt =====
-- internal/incidents/fingerprint.go: which texts are fingerprints.
use pooly_sentinel.Prelude.{
  ◌≤◌, ◌≡◌, refl, sym, ap, ◌∙◌, true, false, List, [], ◌∷◌, ◌++◌, Text, text, text_eq_iff, is_empty,
  to_lower, trim_space, contains, join, all, all-append, length, arith,
}
use mathlib.Core.Path.{subst}
use pooly_sentinel.Effect.{Result, ok, err, and_then, and_then-eq-ok}
use pooly_sentinel.Redaction.{Patterns, redact}
use pooly_sentinel.Incidents.Fingerprint.{
  is_component_char, check_component, normalize_fingerprint_component, normalize_parts,
  normalize_part, check_fingerprint, fingerprint,
}

-- What a normalized component is.
pub record IsComponent (p : Patterns) (s : Text) : Type 0 where
  pub nonempty : is_empty s ≡ false
  pub bounded : length s ≤ 128
  pub plain : all is_component_char s ≡ true
  pub no_traversal : contains s (text "..") ≡ false
  pub insensitive : redact p s ≡ s

-- What a fingerprint is.
pub record IsWellFormed (p : Patterns) (s : Text) : Type 0 where
  pub nonempty : is_empty s ≡ false
  pub bounded : length s ≤ 512
  pub plain : all is_component_char s ≡ true
  pub insensitive : redact p s ≡ s

is_empty-append : (s t : Text) → is_empty s ≡ false → is_empty (s ++ t) ≡ false
is_empty-append [] t h = cc
is_empty-append (x ∷ s) t h = refl

colon_plain :
    (s : Text) → all is_component_char s ≡ true → all is_component_char (text ":" ++ s) ≡ true
unfolding text is_component_char
colon_plain s h = h

module _ (p : Patterns) where
  pub check_component_sound :
      (s : Text) {t : Text} → check_component p s ≡ ok t → (t ≡ s) × IsComponent p s
  unfolding check_component
  check_component_sound s h = ground (arith, text_eq_iff (redact p s) s)

  check_fingerprint_sound :
      (s : Text) {t : Text}
      → check_fingerprint p s ≡ ok t
      → (t ≡ s) × (length s ≤ 512) × (redact p s ≡ s)
  unfolding check_fingerprint
  check_fingerprint_sound s h = ground (arith, text_eq_iff (redact p s) s)

  pub normalize-IsComponent :
      (s : Text) {t : Text} → normalize_fingerprint_component p s ≡ ok t → IsComponent p t
  unfolding normalize_fingerprint_component
  normalize-IsComponent s h =
      let (same, good) = check_component_sound (to_lower (trim_space s)) h in
      subst (IsComponent p) (sym same) good

  -- The values that a list of named parts is normalized to.
  abbrev pub NormalizeTo : List (Text × Text) → List Text → Type 0
  NormalizeTo [] values = values ≡ []
  NormalizeTo ((name, part) ∷ rest) values =
      (value : Text) × (others : List Text) × (values ≡ value ∷ others)
      × (normalize_fingerprint_component p part ≡ ok value)
      × NormalizeTo rest others

  normalize_part-eq-ok :
      (name : Text) (r : Result Text) {value : Text}
      → normalize_part p name r ≡ ok value
      → r ≡ ok value
  unfolding normalize_part
  normalize_part-eq-ok name (ok v) h = h
  normalize_part-eq-ok name (err e) h = cc

  pub normalize_parts-NormalizeTo :
      (parts : List (Text × Text)) {values : List Text}
      → normalize_parts p parts ≡ ok values
      → NormalizeTo parts values
  unfolding normalize_parts
  normalize_parts-NormalizeTo [] h = cc
  normalize_parts-NormalizeTo ((name, part) ∷ rest) h =
      let (value, first, then₁) =
        and_then-eq-ok (normalize_part p name (normalize_fingerprint_component p part))
          (λ value. and_then (normalize_parts p rest) λ values. ok (value ∷ values)) h in
      let (others, second, same) =
        and_then-eq-ok (normalize_parts p rest) (λ values. ok (value ∷ values)) then₁ in
      (
        value,
        others,
        cc (same),
        normalize_part-eq-ok name (normalize_fingerprint_component p part) first,
        normalize_parts-NormalizeTo rest second,
      )

  -- The four components joined by colons.
  abbrev pub joined : Text → Text → Text → Text → Text
  joined n t g c = n ++ (text ":" ++ (t ++ (text ":" ++ (g ++ (text ":" ++ c)))))

  pub record Parts (node_id incident_type target condition fp : Text) : Type 0 where
    pub node_id' : Text
    pub type' : Text
    pub target' : Text
    pub condition' : Text
    pub node_id_ok : normalize_fingerprint_component p node_id ≡ ok node_id'
    pub type_ok : normalize_fingerprint_component p incident_type ≡ ok type'
    pub target_ok : normalize_fingerprint_component p target ≡ ok target'
    pub condition_ok : normalize_fingerprint_component p condition ≡ ok condition'
    pub is_joined : fp ≡ joined node_id' type' target' condition'

  module _ (node_id incident_type target condition : Text) {fp : Text}
      (made : fingerprint p node_id incident_type target condition ≡ ok fp) where
    abbrev named_parts : List (Text × Text)
    named_parts =
        (text "node_id", node_id)
        ∷ (text "type", incident_type)
        ∷ (text "target", target)
        ∷ (text "condition", condition)
        ∷ []

    made_in_steps :
        (values : List Text) × (normalize_parts p named_parts ≡ ok values)
        × (check_fingerprint p (join values (text ":")) ≡ ok fp)
    unfolding fingerprint
    made_in_steps =
        and_then-eq-ok (normalize_parts p named_parts)
          (λ normalized. check_fingerprint p (join normalized (text ":"))) made

    pub fingerprint-Parts : Parts node_id incident_type target condition fp
    unfolding join
    fingerprint-Parts =
        let (values, normal, checked) = made_in_steps in
        let (n, vs₁, e₁, ok₁, rest₁) = normalize_parts-NormalizeTo named_parts normal in
        let (t, vs₂, e₂, ok₂, rest₂) = rest₁ in
        let (g, vs₃, e₃, ok₃, rest₃) = rest₂ in
        let (c, vs₄, e₄, ok₄, done) = rest₃ in
        let all_four : values ≡ n ∷ t ∷ g ∷ c ∷ [] = cc (e₁, e₂, e₃, e₄, done) in
        record {
          node_id' = n;
          type' = t;
          target' = g;
          condition' = c;
          node_id_ok = ok₁;
          type_ok = ok₂;
          target_ok = ok₃;
          condition_ok = ok₄;
          is_joined =
              (check_fingerprint_sound (join values (text ":")) checked).0
              ∙ ap (λ vs. join vs (text ":")) all_four;
        }

    -- A fingerprint is not empty, has at most 512 bytes, all from the component alphabet, and the
    -- redaction leaves it alone.
    pub fingerprint-IsWellFormed : IsWellFormed p fp
    fingerprint-IsWellFormed =
        let (values, normal, checked) = made_in_steps in
        let (same, small, clean) = check_fingerprint_sound (join values (text ":")) checked in
        let parts = fingerprint-Parts in
        let n = normalize-IsComponent node_id parts.node_id_ok in
        let t = normalize-IsComponent incident_type parts.type_ok in
        let g = normalize-IsComponent target parts.target_ok in
        let c = normalize-IsComponent condition parts.condition_ok in
        record {
          nonempty = rw (parts.is_joined) (is_empty-append parts.node_id' _ n.nonempty);
          bounded = rw same small;
          plain = rw (parts.is_joined) (
              all-append is_component_char parts.node_id' _ n.plain (
                colon_plain _ (
                  all-append is_component_char parts.type' _ t.plain (
                    colon_plain _ (
                      all-append is_component_char parts.target' _ g.plain
                        (colon_plain _ c.plain))))));
          insensitive = rw same clean;
        }
