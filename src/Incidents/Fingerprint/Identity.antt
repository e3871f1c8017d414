-- ===== src/Incidents/Fingerprint/Identity.antt =====
-- internal/incidents/fingerprint.go: which incidents share a fingerprint.
use pooly_sentinel.Prelude.{
  ℕ, ◌≡◌, refl, sym, ap, ◌∙◌, Bool, true, false, not, [], ◌∷◌, ◌++◌, Text, text, text_eq_iff,
  to_lower, trim_space, is_space, join, ◌==◌, any, all, all-reverse, and_true, length, take,
  length-take, ◌*◌, arith, reverse,
}
use mathlib.Core.Path.{ap₂}
use mathlib.Core.List.{reverse-reverse, append_assoc}
use pooly_sentinel.Prelude.Strings.{trim_left, lower}
use pooly_sentinel.Effect.{ok}
use pooly_sentinel.Redaction.{Patterns, redact}
use pooly_sentinel.Incidents.Fingerprint.{
  is_component_char, is_unsafe_char, check_component, normalize_fingerprint_component,
  normalize_parts, check_fingerprint, fingerprint, encode_hex, incident_id_for_fingerprint,
}
use pooly_sentinel.Incidents.Fingerprint.Shape.{
  IsComponent, normalize-IsComponent, joined, fingerprint-Parts, IsWellFormed,
  fingerprint-IsWellFormed,
}

char-lower : (c : ℕ) → is_component_char c ≡ true → lower c ≡ c
unfolding is_component_char lower
char-lower c h = ground arith

char-is_space : (c : ℕ) → is_component_char c ≡ true → is_space c ≡ false
unfolding is_component_char is_space
char-is_space c h = ground arith

char-is_unsafe : (c : ℕ) → is_component_char c ≡ true → is_unsafe_char c ≡ false
unfolding is_component_char is_unsafe_char
char-is_unsafe c h = ground arith

to_lower-plain : (s : Text) → all is_component_char s ≡ true → to_lower s ≡ s
unfolding to_lower
to_lower-plain [] h = refl
to_lower-plain (c ∷ s) h =
    let (head, tail) = and_true (is_component_char c) (all is_component_char s) h in
    ap₂ ◌∷◌ (char-lower c head) (to_lower-plain s tail)

trim_left-plain : (s : Text) → all is_component_char s ≡ true → trim_left s ≡ s
unfolding trim_left
trim_left-plain [] h = refl
trim_left-plain (c ∷ s) h =
    rw (char-is_space c (and_true (is_component_char c) (all is_component_char s) h).0)

trim_space-plain : (s : Text) → all is_component_char s ≡ true → trim_space s ≡ s
unfolding trim_space
trim_space-plain s h =
    rw (trim_left-plain s h, trim_left-plain (reverse s) (all-reverse is_component_char s h))
      (reverse-reverse s)

plain-is_unsafe : (s : Text) → all is_component_char s ≡ true → any is_unsafe_char s ≡ false
plain-is_unsafe [] h = refl
plain-is_unsafe (c ∷ s) h =
    let (head, tail) = and_true (is_component_char c) (all is_component_char s) h in
    rw (char-is_unsafe c head) (plain-is_unsafe s tail)

module _ (p : Patterns) where
  check_component_complete : (s : Text) → IsComponent p s → check_component p s ≡ ok s
  unfolding check_component
  check_component_complete s h =
      ground (arith, plain-is_unsafe s h.plain, text_eq_iff (redact p s) s)

  -- Normalizing a component a second time changes nothing.
  pub normalize_idem :
      (s : Text) {t : Text}
      → normalize_fingerprint_component p s ≡ ok t
      → normalize_fingerprint_component p t ≡ ok t
  unfolding normalize_fingerprint_component
  normalize_idem s {t} h =
      let good = normalize-IsComponent p s h in
      rw (trim_space-plain t good.plain, to_lower-plain t good.plain)
        (check_component_complete t good)

-- `!strings.Contains(s, ":")`.
abbrev pub colon_free : Text → Bool
colon_free s = all (λ c. not (c == b':')) s

colon_split :
    (a b : Text) {r q : Text}
    → colon_free a ≡ true
    → colon_free b ≡ true
    → a ++ (text ":" ++ r) ≡ b ++ (text ":" ++ q)
    → (a ≡ b) × (r ≡ q)
unfolding text
colon_split [] [] ha hb h = ground arith
colon_split [] (y ∷ b) ha hb h = ground arith
colon_split (x ∷ a) [] ha hb h = ground arith
colon_split (x ∷ a) (y ∷ b) {r} {q} ha hb h = ground (arith, colon_split a b {r = r} {q = q})

module _ (p : Patterns) where
  -- The component that a text is normalized to, if any, has no colon.
  abbrev pub IsColonFree : Text → Type 0
  IsColonFree s = (t : Text) → normalize_fingerprint_component p s ≡ ok t → colon_free t ≡ true

  -- Where the node, type and target components have no colon once normalized, two incidents share a
  -- fingerprint only if their four components are normalized alike.
  pub fingerprint_injective :
      (n₁ t₁ g₁ c₁ n₂ t₂ g₂ c₂ : Text) {fp : Text}
      → fingerprint p n₁ t₁ g₁ c₁ ≡ ok fp
      → fingerprint p n₂ t₂ g₂ c₂ ≡ ok fp
      → IsColonFree n₁
        × IsColonFree n₂
        × IsColonFree t₁
        × IsColonFree t₂
        × IsColonFree g₁
        × IsColonFree g₂
      → (normalize_fingerprint_component p n₁ ≡ normalize_fingerprint_component p n₂)
        × (normalize_fingerprint_component p t₁ ≡ normalize_fingerprint_component p t₂)
        × (normalize_fingerprint_component p g₁ ≡ normalize_fingerprint_component p g₂)
        × (normalize_fingerprint_component p c₁ ≡ normalize_fingerprint_component p c₂)
  fingerprint_injective n₁ t₁ g₁ c₁ n₂ t₂ g₂ c₂ made₁ made₂ (hn₁, hn₂, ht₁, ht₂, hg₁, hg₂) =
      let a = fingerprint-Parts p n₁ t₁ g₁ c₁ made₁ in
      let b = fingerprint-Parts p n₂ t₂ g₂ c₂ made₂ in
      let (en, r₁) =
        colon_split a.node_id' b.node_id' (hn₁ _ a.node_id_ok) (hn₂ _ b.node_id_ok)
          (sym a.is_joined ∙ b.is_joined) in
      let (et, r₂) = colon_split a.type' b.type' (ht₁ _ a.type_ok) (ht₂ _ b.type_ok) r₁ in
      let (eg, ec) = colon_split a.target' b.target' (hg₁ _ a.target_ok) (hg₂ _ b.target_ok) r₂ in
      (
        a.node_id_ok ∙ ap ok en ∙ sym b.node_id_ok,
        a.type_ok ∙ ap ok et ∙ sym b.type_ok,
        a.target_ok ∙ ap ok eg ∙ sym b.target_ok,
        a.condition_ok ∙ ap ok ec ∙ sym b.condition_ok,
      )

  -- A text that normalizing leaves as it is.
  abbrev pub IsNormal : Text → Type 0
  IsNormal s = normalize_fingerprint_component p s ≡ ok s

  fingerprint-of_normal :
      (n t g c : Text)
      → IsNormal n
      → IsNormal t
      → IsNormal g
      → IsNormal c
      → fingerprint p n t g c ≡ check_fingerprint p (joined p n t g c)
  unfolding fingerprint join normalize_parts
  fingerprint-of_normal n t g c hn ht hg hc = rw (hn, ht, hg, hc) refl

  -- A colon moves from the end of the target to the front of the condition, and the fingerprint stays.
  pub fingerprint_collides :
      (n t a b c : Text)
      → IsNormal n
      → IsNormal t
      → IsNormal (a ++ (text ":" ++ b)) × IsNormal c
      → IsNormal a × IsNormal (b ++ (text ":" ++ c))
      → fingerprint p n t (a ++ (text ":" ++ b)) c ≡ fingerprint p n t a (b ++ (text ":" ++ c))
  fingerprint_collides n t a b c hn ht (hg₁, hc₁) (hg₂, hc₂) =
      rw
        (
          fingerprint-of_normal n t (a ++ (text ":" ++ b)) c hn ht hg₁ hc₁,
          fingerprint-of_normal n t a (b ++ (text ":" ++ c)) hn ht hg₂ hc₂,
        )
        (simp append_assoc)

length-encode_hex : (s : Text) → length (encode_hex s) ≡ 2 * length s
unfolding encode_hex
length-encode_hex [] = refl
length-encode_hex (b ∷ s) = omega (arith, length-encode_hex s)

module _ (p : Patterns) (sum256 : Text → Text) where
  pub incident_id-made :
      (fp : Text)
      → IsWellFormed p fp
      → incident_id_for_fingerprint sum256 fp ≡ ok (text "inc_" ++ encode_hex (take 16 (sum256 fp)))
  unfolding incident_id_for_fingerprint
  incident_id-made fp h = rw (trim_space-plain fp h.plain) (ground (arith, h.nonempty, h.bounded))

  -- Every fingerprint has an incident id, and over a digest of 32 bytes the id has 36.
  pub incident_id_for_fingerprint_total :
      (n t g c : Text) {fp : Text}
      → fingerprint p n t g c ≡ ok fp
      → length (sum256 fp) ≡ 32
      → (id : Text) × (incident_id_for_fingerprint sum256 fp ≡ ok id) × (length id ≡ 36)
  unfolding text
  incident_id_for_fingerprint_total n t g c {fp} made digest = (
    text "inc_" ++ encode_hex (take 16 (sum256 fp)),
    incident_id-made fp (fingerprint-IsWellFormed p n t g c made),
    omega (arith, length-encode_hex (take 16 (sum256 fp)), length-take 16 (sum256 fp), digest),
  )
