-- ===== src/Rules/Condition/Targets/Cover.antt =====
-- internal/rules/condition.go, `matchingTargets`: every match is evaluated at some target, and no
-- target is evaluated twice.
use pooly_sentinel.Prelude.{
  ◌≡◌, ◌≢◌, refl, Bool, true, false, not, ◌&&◌, ◌||◌, List, [], ◌∷◌, ◌++◌, Text, text, text_eq,
  text_eq_refl, text_eq_iff, is_empty, is_set, any, if◌then◌else◌, arith, Bool-cases, inl, inr,
}
use pooly_sentinel.Resources
use pooly_sentinel.Resources.{Observation, Metric}
use pooly_sentinel.Rules.Condition.{
  Rule, MatchResult, default_target, find_matches, target_matches, metric_matches, event_matches,
  collector_matches, observation_matches,
}
use pooly_sentinel.Rules.Condition.Judge.{concerns}
use pooly_sentinel.Rules.Condition.Targets.{matching_targets, collect_targets, or_default}

abbrev pub holds : Text → List Text → Bool
holds t ts = any (text_eq t) ts

abbrev pub distinct : List Text → Bool
distinct [] = true
distinct (t ∷ ts) = not (holds t ts) && distinct ts

any-append : (q : Text → Bool) (xs ys : List Text) → any q (xs ++ ys) ≡ (any q xs || any q ys)
any-append q [] ys = refl
any-append q (x ∷ xs) ys = ground (arith, any-append q xs ys)

text_eq_sym : (s t : Text) → text_eq s t ≡ text_eq t s
text_eq_sym s t = ground (arith, text_eq_iff s t, text_eq_iff t s)

-- A new text at the end of a list without it keeps the list free of repetitions.
distinct-snoc :
    (ts : List Text) (t : Text)
    → distinct ts ≡ true
    → holds t ts ≡ false
    → distinct (ts ++ t ∷ []) ≡ true
distinct-snoc [] t d h = refl
distinct-snoc (x ∷ xs) t d h =
    ground (arith, distinct-snoc xs t, any-append (text_eq x) xs (t ∷ []), text_eq_sym x t)

module _ {F : Type 0} (r : Rule F) where
  -- The target at which a match is evaluated.
  abbrev pub own_target : MatchResult F → Text
  own_target m = if is_empty m.target then default_target r else m.target

  abbrev pub AllCovered : List (MatchResult F) → List Text → Type 0
  AllCovered [] ts = Unit
  AllCovered (m ∷ ms) ts = (holds (own_target m) ts ≡ true) × AllCovered ms ts

  collect-keeps :
      (ms : List (MatchResult F)) (ts : List Text) (t : Text)
      → holds t ts ≡ true
      → holds t (collect_targets r ms ts) ≡ true
  unfolding collect_targets
  collect-keeps [] ts t h = h
  collect-keeps (m ∷ ms) ts t h = elim (Bool-cases (holds (own_target m) ts)) [
    | inl old ↦ rw old (collect-keeps ms ts t h)
    | inr new ↦ rw new (
        collect-keeps ms (ts ++ own_target m ∷ []) t
          (ground (arith, any-append (text_eq t) ts (own_target m ∷ []))))
  ]

  collect-covers :
      (ms : List (MatchResult F)) (ts : List Text) → AllCovered ms (collect_targets r ms ts)
  unfolding collect_targets
  collect-covers [] ts = tt
  collect-covers (m ∷ ms) ts = elim (Bool-cases (holds (own_target m) ts)) [
    | inl old ↦ rw old (collect-keeps ms ts (own_target m) old, collect-covers ms ts)
    | inr new ↦ rw new (
      collect-keeps ms (ts ++ own_target m ∷ []) (own_target m) (
          ground (
            arith,
            any-append (text_eq (own_target m)) ts (own_target m ∷ []),
            text_eq_refl (own_target m),
          )),
      collect-covers ms (ts ++ own_target m ∷ []),
    )
  ]

  collect-distinct :
      (ms : List (MatchResult F)) (ts : List Text)
      → distinct ts ≡ true
      → distinct (collect_targets r ms ts) ≡ true
  unfolding collect_targets
  collect-distinct [] ts d = d
  collect-distinct (m ∷ ms) ts d = elim (Bool-cases (holds (own_target m) ts)) [
    | inl old ↦ rw old (collect-distinct ms ts d)
    | inr new ↦
        rw new
          (collect-distinct ms (ts ++ own_target m ∷ []) (distinct-snoc ts (own_target m) d new))
  ]

  -- Each match is one that `desiredSeverityForTarget` keeps at some of the targets.
  abbrev pub AllConcerned : List (MatchResult F) → List Text → Type 0
  AllConcerned [] ts = Unit
  AllConcerned (m ∷ ms) ts = (any (λ t. concerns r t m) ts ≡ true) × AllConcerned ms ts

  concerns-own_target : (m : MatchResult F) → concerns r (own_target m) m ≡ true
  unfolding concerns
  concerns-own_target m = ground (arith, text_eq_refl m.target, text_eq_refl (default_target r))

  any-of_holds :
      (q : Text → Bool) (t : Text) (ts : List Text)
      → q t ≡ true
      → holds t ts ≡ true
      → any q ts ≡ true
  any-of_holds q t [] h m = m
  any-of_holds q t (x ∷ xs) h m = elim (Bool-cases (text_eq t x)) [
    | inl same ↦ ground (arith, rw ((text_eq_iff t x).0 same) at h)
    | inr differ ↦ ground (arith, any-of_holds q t xs h)
  ]

  AllConcerned-of_covered :
      (ms : List (MatchResult F)) (ts : List Text) → AllCovered ms ts → AllConcerned ms ts
  AllConcerned-of_covered [] ts h = tt
  AllConcerned-of_covered (m ∷ ms) ts h = (
    any-of_holds (λ t. concerns r t m) (own_target m) ts (concerns-own_target m) h.0,
    AllConcerned-of_covered ms ts h.1,
  )

  -- The target of every match passes the rule's own filter.
  abbrev pub AllPass : List (MatchResult F) → Type 0
  AllPass [] = Unit
  AllPass (m ∷ ms) = (target_matches r.target m.target ≡ true) × AllPass ms

  AllPass-append : (ms ns : List (MatchResult F)) → AllPass ms → AllPass ns → AllPass (ms ++ ns)
  AllPass-append [] ns h k = k
  AllPass-append (m ∷ ms) ns h k = (h.0, AllPass-append ms ns h.1 k)

  AllPass-if : (b : Bool) (ms : List (MatchResult F)) → AllPass ms → AllPass (if b then ms else [])
  AllPass-if true ms h = h
  AllPass-if false ms h = tt

  AllPass-metric_matches :
      (o : Observation F) (ms : List (Metric F)) → AllPass (metric_matches r o ms)
  unfolding metric_matches
  AllPass-metric_matches o [] = tt
  AllPass-metric_matches o (m ∷ ms) = ground (arith, AllPass-metric_matches o ms)

  AllPass-event_matches :
      (o : Observation F) (es : List Resources.Event) → AllPass (event_matches r o es)
  unfolding event_matches
  AllPass-event_matches o [] = tt
  AllPass-event_matches o (e ∷ es) = ground (arith, AllPass-event_matches o es)

  AllPass-observation_matches : (o : Observation F) → AllPass (observation_matches r o)
  unfolding observation_matches
  AllPass-observation_matches o = elim (Bool-cases (collector_matches r.collector o.collector)) [
    | inl own ↦ rw own (
        AllPass-append (if is_set r.metric then metric_matches r o o.metrics else [])
          (if is_set r.event_category then event_matches r o o.events else [])
          (AllPass-if (is_set r.metric) (metric_matches r o o.metrics)
            (AllPass-metric_matches o o.metrics))
          (AllPass-if (is_set r.event_category) (event_matches r o o.events)
            (AllPass-event_matches o o.events)))
    | inr foreign ↦ rw foreign tt
  ]

  AllPass-find_matches : (os : List (Observation F)) → AllPass (find_matches r os)
  unfolding find_matches
  AllPass-find_matches [] = tt
  AllPass-find_matches (o ∷ os) =
      AllPass-append (observation_matches r o) (find_matches r os) (AllPass-observation_matches o)
        (AllPass-find_matches os)

  concerns-fixed :
      (m : MatchResult F)
      → (is_set r.target && not (text_eq r.target (text "any"))) ≡ true
      → target_matches r.target m.target ≡ true
      → any (λ t. concerns r t m) (r.target ∷ []) ≡ true
  unfolding concerns target_matches
  concerns-fixed m f h = ground (arith, text_eq_sym r.target m.target)

  AllConcerned-fixed :
      (ms : List (MatchResult F))
      → (is_set r.target && not (text_eq r.target (text "any"))) ≡ true
      → AllPass ms
      → AllConcerned ms (r.target ∷ [])
  AllConcerned-fixed [] f h = tt
  AllConcerned-fixed (m ∷ ms) f h = (concerns-fixed m f h.0, AllConcerned-fixed ms f h.1)

  or_default-covered :
      (ms : List (MatchResult F)) (d : Text) (ts : List Text)
      → AllCovered ms ts
      → AllCovered ms (or_default d ts)
  unfolding or_default
  or_default-covered [] d ts h = tt
  or_default-covered (m ∷ ms) d [] h = cc (h.0)
  or_default-covered (m ∷ ms) d (t ∷ ts) h = h

  or_default-distinct :
      (d : Text) (ts : List Text) → distinct ts ≡ true → distinct (or_default d ts) ≡ true
  unfolding or_default
  or_default-distinct d [] h = refl
  or_default-distinct d (t ∷ ts) h = h

  or_default-nonempty : (d : Text) (ts : List Text) → or_default d ts ≢ []
  unfolding or_default
  or_default-nonempty d [] = λ e. cc
  or_default-nonempty d (t ∷ ts) = λ e. cc

  -- Every match of the rule is judged at some target of the list, the list is not empty, and no target
  -- is in it twice.
  pub matching_targets_cover :
      (os : List (Observation F))
      → AllConcerned (find_matches r os) (matching_targets r os)
        × (distinct (matching_targets r os) ≡ true)
        × (matching_targets r os ≢ [])
  unfolding matching_targets
  matching_targets_cover os =
      let ms = find_matches r os in
      let found = collect_targets r ms [] in
      elim (Bool-cases (is_set r.target && not (text_eq r.target (text "any")))) [
        | inl fixed ↦
            rw fixed (AllConcerned-fixed ms fixed (AllPass-find_matches os), refl, λ e. cc)
        | inr free ↦ rw free (
          AllConcerned-of_covered ms (or_default (default_target r) found)
              (or_default-covered ms (default_target r) found (collect-covers ms [])),
          or_default-distinct (default_target r) found (collect-distinct ms [] refl),
          or_default-nonempty (default_target r) found,
        )
      ]
