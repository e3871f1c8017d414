-- ===== src/Incidents/Lifecycle/Occurrences.antt =====
-- internal/incidents/lifecycle.go, `Apply`: what the occurrence count of an incident counts.
use pooly_sentinel.Prelude.{
  ℕ, suc, ◌+◌, ◌≤◌, ℤ, pos, incr_int64, max_int64, ◌≡◌, refl, sym, ap, ◌∙◌, Bool, true, false,
  Option, none, some, List, [], ◌∷◌, Text, text, ◌++◌, take, is_empty, Option-cases, inl, inr,
  arith, if◌then◌else◌,
}
use mathlib.Core.Path.{subst}
use pooly_sentinel.Effect.{ok, Context}
use pooly_sentinel.Redaction.{Patterns}
use pooly_sentinel.Storage.Records.{IncidentRecord}
use pooly_sentinel.Incidents.Incident.{Candidate}
use pooly_sentinel.Incidents.Fingerprint.{fingerprint, encode_hex}
use pooly_sentinel.Incidents.Fingerprint.Shape.{fingerprint-IsWellFormed}
use pooly_sentinel.Incidents.Fingerprint.Identity.{incident_id-made}
use pooly_sentinel.Incidents.Lifecycle.{
  Store, reclassify, opened_record, refreshed_record, resolved_record, still_resolved_record,
  settle, apply,
}
use pooly_sentinel.Incidents.Lifecycle.Contract.{Reliable, IsStored}
use pooly_sentinel.Incidents.Lifecycle.Records.{
  IsAlert, is_blank-alert, instant, updated_record, updated_record-IsStored, opened_record-IsStored,
  resolution, resolution-IsStored,
}
use pooly_sentinel.Incidents.Lifecycle.Refinement.{
  inc_set, view-put_self, resolve-run, update_active-run, apply-run, apply_refines,
}

-- The count of the incident that a store has, or 0.
unfoldable pub occurrences : Option IncidentRecord → ℤ
occurrences none = pos 0
occurrences (some r) = r.occurrence_count

unfoldable pub one_more_if : Bool → ℤ → ℤ
unfolding incr_int64
one_more_if true n = incr_int64 n
one_more_if false n = n

reclassify_count :
    (c : Candidate) (now : ℕ) (r : IncidentRecord)
    → (reclassify r c now).1.occurrence_count ≡ r.occurrence_count
unfolding reclassify
reclassify_count c now r = ground arith

module _ (p : Patterns) where
  updated_count :
      (c : Candidate) (now : ℕ) (r : IncidentRecord)
      → (updated_record p c now r).occurrence_count ≡ incr_int64 r.occurrence_count
  unfolding refreshed_record
  updated_count c now r = ap incr_int64 (reclassify_count c now r)

  resolution_count :
      (c : Candidate) (now : ℕ) (r : IncidentRecord)
      → (resolution p c now r).1.occurrence_count ≡ r.occurrence_count
  unfolding resolution resolved_record still_resolved_record
  resolution_count c now r = ground arith

module _ (p : Patterns) (sum256 : Text → Text) {S : Type 0} (ctx : Context S) (store : Store S)
    (reliable : Reliable ctx store) where
  open reliable use {view, put, upsert_puts}

  abbrev Counts : S → Text → Bool → S → Type 0
  Counts s fp active after =
      occurrences (view after fp) ≡ one_more_if active (occurrences (view s fp))

  put-Counts :
      (s : S) (fp : Text) (active : Bool) (r : IncidentRecord) (after : S)
      → IsStored fp r
      → after ≡ put r s
      → r.occurrence_count ≡ one_more_if active (occurrences (view s fp))
      → Counts s fp active after
  unfolding occurrences
  put-Counts s fp active r after h e k =
      ap (λ t. occurrences (view t fp)) e
      ∙ ap occurrences (view-put_self p sum256 ctx store reliable s fp r h)
      ∙ k

  module _ (s : S) (id fp : Text) (c : Candidate) (now : ℕ) (identified : is_empty id ≡ false)
      (alert : c.active ≡ true → IsAlert c.severity) where
    missing-Counts :
        (active : Bool)
        → c.active ≡ active
        → view s fp ≡ none
        → Counts s fp active (settle p sum256 ctx store id fp c now active none s).1
    unfolding settle one_more_if opened_record occurrences
    missing-Counts false idle gone = refl
    missing-Counts true live gone =
        put-Counts s fp true (opened_record p id fp c now) _
          (opened_record-IsStored p c now id fp identified)
          (rw (is_blank-alert c.severity (alert live), upsert_puts) refl) (rw gone refl)

    found-Counts :
        (active : Bool) (r : IncidentRecord)
        → c.active ≡ active
        → view s fp ≡ some r
        → is_empty fp ≡ false
        → IsStored fp r
        → Counts s fp active (settle p sum256 ctx store id fp c now active (some r) s).1
    unfolding settle one_more_if occurrences
    found-Counts false r idle found set h =
        put-Counts s fp false (resolution p c now r).1 _ (resolution-IsStored p c now fp r h)
          (ap (λ out. out.1) (resolve-run p sum256 ctx store reliable s c now r))
          (resolution_count p c now r ∙ ap occurrences (sym found))
    found-Counts true r live found set h =
        let kept = updated_record-IsStored p c now fp r h in
        put-Counts s fp true (updated_record p c now r) _ kept
          (rw (is_blank-alert c.severity (alert live)) (
            ap (λ out. out.1)
              (update_active-run p sum256 ctx store reliable s c now r (rw (kept.named) set)
                kept.identified)))
          (updated_count p c now r ∙ ap (λ o. incr_int64 (occurrences o)) (sym found))

  apply-Counts :
      (clock : ℕ) (c : Candidate) (s : S) {fp : Text}
      → fingerprint p c.node_id c.type c.target c.condition ≡ ok fp
      → (c.active ≡ true → IsAlert c.severity)
      → ((r : IncidentRecord) → view s fp ≡ some r → IsStored fp r)
      → Counts s fp c.active (apply p sum256 ctx store clock c s).1
  apply-Counts clock c s {fp} made alert stored =
      let good = fingerprint-IsWellFormed p c.node_id c.type c.target c.condition made in
      let id = text "inc_" ++ encode_hex (take 16 (sum256 fp)) in
      let run =
        apply-run p sum256 ctx store reliable clock c s made (incident_id-made p sum256 fp good) in
      let now = instant clock c in
      let given = inc_set (take 16 (sum256 fp)) in
      elim (Option-cases (view s fp)) [
        | inl gone ↦
            subst (λ out. Counts s fp c.active out.1)
              (sym (run ∙ ap (λ o. settle p sum256 ctx store id fp c now c.active o s) gone))
              (missing-Counts s id fp c now given alert c.active refl gone)
        | inr (r, found) ↦
            subst (λ out. Counts s fp c.active out.1)
              (sym (run ∙ ap (λ o. settle p sum256 ctx store id fp c now c.active o s) found))
              (found-Counts s id fp c now given alert c.active r refl found good.nonempty
                (stored r found))
      ]

-- The store after one candidate after the other was applied, at an instant of the clock each.
module _ (p : Patterns) (sum256 : Text → Text) {S : Type 0} (ctx : Context S)
    (store : Store S) where
  unfoldable pub apply_all : List (ℕ × Candidate) → S → S
  unfolding apply
  apply_all [] s = s
  apply_all ((clock, c) ∷ cs) s = apply_all cs (apply p sum256 ctx store clock c s).1

-- Candidates of one fingerprint, the active ones with a severity that is an alert.
module _ (p : Patterns) (fp : Text) where
  abbrev pub AreOf : List (ℕ × Candidate) → Type 0
  AreOf [] = Unit
  AreOf ((clock, c) ∷ cs) =
      (fingerprint p c.node_id c.type c.target c.condition ≡ ok fp)
      × (c.active ≡ true → IsAlert c.severity)
      × AreOf cs

unfoldable pub active_count : List (ℕ × Candidate) → ℕ
active_count [] = 0
active_count ((clock, c) ∷ cs) = let rest = active_count cs in if c.active then rest + 1 else rest

one_more_lem :
    (active : Bool) (n m : ℕ)
    → n + (if active then m + 1 else m) ≤ max_int64
    → (k : ℕ) × (one_more_if active (pos n) ≡ pos k) × (k + m ≡ n + (if active then m + 1 else m))
unfolding one_more_if incr_int64
one_more_lem true n m h = (suc n, ground arith, ground arith)
one_more_lem false n m h = (n, refl, refl)

module _ (p : Patterns) (sum256 : Text → Text) {S : Type 0} (ctx : Context S) (store : Store S)
    (reliable : Reliable ctx store) where
  open reliable use {view}

  -- Over a reliable store, the occurrence count of an incident counts the active candidates of its
  -- fingerprint: however many candidates of the fingerprint are applied, whatever alarms and resolutions
  -- there are between them, the count grows by the number of the active ones, from 0 where there is no
  -- incident, up to the largest int64.
  pub occurrences-apply_all :
      (fp : Text) (cs : List (ℕ × Candidate)) (s : S) (n : ℕ)
      → AreOf p fp cs
      → ((r : IncidentRecord) → view s fp ≡ some r → IsStored fp r)
      → occurrences (view s fp) ≡ pos n
      → n + active_count cs ≤ max_int64
      → occurrences (view (apply_all p sum256 ctx store cs s) fp) ≡ pos (n + active_count cs)
  unfolding apply_all active_count
  occurrences-apply_all fp [] s n of stored has small = has ∙ ap pos (ground arith)
  occurrences-apply_all fp ((clock, c) ∷ cs) s n (made, alert, of) stored has small =
      let (t, s', run, refined) =
        apply_refines p sum256 ctx store reliable clock c s made alert stored in
      let same = ap (λ out. out.1) run in
      let (k, is_k, total) = one_more_lem c.active n (active_count cs) small in
      let has' =
        ap (λ u. occurrences (view u fp)) (sym same)
        ∙ apply-Counts p sum256 ctx store reliable clock c s made alert stored
        ∙ ap (one_more_if c.active) has
        ∙ is_k in
      ap (λ u. occurrences (view (apply_all p sum256 ctx store cs u) fp)) same
      ∙ occurrences-apply_all fp cs s' k of refined.stored has' (ground arith)
      ∙ ap pos total
