-- ===== src/Incidents/Lifecycle/Refinement.antt =====
-- internal/incidents/lifecycle.go, `Apply`: over a reliable store the engine implements the life of an
-- incident, and keeps the store's records well formed.
use pooly_sentinel.Prelude.{
  ℕ, ◌≡◌, refl, Bool, true, false, none, some, Text, text, text_eq, text_eq_refl, is_empty, arith,
  Bool-cases, sym, ap, ◌∙◌, ◌++◌, take, Option-cases, inl, inr,
}
use mathlib.Core.Path.{subst}
use pooly_sentinel.Effect.{Result, ok, Context, check_context, stop_if_canceled, bind-eq_ok, lift}
use pooly_sentinel.Redaction.{Patterns}
use pooly_sentinel.Storage.Records.{IncidentRecord}
use pooly_sentinel.Incidents.Incident.{resolved, status_text, Action, opened, Candidate, Transition}
use pooly_sentinel.Incidents.Fingerprint.{fingerprint, incident_id_for_fingerprint, encode_hex}
use pooly_sentinel.Incidents.Fingerprint.Shape.{fingerprint-IsWellFormed}
use pooly_sentinel.Incidents.Fingerprint.Identity.{incident_id-made}
use pooly_sentinel.Incidents.Lifecycle.{
  Store, transition, unknown_transition, reclassify, opened_record, fill_identity, update_active,
  resolve, find_existing, or_missing, settle, apply,
}
use pooly_sentinel.Incidents.Lifecycle.Contract.{Reliable, IsStored, next, life}
use pooly_sentinel.Incidents.Lifecycle.Records.{
  IsAlert, is_blank-alert, instant, updated_record, reclassify-next, updated_record-IsStored,
  opened_record-IsStored, opened_record-next, resolution, resolution-next, resolution-IsStored,
}

pub inc_set : (digest : Text) → is_empty (text "inc_" ++ encode_hex digest) ≡ false
unfolding text
inc_set digest = refl

module _ (p : Patterns) (sum256 : Text → Text) {S : Type 0} (ctx : Context S) (store : Store S)
    (reliable : Reliable ctx store) where
  open reliable use {
    view, put, poll_live, get_found, missing, missing_is, get_missing, upsert_puts, view-put,
  }

  -- What `Apply` makes of the store `s`: the incident under `fp` goes to its next life, its record stays
  -- well formed, and no other fingerprint's record changes.
  pub record Refined (s : S) (fp : Text) (c : Candidate) (t : Transition) (s' : S) : Type 0 where
    pub goes_on : (life (view s' fp), t.action) ≡ next (life (view s fp)) c.active c.severity
    pub stored : (r : IncidentRecord) → view s' fp ≡ some r → IsStored fp r
    pub others : (fp' : Text) → text_eq fp fp' ≡ false → view s' fp' ≡ view s fp'

  pub view-put_self :
      (s : S) (fp : Text) (r : IncidentRecord) → IsStored fp r → view (put r s) fp ≡ some r
  view-put_self s fp r h = rw (view-put, h.named, text_eq_refl)

  put-Refined :
      (s : S) (fp : Text) (c : Candidate) (action : Action) (r : IncidentRecord)
      → IsStored fp r
      → (life (some r), action) ≡ next (life (view s fp)) c.active c.severity
      → Refined s fp c (transition action r) (put r s)
  unfolding transition
  put-Refined s fp c action r h e = record {
    goes_on = rw (view-put_self s fp r h) e;
    stored = λ r' found. subst (IsStored fp) (cc (view-put_self s fp r h)) h;
    others = λ fp' differ. rw (view-put, h.named, differ);
  }

  -- `Apply` returns no error, and the store that it leaves is refined.
  abbrev pub Settles : S → Text → Candidate → Result Transition × S → Type 0
  Settles s fp c out = (t : Transition) × (s' : S) × (out ≡ (ok t, s')) × Refined s fp c t s'

  unchanged-Refined :
      (s : S) (id fp : Text) (c : Candidate)
      → view s fp ≡ none
      → c.active ≡ false
      → Refined s fp c (unknown_transition id fp) s
  unfolding unknown_transition life next
  unchanged-Refined s id fp c gone idle = record {
    goes_on = ground (arith, gone, idle);
    stored = λ r found. cc;
    others = λ fp' differ. refl;
  }

  pub resolve-run :
      (s : S) (c : Candidate) (now : ℕ) (r : IncidentRecord)
      → resolve p sum256 ctx store r c now s ≡ (
        ok (transition (resolution p c now r).0 (resolution p c now r).1),
        put (resolution p c now r).1 s,
      )
  unfolding resolve resolution
  resolve-run s c now r = elim (Bool-cases (text_eq r.status (status_text resolved))) [
    | inl already ↦ rw (already, upsert_puts)
    | inr first ↦ rw (first, upsert_puts)
  ]

  fill_identity-run :
      (s : S) (c : Candidate) (r : IncidentRecord)
      → is_empty r.fingerprint ≡ false
      → is_empty r.id ≡ false
      → fill_identity p sum256 ctx store r c s ≡ (ok r, s)
  unfolding fill_identity
  fill_identity-run s c r f i = simp (f, i)

  pub update_active-run :
      (s : S) (c : Candidate) (now : ℕ) (r : IncidentRecord)
      → is_empty (updated_record p c now r).fingerprint ≡ false
      → is_empty (updated_record p c now r).id ≡ false
      → update_active p sum256 ctx store r c now s ≡ (
        ok (transition (reclassify r c now).0 (updated_record p c now r)),
        put (updated_record p c now r) s,
      )
  unfolding update_active
  update_active-run s c now r f i =
      rw (fill_identity-run s c (updated_record p c now r) f i) (rw upsert_puts)

  module _ (s : S) (id fp : Text) (c : Candidate) (now : ℕ) (identified : is_empty id ≡ false)
      (alert : c.active ≡ true → IsAlert c.severity) where
    settle_missing :
        (active : Bool)
        → c.active ≡ active
        → view s fp ≡ none
        → Settles s fp c (settle p sum256 ctx store id fp c now active none s)
    unfolding settle
    settle_missing false idle gone =
        (unknown_transition id fp, s, refl, unchanged-Refined s id fp c gone idle)
    settle_missing true live gone =
        let r = opened_record p id fp c now in
        (
          transition opened r,
          put r s,
          rw (is_blank-alert c.severity (alert live), upsert_puts),
          put-Refined s fp c opened r (opened_record-IsStored p c now id fp identified)
              (cc (opened_record-next p c now id fp (alert live))),
        )

    settle_found :
        (active : Bool) (r : IncidentRecord)
        → c.active ≡ active
        → view s fp ≡ some r
        → is_empty fp ≡ false
        → IsStored fp r
        → Settles s fp c (settle p sum256 ctx store id fp c now active (some r) s)
    unfolding settle
    settle_found false r idle found set h =
        let (action, r') = resolution p c now r in
        (
          transition action r',
          put r' s,
          resolve-run s c now r,
          put-Refined s fp c action r' (resolution-IsStored p c now fp r h)
              (cc (resolution-next p c now r)),
        )
    settle_found true r live found set h =
        let r' = updated_record p c now r in
        let action = (reclassify r c now).0 in
        let kept = updated_record-IsStored p c now fp r h in
        (
          transition action r',
          put r' s,
          rw (is_blank-alert c.severity (alert live))
              (update_active-run s c now r (rw (kept.named) set) kept.identified),
          put-Refined s fp c action r' kept (cc (reclassify-next p c now r (alert live))),
        )

  -- `Apply` goes on with what the lookup has found.
  find_existing-run :
      (s : S) (fp : Text) → find_existing p sum256 ctx store fp s ≡ (ok (view s fp), s)
  unfolding find_existing
  find_existing-run s fp = elim (Option-cases (view s fp)) [
    | inl gone ↦ rw (get_missing s fp gone, or_missing, missing_is, gone) refl
    | inr (r, found) ↦ rw (get_found s fp r found, found) refl
  ]

  check_context-run : (s : S) → check_context ctx s ≡ (ok tt, s)
  unfolding check_context
  check_context-run s = ap stop_if_canceled (poll_live s)

  pub apply-run :
      (clock : ℕ) (c : Candidate) (s : S) {id fp : Text}
      → fingerprint p c.node_id c.type c.target c.condition ≡ ok fp
      → incident_id_for_fingerprint sum256 fp ≡ ok id
      → apply p sum256 ctx store clock c s
        ≡ settle p sum256 ctx store id fp c (instant clock c) c.active (view s fp) s
  unfolding apply
  apply-run clock c s {fp = fp} made id_made =
      bind-eq_ok (check_context ctx) _ (check_context-run s)
      ∙ (bind-eq_ok (lift (fingerprint p c.node_id c.type c.target c.condition)) _ {s = s} (rw made)
          ∙ (bind-eq_ok (lift (incident_id_for_fingerprint sum256 fp)) _ {s = s} (rw id_made)
              ∙ bind-eq_ok (find_existing p sum256 ctx store fp) _ (find_existing-run s fp)))

  -- A candidate whose fingerprint is made, and whose severity is an alert if it is active, is settled:
  -- the incident goes to its next life with the action of that step, the record under the fingerprint
  -- stays well formed, and all other records stay as they are.
  pub apply_refines :
      (clock : ℕ) (c : Candidate) (s : S) {fp : Text}
      → fingerprint p c.node_id c.type c.target c.condition ≡ ok fp
      → (c.active ≡ true → IsAlert c.severity)
      → ((r : IncidentRecord) → view s fp ≡ some r → IsStored fp r)
      → Settles s fp c (apply p sum256 ctx store clock c s)
  apply_refines clock c s {fp} made alert stored =
      let good = fingerprint-IsWellFormed p c.node_id c.type c.target c.condition made in
      let id = text "inc_" ++ encode_hex (take 16 (sum256 fp)) in
      let run = apply-run clock c s made (incident_id-made p sum256 fp good) in
      let now = instant clock c in
      elim (Option-cases (view s fp)) [
        | inl gone ↦
            subst (Settles s fp c)
              (sym (run ∙ ap (λ o. settle p sum256 ctx store id fp c now c.active o s) gone))
              (settle_missing s id fp c now (inc_set (take 16 (sum256 fp))) alert c.active refl
                gone)
        | inr (r, found) ↦
            subst (Settles s fp c)
              (sym (run ∙ ap (λ o. settle p sum256 ctx store id fp c now c.active o s) found))
              (settle_found s id fp c now (inc_set (take 16 (sum256 fp))) alert c.active r refl
                found good.nonempty (stored r found))
      ]
