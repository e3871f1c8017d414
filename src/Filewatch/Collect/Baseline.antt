-- ===== src/Filewatch/Collect/Baseline.antt =====
-- internal/collectors/filewatch/baseline.go, `collectTarget`: what a successful observation has done.
use pooly_sentinel.Prelude.{
  ◌≡◌, refl, ap, subst, sym, ℕ, Bool, true, Option, none, some, [], ◌∷◌, Text, text, is_set,
  if◌then◌else◌,
}
use pooly_sentinel.Effect.{Error, Result, ok, err, Context}
use pooly_sentinel.Redaction.{Patterns}
use pooly_sentinel.Resources.{Observation, ErrorClass, timeout, state_error, counter_reset}
use pooly_sentinel.Filewatch.Types.{Packages, Target, Snapshot}
use pooly_sentinel.Filewatch.Names.{target_name}
use pooly_sentinel.Filewatch.Snapshots.{snapshot_target}
use pooly_sentinel.Filewatch.Changes.{compare_snapshots}
use pooly_sentinel.Filewatch.Collect.{
  StateStore, Support, Options, Loaded, no_baseline, baseline, corrupt, unreadable,
  incomplete_observation, failure_observation, load_snapshot, save_snapshot, failing,
  unless_canceled, after_save, saving, after_load, after_snapshot, collect_target,
  classify_file_error, snapshot_observation, change_text,
}

module _ {F : Type 0} (sup : Support F) {S : Type 0} (ctx : Context S) (p : Patterns) (started : ℕ)
    (pk : Packages) (o : Options S) (t : Target) where
  -- The observation of a snapshot beside what was loaded.
  unfoldable pub observed : Snapshot → Loaded → Observation F
  unfolding text
  observed x no_baseline =
      snapshot_observation sup p started (target_name pk t) x (text "baseline_recorded")
  observed x (baseline previous) =
      snapshot_observation sup p started (target_name pk t) x
        (change_text (compare_snapshots previous x))
  observed x (corrupt e) =
      record (snapshot_observation sup p started (target_name pk t) x (text "baseline reset")) {
        stale = true;
        error_class = counter_reset;
      }
  observed x (unreadable e) =
      failing sup ctx p started pk o t state_error (text "load file baseline failed")

module _ {F : Type 0} (sup : Support F) {S : Type 0} (ctx : Context S) (p : Patterns) (started : ℕ)
    (pk : Packages) (o : Options S) (t : Target) (store : StateStore S) (view : S → Option Text)
    (stored : (raw : Text) (s s' : S)
      → store.upsert ctx (text "filewatch") (target_name pk t) (text "ok") raw s ≡ (ok tt, s')
      → view s' ≡ some raw) where
  -- A success that began at `s₁`, after the first poll, has taken a complete snapshot there, observed it
  -- beside what it loaded after the next poll, and made it the baseline.
  abbrev Done : S → Observation F × S → Type 0
  Done s₁ out =
      out.0.success ≡ true
      → (x : Snapshot) × (s₂ : S) × (snapshot_target pk ctx o.source t o.max_file_bytes
            o.max_directory_entries s₁
          ≡ (ok x, s₂))
        × (x.incomplete_reason ≡ [])
        × (out.0
            ≡ observed sup ctx p started pk o t x
                (load_snapshot sup ctx o.state (target_name pk t) (ctx.poll s₂).1).0)
        × (view out.1 ≡ some (sup.marshal x))

  failing-Done :
      (s₁ : S) (class : ErrorClass) (summary : Text) (s : S)
      → Done s₁ (failing sup ctx p started pk o t class summary, s)
  unfolding failing failure_observation
  failing-Done s₁ class summary s h = cc

  unless_canceled-Done :
      (s₁ : S) (out : Option Error × S) (rest : S → Observation F × S)
      → Done s₁ (rest out.1)
      → Done s₁ (unless_canceled sup ctx p started pk o t out rest)
  unfolding unless_canceled
  unless_canceled-Done s₁ (none, s) rest h = h
  unless_canceled-Done s₁ (some e, s) rest h = failing-Done s₁ timeout (sup.error_text e) s

  module _ (x : Snapshot) (s₁ s₂ : S)
      (taken : snapshot_target pk ctx o.source t o.max_file_bytes o.max_directory_entries s₁
        ≡ (ok x, s₂))
      (complete : x.incomplete_reason ≡ []) where
    abbrev loaded : Loaded × S
    loaded = load_snapshot sup ctx o.state (target_name pk t) (ctx.poll s₂).1

    after_save-Done :
        (obs : Observation F) (s : S) (out : Result (Unit {0}) × S)
        → store.upsert ctx (text "filewatch") (target_name pk t) (text "ok") (sup.marshal x) s ≡ out
        → obs ≡ observed sup ctx p started pk o t x loaded.0
        → Done s₁ (after_save sup ctx p started pk o t obs out)
    unfolding after_save
    after_save-Done obs s (err e, s') made same =
        failing-Done s₁ state_error (text "save file baseline failed") s'
    after_save-Done obs s (ok u, s') made same =
        λ h. (x, s₂, taken, complete, same, stored (sup.marshal x) s s' made)

    saved :
        {held : Option (StateStore S)} {persists : Bool} (s : S)
        → held ≡ some store
        → persists ≡ true
        → save_snapshot sup ctx held persists (target_name pk t) x s
          ≡ store.upsert ctx (text "filewatch") (target_name pk t) (text "ok") (sup.marshal x) s
    unfolding save_snapshot
    saved s i k = rw (i, k) refl

    saving-Done :
        (obs : Observation F) (s : S)
        → o.state ≡ some store
        → o.persist ≡ true
        → obs ≡ observed sup ctx p started pk o t x loaded.0
        → Done s₁ (saving sup ctx p started pk o t x obs s)
    unfolding saving
    saving-Done obs s is_store persists same = unless_canceled-Done s₁ (ctx.poll s) _ (
        subst (λ out. Done s₁ (after_save sup ctx p started pk o t obs out))
          (sym (saved (ctx.poll s).1 is_store persists))
          (after_save-Done obs (ctx.poll s).1 _ refl same))

    after_load-Done :
        (out : Loaded × S)
        → out.0 ≡ loaded.0
        → o.state ≡ some store
        → o.persist ≡ true
        → Done s₁ (after_load sup ctx p started pk o t x out)
    unfolding after_load observed
    after_load-Done (no_baseline, s) e i k =
        saving-Done (observed sup ctx p started pk o t x no_baseline) s i k
          (ap (observed sup ctx p started pk o t x) e)
    after_load-Done (baseline previous, s) e i k =
        saving-Done (observed sup ctx p started pk o t x (baseline previous)) s i k
          (ap (observed sup ctx p started pk o t x) e)
    after_load-Done (corrupt cause, s) e i k =
        saving-Done (observed sup ctx p started pk o t x (corrupt cause)) s i k
          (ap (observed sup ctx p started pk o t x) e)
    after_load-Done (unreadable cause, s) e i k =
        failing-Done s₁ state_error (text "load file baseline failed") s

  after_snapshot-Done :
      (s₁ : S) (out : Result Snapshot × S)
      → snapshot_target pk ctx o.source t o.max_file_bytes o.max_directory_entries s₁ ≡ out
      → o.state ≡ some store
      → o.persist ≡ true
      → Done s₁ (after_snapshot sup ctx p started pk o t out)
  unfolding after_snapshot incomplete_observation
  after_snapshot-Done s₁ (err e, s) taken i k =
      failing-Done s₁ (classify_file_error sup o.source.is_not_exist e) (sup.error_text e) s
  after_snapshot-Done s₁ (ok x, s) taken i k = at x.incomplete_reason refl
    where
      at :
          (reason : Text)
          → x.incomplete_reason ≡ reason
          → Done s₁ (
              if is_set reason
              then (incomplete_observation sup p started (target_name pk t) x, s)
              else unless_canceled sup ctx p started pk o t (ctx.poll s) (λ s'.
                after_load sup ctx p started pk o t x
                  (load_snapshot sup ctx o.state (target_name pk t) s')))
      at [] e =
          unless_canceled-Done s₁ (ctx.poll s)
            (λ s'.
              after_load sup ctx p started pk o t x
                (load_snapshot sup ctx o.state (target_name pk t) s'))
            (after_load-Done x s₁ s taken e
              (load_snapshot sup ctx o.state (target_name pk t) (ctx.poll s).1) refl i k)
      at (c ∷ reason) e = λ h. cc

  -- What a success has done.
  pub collect_target-Done :
      o.state ≡ some store
      → o.persist ≡ true
      → (s : S) → Done (ctx.poll s).1 (collect_target sup ctx p started pk o t s)
  unfolding collect_target
  collect_target-Done i k s =
      unless_canceled-Done (ctx.poll s).1 (ctx.poll s)
        (λ s'.
          after_snapshot sup ctx p started pk o t
            (snapshot_target pk ctx o.source t o.max_file_bytes o.max_directory_entries s'))
        (after_snapshot-Done (ctx.poll s).1 _ refl i k)
