-- ===== src/Filewatch/Collect.antt =====
-- internal/collectors/filewatch/baseline.go, `collectTarget`: a snapshot is compared with the baseline, and
-- becomes the next one. The JSON text of a snapshot is a parameter, and so is the instant of the start.
-- The fields of an observation that the rule engine does not read are left out.
pub mod Baseline
use pooly_sentinel.Prelude.{
  ℕ, ◌+◌, ℤ, Bool, true, false, not, ◌&&◌, ◌||◌, Option, none, some, List, [], ◌∷◌, ◌++◌, Text,
  text, text_eq, is_empty, is_set, to_lower, contains, if◌then◌else◌,
}
use pooly_sentinel.Effect.{
  Error, Result, ok, err, is_error, not_found, canceled, deadline_exceeded, Exec, Context, pure,
  and_then, check_context,
}
use pooly_sentinel.Redaction.{Patterns, redact}
use pooly_sentinel.Resources.{
  Labels, ErrorClass, unsupported, error_none, source_missing, permission_denied, parse_error,
  timeout, counter_reset, state_error, oversized, source_changed, source_type, internal_error,
  Metric, Observation, is_unsupported,
}
use pooly_sentinel.Resources.Metrics.{gauge, new_metric}
use pooly_sentinel.Filewatch.Types.{FileSource, Packages, Target, Snapshot}
use pooly_sentinel.Filewatch.Names.{target_name}
use pooly_sentinel.Filewatch.Changes.{
  Change, created, deleted, type_changed, permission_changed, owner_changed, modified, unchanged,
  compare_snapshots,
}
use pooly_sentinel.Filewatch.Snapshots.{snapshot_target}

-- The interface `StateStore`.
pub record StateStore (S : Type 0) : Type 0 where
  pub get : Context S → Text → Text → Exec S Text
  pub upsert : Context S → Text → Text → Text → Text → Exec S (Unit {0})

-- Packages encoding/json, fmt and errors, and `float64`.
pub record Support (F : Type 0) : Type 0 where
  pub marshal : Snapshot → Text
  pub unmarshal : Text → Result Snapshot
  pub quote : Text → Text
  pub error_text : Error → Text
  -- `errors.Is` of `fs.ErrPermission` and of `syscall.ELOOP`.
  pub is_permission : Error → Bool
  pub is_loop : Error → Bool
  pub zero_float : F
  pub one_float : F
  pub of_int : ℤ → F

pub record Options (S : Type 0) : Type 0 where
  pub max_file_bytes : ℤ
  pub max_directory_entries : ℤ
  pub source : FileSource S
  pub state : Option (StateStore S)
  pub persist : Bool

unfoldable pub change_text : Change → Text
unfolding text
change_text created = text "created"
change_text deleted = text "deleted"
change_text type_changed = text "type_changed"
change_text permission_changed = text "permission_changed"
change_text owner_changed = text "owner_changed"
change_text modified = text "modified"
change_text unchanged = text "unchanged"

-- What `loadSnapshot` returns: (zero, false, nil), (s, true, nil), (zero, true, err), (zero, false, err).
pub data Loaded : Type 0 where
  no_baseline : Loaded
  baseline : Snapshot → Loaded
  corrupt unreadable : Error → Loaded

unfoldable pub incomplete_error_class : Text → ErrorClass
unfolding text_eq text
incomplete_error_class reason =
    if text_eq reason (text "file_oversized")
    then oversized
    else if text_eq reason (text "source_changed")
    then source_changed
    else if text_eq reason (text "symlink_rejected") || text_eq reason (text "type_mismatch")
    then source_type
    else if text_eq reason (text "manifest_truncated")
    then parse_error
    else internal_error

module _ {F : Type 0} (sup : Support F) where
  unfoldable pub bool_float : Bool → F
  bool_float b = if b then sup.one_float else sup.zero_float

  -- The loop over the items.
  unfoldable pub metrics_of : List (Text × F) → Labels → ℕ → Result (List (Metric F))
  unfolding new_metric
  metrics_of [] labels ts = ok []
  metrics_of ((name, value) ∷ items) labels ts =
      and_then (new_metric sup.quote name value gauge labels ts)
        (λ m. and_then (metrics_of items labels ts) (λ ms. ok (m ∷ ms)))

  unfoldable pub snapshot_metrics : Text → Snapshot → ℕ → Text → Result (List (Metric F))
  unfolding bool_float metrics_of text_eq text
  snapshot_metrics name x ts change =
      metrics_of
        ((text "pooly_filewatch_target_exists", bool_float x.exists)
          ∷ (
            text "pooly_filewatch_target_changed",
            bool_float (
                not (text_eq change (text "unchanged"))
                && not (text_eq change (text "baseline_recorded"))),
          )
          ∷ (text "pooly_filewatch_target_size_bytes", sup.of_int x.size)
          ∷ (text "pooly_filewatch_target_symlink", bool_float (text_eq x.type (text "symlink")))
          ∷ (text "pooly_filewatch_manifest_complete", bool_float x.manifest_complete)
          ∷ (text "pooly_filewatch_manifest_truncated", bool_float x.manifest_truncated)
          ∷ (text "pooly_filewatch_target_oversized", bool_float x.oversized)
          ∷ [])
        ((text "watch", name) ∷ []) ts

  unfoldable pub classify_file_error : (Error → Bool) → Error → ErrorClass
  unfolding contains to_lower is_error text
  classify_file_error is_not_exist e =
      if is_not_exist e
      then source_missing
      else if sup.is_permission e
          || contains (to_lower (sup.error_text e)) (text "permission denied")
      then permission_denied
      else if sup.is_loop e
      then source_type
      else if is_error e canceled || is_error e deadline_exceeded
      then timeout
      else internal_error

  module _ (p : Patterns) (started : ℕ) where
    unfoldable pub success_observation : Text → List (Metric F) → Text → Observation F
    unfolding text
    success_observation name metrics summary = record {
      collector = text "filewatch";
      target = name;
      timestamp = started;
      success = true;
      supported = true;
      stale = false;
      metrics = metrics;
      summary = redact p summary;
      error_class = error_none;
      events = [];
    }

    unfoldable pub failure_observation : Text → ErrorClass → Text → Observation F
    unfolding text
    failure_observation name class summary = record {
      collector = text "filewatch";
      target = name;
      timestamp = started;
      success = false;
      supported = not (is_unsupported class);
      stale = false;
      metrics = [];
      summary = redact p summary;
      error_class = class;
      events = [];
    }

    unfoldable pub snapshot_observation : Text → Snapshot → Text → Observation F
    unfolding snapshot_metrics success_observation failure_observation text
    snapshot_observation name x change = elim (snapshot_metrics name x started change) [
      | err e ↦ failure_observation name internal_error (sup.error_text e)
      | ok metrics ↦ success_observation name metrics (text "file state " ++ change)
    ]

    unfoldable pub incomplete_observation : Text → Snapshot → Observation F
    unfolding snapshot_observation incomplete_error_class text
    incomplete_observation name x = record (snapshot_observation name x x.incomplete_reason) {
      success = false;
      stale = true;
      error_class = incomplete_error_class x.incomplete_reason;
      summary = text "file state " ++ x.incomplete_reason;
    }

-- The `return`s of `loadSnapshot`.
unfoldable pub loaded_of : {F : Type 0} → Support F → Result Text → Loaded
unfolding is_error
loaded_of sup (err e) = if is_error e not_found then no_baseline else unreadable e
loaded_of sup (ok raw) = elim (sup.unmarshal raw) [ ok x ↦ baseline x | err e ↦ corrupt e ]

module _ {F : Type 0} (sup : Support F) {S : Type 0} (ctx : Context S) where
  unfoldable pub load_snapshot : Option (StateStore S) → Text → S → Loaded × S
  unfolding loaded_of text
  load_snapshot none name s = (no_baseline, s)
  load_snapshot (some store) name s =
      let (r, s') = store.get ctx (text "filewatch") name s in (loaded_of sup r, s')

  unfoldable pub save_snapshot : Option (StateStore S) → Bool → Text → Snapshot → Exec S (Unit {0})
  unfolding text
  save_snapshot none persist name x = pure tt
  save_snapshot (some store) false name x = pure tt
  save_snapshot (some store) true name x =
      store.upsert ctx (text "filewatch") name (text "ok") (sup.marshal x)

  module _ (p : Patterns) (started : ℕ) (pk : Packages) (o : Options S) (t : Target) where
    abbrev pub Observed : Type 0
    Observed = Observation F × S

    unfoldable pub failing : ErrorClass → Text → Observation F
    unfolding failure_observation target_name
    failing = failure_observation sup p started (target_name pk t)

    -- `if err := ctx.Err(); err != nil { return failureObservation(...) }`, and the rest.
    unfoldable pub unless_canceled : Option Error × S → (S → Observed) → Observed
    unfolding failing
    unless_canceled (some e, s) rest = (failing timeout (sup.error_text e), s)
    unless_canceled (none, s) rest = rest s

    -- From the return of `saveSnapshot` on, with the observation to return.
    unfoldable pub after_save : Observation F → Result (Unit {0}) × S → Observed
    unfolding failing text
    after_save obs (err e, s) = (failing state_error (text "save file baseline failed"), s)
    after_save obs (ok u, s) = (obs, s)

    unfoldable pub saving : Snapshot → Observation F → S → Observed
    unfolding unless_canceled after_save save_snapshot target_name
    saving x obs s =
        unless_canceled (ctx.poll s)
          (λ s₁. after_save obs (save_snapshot o.state o.persist (target_name pk t) x s₁))

    -- From the return of `loadSnapshot` on.
    unfoldable pub after_load : Snapshot → Loaded × S → Observed
    unfolding saving failing snapshot_observation compare_snapshots change_text target_name text
    after_load x (corrupt e, s) =
        saving x
          (record (snapshot_observation sup p started (target_name pk t) x
            (text "baseline reset")) { stale = true; error_class = counter_reset })
          s
    after_load x (unreadable e, s) = (failing state_error (text "load file baseline failed"), s)
    after_load x (no_baseline, s) =
        saving x
          (snapshot_observation sup p started (target_name pk t) x (text "baseline_recorded")) s
    after_load x (baseline previous, s) =
        saving x
          (snapshot_observation sup p started (target_name pk t) x
            (change_text (compare_snapshots previous x)))
          s

    -- From the return of `SnapshotTarget` on.
    unfoldable pub after_snapshot : Result Snapshot × S → Observed
    unfolding failing classify_file_error incomplete_observation unless_canceled load_snapshot
        after_load target_name
    after_snapshot (err e, s) =
        (failing (classify_file_error sup o.source.is_not_exist e) (sup.error_text e), s)
    after_snapshot (ok x, s) =
        if is_set x.incomplete_reason
        then (incomplete_observation sup p started (target_name pk t) x, s)
        else unless_canceled (ctx.poll s)
            (λ s₁. after_load x (load_snapshot o.state (target_name pk t) s₁))

    unfoldable pub collect_target : S → Observed
    unfolding unless_canceled after_snapshot snapshot_target
    collect_target s = unless_canceled (ctx.poll s) (λ s₁.
        after_snapshot
          (snapshot_target pk ctx o.source t o.max_file_bytes o.max_directory_entries s₁))
