-- ===== src/Storage/Migrations/Runs.antt =====
-- internal/storage/migrations.go, `runMigrations`: what a run leaves of a schema that earlier runs made.
use pooly_sentinel.Prelude.{
  eq_ℤ, eq_ℤ_sound, ◌≡◌, refl, ap, ◌∙◌, sym, subst, some_injective, ℕ, ◌+◌, ℤ, pos, leb_ℤ, Bool,
  true, false, not, ◌&&◌, ◌||◌, Option, some, List, [], ◌∷◌, ◌++◌, Text, text, arith, if◌then◌else◌,
  length, ltb, leb, and_true,
}
use pooly_sentinel.Effect.{Result, ok, err, migrate, continue, Exec, ◌>>=◌}
use pooly_sentinel.Redaction.{Patterns}
use pooly_sentinel.Storage.Database.{Driver, Handle, executed, or_wrap, query_rows}
use pooly_sentinel.Storage.Database.Frame.{or_wrap_lem, executed-On, query_rows-Keeps}
use pooly_sentinel.Storage.Database.Calls.{query_rows_ok}
use pooly_sentinel.Storage.Migrations.{
  Migration, Schema, has_version, latest_version, or_zero, max_version, exec_migration,
  apply_migration, apply_pending, current_schema_version, run_ordered, run_migrations,
  validate_migrations,
}
use pooly_sentinel.Storage.Migrations.Order.{are_numbered, validate_migrations-are_numbered}
use pooly_sentinel.Storage.Migrations.Progress.{
  followed-some, one_migration, all_migrations, Moves, kept, moved, Progress, stopped, completed,
  apply_migration-Moves,
}
use pooly_sentinel.Storage.Migrations.Versions.{
  includes, includes-numbered, are_numbered-append, has_version-all_migrations,
}

module _ (p : Patterns) {W : Type 0} (d : Driver W) {D : Type 0} (run : Text → D → Option D) where
  -- The migrations that are recorded already are passed over.
  skip_applied :
      (n : ℕ) (applied : List (ℤ × Text)) (done todo : List Migration)
      → are_numbered n done ≡ true
      → ((k : ℕ) → ltb n k && leb k (n + length done) ≡ true → has_version (pos k) applied ≡ true)
      → apply_pending p d run applied (done ++ todo) ≡ apply_pending p d run applied todo
  unfolding apply_pending are_numbered
  skip_applied n applied [] todo h k = refl
  skip_applied n applied (m ∷ done) todo h k =
      let (numbered, later) =
        and_true (eq_ℤ m.version (pos (n + 1))) (are_numbered (n + 1) done) h in
      rw
        (ap (λ v. has_version v applied) (eq_ℤ_sound m.version (pos (n + 1)) numbered)
          ∙ k (n + 1) (ground arith))
        (skip_applied (n + 1) applied done todo later (λ j g. k j (ground (arith, g))))

  continue-Progress :
      (m : Migration) (ms : List Migration) (before : Schema D)
      (rest : Exec (Handle (Schema D) W) (Unit {0})) (out : Result (Unit {0}) × Handle (Schema D) W)
      → Moves run m before out
      → ((s : Handle (Schema D) W) → Progress run s.tables ms (rest s))
      → Progress run before (m ∷ ms) (continue out.0 (λ u. rest) out.1)
  unfolding all_migrations
  continue-Progress m ms before rest _ (kept e s h) later =
      stopped e s [] (m ∷ ms) refl (ap some (sym h))
  continue-Progress m ms before rest _ (moved u s h) later = onwards (rest s) (later s)
    where
      onwards :
          (out : Result (Unit {0}) × Handle (Schema D) W)
          → Progress run s.tables ms out
          → Progress run before (m ∷ ms) out
      onwards _ (stopped e t done todo split built) =
          stopped e t (m ∷ done) todo (ap (λ l. m ∷ l) split) (
            followed-some run (one_migration run m) (all_migrations run done) before s.tables h
            ∙ built)
      onwards _ (completed v t built) = completed v t (
          followed-some run (one_migration run m) (all_migrations run ms) before s.tables h ∙ built)

  apply_pending-Progress :
      (n : ℕ) (applied : List (ℤ × Text)) (todo : List Migration) (s : Handle (Schema D) W)
      → are_numbered n todo ≡ true
      → ((k : ℕ) → ltb n k ≡ true → has_version (pos k) applied ≡ false)
      → Progress run s.tables todo (apply_pending p d run applied todo s)
  unfolding apply_pending are_numbered all_migrations
  apply_pending-Progress n applied [] s h fresh = completed tt s refl
  apply_pending-Progress n applied (m ∷ ms) s h fresh =
      let (numbered, later) = and_true (eq_ℤ m.version (pos (n + 1))) (are_numbered (n + 1) ms) h in
      rw
        (ap (λ v. has_version v applied) (eq_ℤ_sound m.version (pos (n + 1)) numbered)
          ∙ fresh (n + 1) (ground arith))
        (continue-Progress m ms s.tables (apply_pending p d run applied ms)
          (apply_migration p d run m s) (apply_migration-Moves run p d m s)
          (λ t.
            apply_pending-Progress (n + 1) applied ms t later (λ j g. fresh j (ground (arith, g)))))

  -- A step that leaves the schema alone, before a loop that is still to come.
  bind-Progress :
      {A : Type 0} (m : Exec (Handle (Schema D) W) A)
      (f : A → Exec (Handle (Schema D) W) (Unit {0})) (s : Handle (Schema D) W)
      (todo : List Migration)
      → (m s).1.tables ≡ s.tables
      → ((a : A) (t : Handle (Schema D) W)
          → m s ≡ (ok a, t)
          → t.tables ≡ s.tables
          → Progress run s.tables todo (f a t))
      → Progress run s.tables todo ((m >>= f) s)
  unfolding all_migrations
  bind-Progress {A} m f s todo same rest = go (m s) refl same
    where
      go :
          (out : Result A × Handle (Schema D) W)
          → m s ≡ out
          → out.1.tables ≡ s.tables
          → Progress run s.tables todo (continue out.0 f out.1)
      go (ok a, t) e k = rest a t e k
      go (err x, t) e k = stopped x t [] todo refl (ap some (sym k))

  query_rows_pure :
      {A : Type 0} (op : Text) (select : Schema D → A) (s : Handle (Schema D) W)
      → (query_rows p d op select s).1.tables ≡ s.tables
  query_rows_pure op select s = query_rows-Keeps p d (λ t. t ≡ s.tables) op select s refl

  create_pure :
      (s : Handle (Schema D) W)
      → (exec_migration p d run (text "migrate table") (λ t. some t) s).1.tables ≡ s.tables
  unfolding exec_migration
  create_pure s =
      or_wrap_lem p d (λ t. t ≡ s.tables) (text "migrate table") migrate
        (executed d.constraint (λ t. some t) s (d.call s.world))
        (executed-On p d (λ t. t ≡ s.tables) (λ t. some t) s (d.call s.world)
          (λ t t' h e. sym (some_injective e) ∙ h) refl)

  -- Rows that name the migrations done.
  abbrev pub Names : List Migration → List (ℤ × Text) → Type 0
  Names done applied = (k : ℕ) → has_version (pos k) applied ≡ (ltb 0 k && leb k (0 + length done))

  all_migrations-Names :
      (done : List Migration) (start t : Schema D)
      → are_numbered 0 done ≡ true
      → start.applied ≡ []
      → all_migrations run done start ≡ some t
      → Names done t.applied
  unfolding has_version
  all_migrations-Names done start t h none_yet built k =
      has_version-all_migrations run (pos k) done start t built
      ∙ ap (λ rows. has_version (pos k) rows || includes (pos k) done) none_yet
      ∙ includes-numbered 0 k done h

  pending-Progress :
      (applied : List (ℤ × Text)) (done todo : List Migration) (s : Handle (Schema D) W)
      → are_numbered 0 (done ++ todo) ≡ true
      → Names done applied
      → Progress run s.tables todo (apply_pending p d run applied (done ++ todo) s)
  pending-Progress applied done todo s h names =
      let (first, later) = are_numbered-append 0 done todo h in
      subst (λ rest. Progress run s.tables todo (rest s))
        (sym (skip_applied 0 applied done todo first (λ k g. names k ∙ g)))
        (apply_pending-Progress (0 + length done) applied todo s later
          (λ k g. names k ∙ ground (arith, g)))

  run_ordered-Progress :
      (done todo : List Migration) (current : ℤ) (s : Handle (Schema D) W)
      → are_numbered 0 (done ++ todo) ≡ true
      → Names done s.tables.applied
      → Progress run s.tables todo (run_ordered p d run (done ++ todo) current s)
  unfolding run_ordered all_migrations
  run_ordered-Progress done todo current s h names =
      if-Progress (not (leb_ℤ current (latest_version (pos 0) (done ++ todo)))) _ _ s todo
        (stopped _ s [] todo refl refl)
        (bind-Progress (query_rows p d (text "list migrations") (λ t. t.applied))
          (λ applied. apply_pending p d run applied (done ++ todo)) s todo
          (query_rows_pure (text "list migrations") (λ t. t.applied) s)
          (λ applied t e same.
            subst
              (λ before. Progress run before todo (apply_pending p d run applied (done ++ todo) t))
              same
              (pending-Progress applied done todo t h (
                subst (Names done)
                  (query_rows_ok p d (text "list migrations") (λ u. u.applied) s t applied e)
                  names))))
    where
      if-Progress :
          (b : Bool) (m n : Exec (Handle (Schema D) W) (Unit {0})) (t : Handle (Schema D) W)
          (ms : List Migration)
          → Progress run t.tables ms (m t)
          → Progress run t.tables ms (n t)
          → Progress run t.tables ms ((if b then m else n) t)
      if-Progress true m n t ms x y = x
      if-Progress false m n t ms x y = y

  -- From the lookup of the schema's version on.
  versioned-Progress :
      (done todo : List Migration) (s : Handle (Schema D) W)
      → are_numbered 0 (done ++ todo) ≡ true
      → Names done s.tables.applied
      → Progress run s.tables todo (
          (current_schema_version p d run >>= λ current. run_ordered p d run (done ++ todo) current)
            s)
  unfolding current_schema_version
  versioned-Progress done todo s h names =
      bind-Progress (query_rows p d (text "schema version") (λ t. or_zero (max_version t.applied)))
        (λ current. run_ordered p d run (done ++ todo) current) s todo
        (query_rows_pure (text "schema version") (λ t. or_zero (max_version t.applied)) s)
        (λ current t e same.
          subst (λ b. Progress run b todo (run_ordered p d run (done ++ todo) current t)) same
            (run_ordered-Progress done todo current t h
              (subst (λ b. Names done b.applied) (sym same) names)))

  -- A run over a schema that some migrations made, of migrations that begin with these: where it fails,
  -- the schema is the one that these and the first further ones make, each one in full; where it
  -- succeeds, the one that they all make. So a later run goes on where this one stopped.
  pub run_migrations-Progress :
      (format_int : ℤ → Text) (ms done todo : List Migration) (start : Schema D)
      (s : Handle (Schema D) W)
      → validate_migrations format_int ms ≡ ok (done ++ todo)
      → start.applied ≡ []
      → all_migrations run done start ≡ some s.tables
      → Progress run s.tables todo (run_migrations p d run format_int ms s)
  unfolding run_migrations or_wrap
  run_migrations-Progress format_int ms done todo start s valid none_yet built =
      let numbered = (validate_migrations-are_numbered format_int ms (done ++ todo) valid).0 in
      let names =
        all_migrations-Names done start s.tables (are_numbered-append 0 done todo numbered).0
          none_yet built in
      rw valid (
        bind-Progress (exec_migration p d run (text "migrate table") (λ t. some t))
          (λ u. current_schema_version p d run >>= λ current.
            run_ordered p d run (done ++ todo) current)
          s todo (create_pure s)
          (λ u t e same.
            subst
              (λ b. Progress run b todo (
                (current_schema_version p d run >>= λ current.
                run_ordered p d run (done ++ todo) current)
                  t))
              same
              (versioned-Progress done todo t numbered
                (subst (λ b. Names done b.applied) (sym same) names))))
