-- ===== src/Storage/Migrations/Progress.antt =====
-- internal/storage/migrations.go, `runMigrations`: how far it gets.
use pooly_sentinel.Prelude.{◌≡◌, refl, ap, ◌∙◌, Option, none, some, List, [], ◌∷◌, ◌++◌, Text, text}
use pooly_sentinel.Effect.{Error, Result, ok, err, migrate, continue, Exec, ◌>>◌}
use pooly_sentinel.Redaction.{Patterns}
use pooly_sentinel.Storage.Database.{Driver, Handle, roll_back, committed, finished, begun}
use pooly_sentinel.Storage.Database.Calls.{or_wrap_ok, executed_ok}
use pooly_sentinel.Storage.Migrations.{
  Migration, Schema, run_statement, record_migration, exec_migration, apply_statements,
  migration_body, apply_migration,
}

unfoldable pub followed : {A B C : Type 0} → (A → Option B) → (B → Option C) → A → Option C
followed f g a = elim (f a) [ none ↦ none | some b ↦ g b ]

module _ {D : Type 0} (run : Text → D → Option D) where
  -- What the statements, and the migrations, make of a schema where none of them fails.
  unfoldable pub all_statements : List Text → Schema D → Option (Schema D)
  unfolding followed
  all_statements [] s = some s
  all_statements (x ∷ xs) s = followed (run_statement run x) (all_statements xs) s

  unfoldable pub one_migration : Migration → Schema D → Option (Schema D)
  unfolding followed all_statements
  one_migration m = followed (all_statements m.statements) (record_migration m)

  unfoldable pub all_migrations : List Migration → Schema D → Option (Schema D)
  unfolding followed one_migration
  all_migrations [] s = some s
  all_migrations (m ∷ ms) s = followed (one_migration m) (all_migrations ms) s

  pub followed-some :
      {A B C : Type 0} (f : A → Option B) (g : B → Option C) (a : A) (b : B)
      → f a ≡ some b
      → followed f g a ≡ g b
  unfolding followed
  followed-some {C = C} f g a b h =
      ap (λ o. elim o as (λ _. Option C) [ none ↦ none | some x ↦ g x ]) h

  -- What a migration leaves of a schema: all of it, or nothing.
  pub data Moves {W : Type 0} (m : Migration) (before : Schema D)
      : Result (Unit {0}) × Handle (Schema D) W → Type 0 where
    kept : (e : Error) (s : Handle (Schema D) W) → s.tables ≡ before → Moves m before (err e, s)
    moved :
        (u : Unit {0}) (s : Handle (Schema D) W)
        → one_migration m before ≡ some s.tables
        → Moves m before (ok u, s)

  -- How far the loop over migrations gets: an error leaves the schema that the first of them make, each
  -- one in full, and success the schema that they all make.
  pub data Progress {W : Type 0} (before : Schema D) (todo : List Migration)
      : Result (Unit {0}) × Handle (Schema D) W → Type 0 where
    stopped :
        (e : Error) (s : Handle (Schema D) W) (done later : List Migration)
        → todo ≡ done ++ later
        → all_migrations done before ≡ some s.tables
        → Progress before todo (err e, s)
    completed :
        (u : Unit {0}) (s : Handle (Schema D) W)
        → all_migrations todo before ≡ some s.tables
        → Progress before todo (ok u, s)

  module _ (p : Patterns) {W : Type 0} (d : Driver W) where
    exec_migration_ok :
        (op : Text) (statement : Schema D → Option (Schema D)) (s s' : Handle (Schema D) W)
        → exec_migration p d run op statement s ≡ (ok tt, s')
        → statement s.tables ≡ some s'.tables
    unfolding exec_migration
    exec_migration_ok op statement s s' h =
        (executed_ok p d statement s (d.call s.world) s' (or_wrap_ok p d op migrate _ tt s' h)).0

    -- A step and the rest that succeed have both succeeded.
    pub steps_ok :
        {S : Type 0} (m n : Exec S (Unit {0})) (s s' : S)
        → (m >> n) s ≡ (ok tt, s')
        → (t : S) × (m s ≡ (ok tt, t)) × (n t ≡ (ok tt, s'))
    steps_ok {S} m n s s' h = go (m s) refl h
      where
        go :
            (out : Result (Unit {0}) × S)
            → m s ≡ out
            → continue out.0 (λ u. n) out.1 ≡ (ok tt, s')
            → (t : S) × (m s ≡ (ok tt, t)) × (n t ≡ (ok tt, s'))
        go (ok u, t) e k = (t, e, k)
        go (err x, t) e k = cc

    apply_statements_ok :
        (name : Text) (xs : List Text) (s s' : Handle (Schema D) W)
        → apply_statements p d run name xs s ≡ (ok tt, s')
        → all_statements xs s.tables ≡ some s'.tables
    unfolding apply_statements all_statements
    apply_statements_ok name [] s s' h = cc
    apply_statements_ok name (x ∷ xs) s s' h =
        let (t, first, rest) =
          steps_ok (exec_migration p d run (text "migrate apply " ++ name) (run_statement run x))
            (apply_statements p d run name xs) s s' h in
        followed-some (run_statement run x) (all_statements xs) s.tables t.tables
          (exec_migration_ok (text "migrate apply " ++ name) (run_statement run x) s t first)
        ∙ apply_statements_ok name xs t s' rest

    migration_body_ok :
        (m : Migration) (s s' : Handle (Schema D) W)
        → migration_body p d run m s ≡ (ok tt, s')
        → one_migration m s.tables ≡ some s'.tables
    unfolding migration_body one_migration
    migration_body_ok m s s' h =
        let (t, first, rest) =
          steps_ok (apply_statements p d run m.name m.statements)
            (exec_migration p d run (text "migrate record " ++ m.name) (record_migration m)) s s'
            h in
        followed-some (all_statements m.statements) (record_migration m) s.tables t.tables
          (apply_statements_ok m.name m.statements s t first)
        ∙ exec_migration_ok (text "migrate record " ++ m.name) (record_migration m) t s' rest

    committed-Moves :
        (m : Migration) (op : Text) (before after : Handle (Schema D) W) (call : Option Error × W)
        → one_migration m before.tables ≡ some after.tables
        → Moves m before.tables (committed p d migrate op tt before after call)
    unfolding committed roll_back
    committed-Moves m op before after (none, w) h = moved tt _ h
    committed-Moves m op before after (some e, w) h = kept _ _ refl

    finished-Moves :
        (m : Migration) (op : Text) (before : Handle (Schema D) W)
        (out : Result (Unit {0}) × Handle (Schema D) W)
        → ((s : Handle (Schema D) W)
            → out ≡ (ok tt, s)
            → one_migration m before.tables ≡ some s.tables)
        → Moves m before.tables (finished p d migrate op before out)
    unfolding finished roll_back
    finished-Moves m op before (err e, after) h = kept e _ refl
    finished-Moves m op before (ok u, after) h =
        committed-Moves m op before after (d.call after.world) (h after refl)

    begun-Moves :
        (m : Migration) (s : Handle (Schema D) W) (begin_op commit_op : Text)
        (call : Option Error × W)
        → Moves m s.tables (begun p d migrate begin_op commit_op (migration_body p d run m) s call)
    unfolding begun
    begun-Moves m s begin_op commit_op (some e, w) = kept _ _ refl
    begun-Moves m s begin_op commit_op (none, w) =
        finished-Moves m commit_op s _ (λ t h. migration_body_ok m (record s { world = w }) t h)

    pub apply_migration-Moves :
        (m : Migration) (s : Handle (Schema D) W) → Moves m s.tables (apply_migration p d run m s)
    unfolding apply_migration
    apply_migration-Moves m s = begun-Moves m s _ _ (d.call s.world)
