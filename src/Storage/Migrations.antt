-- ===== src/Storage/Migrations.antt =====
-- internal/storage/migrations.go. What a statement of a migration does to the objects of the database is
-- a parameter, and so is the text of a number.
pub mod Order
pub mod Progress
pub mod Versions
pub mod Runs
use pooly_sentinel.Prelude.{
  ℕ, ◌+◌, ℤ, pos, negsuc, leb_ℤ, eq_ℤ, Bool, true, false, not, Option, none, some, List, [], ◌∷◌,
  ◌++◌, Text, text, is_empty, sort_by, any, ◌==◌, if◌then◌else◌,
}
use pooly_sentinel.Effect.{
  Result, ok, err, message, sentinel, future_schema, migrate, future, Exec, pure, raise, and_then,
  ◌>>=◌, ◌>>◌,
}
use pooly_sentinel.Redaction.{Patterns}
use pooly_sentinel.Storage.Database.{Driver, Handle, executed, wrapped, or_wrap, query_rows, begun}

pub record Migration : Type 0 where
  pub version : ℤ
  pub name : Text
  pub statements : List Text

-- The rows of `schema_migrations`, and the objects that the migrations make.
pub record Schema (D : Type 0) : Type 0 where
  pub applied : List (ℤ × Text)
  pub objects : D

unfoldable pub has_version : ℤ → List (ℤ × Text) → Bool
unfolding eq_ℤ
has_version version [] = false
has_version version ((v, name) ∷ rest) = if eq_ℤ v version then true else has_version version rest

-- `latestMigrationVersion`.
unfoldable pub latest_version : ℤ → List Migration → ℤ
latest_version latest [] = latest
latest_version latest (m ∷ ms) =
    latest_version (if leb_ℤ m.version latest then latest else m.version) ms

-- `SELECT MAX(version)`, where NULL counts as 0.
unfoldable pub max_version : List (ℤ × Text) → Option ℤ
max_version [] = none
max_version ((v, name) ∷ rest) = elim (max_version rest) [
  | none ↦ some v
  | some w ↦ some (if leb_ℤ v w then w else v)
]

unfoldable pub or_zero : Option ℤ → ℤ
or_zero none = pos 0
or_zero (some v) = v

unfoldable pub has_no_statements : List Text → Bool
has_no_statements [] = true
has_no_statements (s ∷ rest) = false

module _ (format_int : ℤ → Text) where
  -- The loop of `validateMigrations`. A version that passes is the previous one and one.
  unfoldable pub check_order : ℕ → List Migration → Result (Unit {0})
  unfolding eq_ℤ has_no_statements text
  check_order previous [] = ok tt
  check_order previous (m ∷ ms) =
      let rest = check_order (previous + 1) ms in
      if leb_ℤ m.version (pos previous)
      then err (message (text "migration versions must be unique and increasing"))
      else if not (eq_ℤ m.version (pos (previous + 1)))
      then err (
          message (
            text "migration version "
            ++ (format_int m.version
                ++ (text " is not contiguous after " ++ format_int (pos previous)))))
      else if is_empty m.name
      then err (message (text "migration " ++ (format_int m.version ++ text " name is required")))
      else if has_no_statements m.statements
      then err (message (text "migration " ++ (format_int m.version ++ text " has no statements")))
      else rest

  unfoldable pub validate_migrations : List Migration → Result (List Migration)
  unfolding check_order
  validate_migrations ms =
      let ordered = sort_by (λ a b. leb_ℤ a.version b.version) ms in
      and_then (check_order 0 ordered) (λ _. ok ordered)

module _ {D : Type 0} where
  unfoldable pub run_statement : (Text → D → Option D) → Text → Schema D → Option (Schema D)
  run_statement run statement s = elim (run statement s.objects) [
    | none ↦ none
    | some o ↦ some (record s { objects = o })
  ]

  -- `INSERT INTO schema_migrations`, where the version is the primary key.
  unfoldable pub record_migration : Migration → Schema D → Option (Schema D)
  unfolding has_version
  record_migration m s =
      if has_version m.version s.applied
      then none
      else some (record s { applied = s.applied ++ ((m.version, m.name) ∷ []) })

module _ (p : Patterns) {W : Type 0} (d : Driver W) {D : Type 0} (run : Text → D → Option D) where
  -- `tx.ExecContext`, with the class of the errors of migrations.
  unfoldable pub exec_migration :
      Text → (Schema D → Option (Schema D)) → Exec (Handle (Schema D) W) (Unit {0})
  unfolding or_wrap executed
  exec_migration op statement s =
      or_wrap p d op migrate (executed d.constraint statement s (d.call s.world))

  -- The loop over the statements.
  unfoldable pub apply_statements : Text → List Text → Exec (Handle (Schema D) W) (Unit {0})
  unfolding exec_migration run_statement text
  apply_statements name [] = pure tt
  apply_statements name (statement ∷ rest) =
      exec_migration (text "migrate apply " ++ name) (run_statement run statement)
      >> apply_statements name rest

  -- The transaction's statements.
  unfoldable pub migration_body : Migration → Exec (Handle (Schema D) W) (Unit {0})
  unfolding apply_statements exec_migration record_migration text
  migration_body m =
      apply_statements m.name m.statements
      >> exec_migration (text "migrate record " ++ m.name) (record_migration m)

  unfoldable pub apply_migration : Migration → Exec (Handle (Schema D) W) (Unit {0})
  unfolding begun migration_body text
  apply_migration m s =
      begun p d migrate (text "migrate begin") (text "migrate commit " ++ m.name) (migration_body m)
        s (d.call s.world)

  -- The loop of `runMigrations` over the ordered migrations.
  unfoldable pub apply_pending :
      List (ℤ × Text) → List Migration → Exec (Handle (Schema D) W) (Unit {0})
  unfolding has_version apply_migration
  apply_pending applied [] = pure tt
  apply_pending applied (m ∷ ms) =
      let rest = apply_pending applied ms in
      if has_version m.version applied then rest else (apply_migration m >> rest)

  unfoldable pub current_schema_version : Exec (Handle (Schema D) W) ℤ
  unfolding query_rows max_version or_zero text
  current_schema_version =
      query_rows p d (text "schema version") (λ s. or_zero (max_version s.applied))

  -- From the comparison of the versions on.
  unfoldable pub run_ordered : List Migration → ℤ → Exec (Handle (Schema D) W) (Unit {0})
  unfolding latest_version wrapped query_rows apply_pending text
  run_ordered ordered current =
      if not (leb_ℤ current (latest_version (pos 0) ordered))
      then raise (wrapped p d (text "migrate future schema") future (sentinel future_schema))
      else (query_rows p d (text "list migrations") (λ s. s.applied) >>= λ applied.
          apply_pending applied ordered)

  unfoldable pub run_migrations :
      (ℤ → Text) → List Migration → Exec (Handle (Schema D) W) (Unit {0})
  unfolding or_wrap validate_migrations exec_migration current_schema_version run_ordered text
  run_migrations format_int ms =
      (λ s. or_wrap p d (text "migrate validate") migrate (validate_migrations format_int ms, s))
      >>= λ ordered.
          exec_migration (text "migrate table") (λ s. some s)
          >> (current_schema_version >>= λ current. run_ordered ordered current)
