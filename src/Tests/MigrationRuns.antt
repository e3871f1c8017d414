-- ===== src/Tests/MigrationRuns.antt =====
-- Runs of internal/storage/migrations.go, where a statement adds its own text to the objects.
use pooly_sentinel.Prelude.{
  ◌≡◌, refl, ℕ, ℤ, pos, Bool, true, Option, some, List, [], ◌∷◌, ◌++◌, Text, text, any, length,
}
use pooly_sentinel.Effect.{ok}
use pooly_sentinel.Storage.Database.{Handle}
use pooly_sentinel.Storage.Migrations.{
  Migration, Schema, validate_migrations, run_migrations, record_migration, run_statement,
}
use pooly_sentinel.Storage.Migrations.Order.{are_numbered, validate_migrations-are_numbered}
use pooly_sentinel.Storage.Migrations.Progress.{Progress, all_migrations}
use pooly_sentinel.Storage.Migrations.Runs.{run_migrations-Progress}
use pooly_sentinel.Tests.Fixtures.{no_patterns}
use pooly_sentinel.Tests.StorageRuns.{counting}

abbrev no_digits : ℤ → Text
no_digits n = []

abbrev first_migration : Migration
first_migration = record { version = pos 1; name = text "metadata"; statements = text "a" ∷ [] }

abbrev second_migration : Migration
second_migration = record {
  version = pos 2;
  name = text "incidents";
  statements = text "b" ∷ text "c" ∷ [];
}

abbrev both : List Migration
both = first_migration ∷ second_migration ∷ []

abbrev add_object : Text → List Text → Option (List Text)
add_object statement objects = some (objects ++ (statement ∷ []))

abbrev bare : Schema (List Text)
bare = record { applied = []; objects = [] }

abbrev half_way : Handle (Schema (List Text)) ℕ
half_way = record {
  is_open = true;
  tables = record { applied = (pos 1, text "metadata") ∷ []; objects = text "a" ∷ [] };
  world = 0;
}

both_valid : validate_migrations no_digits (second_migration ∷ first_migration ∷ []) ≡ ok both
unfolding validate_migrations
both_valid = refl

first_made : all_migrations add_object (first_migration ∷ []) bare ≡ some half_way.tables
unfolding all_migrations run_statement record_migration
first_made = refl

validate_migrations-are_numbered_example :
    (are_numbered 0 both ≡ true)
    × (length both ≡ length (second_migration ∷ first_migration ∷ []))
    × ((q : Migration → Bool) → any q both ≡ any q (second_migration ∷ first_migration ∷ []))
validate_migrations-are_numbered_example =
    validate_migrations-are_numbered no_digits (second_migration ∷ first_migration ∷ []) both
      both_valid

run_migrations-Progress_example : Progress add_object half_way.tables (second_migration ∷ []) (
    run_migrations no_patterns counting add_object no_digits
      (second_migration ∷ first_migration ∷ [])
      half_way)
run_migrations-Progress_example =
    run_migrations-Progress no_patterns counting add_object no_digits
      (second_migration ∷ first_migration ∷ []) (first_migration ∷ []) (second_migration ∷ []) bare
      half_way both_valid refl first_made
