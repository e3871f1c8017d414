-- ===== src/Storage/Migrations/Versions.antt =====
-- internal/storage/migrations.go, `runMigrations`: which migrations the rows of `schema_migrations` name.
use pooly_sentinel.Prelude.{
  eq_ℤ, eq_ℤ_sound, ◌≡◌, refl, ◌∙◌, ℕ, ◌+◌, ℤ, pos, Bool, true, ◌&&◌, ◌||◌, Option, none, some,
  List, [], ◌∷◌, ◌++◌, Text, any, arith, length, ltb, leb,
}
use pooly_sentinel.Storage.Migrations.{
  Migration, Schema, has_version, run_statement, record_migration,
}
use pooly_sentinel.Storage.Migrations.Order.{are_numbered}
use pooly_sentinel.Storage.Migrations.Progress.{
  followed, all_statements, one_migration, all_migrations,
}

has_version-append :
    (v w : ℤ) (name : Text) (rows : List (ℤ × Text))
    → has_version v (rows ++ ((w, name) ∷ [])) ≡ (has_version v rows || eq_ℤ w v)
unfolding has_version
has_version-append v w name [] = ground arith
has_version-append v w name ((x, n) ∷ rows) = ground (arith, has_version-append v w name rows)

abbrev pub includes : ℤ → List Migration → Bool
includes v ms = any (λ m. eq_ℤ m.version v) ms

-- The versions of numbered migrations.
pub includes-numbered :
    (n k : ℕ) (ms : List Migration)
    → are_numbered n ms ≡ true
    → includes (pos k) ms ≡ (ltb n k && leb k (n + length ms))
unfolding are_numbered eq_ℤ
includes-numbered n k [] h = ground arith
includes-numbered n k (m ∷ ms) h =
    ground (arith, eq_ℤ_sound m.version (pos (n + 1)), includes-numbered (n + 1) k ms)

pub are_numbered-append :
    (n : ℕ) (done todo : List Migration)
    → are_numbered n (done ++ todo) ≡ true
    → (are_numbered n done ≡ true) × (are_numbered (n + length done) todo ≡ true)
unfolding are_numbered
are_numbered-append n [] todo h = (refl, ground (arith, h))
are_numbered-append n (m ∷ done) todo h = ground (arith, are_numbered-append (n + 1) done todo)

module _ {D : Type 0} (run : Text → D → Option D) where
  followed_inv :
      {A B C : Type 0} (f : A → Option B) (g : B → Option C) (a : A) (c : C)
      → followed f g a ≡ some c
      → (b : B) × (f a ≡ some b) × (g b ≡ some c)
  unfolding followed
  followed_inv {B = B} {C = C} f g a c h = go (f a) refl h
    where
      go :
          (o : Option B)
          → f a ≡ o
          → (elim o as (λ _. Option C) [ none ↦ none | some b ↦ g b ]) ≡ some c
          → (b : B) × (f a ≡ some b) × (g b ≡ some c)
      go none e k = cc
      go (some b) e k = (b, e, k)

  all_statements_rows :
      (xs : List Text) (s t : Schema D) → all_statements run xs s ≡ some t → t.applied ≡ s.applied
  unfolding all_statements run_statement
  all_statements_rows [] s t h = cc
  all_statements_rows (x ∷ xs) s t h =
      let (u, first, rest) = followed_inv (run_statement run x) (all_statements run xs) s t h in
      all_statements_rows xs u t rest ∙ ground (arith, first)

  pub has_version-one_migration :
      (v : ℤ) (m : Migration) (s t : Schema D)
      → one_migration run m s ≡ some t
      → has_version v t.applied ≡ (has_version v s.applied || eq_ℤ m.version v)
  unfolding one_migration record_migration
  has_version-one_migration v m s t h =
      let (u, first, rest) =
        followed_inv (all_statements run m.statements) (record_migration m) s t h in
      ground (
        arith,
        all_statements_rows m.statements s u first,
        has_version-append v m.version m.name u.applied,
        rest,
      )

  pub has_version-all_migrations :
      (v : ℤ) (ms : List Migration) (s t : Schema D)
      → all_migrations run ms s ≡ some t
      → has_version v t.applied ≡ (has_version v s.applied || includes v ms)
  unfolding all_migrations
  has_version-all_migrations v [] s t h = ground (arith, h)
  has_version-all_migrations v (m ∷ ms) s t h =
      let (u, first, rest) = followed_inv (one_migration run m) (all_migrations run ms) s t h in
      ground
        (arith, has_version-one_migration v m s u first, has_version-all_migrations v ms u t rest)
