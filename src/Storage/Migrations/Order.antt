-- ===== src/Storage/Migrations/Order.antt =====
-- internal/storage/migrations.go, `validateMigrations`: the order that it makes.
use pooly_sentinel.Prelude.{
  eq_ℤ, ◌≡◌, refl, ℕ, ◌+◌, ℤ, pos, leb_ℤ, Bool, true, ◌&&◌, ◌||◌, List, [], ◌∷◌, any, length,
  insert_by, sort_by, arith,
}
use pooly_sentinel.Effect.{Result, ok, err, and_then, ok_injective}
use pooly_sentinel.Prelude.{Text}
use pooly_sentinel.Storage.Migrations.{Migration, check_order, validate_migrations}

-- The versions go up by one from the number given.
unfoldable pub are_numbered : ℕ → List Migration → Bool
unfolding eq_ℤ
are_numbered n [] = true
are_numbered n (m ∷ ms) = eq_ℤ m.version (pos (n + 1)) && are_numbered (n + 1) ms

check_order-are_numbered :
    (format_int : ℤ → Text) (n : ℕ) (ms : List Migration)
    → check_order format_int n ms ≡ ok tt
    → are_numbered n ms ≡ true
unfolding check_order are_numbered
check_order-are_numbered f n [] h = refl
check_order-are_numbered f n (m ∷ ms) h = ground (arith, check_order-are_numbered f (n + 1) ms)

module _ {A : Type 0} (before : A → A → Bool) where
  any-insert_by :
      (q : A → Bool) (x : A) (xs : List A) → any q (insert_by before x xs) ≡ (q x || any q xs)
  any-insert_by q x [] = refl
  any-insert_by q x (y ∷ ys) = ground (arith, any-insert_by q x ys)

  any-sort_by : (q : A → Bool) (xs : List A) → any q (sort_by before xs) ≡ any q xs
  any-sort_by q [] = refl
  any-sort_by q (x ∷ xs) = ground (arith, any-insert_by q x (sort_by before xs), any-sort_by q xs)

  length-insert_by : (x : A) (xs : List A) → length (insert_by before x xs) ≡ length xs + 1
  length-insert_by x [] = refl
  length-insert_by x (y ∷ ys) = ground (arith, length-insert_by x ys)

  length-sort_by : (xs : List A) → length (sort_by before xs) ≡ length xs
  length-sort_by [] = refl
  length-sort_by (x ∷ xs) =
      ground (arith, length-insert_by x (sort_by before xs), length-sort_by xs)

-- Migrations that pass come back as the same migrations, in the order of their versions, which are 1, 2
-- and so on without a gap.
pub validate_migrations-are_numbered :
    (format_int : ℤ → Text) (ms ordered : List Migration)
    → validate_migrations format_int ms ≡ ok ordered
    → (are_numbered 0 ordered ≡ true)
      × (length ordered ≡ length ms)
      × ((q : Migration → Bool) → any q ordered ≡ any q ms)
unfolding validate_migrations
validate_migrations-are_numbered f ms ordered h =
    let sorted = sort_by (λ a b. leb_ℤ a.version b.version) ms in at (check_order f 0 sorted) refl h
  where
    at :
        (checked : Result (Unit {0}))
        → check_order f 0 (sort_by (λ a b. leb_ℤ a.version b.version) ms) ≡ checked
        → and_then checked (λ _. ok (sort_by (λ a b. leb_ℤ a.version b.version) ms)) ≡ ok ordered
        → (are_numbered 0 ordered ≡ true)
          × (length ordered ≡ length ms)
          × ((q : Migration → Bool) → any q ordered ≡ any q ms)
    at (ok u) e k = rw (← ok_injective k) (
      check_order-are_numbered f 0 _ e,
      length-sort_by (λ a b. leb_ℤ a.version b.version) ms,
      λ q. any-sort_by (λ a b. leb_ℤ a.version b.version) q ms,
    )
    at (err x) e k = cc
