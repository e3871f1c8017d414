-- ===== src/Storage/Summary.antt =====
-- internal/storage/summary.go: how many incidents and attempts there are of each status. A Go map is an
-- association list.
use pooly_sentinel.Prelude.{ℕ, ◌+◌, List, [], ◌∷◌, Text, text, text_eq, if◌then◌else◌}
use pooly_sentinel.Effect.{Exec, pure, ◌>>=◌}
use pooly_sentinel.Redaction.{Patterns}
use pooly_sentinel.Storage.Database.{Driver, Db, with_database, query_rows}

-- One more row of a status, in the statement below.
unfoldable pub count_one : Text → List (Text × ℕ) → List (Text × ℕ)
count_one status [] = (status, 1) ∷ []
count_one status ((key, n) ∷ rest) =
    if text_eq key status then (key, n + 1) ∷ rest else (key, n) ∷ count_one status rest

-- `SELECT status, COUNT(*) ... GROUP BY status`.
unfoldable pub group_counts : {A : Type 0} → (A → Text) → List A → List (Text × ℕ)
unfolding count_one
group_counts status [] = []
group_counts status (r ∷ rs) = count_one (status r) (group_counts status rs)

-- `counts[status] = count`.
unfoldable pub set_count : Text → ℕ → List (Text × ℕ) → List (Text × ℕ)
set_count status n [] = (status, n) ∷ []
set_count status n ((key, m) ∷ rest) =
    if text_eq key status then (key, n) ∷ rest else (key, m) ∷ set_count status n rest

-- The loop `for rows.Next()`.
unfoldable pub count_rows : List (Text × ℕ) → List (Text × ℕ) → List (Text × ℕ)
unfolding set_count
count_rows [] counts = counts
count_rows ((status, n) ∷ rows) counts = count_rows rows (set_count status n counts)

module _ (p : Patterns) {W : Type 0} (d : Driver W) where
  unfoldable pub incident_status_counts : Exec (Db W) (List (Text × ℕ))
  unfolding with_database query_rows group_counts count_rows text
  incident_status_counts = with_database p d (
      query_rows p d (text "count incident statuses")
        (λ t. group_counts (λ r. r.status) t.incidents)
      >>= λ rows. pure (count_rows rows []))

  unfoldable pub notification_delivery_status_counts : Exec (Db W) (List (Text × ℕ))
  unfolding with_database query_rows group_counts count_rows text
  notification_delivery_status_counts = with_database p d (
      query_rows p d (text "count notification deliveries")
        (λ t. group_counts (λ r. r.status) t.notification_deliveries)
      >>= λ rows. pure (count_rows rows []))
