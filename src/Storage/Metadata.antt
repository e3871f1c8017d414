-- ===== src/Storage/Metadata.antt =====
-- internal/storage/metadata.go: named values in a store.
use pooly_sentinel.Prelude.{ℕ, Bool, List, Text, text, text_leb, sort_by, any}
use pooly_sentinel.Effect.{Exec, ◌>>◌}
use pooly_sentinel.Redaction.{Patterns, redact}
use pooly_sentinel.Storage.Records.{MetadataRecord}
use pooly_sentinel.Storage.Tables.{find_row, has_key, put_metadata, delete_metadata_key}
use pooly_sentinel.Storage.Database.{
  Driver, Db, affected, check_input, with_database, exec, query_rows, query_row,
}
use pooly_sentinel.Storage.Validation.{required, time_or, validate_metadata}

-- The row that `UpsertMetadata` writes.
unfoldable pub stored_metadata : Patterns → ℕ → MetadataRecord → MetadataRecord
unfolding time_or
stored_metadata p now r = record r {
  value = redact p r.value;
  updated_at = time_or now r.updated_at;
}

-- `ORDER BY key`.
unfoldable pub by_key : MetadataRecord → MetadataRecord → Bool
by_key a b = text_leb a.key b.key

module _ (p : Patterns) {W : Type 0} (d : Driver W) where
  unfoldable pub upsert_metadata : MetadataRecord → Exec (Db W) (Unit {0})
  unfolding check_input with_database exec stored_metadata put_metadata validate_metadata text
  upsert_metadata r =
      check_input p d (text "upsert metadata") (validate_metadata r)
      >> with_database p d (λ s.
        exec p d (text "upsert metadata") (put_metadata (stored_metadata p (d.now s.world) r)) s)

  unfoldable pub get_metadata : Text → Exec (Db W) MetadataRecord
  unfolding check_input with_database query_row find_row has_key required text
  get_metadata key =
      check_input p d (text "get metadata") (required key (text "metadata key"))
      >> with_database p d
          (query_row p d (text "get metadata") (λ t. find_row (has_key key) t.metadata))

  unfoldable pub list_metadata : Exec (Db W) (List MetadataRecord)
  unfolding with_database query_rows by_key text
  list_metadata =
      with_database p d (query_rows p d (text "list metadata") (λ t. sort_by by_key t.metadata))

  unfoldable pub delete_metadata : Text → Exec (Db W) (Unit {0})
  unfolding check_input with_database exec delete_metadata_key affected has_key required text
  delete_metadata key =
      check_input p d (text "delete metadata") (required key (text "metadata key"))
      >> with_database p d (λ s.
        affected (text "delete metadata") (any (has_key key) s.tables.metadata)
          (exec p d (text "delete metadata") (delete_metadata_key key) s))
