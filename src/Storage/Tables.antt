-- ===== src/Storage/Tables.antt =====
-- The tables of internal/storage/migrations.go and the constraints of the schema. The rows of incidents
-- and of the memories of rules are their columns; the other rows are the records they are read back as,
-- with an instant kept as it is.
pub mod Rows
use pooly_sentinel.Prelude.{
  ℕ, ℤ, pos, leb_ℤ, Bool, true, false, not, ◌&&◌, ◌||◌, Option, none, some, List, [], ◌∷◌, ◌++◌,
  Text, text_eq, is_empty, is_set, any, if◌then◌else◌,
}
use pooly_sentinel.Storage.Records.{
  MetadataRecord, CollectorStateRecord, NotificationDeliveryRecord,
}

-- The columns of `incidents`; a column that may be NULL is an option, but for the fingerprint, which the
-- queries read as an empty text then.
pub record IncidentRow : Type 0 where
  pub id : Text
  pub node_id : Text
  pub type : Text
  pub target : Text
  pub condition : Text
  pub severity : Text
  pub status : Text
  pub summary : Text
  pub first_seen : Text
  pub last_seen : Text
  pub last_alerted : Option Text
  pub occurrence_count : ℤ
  pub evidence_path : Option Text
  pub resolved_at : Option Text
  pub updated_at : Text
  pub fingerprint : Text
  pub last_transition : Option Text

-- The columns of `rule_evaluation_state`.
pub record RuleStateRow : Type 0 where
  pub rule_id : Text
  pub target : Text
  pub state : Text
  pub severity : Text
  pub condition_met_since : Option Text
  pub recovery_since : Option Text
  pub last_evaluated_at : Text
  pub last_observed_at : Option Text
  pub last_result_summary : Text
  pub pending_severity : Option Text
  pub updated_at : Text

pub record Tables : Type 0 where
  pub metadata : List MetadataRecord
  pub collector_state : List CollectorStateRecord
  pub incidents : List IncidentRow
  pub notification_deliveries : List NotificationDeliveryRecord
  pub rule_evaluation_state : List RuleStateRow

module _ {A : Type 0} where
  -- `SELECT ... WHERE`, of one row.
  unfoldable pub find_row : (A → Bool) → List A → Option A
  find_row test [] = none
  find_row test (r ∷ rs) = if test r then some r else find_row test rs

  -- `INSERT ... ON CONFLICT DO UPDATE SET` of all other columns.
  unfoldable pub put_row : (A → Bool) → A → List A → List A
  put_row test row [] = row ∷ []
  put_row test row (r ∷ rs) = if test r then row ∷ rs else r ∷ put_row test row rs

  -- `SELECT ... WHERE`, of all rows.
  unfoldable pub select_rows : (A → Bool) → List A → List A
  select_rows test [] = []
  select_rows test (r ∷ rs) = let rest = select_rows test rs in if test r then r ∷ rest else rest

  -- `DELETE ... WHERE`.
  unfoldable pub delete_rows : (A → Bool) → List A → List A
  delete_rows test [] = []
  delete_rows test (r ∷ rs) = let rest = delete_rows test rs in if test r then rest else r ∷ rest

  -- `UPDATE ... SET ... WHERE`.
  unfoldable pub update_rows : (A → Bool) → (A → A) → List A → List A
  update_rows test change [] = []
  update_rows test change (r ∷ rs) = (if test r then change r else r) ∷ update_rows test change rs

unfoldable pub has_id : Text → IncidentRow → Bool
has_id id r = text_eq r.id id

unfoldable pub has_fingerprint : Text → IncidentRow → Bool
has_fingerprint fp r = text_eq r.fingerprint fp

-- The unique index on the fingerprints that are not empty, for an incident of another id.
unfoldable pub is_rival : IncidentRow → IncidentRow → Bool
is_rival r other =
    is_set r.fingerprint && text_eq other.fingerprint r.fingerprint && not (text_eq other.id r.id)

-- A statement's effect on the tables, or `none` where it violates a constraint.
unfoldable pub put_incident : IncidentRow → Tables → Option Tables
unfolding has_id put_row is_rival
put_incident r t =
    if leb_ℤ (pos 0) r.occurrence_count && not (any (is_rival r) t.incidents)
    then some (record t { incidents = put_row (has_id r.id) r t.incidents })
    else none

unfoldable pub has_rule_key : Text → Text → RuleStateRow → Bool
has_rule_key rule_id target r = text_eq r.rule_id rule_id && text_eq r.target target

unfoldable pub put_rule_state : RuleStateRow → Tables → Option Tables
unfolding has_rule_key put_row
put_rule_state r t = some (record t {
  rule_evaluation_state = put_row (has_rule_key r.rule_id r.target) r t.rule_evaluation_state;
})

unfoldable pub has_delivery_id : Text → NotificationDeliveryRecord → Bool
has_delivery_id id r = text_eq r.id id

unfoldable pub is_of_incident : Text → NotificationDeliveryRecord → Bool
is_of_incident id r = text_eq r.incident_id id

-- The primary key, the check of the attempt and the foreign key.
unfoldable pub insert_delivery : NotificationDeliveryRecord → Tables → Option Tables
unfolding has_delivery_id has_id
insert_delivery r t =
    if any (has_delivery_id r.id) t.notification_deliveries
      || not (leb_ℤ (pos 1) r.attempt)
      || not (any (has_id r.incident_id) t.incidents)
    then none
    else some (record t { notification_deliveries = t.notification_deliveries ++ (r ∷ []) })

unfoldable pub has_collector_key : Text → Text → CollectorStateRecord → Bool
has_collector_key collector target r = text_eq r.collector collector && text_eq r.target target

unfoldable pub put_collector_state : CollectorStateRecord → Tables → Option Tables
unfolding has_collector_key put_row
put_collector_state r t = some (record t {
  collector_state = put_row (has_collector_key r.collector r.target) r t.collector_state;
})

unfoldable pub has_key : Text → MetadataRecord → Bool
has_key key r = text_eq r.key key

unfoldable pub put_metadata : MetadataRecord → Tables → Option Tables
unfolding has_key put_row
put_metadata r t = some (record t { metadata = put_row (has_key r.key) r t.metadata })

unfoldable pub delete_metadata_key : Text → Tables → Option Tables
unfolding has_key delete_rows
delete_metadata_key key t = some (record t { metadata = delete_rows (has_key key) t.metadata })

unfoldable pub set_last_alerted : Text → Text → Text → Tables → Option Tables
unfolding has_id update_rows
set_last_alerted id alerted_at now t = some (record t {
  incidents =
      update_rows (has_id id) (λ r. record r { last_alerted = some alerted_at; updated_at = now })
        t.incidents;
})

-- Whether an `UPDATE` of an incident by its id finds a row.
unfoldable pub any_incident : Text → Tables → Bool
unfolding has_id
any_incident id t = any (has_id id) t.incidents
