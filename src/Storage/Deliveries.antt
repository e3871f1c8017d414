-- ===== src/Storage/Deliveries.antt =====
-- internal/storage/notification_delivery.go and summary.go: the attempts at notifications in a store.
use pooly_sentinel.Prelude.{
  ℕ, ℤ, pos, pos_part, leb_ℤ, Bool, ◌&&◌, List, Text, text, text_eq, text_leb, is_empty, sort_by,
  take, if◌then◌else◌,
}
use pooly_sentinel.Effect.{ok, err, message, Exec, ◌>>◌}
use pooly_sentinel.Redaction.{Patterns, redact}
use pooly_sentinel.Storage.Records.{NotificationDeliveryRecord}
use pooly_sentinel.Storage.Tables.{Tables, select_rows, is_of_incident, insert_delivery}
use pooly_sentinel.Storage.Database.{Driver, Db, check_input, with_database, exec, query_rows}
use pooly_sentinel.Storage.Validation.{
  required, nullable_string, nullable_time, time_or, validate_notification_delivery,
}

-- The row that `insertNotificationDelivery` writes.
unfoldable pub stored_delivery :
    Patterns → ℕ → NotificationDeliveryRecord → NotificationDeliveryRecord
unfolding nullable_string nullable_time time_or
stored_delivery p now r = record r {
  status = redact p r.status;
  attempted_at = time_or now r.attempted_at;
  delivered_at = nullable_time r.delivered_at;
  error_class = nullable_string p r.error_class;
  error_summary = nullable_string p r.error_summary;
}

-- `ORDER BY attempted_at, id`.
unfoldable pub older_first :
    (ℕ → Text) → NotificationDeliveryRecord → NotificationDeliveryRecord → Bool
older_first time_text a b =
    if text_eq (time_text a.attempted_at) (time_text b.attempted_at)
    then text_leb a.id b.id
    else text_leb (time_text a.attempted_at) (time_text b.attempted_at)

-- `ORDER BY attempted_at DESC, id`.
unfoldable pub latest_first :
    (ℕ → Text) → NotificationDeliveryRecord → NotificationDeliveryRecord → Bool
latest_first time_text a b =
    if text_eq (time_text a.attempted_at) (time_text b.attempted_at)
    then text_leb a.id b.id
    else text_leb (time_text b.attempted_at) (time_text a.attempted_at)

-- The two queries of `ListRecentNotificationDeliveries`, without their limit.
unfoldable pub recent_rows : (ℕ → Text) → Text → Tables → List NotificationDeliveryRecord
unfolding select_rows is_of_incident latest_first
recent_rows time_text incident_id t = sort_by (latest_first time_text) (
    if is_empty incident_id
    then t.notification_deliveries
    else select_rows (is_of_incident incident_id) t.notification_deliveries)

module _ (p : Patterns) {W : Type 0} (d : Driver W) where
  -- `insertNotificationDelivery`.
  unfoldable pub insert_delivery_row : NotificationDeliveryRecord → Exec (Db W) (Unit {0})
  unfolding exec stored_delivery insert_delivery text
  insert_delivery_row r s =
      exec p d (text "insert notification delivery")
        (insert_delivery (stored_delivery p (d.now s.world) r)) s

  unfoldable pub insert_notification_delivery : NotificationDeliveryRecord → Exec (Db W) (Unit {0})
  unfolding check_input with_database insert_delivery_row validate_notification_delivery text
  insert_notification_delivery r =
      check_input p d (text "insert notification delivery") (validate_notification_delivery r)
      >> with_database p d (insert_delivery_row r)

  unfoldable pub list_notification_deliveries : Text → Exec (Db W) (List NotificationDeliveryRecord)
  unfolding check_input with_database query_rows select_rows is_of_incident older_first required
      text
  list_notification_deliveries incident_id =
      check_input p d (text "list notification deliveries")
        (required incident_id (text "incident id"))
      >> with_database p d (
          query_rows p d (text "list notification deliveries") (λ t.
            sort_by (older_first d.time_text)
              (select_rows (is_of_incident incident_id) t.notification_deliveries)))

  -- summary.go, `ListRecentNotificationDeliveries`.
  unfoldable pub list_recent_notification_deliveries :
      Text → ℤ → Exec (Db W) (List NotificationDeliveryRecord)
  unfolding check_input with_database query_rows recent_rows text
  list_recent_notification_deliveries incident_id limit =
      check_input p d (text "list recent notification deliveries") (
        if leb_ℤ (pos 1) limit && leb_ℤ limit (pos 1000)
        then ok tt
        else err (message (text "limit must be between 1 and 1000")))
      >> with_database p d (
          query_rows p d (text "list recent notification deliveries")
            (λ t. take (pos_part limit) (recent_rows d.time_text incident_id t)))
