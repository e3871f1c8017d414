-- ===== src/Storage/RuleState.antt =====
-- internal/storage/rule_state.go: the memories of rules in a store.
pub mod RoundTrip
use pooly_sentinel.Prelude.{
  ℕ, ◌++◌, Bool, true, false, ◌&&◌, ◌||◌, not, Option, List, Text, text, text_eq, text_leb, sort_by,
  if◌then◌else◌,
}
use pooly_sentinel.Effect.{Result, ok, err, Exec, lift, ◌>>=◌, ◌>>◌}
use pooly_sentinel.Redaction.{Patterns, redact}
use pooly_sentinel.Storage.Records.{RuleEvaluationStateRecord}
use pooly_sentinel.Storage.Tables.{RuleStateRow, find_row, has_rule_key, put_rule_state}
use pooly_sentinel.Storage.Database.{
  Driver, Db, check_input, with_database, exec, query_rows, query_row,
}
use pooly_sentinel.Storage.Columns.{
  null_string, string_from_null, format_time, parse_time, null_time, scan_nullable_time, column,
  scan_rows,
}
use pooly_sentinel.Storage.Validation.{required, validate_rule_evaluation_state}

-- `ORDER BY rule_id, target`.
unfoldable pub by_rule : RuleStateRow → RuleStateRow → Bool
by_rule a b =
    if text_eq a.rule_id b.rule_id then text_leb a.target b.target else text_leb a.rule_id b.rule_id

module _ (p : Patterns) {W : Type 0} (d : Driver W) where
  -- The columns that `upsertRuleEvaluationState` writes.
  unfoldable pub rule_state_row : ℕ → RuleEvaluationStateRecord → RuleStateRow
  unfolding format_time null_time null_string
  rule_state_row now r = record {
    rule_id = redact p r.rule_id;
    target = redact p r.target;
    state = redact p r.state;
    severity = redact p r.severity;
    condition_met_since = null_time p d now r.condition_met_since;
    recovery_since = null_time p d now r.recovery_since;
    last_evaluated_at = format_time p d now r.last_evaluated_at;
    last_observed_at = null_time p d now r.last_observed_at;
    last_result_summary = redact p r.last_result_summary;
    pending_severity = null_string p r.pending_severity;
    updated_at = format_time p d now r.updated_at;
  }

  -- The message of `scanRuleEvaluationState` for a column.
  unfoldable pub scan_op : Text → Text
  unfolding text
  scan_op name = text "scan rule evaluation state " ++ name

  -- `scanRuleEvaluationState`, of a row.
  unfoldable pub scan_rule_state : RuleStateRow → Result RuleEvaluationStateRecord
  unfolding column parse_time scan_nullable_time string_from_null scan_op text
  scan_rule_state row =
      column p d (scan_op (text "condition_met_since"))
        (scan_nullable_time p d row.condition_met_since)
        (λ condition_met_since.
          column p d (scan_op (text "recovery_since")) (scan_nullable_time p d row.recovery_since)
            (λ recovery_since.
              column p d (scan_op (text "last_evaluated_at")) (parse_time p d row.last_evaluated_at)
                (λ last_evaluated_at.
                  column p d (scan_op (text "last_observed_at"))
                    (scan_nullable_time p d row.last_observed_at)
                    (λ last_observed_at.
                      column p d (scan_op (text "updated_at")) (parse_time p d row.updated_at)
                        (λ updated_at. ok (record {
                          rule_id = row.rule_id;
                          target = row.target;
                          state = row.state;
                          severity = row.severity;
                          condition_met_since = condition_met_since;
                          recovery_since = recovery_since;
                          last_evaluated_at = last_evaluated_at;
                          last_observed_at = last_observed_at;
                          last_result_summary = row.last_result_summary;
                          pending_severity = string_from_null row.pending_severity;
                          updated_at = updated_at;
                        }))))))

  -- `upsertRuleEvaluationState`.
  unfoldable pub upsert_rule_state_row : RuleEvaluationStateRecord → Exec (Db W) (Unit {0})
  unfolding exec rule_state_row put_rule_state text
  upsert_rule_state_row r s =
      exec p d (text "upsert rule evaluation state")
        (put_rule_state (rule_state_row (d.now s.world) r)) s

  unfoldable pub upsert_rule_evaluation_state : RuleEvaluationStateRecord → Exec (Db W) (Unit {0})
  unfolding check_input with_database upsert_rule_state_row validate_rule_evaluation_state text
  upsert_rule_evaluation_state r =
      check_input p d (text "upsert rule evaluation state") (validate_rule_evaluation_state r)
      >> with_database p d (upsert_rule_state_row r)

  -- The two checks of `GetRuleEvaluationState`.
  unfoldable pub check_rule_key : Text → Text → Exec (Db W) (Unit {0})
  unfolding check_input required text
  check_rule_key rule_id target =
      check_input p d (text "get rule evaluation state") (required rule_id (text "rule id"))
      >> check_input p d (text "get rule evaluation state") (required target (text "rule target"))

  -- `getRuleEvaluationState`.
  unfoldable pub get_rule_state_row : Text → Text → Exec (Db W) RuleEvaluationStateRecord
  unfolding query_row find_row has_rule_key scan_rule_state text
  get_rule_state_row rule_id target =
      query_row p d (text "scan rule evaluation state")
        (λ t. find_row (has_rule_key rule_id target) t.rule_evaluation_state)
      >>= λ row. lift (scan_rule_state row)

  unfoldable pub get_rule_evaluation_state : Text → Text → Exec (Db W) RuleEvaluationStateRecord
  unfolding check_rule_key with_database get_rule_state_row
  get_rule_evaluation_state rule_id target =
      check_rule_key rule_id target >> with_database p d (get_rule_state_row rule_id target)

  unfoldable pub list_rule_evaluation_state : Exec (Db W) (List RuleEvaluationStateRecord)
  unfolding with_database query_rows by_rule scan_rows scan_rule_state text
  list_rule_evaluation_state = with_database p d (
      query_rows p d (text "list rule evaluation state")
        (λ t. sort_by by_rule t.rule_evaluation_state)
      >>= λ rows. lift (scan_rows scan_rule_state rows))
