-- ===== src/Storage/RuleState/RoundTrip.antt =====
-- internal/storage/rule_state.go: the memory of a rule is stored under the redacted rule and target, and
-- read under the plain ones.
use pooly_sentinel.Prelude.{
  ◌≡◌, refl, ℕ, ◌<◌, ap, ◌∙◌, true, false, ◌&&◌, none, some, Text, text, text_eq, text_eq_iff,
  text_eq_refl, arith,
}
use pooly_sentinel.Effect.{ok, bind-eq_ok}
use pooly_sentinel.Redaction.{Patterns, redact}
use pooly_sentinel.Storage.Records.{RuleEvaluationStateRecord}
use pooly_sentinel.Storage.Tables.{
  Tables, RuleStateRow, find_row, put_row, has_rule_key, put_rule_state,
}
use pooly_sentinel.Storage.Tables.Rows.{find_row-put_row_self, find_row-put_row_other}
use pooly_sentinel.Storage.Database.{Driver, Db, check_input, with_database, query_row}
use pooly_sentinel.Storage.Database.Calls.{
  exec_ok, with_database_ok, checked_ok, query_row_found, with_database_found, check_input_passes,
}
use pooly_sentinel.Storage.Columns.{column}
use pooly_sentinel.Storage.Columns.Reading.{
  string_from_null-null_string, IsReadable, or_zero, parse_time-format_time,
  scan_nullable_time-null_time, scan_found,
}
use pooly_sentinel.Storage.Validation.{
  nullable_string, nullable_time, time_or, required, required_fields,
  validate_rule_evaluation_state,
}
use pooly_sentinel.Storage.RuleState.{
  rule_state_row, scan_rule_state, upsert_rule_state_row, upsert_rule_evaluation_state,
  check_rule_key, get_rule_state_row, get_rule_evaluation_state,
}

-- The record that stands for what was written.
unfoldable pub kept_rule_state :
    Patterns → ℕ → RuleEvaluationStateRecord → RuleEvaluationStateRecord
unfolding nullable_string nullable_time time_or
kept_rule_state p now r = record {
  rule_id = redact p r.rule_id;
  target = redact p r.target;
  state = redact p r.state;
  severity = redact p r.severity;
  condition_met_since = nullable_time r.condition_met_since;
  recovery_since = nullable_time r.recovery_since;
  last_evaluated_at = time_or now r.last_evaluated_at;
  last_observed_at = nullable_time r.last_observed_at;
  last_result_summary = redact p r.last_result_summary;
  pending_severity = nullable_string p r.pending_severity;
  updated_at = time_or now r.updated_at;
}

-- The instants that are written are below the limit.
pub record IsBefore (limit now : ℕ) (r : RuleEvaluationStateRecord) : Type 0 where
  pub condition_met_since : or_zero r.condition_met_since < limit
  pub recovery_since : or_zero r.recovery_since < limit
  pub last_evaluated_at : time_or now r.last_evaluated_at < limit
  pub last_observed_at : or_zero r.last_observed_at < limit
  pub updated_at : time_or now r.updated_at < limit

validate_rule_key :
    (r : RuleEvaluationStateRecord)
    → validate_rule_evaluation_state r ≡ ok tt
    → (required r.rule_id (text "rule id") ≡ ok tt)
      × (required r.target (text "rule target") ≡ ok tt)
unfolding validate_rule_evaluation_state required_fields required
validate_rule_key r h = ground arith

put_rule_state_rows :
    (r : RuleStateRow) (t t' : Tables)
    → put_rule_state r t ≡ some t'
    → t'.rule_evaluation_state ≡ put_row (has_rule_key r.rule_id r.target) r t.rule_evaluation_state
unfolding put_rule_state
put_rule_state_rows r t t' h = ground arith

module _ (p : Patterns) {W : Type 0} (d : Driver W) where
  upsert_rule_state_rows :
      (r : RuleEvaluationStateRecord) (s s' : Db W)
      → upsert_rule_evaluation_state p d r s ≡ (ok tt, s')
      → (validate_rule_evaluation_state r ≡ ok tt)
        × (s'.is_open ≡ true)
        × (s'.tables.rule_evaluation_state
            ≡ put_row
                (has_rule_key (redact p r.rule_id) (redact p r.target))
                (rule_state_row p d (d.now s.world) r)
                s.tables.rule_evaluation_state)
  unfolding upsert_rule_evaluation_state upsert_rule_state_row rule_state_row
  upsert_rule_state_rows r s s' h =
      let (valid, rest) =
        checked_ok p d (text "upsert rule evaluation state") (validate_rule_evaluation_state r) _ s
          s' tt h in
      let (unlocked, ran) = with_database_ok p d (upsert_rule_state_row p d r) s s' tt rest in
      let (put, same) =
        exec_ok p d (text "upsert rule evaluation state")
          (put_rule_state (rule_state_row p d (d.now s.world) r)) s s' ran in
      (valid, same ∙ unlocked, put_rule_state_rows _ s.tables s'.tables put)

  check_rule_key_passes :
      (rule_id target : Text) (s : Db W)
      → required rule_id (text "rule id") ≡ ok tt
      → required target (text "rule target") ≡ ok tt
      → check_rule_key p d rule_id target s ≡ (ok tt, s)
  unfolding check_rule_key
  check_rule_key_passes rule_id target s h k =
      bind-eq_ok
        (check_input p d (text "get rule evaluation state") (required rule_id (text "rule id")))
        (λ _.
          check_input p d (text "get rule evaluation state") (required target (text "rule target")))
        (check_input_passes p d _ _ s h)
      ∙ check_input_passes p d _ _ s k

  rule_state_row_found :
      (r : RuleEvaluationStateRecord) (s s' : Db W)
      → redact p r.rule_id ≡ r.rule_id
      → redact p r.target ≡ r.target
      → s'.tables.rule_evaluation_state
        ≡ put_row
            (has_rule_key (redact p r.rule_id) (redact p r.target))
            (rule_state_row p d (d.now s.world) r)
            s.tables.rule_evaluation_state
      → find_row (has_rule_key r.rule_id r.target) s'.tables.rule_evaluation_state
        ≡ some (rule_state_row p d (d.now s.world) r)
  unfolding rule_state_row has_rule_key
  rule_state_row_found r s s' plain_id plain_target rows =
      ap (find_row (has_rule_key r.rule_id r.target)) rows
      ∙ ap
          (λ test.
            find_row (has_rule_key r.rule_id r.target)
              (put_row test (rule_state_row p d (d.now s.world) r) s.tables.rule_evaluation_state))
          (λ i. has_rule_key (plain_id i) (plain_target i))
      ∙ find_row-put_row_self (has_rule_key r.rule_id r.target)
          (rule_state_row p d (d.now s.world) r) s.tables.rule_evaluation_state
          (ground (arith, plain_id, plain_target, text_eq_refl r.rule_id, text_eq_refl r.target))

  module _ (limit : ℕ) (readable : IsReadable d limit) where
    scan_rule_state-rule_state_row :
        (now : ℕ) (r : RuleEvaluationStateRecord)
        → IsBefore limit now r
        → scan_rule_state p d (rule_state_row p d now r) ≡ ok (kept_rule_state p now r)
    unfolding scan_rule_state rule_state_row kept_rule_state
    scan_rule_state-rule_state_row now r h =
        rw
          (
            scan_nullable_time-null_time p d limit readable now r.condition_met_since
                h.condition_met_since,
            scan_nullable_time-null_time p d limit readable now r.recovery_since h.recovery_since,
            parse_time-format_time p d limit readable now r.last_evaluated_at h.last_evaluated_at,
            scan_nullable_time-null_time p d limit readable now r.last_observed_at
                h.last_observed_at,
            parse_time-format_time p d limit readable now r.updated_at h.updated_at,
            string_from_null-null_string p r.pending_severity,
            column,
          )
          refl

    -- A memory whose upsert succeeded is read back under its rule and target, with its texts redacted and
    -- with the present in place of a zero time, where redaction leaves the rule and the target as they are,
    -- unless the driver fails, where the instants that are written are below a limit up to which the text
    -- of an instant parses as that instant.
    pub get_rule_evaluation_state-upsert_rule_evaluation_state :
        (r : RuleEvaluationStateRecord) (s s' : Db W)
        → IsBefore limit (d.now s.world) r
        → redact p r.rule_id ≡ r.rule_id
        → redact p r.target ≡ r.target
        → upsert_rule_evaluation_state p d r s ≡ (ok tt, s')
        → (d.call s'.world).0 ≡ none
        → (get_rule_evaluation_state p d r.rule_id r.target s').0
          ≡ ok (kept_rule_state p (d.now s.world) r)
    unfolding get_rule_evaluation_state get_rule_state_row check_rule_key
    get_rule_evaluation_state-upsert_rule_evaluation_state r s s' early plain_id plain_target h
          live =
        let (valid, unlocked, rows) = upsert_rule_state_rows r s s' h in
        let (id_given, target_given) = validate_rule_key r valid in
        let find = find_row (has_rule_key r.rule_id r.target) in
        let select =
          query_row p d (text "scan rule evaluation state") (λ t. find t.rule_evaluation_state) in
        ap (λ out. out.0)
          (bind-eq_ok (check_rule_key p d r.rule_id r.target)
            (λ _. with_database p d (get_rule_state_row p d r.rule_id r.target))
            (check_rule_key_passes r.rule_id r.target s' id_given target_given))
        ∙ with_database_found p d (get_rule_state_row p d r.rule_id r.target) s' _ unlocked (
            scan_found select (scan_rule_state p d) s' (rule_state_row p d (d.now s.world) r) (
              query_row_found p d (text "scan rule evaluation state")
                (λ t. find t.rule_evaluation_state) s' _ live
                (rule_state_row_found r s s' plain_id plain_target rows))
            ∙ scan_rule_state-rule_state_row (d.now s.world) r early)

  -- Where redaction changes the rule or the target, an upsert leaves what is read under them as it was:
  -- the memory that was saved is never read.
  pub upsert_rule_evaluation_state_unread :
      (r : RuleEvaluationStateRecord) (s s' : Db W)
      → text_eq (redact p r.rule_id) r.rule_id && text_eq (redact p r.target) r.target ≡ false
      → upsert_rule_evaluation_state p d r s ≡ (ok tt, s')
      → find_row (has_rule_key r.rule_id r.target) s'.tables.rule_evaluation_state
        ≡ find_row (has_rule_key r.rule_id r.target) s.tables.rule_evaluation_state
  unfolding has_rule_key rule_state_row
  upsert_rule_evaluation_state_unread r s s' changed h =
      let (valid, unlocked, rows) = upsert_rule_state_rows r s s' h in
      rw rows (
        find_row-put_row_other (has_rule_key (redact p r.rule_id) (redact p r.target))
          (rule_state_row p d (d.now s.world) r) (has_rule_key r.rule_id r.target)
          s.tables.rule_evaluation_state changed
          (λ x k. ground (
            arith,
            text_eq_iff x.rule_id (redact p r.rule_id),
            text_eq_iff x.target (redact p r.target),
          )))
