-- ===== src/Agent/Status.antt =====
-- internal/agent/scheduler.go: the status of a scheduler, and how the end of a cycle changes it. The
-- text of an error and of a duration are parameters.
use pooly_sentinel.Prelude.{
  ℕ, suc, ◌+◌, ◌-◌, ℤ, pos, negsuc, incr_int64, Bool, true, false, not, ◌||◌, Option, none, some,
  List, [], ◌∷◌, Text, text, is_empty, is_set, length, take, ltb, ◌==◌, if◌then◌else◌,
}
use pooly_sentinel.Effect.{
  Error, Result, ok, err, Exec, message, is_error, canceled, deadline_exceeded,
}
use pooly_sentinel.Redaction.{Patterns, redact}
use pooly_sentinel.Resources.{Observation, is_counter_reset}

pub record SchedulerStatus : Type 0 where
  pub enabled : Bool
  pub running : Bool
  pub interval : Text
  pub last_attempt_at : Option ℕ
  pub last_successful_cycle_at : Option ℕ
  pub last_cycle_duration : Text
  pub last_safe_error_class : Text
  pub last_safe_error_summary : Text
  pub cycle_count : ℤ
  pub failed_cycle_count : ℤ
  pub consecutive_failures : ℤ
  pub currently_running_cycle : Bool
  pub max_consecutive_failures : ℤ

-- `safeCycleError`, the one type of error that a cycle ends with.
pub record SafeCycleError : Type 0 where
  pub class : Text
  pub summary : Text
  pub cause : Option Error

unfoldable pub caused_by : Option Error → (Error → Bool) → Bool
caused_by none is = false
caused_by (some e) is = is e

-- `classifyCycleError`, for an error of that type.
unfoldable pub classify_cycle_error : SafeCycleError → Text
unfolding text caused_by
classify_cycle_error e =
    if is_set e.class
    then e.class
    else if caused_by e.cause (λ x. is_error x deadline_exceeded)
    then text "timeout"
    else if caused_by e.cause (λ x. is_error x canceled)
    then text "canceled"
    else text "internal_error"

unfoldable pub cycle_error : Text → Text → Option Error → SafeCycleError
cycle_error class summary cause = record { class = class; summary = summary; cause = cause }

-- `started.Add(duration)`.
unfoldable pub add_time : ℕ → ℤ → ℕ
add_time t (pos n) = t + n
add_time t (negsuc n) = t - suc n

unfoldable pub mark_attempt : ℕ → SchedulerStatus → SchedulerStatus
mark_attempt started status = record status {
  last_attempt_at = some started;
  currently_running_cycle = true;
  cycle_count = incr_int64 status.cycle_count;
}

-- `fmt.Errorf` and `errors.New` give errors that are told apart by their text alone here.
unfoldable pub collector_failure : Error
unfolding text
collector_failure = message (text "collector failure")

unfoldable pub classify_collector_observations :
    {F : Type 0} → List (Observation F) → Option SafeCycleError
unfolding text collector_failure cycle_error
classify_collector_observations [] = none
classify_collector_observations (o ∷ rest) =
    let later = classify_collector_observations rest in
    if o.success || not o.supported || is_counter_reset o.error_class
    then later
    else some (
        cycle_error (text "collector")
          (if is_empty o.summary then text "collector observation failed" else o.summary)
          (some collector_failure))

module _ (p : Patterns) where
  unfoldable pub safe_summary : Text → Text
  unfolding text
  safe_summary value =
      let shown = redact p value in
      if is_empty shown
      then text "scheduler cycle failed"
      else if ltb 300 (length shown)
      then take 300 shown
      else shown

  -- `safeCycleError.Error`.
  unfoldable pub cycle_error_text : SafeCycleError → Text
  unfolding safe_summary
  cycle_error_text e = safe_summary e.summary

  unfoldable pub safe_scheduler_status : SchedulerStatus → SchedulerStatus
  safe_scheduler_status status = record status {
    interval = redact p status.interval;
    last_cycle_duration = redact p status.last_cycle_duration;
    last_safe_error_class = redact p status.last_safe_error_class;
    last_safe_error_summary = redact p status.last_safe_error_summary;
  }

  module _ (format_duration : ℤ → Text) {S : Type 0} (clock_now : S → ℕ × S) where
    -- `cycleStatus` with an error, which does not read the clock.
    unfoldable pub failed_status : SchedulerStatus → ℤ → SafeCycleError → SchedulerStatus
    unfolding classify_cycle_error cycle_error_text
    failed_status status duration e = record status {
      currently_running_cycle = false;
      last_cycle_duration = format_duration duration;
      failed_cycle_count = incr_int64 status.failed_cycle_count;
      consecutive_failures = incr_int64 status.consecutive_failures;
      last_safe_error_class = classify_cycle_error e;
      last_safe_error_summary = safe_summary (cycle_error_text e);
    }

    -- `cycleStatus` without one, at the instant that it reads first.
    unfoldable pub succeeded_status : SchedulerStatus → ℕ → ℤ → ℕ → SchedulerStatus
    unfolding add_time
    succeeded_status status started duration now = record status {
      currently_running_cycle = false;
      last_cycle_duration = format_duration duration;
      last_successful_cycle_at = some (if started == 0 then now else add_time started duration);
      consecutive_failures = pos 0;
      last_safe_error_class = [];
      last_safe_error_summary = [];
    }

    unfoldable pub cycle_status :
        SchedulerStatus → ℕ → ℤ → Option SafeCycleError → S → SchedulerStatus × S
    unfolding failed_status succeeded_status
    cycle_status status started duration (some e) s = (failed_status status duration e, s)
    cycle_status status started duration none s =
        let (now, s') = clock_now s in (succeeded_status status started duration now, s')

    -- What `finishCycle` does once the store has answered.
    unfoldable pub saved_status :
        SchedulerStatus
        → SchedulerStatus
        → ℤ
        → Option SafeCycleError
        → Result (Unit {0}) × S
        → SchedulerStatus × Option SafeCycleError × S
    unfolding text cycle_error failed_status
    saved_status base status duration e (ok u, s) = (status, none, s)
    saved_status base status duration (some e) (err save, s) = (
      status,
      some (
          cycle_error (text "state_error") (text "scheduler status persistence failed")
            (some save)),
      s,
    )
    saved_status base status duration none (err save, s) =
        let failure =
          cycle_error (text "state_error") (text "scheduler status persistence failed")
            (some save) in
        (failed_status base duration failure, some failure, s)

    -- `finishCycle`, with the status store if there is one.
    unfoldable pub finish_cycle :
        Option (SchedulerStatus → Exec S (Unit {0}))
        → SchedulerStatus
        → ℕ
        → ℤ
        → Option SafeCycleError
        → S
        → SchedulerStatus × Option SafeCycleError × S
    unfolding cycle_status saved_status
    finish_cycle none base started duration e s =
        let (status, s') = cycle_status base started duration e s in (status, none, s')
    finish_cycle (some save) base started duration e s =
        let (status, s') = cycle_status base started duration e s in
        saved_status base status duration e (save status s')
