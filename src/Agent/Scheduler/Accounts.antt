-- ===== src/Agent/Scheduler/Accounts.antt =====
-- internal/agent/scheduler.go: what the status counts.
use pooly_sentinel.Prelude.{
  ℕ, ℤ, pos, incr_int64, sub_time, ◌≡◌, refl, ap, ◌∙◌, Bool, true, false, Option, none, some, List,
  [], ◌∷◌, Text, if◌then◌else◌,
}
use pooly_sentinel.Effect.{Error, Result, ok, err, Exec, Context}
use pooly_sentinel.Redaction.{Patterns}
use pooly_sentinel.Agent.Status.{
  SchedulerStatus, SafeCycleError, mark_attempt, failed_status, succeeded_status, cycle_status,
  saved_status, finish_cycle,
}
use pooly_sentinel.Agent.Scheduler.{
  SchedulerOptions, errors_of, run_stages, run_once, overlapped_run,
}

abbrev is_clean : List SafeCycleError → Bool
is_clean [] = true
is_clean (e ∷ rest) = false

-- The end of a cycle: it is no longer marked as running, the attempts stay as they were, and its errors
-- count as one failure, while none of them ends the row of failures.
pub record IsAccounted (before : SchedulerStatus) (errors : List SafeCycleError)
    (after : SchedulerStatus) : Type 0 where
  pub ended : after.currently_running_cycle ≡ false
  pub attempts : after.cycle_count ≡ before.cycle_count
  pub failures : after.failed_cycle_count ≡ (
      if is_clean errors then before.failed_cycle_count else incr_int64 before.failed_cycle_count)
  pub streak :
      after.consecutive_failures
      ≡ (if is_clean errors then pos 0 else incr_int64 before.consecutive_failures)

errors_of-some :
    (e : SafeCycleError) (e' : Option SafeCycleError) → is_clean (errors_of (some e) e') ≡ false
unfolding errors_of
errors_of-some e none = refl
errors_of-some e (some e') = refl

module _ (p : Patterns) (format_duration : ℤ → Text) {S : Type 0} (clock_now : S → ℕ × S) where
  cycle_status-IsAccounted :
      (base : SchedulerStatus) (started : ℕ) (duration : ℤ) (e : Option SafeCycleError) (s : S)
      → IsAccounted base
          (errors_of e none)
          (cycle_status p format_duration clock_now base started duration e s).0
  unfolding cycle_status failed_status succeeded_status errors_of
  cycle_status-IsAccounted base started duration (some e) s = record {
    ended = refl;
    attempts = refl;
    failures = refl;
    streak = refl;
  }
  cycle_status-IsAccounted base started duration none s = record {
    ended = refl;
    attempts = refl;
    failures = refl;
    streak = refl;
  }

  saved_status-IsAccounted :
      (base status : SchedulerStatus) (duration : ℤ) (e : Option SafeCycleError)
      (answer : Result (Unit {0}) × S)
      → IsAccounted base (errors_of e none) status
      → IsAccounted base
          (errors_of e (saved_status p format_duration clock_now base status duration e answer).1)
          (saved_status p format_duration clock_now base status duration e answer).0
  unfolding saved_status failed_status errors_of
  saved_status-IsAccounted base status duration e (ok u, s) h = h
  saved_status-IsAccounted base status duration (some e) (err save, s) h = record {
    ended = h.ended;
    attempts = h.attempts;
    failures = h.failures;
    streak = h.streak;
  }
  saved_status-IsAccounted base status duration none (err save, s) h = record {
    ended = refl;
    attempts = refl;
    failures = refl;
    streak = refl;
  }

  finish_cycle-IsAccounted :
      (store : Option (SchedulerStatus → Exec S (Unit {0}))) (base : SchedulerStatus) (started : ℕ)
      (duration : ℤ) (e : Option SafeCycleError) (s : S)
      → IsAccounted base
          (errors_of e (finish_cycle p format_duration clock_now store base started duration e s).1)
          (finish_cycle p format_duration clock_now store base started duration e s).0
  unfolding finish_cycle
  finish_cycle-IsAccounted none base started duration e s =
      cycle_status-IsAccounted base started duration e s
  finish_cycle-IsAccounted (some save) base started duration e s =
      let (status, s') = cycle_status p format_duration clock_now base started duration e s in
      saved_status-IsAccounted base status duration e (save status s')
        (cycle_status-IsAccounted base started duration e s)

module _ (p : Patterns) (error_text : Error → Text) (format_duration : ℤ → Text) {F S : Type 0}
    (options : SchedulerOptions F S) where
  -- Whatever the stages do, a panic of one of them included, and whatever the status store and the clock
  -- answer, where these two do not panic, a cycle that had the lock ends as not running, counts as one more
  -- attempt, and counts as one failure exactly where it returns an error; the row of failures goes on with
  -- an error and is reset without one.
  pub run_once-IsAccounted :
      (ctx : Context S) (status : SchedulerStatus) (s : S)
      → IsAccounted
          (record status { cycle_count = incr_int64 status.cycle_count })
          (run_once p error_text format_duration options ctx status s).1
          (run_once p error_text format_duration options ctx status s).2
  unfolding run_once mark_attempt
  run_once-IsAccounted ctx status s =
      let (started, s₁) = options.clock_now s in
      let (stages, e, s₂) =
        run_stages p error_text format_duration options (options.cycle_context ctx) s₁ in
      let (ended, s₃) = options.clock_now s₂ in
      let h =
        finish_cycle-IsAccounted p format_duration options.clock_now options.status_store
          (mark_attempt started status) started (sub_time ended started) e s₃ in
      record { ended = h.ended; attempts = h.attempts; failures = h.failures; streak = h.streak }

  -- A call that finds a cycle running, after that cycle has marked its attempt, leaves a status that says
  -- that no cycle runs, and counts one more failure with no more attempts.
  pub overlapped_run_unmarks :
      (started : ℕ) (status : SchedulerStatus) (s : S)
      → let running = mark_attempt started status in
        let after = (overlapped_run p error_text format_duration options running s).1 in
        (running.currently_running_cycle ≡ true)
        × (after.currently_running_cycle ≡ false)
        × (after.cycle_count ≡ running.cycle_count)
        × (after.failed_cycle_count ≡ incr_int64 running.failed_cycle_count)
  unfolding overlapped_run mark_attempt
  overlapped_run_unmarks started status s =
      let running = mark_attempt started status in
      let (now, s₁) = options.clock_now s in
      let overlap = (overlapped_run p error_text format_duration options running s).0 in
      let e' =
        (finish_cycle p format_duration options.clock_now options.status_store running now (pos 0)
          (some overlap) s₁).1 in
      let h =
        finish_cycle-IsAccounted p format_duration options.clock_now options.status_store running
          now (pos 0) (some overlap) s₁ in
      (
        refl,
        h.ended,
        h.attempts,
        h.failures
            ∙ ap
                (λ b.
                  if b then running.failed_cycle_count else incr_int64 running.failed_cycle_count)
                (errors_of-some overlap e'),
      )
