-- ===== src/Tests/AgentRuns.antt =====
-- Runs of internal/agent: a cycle that collects nothing, and one that a panic ends.
use pooly_sentinel.Prelude.{
  ℕ, ℤ, pos, incr_int64, ◌≡◌, refl, true, false, none, some, [], Text, text,
}
use pooly_sentinel.Effect.{Error}
use pooly_sentinel.Agent.Status.{SchedulerStatus, mark_attempt}
use pooly_sentinel.Agent.Scheduler.{SchedulerOptions, returned, panicked, run_once, overlapped_run}
use pooly_sentinel.Agent.Scheduler.Accounts.{
  IsAccounted, run_once-IsAccounted, overlapped_run_unmarks,
}
use pooly_sentinel.Agent.Interleaving.{Scheduler, Steps, start}
use pooly_sentinel.Agent.Interleaving.Lost.{stop_lost}
use pooly_sentinel.Tests.Fixtures.{no_patterns, always_live}

abbrev no_text : Error → Text
no_text e = []

abbrev no_duration : ℤ → Text
no_duration d = []

-- The world is the clock.
abbrev panicking : SchedulerOptions ℕ ℕ
panicking = record {
  cycle_context = λ ctx. ctx;
  collector = some (λ ctx s. (returned [] none, s));
  evaluator = some (λ ctx observations s. (panicked, s));
  notifier = none;
  status_store = none;
  clock_now = λ s. (s, s);
}

abbrev idle_status : SchedulerStatus
idle_status = record {
  enabled = true;
  running = true;
  interval = text "1m0s";
  last_attempt_at = none;
  last_successful_cycle_at = none;
  last_cycle_duration = [];
  last_safe_error_class = [];
  last_safe_error_summary = [];
  cycle_count = pos 3;
  failed_cycle_count = pos 3;
  consecutive_failures = pos 1;
  currently_running_cycle = false;
  max_consecutive_failures = pos 5;
}

run_once-IsAccounted_example :
    IsAccounted
      (record idle_status { cycle_count = incr_int64 (pos 3) })
      (run_once no_patterns no_text no_duration panicking always_live idle_status 7).1
      (run_once no_patterns no_text no_duration panicking always_live idle_status 7).2
run_once-IsAccounted_example =
    run_once-IsAccounted no_patterns no_text no_duration panicking always_live idle_status 7

overlapped_run_unmarks_example :
    let running = mark_attempt 7 idle_status in
    let after = (overlapped_run no_patterns no_text no_duration panicking running 8).1 in
    (running.currently_running_cycle ≡ true)
    × (after.currently_running_cycle ≡ false)
    × (after.cycle_count ≡ running.cycle_count)
    × (after.failed_cycle_count ≡ incr_int64 running.failed_cycle_count)
overlapped_run_unmarks_example =
    overlapped_run_unmarks no_patterns no_text no_duration panicking 7 idle_status 8

abbrev busy : Scheduler
busy = record { status = mark_attempt 7 idle_status; is_canceled = false; finishing = none }

busy_runs : busy.status.running ≡ true
unfolding mark_attempt
busy_runs = refl

stop_lost_example :
    (n : Scheduler) × Steps no_patterns no_duration panicking.clock_now none busy n
    × (n.is_canceled ≡ true)
    × (n.status.running ≡ true)
    × (start n ≡ n)
stop_lost_example =
    stop_lost no_patterns no_duration panicking.clock_now none busy 7 (pos 1) none 8 busy_runs refl
