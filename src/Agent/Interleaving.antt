-- ===== src/Agent/Interleaving.antt =====
-- internal/agent/scheduler.go: the sections of `Start`, `Stop`, `markAttempt` and `finishCycle` under
-- the scheduler's lock, in any order that goroutines may run them.
pub mod Lost
use pooly_sentinel.Prelude.{ℕ, ℤ, ◌≡◌, Bool, true, false, Option, none, some, if◌then◌else◌, Text}
use pooly_sentinel.Effect.{Exec}
use pooly_sentinel.Redaction.{Patterns}
use pooly_sentinel.Agent.Status.{SchedulerStatus, SafeCycleError, mark_attempt, finish_cycle}

-- The fields of `Scheduler` that goroutines share: the status and whether the context of the last start
-- was canceled; and the status that a call of `finishCycle` has computed and not written yet.
pub record Scheduler : Type 0 where
  pub status : SchedulerStatus
  pub is_canceled : Bool
  pub finishing : Option SchedulerStatus

-- The section of `Start`, whose early return leaves all as it is.
unfoldable pub start : Scheduler → Scheduler
start m =
    if m.status.running
    then m
    else record m { status = record m.status { running = true }; is_canceled = false }

-- The section of `Stop`, with the call of `cancel` after it.
unfoldable pub stop : Scheduler → Scheduler
stop m = record m {
  status = record m.status { running = false; currently_running_cycle = false };
  is_canceled = true;
}

module _ (p : Patterns) (format_duration : ℤ → Text) {S : Type 0} (clock_now : S → ℕ × S)
    (store : Option (SchedulerStatus → Exec S (Unit {0}))) where
  -- The first section of `finishCycle`, with what it computes from the status that it read.
  unfoldable pub finish_read : ℕ → ℤ → Option SafeCycleError → S → Scheduler → Scheduler
  finish_read started duration e s m = record m {
    finishing =
        some (finish_cycle p format_duration clock_now store m.status started duration e s).0;
  }

  pub data Step : Scheduler → Scheduler → Type 0 where
    started : (m : Scheduler) → Step m (start m)
    stopped : (m : Scheduler) → Step m (stop m)
    marked : (m : Scheduler) (t : ℕ) → Step m (record m { status = mark_attempt t m.status })
    finish_reads :
        (m : Scheduler) (t : ℕ) (d : ℤ) (e : Option SafeCycleError) (s : S)
        → m.finishing ≡ none
        → Step m (finish_read t d e s m)
    finish_writes :
        (m : Scheduler) (status : SchedulerStatus)
        → m.finishing ≡ some status
        → Step m (record m { status = status; finishing = none })

  pub data Steps : Scheduler → Scheduler → Type 0 where
    done : {m : Scheduler} → Steps m m
    then_step : {m n k : Scheduler} → Step m n → Steps n k → Steps m k
