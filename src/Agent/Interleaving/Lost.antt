-- ===== src/Agent/Interleaving/Lost.antt =====
-- internal/agent/scheduler.go: a stop that comes while a cycle ends.
use pooly_sentinel.Prelude.{ℕ, ℤ, ◌≡◌, refl, ◌∙◌, true, Option, none, some, Text}
use pooly_sentinel.Effect.{Result, ok, err, Exec}
use pooly_sentinel.Redaction.{Patterns}
use pooly_sentinel.Agent.Status.{
  SchedulerStatus, SafeCycleError, failed_status, succeeded_status, cycle_status, saved_status,
  finish_cycle,
}
use pooly_sentinel.Agent.Interleaving.{
  Scheduler, start, stop, finish_read, stopped, finish_reads, finish_writes, Steps, done, then_step,
}

module _ (p : Patterns) (format_duration : ℤ → Text) {S : Type 0} (clock_now : S → ℕ × S) where
  running-cycle_status :
      (base : SchedulerStatus) (t : ℕ) (d : ℤ) (e : Option SafeCycleError) (s : S)
      → (cycle_status p format_duration clock_now base t d e s).0.running ≡ base.running
  unfolding cycle_status failed_status succeeded_status
  running-cycle_status base t d none s = refl
  running-cycle_status base t d (some e) s = refl

  running-saved_status :
      (base status : SchedulerStatus) (d : ℤ) (e : Option SafeCycleError)
      (answer : Result (Unit {0}) × S)
      → status.running ≡ base.running
      → (saved_status p format_duration clock_now base status d e answer).0.running ≡ base.running
  unfolding saved_status failed_status
  running-saved_status base status d e (ok u, s) h = h
  running-saved_status base status d (some e) (err save, s) h = h
  running-saved_status base status d none (err save, s) h = refl

  running-finish_cycle :
      (store : Option (SchedulerStatus → Exec S (Unit {0}))) (base : SchedulerStatus) (t : ℕ)
      (d : ℤ) (e : Option SafeCycleError) (s : S)
      → (finish_cycle p format_duration clock_now store base t d e s).0.running ≡ base.running
  unfolding finish_cycle
  running-finish_cycle none base t d e s = running-cycle_status base t d e s
  running-finish_cycle (some save) base t d e s =
      let (status, s') = cycle_status p format_duration clock_now base t d e s in
      running-saved_status base status d e (save status s') (running-cycle_status base t d e s)

  module _ (store : Option (SchedulerStatus → Exec S (Unit {0}))) where
    -- While a running scheduler's cycle ends, with whatever outcome, a stop may come between the two
    -- sections of the end: the scheduler's context is then canceled, its status says that it is
    -- running, and a start leaves all as it is.
    pub stop_lost :
        (m : Scheduler) (t : ℕ) (d : ℤ) (e : Option SafeCycleError) (s : S)
        → m.status.running ≡ true
        → m.finishing ≡ none
        → (n : Scheduler) × Steps p format_duration clock_now store m n
          × (n.is_canceled ≡ true)
          × (n.status.running ≡ true)
          × (start n ≡ n)
    unfolding start stop finish_read
    stop_lost m t d e s running idle =
        let status = (finish_cycle p format_duration clock_now store m.status t d e s).0 in
        let read = finish_read p format_duration clock_now store t d e s m in
        let n = record (stop read) { status = status; finishing = none } in
        let up = running-finish_cycle store m.status t d e s ∙ running in
        (
          n,
          then_step (finish_reads m t d e s idle)
              (then_step (stopped read) (then_step (finish_writes (stop read) status refl) done)),
          refl,
          up,
          rw up refl,
        )
