-- ===== src/Agent/Scheduler.antt =====
-- internal/agent/scheduler.go, `RunOnce`: one cycle, from the collectors to the notifications. It runs
-- without another goroutine in between; `overlapped_run` is what a second caller does meanwhile. A stage may
-- panic; the clock and the status store always return.
pub mod Accounts
use pooly_sentinel.Prelude.{
  ℕ, ℤ, pos, sub_time, Bool, true, false, not, ◌&&◌, Option, none, some, List, [], ◌∷◌, Text, text,
  if◌then◌else◌,
}
use pooly_sentinel.Effect.{Error, Exec, Context, message, is_error, canceled, deadline_exceeded}
use pooly_sentinel.Redaction.{Patterns}
use pooly_sentinel.Resources.{Observation}
use pooly_sentinel.Incidents.Incident
use pooly_sentinel.Rules.Engine.{Evaluation}
use pooly_sentinel.Notify.Types.{Report}
use pooly_sentinel.Notify.Report.{empty_report, has_failed}
use pooly_sentinel.Agent.Status.{
  SchedulerStatus, SafeCycleError, cycle_error, mark_attempt, classify_collector_observations,
  finish_cycle, safe_scheduler_status,
}

-- What a call of a stage comes to: a value and an error, or a panic.
pub data Call (A : Type 0) : Type 0 where
  returned : A → Option Error → Call A
  panicked : Call A

-- The fields of `SchedulerOptions` that a cycle uses. `cycle_context` is `context.WithTimeout` with the
-- cycle timeout, where that is positive, and otherwise the context itself.
pub record SchedulerOptions (F S : Type 0) : Type 0 where
  pub cycle_context : Context S → Context S
  pub collector : Option (Context S → S → Call (List (Observation F)) × S)
  pub evaluator : Option (Context S → List (Observation F) → S → Call Evaluation × S)
  pub notifier : Option (Context S → List Incident.Transition → S → Call Report × S)
  pub status_store : Option (SchedulerStatus → Exec S (Unit {0}))
  pub clock_now : S → ℕ × S

pub record CycleResult (F : Type 0) : Type 0 where
  pub observations : List (Observation F)
  pub evaluation : Evaluation
  pub notification_report : Report
  pub status : SchedulerStatus

-- The fields of the result that the stages set.
pub record Stages (F : Type 0) : Type 0 where
  pub observations : List (Observation F)
  pub evaluation : Evaluation
  pub notification_report : Report

abbrev pub no_stages : {F : Type 0} → Stages F
no_stages = record {
  observations = [];
  evaluation = record { results = []; transitions = [] };
  notification_report = empty_report;
}

unfoldable pub panic_error : SafeCycleError
unfolding text cycle_error
panic_error =
    cycle_error (text "internal_error") (text "scheduler cycle panic recovered")
      (some (message (text "panic recovered")))

-- The errors that `RunOnce` returns: that of the cycle, and that of `finishCycle`.
unfoldable pub errors_of : Option SafeCycleError → Option SafeCycleError → List SafeCycleError
errors_of none none = []
errors_of none (some e) = e ∷ []
errors_of (some e) none = e ∷ []
errors_of (some e) (some e') = e ∷ e' ∷ []

module _ (p : Patterns) (error_text : Error → Text) (format_duration : ℤ → Text) {F S : Type 0}
    (options : SchedulerOptions F S) where
  unfoldable pub safe_stage_error : Text → Error → SafeCycleError
  unfolding text cycle_error
  safe_stage_error class e =
      cycle_error
        (if is_error e deadline_exceeded
          then text "timeout"
          else if is_error e canceled
          then text "canceled"
          else class)
        (error_text e) (some e)

  -- The last test of the context.
  unfoldable pub end_stage : Stages F → Option Error × S → Stages F × Option SafeCycleError × S
  unfolding text cycle_error
  end_stage stages (none, s) = (stages, none, s)
  end_stage stages (some e, s) =
      (stages, some (cycle_error (text "timeout") (error_text e) (some e)), s)

  -- From the test `collectorErr != nil` on.
  unfoldable pub close_stages :
      Context S → Stages F → Option SafeCycleError → S → Stages F × Option SafeCycleError × S
  unfolding end_stage
  close_stages ctx stages (some e) s = (stages, some e, s)
  close_stages ctx stages none s = end_stage stages (ctx.poll s)

  -- From the notifier's answer on.
  unfoldable pub after_notifying :
      Context S
      → Stages F
      → Option SafeCycleError
      → Call Report × S
      → Stages F × Option SafeCycleError × S
  unfolding text cycle_error safe_stage_error close_stages panic_error
  after_notifying ctx stages found (panicked, s) = (stages, some panic_error, s)
  after_notifying ctx stages found (returned report (some e), s) = (
    record stages { notification_report = report },
    some (safe_stage_error (text "notification") e),
    s,
  )
  after_notifying ctx stages found (returned report none, s) =
      let stages' = record stages { notification_report = report } in
      if has_failed report
      then (
        stages',
        some (
            cycle_error (text "notification") (text "one or more notification deliveries failed")
              (some (message (text "notification delivery failure")))),
        s,
      )
      else close_stages ctx stages' found s

  unfoldable pub notify_stage :
      Context S
      → Stages F
      → Option SafeCycleError
      → List Incident.Transition
      → S
      → Stages F × Option SafeCycleError × S
  unfolding after_notifying close_stages
  notify_stage ctx stages found [] s = close_stages ctx stages found s
  notify_stage ctx stages found (t ∷ rest) s = elim options.notifier [
    | none ↦ close_stages ctx stages found s
    | some deliver ↦ after_notifying ctx stages found (deliver ctx (t ∷ rest) s)
  ]

  -- From the evaluator's answer on.
  unfoldable pub after_evaluating :
      Context S
      → Stages F
      → Option SafeCycleError
      → Call Evaluation × S
      → Stages F × Option SafeCycleError × S
  unfolding text safe_stage_error notify_stage panic_error
  after_evaluating ctx stages found (panicked, s) = (stages, some panic_error, s)
  after_evaluating ctx stages found (returned evaluation (some e), s) =
      (record stages { evaluation = evaluation }, some (safe_stage_error (text "rule") e), s)
  after_evaluating ctx stages found (returned evaluation none, s) =
      notify_stage ctx (record stages { evaluation = evaluation }) found evaluation.transitions s

  unfoldable pub evaluate_stage :
      Context S → Stages F → Option Error × S → Stages F × Option SafeCycleError × S
  unfolding text cycle_error safe_stage_error after_evaluating
  evaluate_stage ctx stages (some e, s) = (stages, some (safe_stage_error (text "collector") e), s)
  evaluate_stage ctx stages (none, s) = elim options.evaluator [
    | none ↦ (
      stages,
      some (cycle_error (text "rule") (text "scheduler evaluator is not configured") none),
      s,
    )
    | some evaluate ↦
        after_evaluating ctx stages (classify_collector_observations stages.observations)
          (evaluate ctx stages.observations s)
  ]

  -- From the collector's answer on.
  unfoldable pub after_collecting :
      Context S → Call (List (Observation F)) × S → Stages F × Option SafeCycleError × S
  unfolding text safe_stage_error evaluate_stage panic_error
  after_collecting ctx (panicked, s) = (no_stages, some panic_error, s)
  after_collecting ctx (returned observations (some e), s) = (
    record no_stages { observations = observations },
    some (safe_stage_error (text "collector") e),
    s,
  )
  after_collecting ctx (returned observations none, s) =
      evaluate_stage ctx (record no_stages { observations = observations }) (ctx.poll s)

  pub run_stages : Context S → S → Stages F × Option SafeCycleError × S
  unfolding text cycle_error after_collecting
  run_stages ctx s = elim options.collector [
    | none ↦ (
      no_stages,
      some (cycle_error (text "collector") (text "scheduler collector is not configured") none),
      s,
    )
    | some collect ↦ after_collecting ctx (collect ctx s)
  ]

  -- `RunOnce` where the cycle lock is free: its result, its errors, and the scheduler's status.
  unfoldable pub run_once :
      Context S → SchedulerStatus → S → CycleResult F × List SafeCycleError × SchedulerStatus × S
  unfolding mark_attempt run_stages finish_cycle errors_of
  run_once ctx status s =
      let (started, s₁) = options.clock_now s in
      let (stages, e, s₂) = run_stages (options.cycle_context ctx) s₁ in
      let (ended, s₃) = options.clock_now s₂ in
      let (status', e', s₄) =
        finish_cycle p format_duration options.clock_now options.status_store
          (mark_attempt started status) started (sub_time ended started) e s₃ in
      (
        record {
          observations = stages.observations;
          evaluation = stages.evaluation;
          notification_report = stages.notification_report;
          status = safe_scheduler_status p status';
        },
        errors_of e e',
        status',
        s₄,
      )

  -- `RunOnce` where another cycle holds the lock; what `finishCycle` returns is dropped.
  unfoldable pub overlapped_run : SchedulerStatus → S → SafeCycleError × SchedulerStatus × S
  unfolding text cycle_error finish_cycle
  overlapped_run status s =
      let overlap =
        cycle_error (text "overlap") (text "scheduler cycle already running")
          (some (message (text "scheduler cycle already running"))) in
      let (now, s₁) = options.clock_now s in
      let (status', e', s₂) =
        finish_cycle p format_duration options.clock_now options.status_store status now (pos 0)
          (some overlap) s₁ in
      (overlap, status', s₂)
