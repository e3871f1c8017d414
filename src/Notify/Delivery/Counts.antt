-- ===== src/Notify/Delivery/Counts.antt =====
-- internal/notify/delivery.go: the reports that the service hands over.
use pooly_sentinel.Prelude.{
  Bool, not, ◌&&◌, Option-cases, inl, inr, ℕ, refl, true, false, Option, none, some, List, [], ◌∷◌,
  Text, if◌then◌else◌,
}
use pooly_sentinel.Effect.{Error, Context, Result, ok, err}
use pooly_sentinel.Redaction.{Patterns}
use pooly_sentinel.Storage.Records.{IncidentRecord}
use pooly_sentinel.Storage.Paths.{Filepath}
use pooly_sentinel.Incidents.Incident
use pooly_sentinel.Incidents.Incident.{Severity}
use pooly_sentinel.Notify.Types.{Event, Payload, DeliveryResult, Report, Receiver}
use pooly_sentinel.Notify.Report.{empty_report, add_result, add, skip_report}
use pooly_sentinel.Notify.Report.Counters.{
  IsCounted, same_status, tally, add_result-IsCounted, add_results-IsCounted,
}
use pooly_sentinel.Notify.Attempt.{Service, Reported}
use pooly_sentinel.Notify.Delivery.{
  go_on, unless_canceled, deliver_to_all, deliver_enabled, deliver_incident, go_on_with,
  deliver_found, deliver_all, deliver_transitions, event_from_transition,
}

empty_report-IsCounted : IsCounted empty_report
unfolding tally
empty_report-IsCounted = record {
  all_delivered = refl;
  all_failed = refl;
  all_skipped = refl;
  all_dry_run = refl;
}

skip_report-IsCounted :
    (id : Text) (event : Event) (summary : Text) → IsCounted (skip_report id event summary)
unfolding tally same_status skip_report
skip_report-IsCounted id event summary = record {
  all_delivered = refl;
  all_failed = refl;
  all_skipped = refl;
  all_dry_run = refl;
}

add-IsCounted : (report other : Report) → IsCounted report → IsCounted (add report other)
unfolding add
add-IsCounted report other h = add_results-IsCounted other.results report h

module _ {S : Type 0} where
  either-IsCounted :
      (b : Bool) (x y : Reported S Report)
      → IsCounted x.0
      → IsCounted y.0
      → IsCounted (if b then x else y).0
  either-IsCounted true x y h k = h
  either-IsCounted false x y h k = k

  unless_canceled-IsCounted :
      (report : Report) (poll : Option Error × S) (rest : S → Reported S Report)
      → IsCounted report
      → ((s : S) → IsCounted (rest s).0)
      → IsCounted (unless_canceled report poll rest).0
  unfolding unless_canceled
  unless_canceled-IsCounted report (none, s) rest h k = k s
  unless_canceled-IsCounted report (some e, s) rest h k = h

  go_on-IsCounted :
      (report : Report) (out : Reported S DeliveryResult) (rest : Report → S → Reported S Report)
      → IsCounted report
      → ((r : Report) (s : S) → IsCounted r → IsCounted (rest r s).0)
      → IsCounted (go_on report out rest).0
  unfolding go_on
  go_on-IsCounted report (result, none, s) rest h k =
      k (add_result report result) s (add_result-IsCounted report result h)
  go_on-IsCounted report (result, some e, s) rest h k = add_result-IsCounted report result h

  go_on_with-IsCounted :
      (report : Report) (out : Reported S Report) (rest : Report → S → Reported S Report)
      → IsCounted report
      → ((r : Report) (s : S) → IsCounted r → IsCounted (rest r s).0)
      → IsCounted (go_on_with report out rest).0
  unfolding go_on_with
  go_on_with-IsCounted report (partial, none, s) rest h k =
      k (add report partial) s (add-IsCounted report partial h)
  go_on_with-IsCounted report (partial, some e, s) rest h k = add-IsCounted report partial h

module _ (p : Patterns) (sum256 : Text → Text) (format_time : ℕ → Text) (f : Filepath) {S : Type 0}
    (ctx : Context S) (service : Service S) where
  deliver_to_all-IsCounted :
      (incident : IncidentRecord) (payload : Payload) (event : Event) (severity : Severity)
      (receivers : List (Receiver S)) (report : Report) (s : S)
      → IsCounted report
      → IsCounted
          (deliver_to_all p sum256 format_time f ctx service incident payload event severity
            receivers report s).0
  unfolding deliver_to_all
  deliver_to_all-IsCounted incident payload event severity [] report s h = h
  deliver_to_all-IsCounted incident payload event severity (receiver ∷ rest) report s h =
      unless_canceled-IsCounted report (ctx.poll s) _ h (λ s₁.
        go_on-IsCounted report _ _ h
          (deliver_to_all-IsCounted incident payload event severity rest))

  deliver_enabled-IsCounted :
      (incident : IncidentRecord) (event : Event) (receivers : List (Receiver S)) (s : S)
      → IsCounted (deliver_enabled p sum256 format_time f ctx service incident event receivers s).0
  unfolding deliver_enabled
  deliver_enabled-IsCounted incident event [] s = skip_report-IsCounted incident.id event _
  deliver_enabled-IsCounted incident event (receiver ∷ rest) s =
      deliver_to_all-IsCounted incident _ event _ (receiver ∷ rest) empty_report s
        empty_report-IsCounted

  -- Whatever the receivers, the store and the context do, the four counters of the report on an incident
  -- are the numbers of its results with each status.
  pub deliver_incident-IsCounted :
      (incident : IncidentRecord) (event : Event) (s : S)
      → IsCounted (deliver_incident p sum256 format_time f ctx service incident event s).0
  unfolding deliver_incident
  deliver_incident-IsCounted incident event s =
      unless_canceled-IsCounted empty_report (ctx.poll s) _ empty_report-IsCounted (λ s₁.
        either-IsCounted (not service.enabled && not service.dry_run_mode) _ _
          (skip_report-IsCounted incident.id event _)
          (deliver_enabled-IsCounted incident event service.receivers s₁))

  deliver_found-IsCounted :
      (report : Report) (event : Event) (found : Result IncidentRecord × S)
      (rest : Report → S → Reported S Report)
      → IsCounted report
      → ((r : Report) (s : S) → IsCounted r → IsCounted (rest r s).0)
      → IsCounted (deliver_found p sum256 format_time f ctx service report event found rest).0
  unfolding deliver_found
  deliver_found-IsCounted report event (err e, s) rest h k = h
  deliver_found-IsCounted report event (ok incident, s) rest h k =
      go_on_with-IsCounted report
        (deliver_incident p sum256 format_time f ctx service incident event s) rest h k

  deliver_all-IsCounted :
      (transitions : List Incident.Transition) (report : Report) (s : S)
      → IsCounted report
      → IsCounted (deliver_all p sum256 format_time f ctx service transitions report s).0
  unfolding deliver_all
  deliver_all-IsCounted [] report s h = h
  deliver_all-IsCounted (t ∷ rest) report s h = elim (Option-cases (event_from_transition t)) [
    | inl quiet ↦ rw (deliver_all, quiet) (deliver_all-IsCounted rest report s h)
    | inr (event, heard) ↦ (elim (Option-cases service.store) [
      | inl missing ↦ rw (deliver_all, heard, missing) h
      | inr (store, given) ↦
          rw (deliver_all, heard, given)
            (deliver_found-IsCounted report event (store.get_incident ctx t.incident_id s) _ h
              (deliver_all-IsCounted rest))
    ])
  ]

  -- Whatever the receivers, the store and the context do, the four counters of the report on a list of
  -- transitions are the numbers of its results with each status, also where an error cuts it short.
  pub deliver_transitions-IsCounted :
      (transitions : List Incident.Transition) (s : S)
      → IsCounted (deliver_transitions p sum256 format_time f ctx service transitions s).0
  unfolding deliver_transitions
  deliver_transitions-IsCounted transitions s =
      deliver_all-IsCounted transitions empty_report s empty_report-IsCounted
