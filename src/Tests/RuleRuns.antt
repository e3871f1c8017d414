-- ===== src/Tests/RuleRuns.antt =====
-- Runs of internal/rules.
use pooly_sentinel.Prelude.{
  none, ◌≢◌, ℕ, ◌≡◌, refl, some, inl, inr, [], ◌∷◌, text, true, false, ◌⊎◌,
}
use pooly_sentinel.Incidents.Incident.{
  Severity, severity_none, warning, critical, Candidate, severity_rank, severity_eq,
}
use pooly_sentinel.Resources.{Observation, error_none}
use pooly_sentinel.Rules.Condition.{MatchResult, find_matches}
use pooly_sentinel.Rules.Condition.Judge.{judge}
use pooly_sentinel.Rules.Condition.Judge.Worst.{worst_rank, judge_worst}
use pooly_sentinel.Rules.Condition.Targets.{matching_targets}
use pooly_sentinel.Rules.Condition.Targets.Cover.{AllConcerned, distinct, matching_targets_cover}
use pooly_sentinel.Rules.State
use pooly_sentinel.Rules.State.{
  EvaluationMemory, state_ok, warn, state_critical, pending_warn, recovering, to_state, state_text,
}
use pooly_sentinel.Rules.Levels.{
  elapsed, duration_for, is_active, is_active_severity, is_none, state_for_severity,
}
use pooly_sentinel.Rules.Outcome.{incident_candidate, safe_summary, render_summary}
use pooly_sentinel.Rules.Transition.{transition_state}
use pooly_sentinel.Rules.Memory.{fresh_memory}
use pooly_sentinel.Rules.Transition.Invariant.{IsCoherent, transition_state-IsCoherent}
use pooly_sentinel.Rules.Transition.Alarm.{
  IsRaised, HasHeld, HasRecovered, alarm_justified, resolution_justified,
}
use pooly_sentinel.Rules.Transition.Runs.{Sample, step, memory_after, candidates}
use pooly_sentinel.Rules.Transition.Runs.Hold.{IsAlarm, hold_raises, critical_again_at_once}
use pooly_sentinel.Rules.Transition.Runs.Recovery.{
  OneResolution, recovery_resolves_once, escalation_loses_resolution,
}
use pooly_sentinel.Tests.Fixtures.{no_patterns, whole, cpu_rule}

abbrev finding : Severity → ℕ → Sample
finding severity now = record { desired = severity; reason = []; observed_at = now; now = now }

abbrev in_state : State.State → Severity → EvaluationMemory
in_state state severity = record fresh_memory { state = state; severity = severity }

transition_state-IsCoherent_example :
    IsCoherent
      (transition_state cpu_rule (text "all") no_patterns fresh_memory warning [] 5 5).memory
transition_state-IsCoherent_example =
    transition_state-IsCoherent no_patterns cpu_rule (text "all") fresh_memory warning [] 5 5
      (inr (inl refl)) (record { fits = (refl, refl, refl) })

hold_raises_example :
    let fired =
      step no_patterns cpu_rule
        (text "all")
        (memory_after no_patterns cpu_rule
          (text "all")
          fresh_memory
          (finding warning 5 ∷ finding warning 9 ∷ []))
        (finding warning 15) in
    IsAlarm no_patterns cpu_rule (text "all") warning fired.candidate
    × (fired.memory.state ≡ state_for_severity warning)
    × (fired.memory.severity ≡ warning)
hold_raises_example =
    hold_raises no_patterns cpu_rule (text "all") warning fresh_memory (finding warning 5)
      (finding warning 9 ∷ []) (finding warning 15) (inl refl) refl refl (refl, (refl, tt)) refl
      (unfold elapsed duration_for in refl)

recovery_resolves_once_example : OneResolution no_patterns cpu_rule (text "all") (
    candidates no_patterns cpu_rule
      (text "all")
      (in_state warn warning)
      (finding severity_none 5 ∷ finding severity_none 9 ∷ finding severity_none 25 ∷ []))
recovery_resolves_once_example =
    recovery_resolves_once no_patterns cpu_rule (text "all") (in_state warn warning)
      (finding severity_none 5) (finding severity_none 9 ∷ []) (finding severity_none 25)
      (unfold is_active in refl) refl (refl, (refl, (refl, tt))) (unfold elapsed in refl)

escalation_loses_resolution_example :
    candidates no_patterns cpu_rule
      (text "all")
      (in_state warn warning)
      (finding critical 5 ∷ finding severity_none 9 ∷ finding severity_none 60 ∷ [])
    ≡ []
escalation_loses_resolution_example =
    escalation_loses_resolution no_patterns cpu_rule (text "all") (in_state warn warning)
      (finding critical 5) (finding severity_none 9 ∷ finding severity_none 60 ∷ [])
      (unfold is_active in refl) (unfold is_none in refl)
      (unfold is_active_severity severity_rank in refl) (unfold severity_eq in refl)
      (refl, (refl, tt))

abbrev raised_critical : EvaluationMemory
raised_critical = record (in_state state_critical critical) {
  condition_met_since = some 5;
  pending_severity = critical;
}

critical_again_at_once_example :
    let warned =
      (step no_patterns cpu_rule (text "all") raised_critical (finding warning 100)).memory in
    (warned.state ≡ warn)
    × IsAlarm no_patterns cpu_rule
        (text "all")
        critical
        (step no_patterns cpu_rule (text "all") warned (finding critical 101)).candidate
critical_again_at_once_example =
    critical_again_at_once no_patterns cpu_rule (text "all") raised_critical (finding warning 100)
      (finding critical 101) 5 refl refl refl refl refl refl (unfold elapsed duration_for in refl)

abbrev held : EvaluationMemory
held = record (in_state pending_warn severity_none) {
  condition_met_since = some 5;
  pending_severity = warning;
}

abbrev raised : Candidate
raised =
    incident_candidate cpu_rule (text "all") warning true
      (safe_summary no_patterns (render_summary cpu_rule (text "all") warning [])) 15

alarm_justified_example :
    (raised.severity ≡ warning) × (IsRaised held warning ⊎ HasHeld cpu_rule held warning 15)
unfolding transition_state is_active is_active_severity is_none severity_eq severity_rank elapsed
    duration_for incident_candidate
alarm_justified_example =
    alarm_justified no_patterns cpu_rule (text "all") held warning [] 15 15 raised refl refl

abbrev recovering_since : EvaluationMemory
recovering_since = record (in_state recovering warning) { recovery_since = some 5 }

abbrev lowered : Candidate
lowered =
    incident_candidate cpu_rule (text "all") severity_none false
      (safe_summary no_patterns (render_summary cpu_rule (text "all") severity_none [])) 25

resolution_justified_example :
    (◌≡◌ {A = Severity} severity_none severity_none)
    × (is_active recovering ≡ true)
    × HasRecovered cpu_rule recovering_since 25
unfolding transition_state is_active is_none elapsed incident_candidate
resolution_justified_example =
    resolution_justified no_patterns cpu_rule (text "all") recovering_since severity_none [] 25 25
      lowered refl refl

abbrev busy : MatchResult ℕ
busy = record {
  target = text "all";
  observed = 7;
  metric = some (record { name = text "pooly_cpu_usage"; value = 95; labels = []; timestamp = 7 });
  event = none;
}

judge_worst_example :
    (severity_rank (judge whole cpu_rule (busy ∷ [])).0 ≡ worst_rank whole cpu_rule (busy ∷ []))
    × ((judge whole cpu_rule (busy ∷ [])).3 ≡ true)
judge_worst_example = judge_worst whole cpu_rule (busy ∷ [])

abbrev pub cpu_observed : Observation ℕ
cpu_observed = record {
  collector = text "cpu";
  target = text "all";
  timestamp = 7;
  success = true;
  supported = true;
  stale = false;
  metrics = record { name = text "pooly_cpu_usage"; value = 95; labels = []; timestamp = 7 } ∷ [];
  summary = [];
  error_class = error_none;
  events = [];
}

matching_targets_cover_example :
    AllConcerned cpu_rule
      (find_matches cpu_rule (cpu_observed ∷ []))
      (matching_targets cpu_rule (cpu_observed ∷ []))
    × (distinct (matching_targets cpu_rule (cpu_observed ∷ [])) ≡ true)
    × (matching_targets cpu_rule (cpu_observed ∷ []) ≢ [])
matching_targets_cover_example = matching_targets_cover cpu_rule (cpu_observed ∷ [])
