-- ===== src/Rules/Condition/Judge/Worst.antt =====
-- internal/rules/condition.go, `desiredSeverityForTarget`: the severity is that of the worst match.
use pooly_sentinel.Prelude.{
  ℕ, ◌≡◌, refl, true, false, Option, List, [], ◌∷◌, any, max, if◌then◌else◌, arith,
}
use pooly_sentinel.Resources.{Float64}
use pooly_sentinel.Incidents.Incident.{severity_rank}
use pooly_sentinel.Rules.Condition.{Threshold, Rule, MatchResult}
use pooly_sentinel.Rules.Condition.Judge.{meets, scan_critical, latest, judge}

module _ {F : Type 0} (fl : Float64 F) where
  -- The severity of the highest threshold that one match meets.
  pub match_rank : Rule F → MatchResult F → ℕ
  match_rank r m =
      if meets fl r.critical m
      then 3
      else if meets fl r.fail m
      then 2
      else if meets fl r.warn m
      then 1
      else 0

  pub worst_rank : Rule F → List (MatchResult F) → ℕ
  worst_rank r [] = 0
  worst_rank r (m ∷ ms) = max (match_rank r m) (worst_rank r ms)

  scan_critical-any :
      (t : Option (Threshold F)) (observed : ℕ) (ms : List (MatchResult F))
      → (scan_critical fl t observed ms).1 ≡ any (meets fl t) ms
  unfolding scan_critical
  scan_critical-any t observed [] = refl
  scan_critical-any t observed (m ∷ ms) = ground (arith, scan_critical-any t (latest observed m) ms)

  worst_rank-any :
      (r : Rule F) (ms : List (MatchResult F))
      → worst_rank r ms ≡ (
          if any (meets fl r.critical) ms
          then 3
          else if any (meets fl r.fail) ms
          then 2
          else if any (meets fl r.warn) ms
          then 1
          else 0)
  unfolding worst_rank match_rank
  worst_rank-any r [] = refl
  worst_rank-any r (m ∷ ms) = ground (arith, worst_rank-any r ms)

  -- The severity that the matches ask for ranks as the worst of them, and it counts as matched exactly
  -- where there is a match.
  pub judge_worst :
      (r : Rule F) (ms : List (MatchResult F))
      → (severity_rank (judge fl r ms).0 ≡ worst_rank r ms)
        × ((judge fl r ms).3 ≡ (elim ms [ [] ↦ false | m ∷ rest ↦ true ]))
  unfolding judge severity_rank
  judge_worst r [] = (unfold worst_rank in refl, refl)
  judge_worst r (m ∷ ms) =
      ground (arith, worst_rank-any r (m ∷ ms), scan_critical-any r.critical 0 (m ∷ ms))
