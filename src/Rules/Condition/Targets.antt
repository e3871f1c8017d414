-- ===== src/Rules/Condition/Targets.antt =====
-- internal/rules/condition.go, `matchingTargets`: the targets at which a rule is evaluated.
pub mod Cover
use pooly_sentinel.Prelude.{
  not, ◌&&◌, List, [], ◌∷◌, ◌++◌, Text, text, text_eq, is_empty, is_set, any, if◌then◌else◌,
}
use pooly_sentinel.Resources.{Observation}
use pooly_sentinel.Rules.Condition.{Rule, MatchResult, default_target, find_matches}

-- `if len(targets) == 0`.
or_default : Text → List Text → List Text
or_default default [] = default ∷ []
or_default default (t ∷ ts) = t ∷ ts

module _ {F : Type 0} where
  -- The loop of `matchingTargets`: `targets` holds the keys of the map `seen`.
  collect_targets : Rule F → List (MatchResult F) → List Text → List Text
  collect_targets r [] targets = targets
  collect_targets r (m ∷ ms) targets =
      let target = if is_empty m.target then default_target r else m.target in
      collect_targets r ms
        (if any (text_eq target) targets then targets else targets ++ target ∷ [])

  unfoldable pub matching_targets : Rule F → List (Observation F) → List Text
  unfolding collect_targets or_default
  matching_targets r os =
      if is_set r.target && not (text_eq r.target (text "any"))
      then r.target ∷ []
      else or_default (default_target r) (collect_targets r (find_matches r os) [])
