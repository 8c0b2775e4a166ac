-- ===== src/Signals/Score.antt =====
-- `SpecLimit.satisfied_by` and `score_features`. The text of a deviation is an argument.
use defect_sense.Prelude.{
  String, Bool, false, Option, none, some, List, [], ◌∷◌, not, ◌>>=◌, if◌then◌else◌,
}
use defect_sense.Prelude.Sort.{sorted_by, every}
use defect_sense.Dict.{Dict, lookup}
use defect_sense.Float.{is_zero, Float, ◌⊖◌, ◌⊗◌, ◌⊘◌, nought, unit, min_of, abs}
use defect_sense.Signals.{
  FeatureBaseline, SpecLimit, DeviationRule, Direction, above_only, below_only, either_side,
  Deviation, AnomalyResult,
}

module _ {N : Type 0} ⦃F : Float N⦄ where
  abbrev pub under : N → Option N → Bool
  under value none = false
  under value (some lo) = F.lt value lo

  abbrev pub over : N → Option N → Bool
  over value none = false
  over value (some hi) = F.lt hi value

  unfoldable pub satisfied_by : SpecLimit N → Dict N → Bool
  satisfied_by limit found = elim (lookup limit.feature found) [
    | none ↦ false
    | some value ↦ if under value limit.lo then false else not (over value limit.hi)
  ]

  abbrev pub wrong_side : Direction → N → Bool
  wrong_side above_only delta = F.le delta nought
  wrong_side below_only delta = F.le nought delta
  wrong_side either_side delta = false

  unfoldable pub compared :
      (DeviationRule N → N → N → N → String) → DeviationRule N → N → N → N → Option (Deviation N)
  compared statement rule observed expected tolerance =
      let delta = observed ⊖ expected in
      let units = abs delta ⊘ tolerance in
      if is_zero tolerance
      then none
      else if wrong_side rule.direction delta
      then none
      else if F.le units unit
      then none
      else some (record {
        feature = rule.feature;
        observed = observed;
        expected = expected;
        tolerance_units = units;
        weight = rule.weight;
        statement = statement rule observed expected units;
      })

  unfoldable pub deviation_of :
      (DeviationRule N → N → N → N → String)
      → Dict N
      → FeatureBaseline N
      → DeviationRule N
      → Option (Deviation N)
  unfolding compared
  deviation_of statement found baseline rule = do
    observed ← lookup rule.feature found
    expected ← lookup rule.feature baseline.means
    tolerance ← lookup rule.feature baseline.tolerances
    compared statement rule observed expected tolerance

  unfoldable pub deviations_of :
      (DeviationRule N → N → N → N → String)
      → Dict N
      → FeatureBaseline N
      → List (DeviationRule N)
      → List (Deviation N)
  unfolding deviation_of
  deviations_of statement found baseline [] = []
  deviations_of statement found baseline (rule ∷ rules) =
      let rest = deviations_of statement found baseline rules in
      elim (deviation_of statement found baseline rule) [ none ↦ rest | some d ↦ d ∷ rest ]

  -- DEVIATION_SATURATION is 1.5.
  unfoldable pub strength : Deviation N → N
  strength d = min_of ((d.tolerance_units ⊖ unit) ⊘ F.decimal 15 1) unit

  unfoldable pub complement : N → List (Deviation N) → N
  unfolding strength
  complement c [] = c
  complement c (d ∷ ds) = complement (c ⊗ (unit ⊖ d.weight ⊗ strength d)) ds

  -- key=lambda d: -d.weight * d.tolerance_units
  abbrev pub shown_before : Deviation N → Deviation N → Bool
  shown_before d e =
      F.lt ((nought ⊖ d.weight) ⊗ d.tolerance_units) ((nought ⊖ e.weight) ⊗ e.tolerance_units)

  unfoldable pub score_features :
      (DeviationRule N → N → N → N → String)
      → Dict N
      → FeatureBaseline N
      → List (DeviationRule N)
      → List (SpecLimit N)
      → N
      → AnomalyResult N
  unfolding deviations_of complement satisfied_by
  score_features statement found baseline rules limits threshold =
      let ds = deviations_of statement found baseline rules in
      let score = unit ⊖ complement unit ds in
      record {
        score = score;
        deviations = sorted_by shown_before ds;
        in_spec = every (λ limit. satisfied_by limit found) limits;
        anomalous = F.le threshold score;
      }
