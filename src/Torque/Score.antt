-- ===== src/Torque/Score.antt =====
-- `_deviation` and `score_signature`: departures from the baseline, combined by a weighted noisy-OR.
use defect_sense.Prelude.{
  ◌>>=◌, Bool, false, Option, none, some, List, [], ◌∷◌, ◌++◌, ◌&&◌, if◌then◌else◌,
}
use defect_sense.Prelude.Sort.{sorted_by}
use defect_sense.Float.{Float, ◌⊕◌, ◌⊖◌, ◌⊗◌, ◌⊘◌, divide, nought, unit, max_of, min_of, abs}
use defect_sense.Torque.{
  SignatureBaseline, SignatureFeatures, Feature, knee_angle, elastic_slope, residual_variance,
  reversals, rundown_torque, slope_ratio, Deviation, SignatureVerdict,
}
use defect_sense.Torque.Classify.{classify}

-- The argument `directional`: +1, -1 or 0.
pub data Side : Type 0 where
  above below either : Side

module _ {N : Type 0} ⦃F : Float N⦄ where
  -- `directional > 0 and delta <= 0`, `directional < 0 and delta >= 0`
  abbrev pub wrong_side : Side → N → Bool
  wrong_side above delta = F.le delta nought
  wrong_side below delta = F.le nought delta
  wrong_side either delta = false

  -- `none` is ZeroDivisionError.
  unfoldable pub deviation : Feature → N → N → N → N → Side → Option (Option (Deviation N))
  deviation feature observed expected tolerance weight side =
      let delta = observed ⊖ expected in
      if F.le tolerance nought then some none else if wrong_side side delta then some none else (do
        units ← divide (abs delta) tolerance
        some (
            if F.le units unit
            then none
            else some (record {
              feature = feature;
              observed = observed;
              expected = expected;
              tolerance_units = units;
              weight = weight;
            })))

  abbrev pub to_list : Option (Deviation N) → List (Deviation N)
  to_list none = []
  to_list (some d) = d ∷ []

  -- max(x, 1e-6)
  abbrev pub at_least_micro : N → N
  at_least_micro x = max_of x (F.decimal 1 6)

  unfoldable pub flattening :
      SignatureFeatures N → SignatureBaseline N → Option (List (Deviation N))
  flattening f b =
      if F.lt f.late_to_early_slope_ratio b.yield_flattening_ratio
      then (do
        part ←
            divide (b.yield_flattening_ratio ⊖ f.late_to_early_slope_ratio)
              (at_least_micro b.yield_flattening_ratio)
        some (
            record {
              feature = slope_ratio;
              observed = f.late_to_early_slope_ratio;
              expected = b.yield_flattening_ratio;
              tolerance_units = unit ⊕ part;
              weight = F.decimal 45 2;
            }
            ∷ []))
      else some []

  -- In the order in which the code appends them.
  unfoldable pub deviations :
      SignatureFeatures N → SignatureBaseline N → Option (List (Deviation N))
  deviations f b = do
    late ←
        deviation knee_angle f.knee_angle_deg b.knee_angle_deg b.knee_angle_tolerance_deg
          (F.decimal 35 2) above
    soft ←
        deviation elastic_slope f.elastic_slope_nm_per_deg b.elastic_slope_nm_per_deg
          b.elastic_slope_tolerance (F.decimal 40 2) below
    rough ←
        deviation residual_variance f.elastic_residual_variance b.residual_variance_max
          (at_least_micro b.residual_variance_max) (F.decimal 25 2) above
    reversed ←
        deviation reversals (F.decimal f.reversal_count 0) b.reversal_count_max
          (max_of b.reversal_count_max unit) (F.decimal 20 2) above
    dragging ←
        deviation rundown_torque f.rundown_torque_mean_nm b.rundown_torque_max_nm
          (at_least_micro b.rundown_torque_max_nm) (F.decimal 30 2) above
    flattened ← flattening f b
    some (
        to_list late
        ++ (to_list soft
            ++ (to_list rough ++ (to_list reversed ++ (to_list dragging ++ flattened)))))

  unfoldable pub strength : Deviation N → N
  strength d = min_of ((d.tolerance_units ⊖ unit) ⊘ F.decimal 15 1) unit

  unfoldable pub factor : Deviation N → N
  unfolding strength
  factor d = unit ⊖ d.weight ⊗ strength d

  -- `complement *= 1.0 - d.weight * strength` for each deviation
  unfoldable pub complement : N → List (Deviation N) → N
  unfolding factor
  complement c [] = c
  complement c (d ∷ ds) = complement (c ⊗ factor d) ds

  unfoldable pub noisy_or : List (Deviation N) → N
  unfolding complement
  noisy_or ds = unit ⊖ complement unit ds

  -- key=lambda d: -d.weight * d.tolerance_units
  abbrev pub display_before : Deviation N → Deviation N → Bool
  display_before d e =
      F.lt ((nought ⊖ d.weight) ⊗ d.tolerance_units) ((nought ⊖ e.weight) ⊗ e.tolerance_units)

  unfoldable pub score_signature :
      SignatureFeatures N → SignatureBaseline N → N → Option (SignatureVerdict N)
  unfolding noisy_or
  score_signature f b threshold = do
    found ← deviations f b
    classes ← classify f b
    let score = noisy_or found
    some (record {
      features = f;
      anomaly_score = score;
      deviations = sorted_by display_before found;
      endpoint_in_spec = F.le b.spec_lo_nm f.final_torque_nm && F.le f.final_torque_nm b.spec_hi_nm;
      signature_anomalous = F.le threshold score;
      ranked_classes = classes;
    })
