-- ===== src/Torque/Classify.antt =====
-- `classify`: the defect classes that a signature suggests, with their confidence.
use defect_sense.Prelude.{Option, some, ◌>>=◌, List, [], ◌∷◌, ◌++◌, ◌&&◌, ◌||◌, leb, if◌then◌else◌}
use defect_sense.Prelude.Sort.{sorted_by}
use defect_sense.Float.{Float, ◌⊕◌, ◌⊖◌, ◌⊗◌, divide, nought, unit, max_of, min_of}
use defect_sense.Torque.{
  SignatureBaseline, SignatureFeatures, DefectClass, thread_contamination, cross_threading,
  over_torque, under_torque,
}

module _ {N : Type 0} ⦃F : Float N⦄ where
  abbrev at_least_micro : N → N
  at_least_micro x = max_of x (F.decimal 1 6)

  abbrev up_to_three : N → N
  up_to_three x = min_of x (F.decimal 30 1)

  module _ (f : SignatureFeatures N) (b : SignatureBaseline N) where
    -- `none` is ZeroDivisionError.
    unfoldable pub contamination : Option (List (DefectClass × N))
    contamination = do
      knee_late ←
          divide (f.knee_angle_deg ⊖ b.knee_angle_deg) (at_least_micro b.knee_angle_tolerance_deg)
      slope_low ←
          divide (b.elastic_slope_nm_per_deg ⊖ f.elastic_slope_nm_per_deg)
            (at_least_micro b.elastic_slope_tolerance)
      some (
          if F.lt unit knee_late && F.lt unit slope_low
          then (
            thread_contamination,
            min_of (F.decimal 95 2) (
                F.decimal 45 2
                ⊕ F.decimal 15 2 ⊗ up_to_three knee_late
                ⊕ F.decimal 15 2 ⊗ up_to_three slope_low),
          )
            ∷ []
          else [])

    unfoldable pub threading : Option (List (DefectClass × N))
    threading = do
      residual_high ← divide f.elastic_residual_variance (at_least_micro b.residual_variance_max)
      rundown_high ← divide f.rundown_torque_mean_nm (at_least_micro b.rundown_torque_max_nm)
      some (
          if F.lt unit residual_high && (F.lt unit rundown_high || leb 3 f.reversal_count)
          then (
            cross_threading,
            min_of (F.decimal 92 2) (
                F.decimal 40 2
                ⊕ F.decimal 18 2 ⊗ up_to_three residual_high
                ⊕ F.decimal 5 2 ⊗ F.decimal f.reversal_count 0),
          )
            ∷ []
          else [])

    unfoldable pub overload : List (DefectClass × N)
    overload =
        if F.lt f.late_to_early_slope_ratio b.yield_flattening_ratio
        then (
          over_torque,
          min_of (F.decimal 93 2)
              (F.decimal 50 2 ⊕ (b.yield_flattening_ratio ⊖ f.late_to_early_slope_ratio)),
        )
          ∷ []
        else if F.lt b.spec_hi_nm f.final_torque_nm
        then (over_torque, F.decimal 85 2) ∷ []
        else []

    unfoldable pub underload : List (DefectClass × N)
    underload =
        if F.lt f.final_torque_nm b.spec_lo_nm then (under_torque, F.decimal 88 2) ∷ [] else []

    -- key=lambda t: -t[1]
    unfoldable pub classify : Option (List (DefectClass × N))
    unfolding contamination threading overload underload sorted_by
    classify = do
      contaminated ← contamination
      threaded ← threading
      some (
          sorted_by (λ s t. F.lt (nought ⊖ s.1) (nought ⊖ t.1))
            (contaminated ++ threaded ++ overload ++ underload))
