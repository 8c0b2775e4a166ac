-- ===== src/Adjudication/Examples.antt =====
-- The adjudication of concrete signals, and the theorems at them.
use defect_sense.Prelude.{ℕ, ◌≡◌, ◌≢◌, ◌↔◌, refl, Bool, true, false, List, [], ◌∷◌, All}
use defect_sense.Prelude.Sort.{keep, greatest}
use defect_sense.Prelude.Int.{ℤ}
use defect_sense.Enums.{pass}
use defect_sense.Float.Fixed.{fixed}
use defect_sense.Adjudication.{FastenerOutcome, adjudicate}
use defect_sense.Adjudication.Verdicts.{IsNominal, passes_exactly_when-IsNominal}
use defect_sense.Torque.{SignatureBaseline, SignatureFeatures}

abbrev dec : ℕ → ℕ → ℤ
dec m k = fixed.decimal m k

abbrev flat_baseline : SignatureBaseline ℤ
flat_baseline = record {
  knee_angle_deg = dec 14 0;
  knee_angle_tolerance_deg = dec 2 0;
  elastic_slope_nm_per_deg = dec 32 1;
  elastic_slope_tolerance = dec 3 1;
  residual_variance_max = dec 2 0;
  rundown_torque_max_nm = dec 12 0;
  spec_lo_nm = dec 110 0;
  spec_hi_nm = dec 125 0;
  yield_flattening_ratio = dec 60 2;
  reversal_count_max = dec 2 0;
  derived_from_runs = 20;
  sigma_multiplier = dec 3 0;
}

abbrev measured : SignatureFeatures ℤ
measured = record {
  knee_angle_deg = dec 22 0;
  knee_torque_nm = dec 10 0;
  rundown_slope_nm_per_deg = dec 5 1;
  rundown_torque_mean_nm = dec 6 0;
  elastic_slope_nm_per_deg = dec 21 1;
  elastic_r2 = dec 99 2;
  elastic_residual_variance = dec 1 0;
  elastic_span_deg = dec 34 0;
  late_to_early_slope_ratio = dec 1 0;
  final_torque_nm = dec 118 0;
  peak_torque_nm = dec 118 0;
  reversal_count = 0;
  sample_count = 60;
}

abbrev oily_outcome : FastenerOutcome ℤ
oily_outcome = record {
  position = 3;
  signature = record {
    features = measured;
    anomaly_score = dec 61 2;
    deviations = [];
    endpoint_in_spec = true;
    signature_anomalous = true;
    ranked_classes = [];
  };
}

abbrev clean_outcome : FastenerOutcome ℤ
clean_outcome = record {
  position = 1;
  signature = record {
    features = measured;
    anomaly_score = dec 0 0;
    deviations = [];
    endpoint_in_spec = true;
    signature_anomalous = false;
    ranked_classes = [];
  };
}

abbrev mixed : List (FastenerOutcome ℤ)
mixed = clean_outcome ∷ oily_outcome ∷ []

mixed_confidence : (adjudicate mixed flat_baseline true []).confidence ≡ dec 8135 4
unfolding adjudicate keep greatest
mixed_confidence = refl

passes_exactly_when-IsNominal_example :
    ((adjudicate mixed flat_baseline true []).verdict ≡ pass)
    ↔ ((mixed ≢ []) × ◌≡◌ {A = Bool} true true × All IsNominal mixed)
passes_exactly_when-IsNominal_example = passes_exactly_when-IsNominal mixed flat_baseline true []
