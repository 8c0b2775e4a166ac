-- ===== src/Inspect/Examples.antt =====
-- The service on a good curve and one without samples, and its adjudication of a doubtful fastener, in
-- millionths.
use defect_sense.Prelude.{ℕ, ◌≡◌, refl, Bool, true, Option, some, [], ◌∷◌}
use defect_sense.Prelude.Sort.{keep, every, some_of, greatest, sorted_by}
use defect_sense.Prelude.Int.{ℤ}
use defect_sense.Enums.{pass}
use defect_sense.Float.Fixed.{fixed, fixed-IsOrdered}
use defect_sense.Torque.{TorqueSample, TorqueAngleCurve, SignatureBaseline, SignatureFeatures}
use defect_sense.Torque.Curve.{post_init, first_fault}
use defect_sense.Torque.Fit.{
  running, prefix_sums, least_squares, fit, total_sum_squares, split_sse, sweep, best_split,
  flattening_ratio, extract_features,
}
use defect_sense.Torque.Score.{score_signature, deviations, deviation, flattening, noisy_or}
use defect_sense.Torque.Classify.{classify, contamination, threading}
use defect_sense.Graph.{or_else}
use defect_sense.Graph.Nodes.{score_curves}
use defect_sense.Cost.{CostModel}
use defect_sense.Adjudication.{FastenerOutcome, adjudicate, in_spec}
use defect_sense.Inspect.{
  InspectionResult, rejected_result, gate_curves, service_adjudicate, conclude, inspect,
}
use defect_sense.Inspect.Agreement.{ruling_of, service_agrees}
use defect_sense.Inspect.Shipping.{IsShippable, pass-IsShippable}

abbrev dec : ℕ → ℕ → ℤ
dec m k = fixed.decimal m k

abbrev sample : ℕ → ℕ → TorqueSample ℤ
sample angle torque = record { angle_deg = dec angle 0; torque_nm = dec torque 0 }

abbrev doubtful_shape : SignatureFeatures ℤ
doubtful_shape = record {
  knee_angle_deg = dec 22 0;
  knee_torque_nm = dec 10 0;
  rundown_slope_nm_per_deg = dec 5 1;
  rundown_torque_mean_nm = dec 6 0;
  elastic_slope_nm_per_deg = dec 21 1;
  elastic_r2 = dec 99 2;
  elastic_residual_variance = dec 1 0;
  elastic_span_deg = dec 34 0;
  late_to_early_slope_ratio = dec 1 0;
  final_torque_nm = dec 118 0;
  peak_torque_nm = dec 118 0;
  reversal_count = 0;
  sample_count = 60;
}

abbrev doubtful : FastenerOutcome ℤ
doubtful = record {
  position = 3;
  signature = record {
    features = doubtful_shape;
    anomaly_score = dec 61 2;
    deviations = [];
    endpoint_in_spec = true;
    signature_anomalous = true;
    ranked_classes = [];
  };
}

abbrev ramp : TorqueAngleCurve ℤ
ramp = record {
  fastener_position = 1;
  samples =
      sample 0 2
      ∷ sample 1 2
      ∷ sample 2 2
      ∷ sample 3 2
      ∷ sample 4 2
      ∷ sample 5 2
      ∷ sample 6 5
      ∷ sample 7 8
      ∷ sample 8 11
      ∷ sample 9 14
      ∷ sample 10 17
      ∷ [];
  tool_id = "T1";
  unit_id = "U1";
}

abbrev no_samples : TorqueAngleCurve ℤ
no_samples = record ramp { fastener_position = 2; samples = [] }

abbrev ramp_baseline : SignatureBaseline ℤ
ramp_baseline = record {
  knee_angle_deg = dec 5 0;
  knee_angle_tolerance_deg = dec 2 0;
  elastic_slope_nm_per_deg = dec 3 0;
  elastic_slope_tolerance = dec 3 1;
  residual_variance_max = dec 2 0;
  rundown_torque_max_nm = dec 12 0;
  spec_lo_nm = dec 15 0;
  spec_hi_nm = dec 20 0;
  yield_flattening_ratio = dec 60 2;
  reversal_count_max = dec 2 0;
  derived_from_runs = 20;
  sigma_multiplier = dec 3 0;
}

abbrev plant : CostModel ℤ
plant = record {
  unit_material_cost = dec 8500 0;
  rework_minutes = dec 12 0;
  labour_rate_per_hour = dec 600 0;
  rework_parts_cost = dec 400 0;
  line_rate_units_per_hour = dec 40 0;
  margin_per_unit = dec 1500 0;
  field_failure_rate = dec 2 2;
  warranty_cost_per_failure = dec 60_000 0;
  recall_exposure_per_unit = dec 400_000 0;
  inspection_cost_per_unit = dec 50 0;
  currency = "INR";
}

abbrev always : ℤ → Bool
always x = true

service_agrees_example :
    service_adjudicate (doubtful ∷ []) true (every in_spec (doubtful ∷ []))
    ≡ some (ruling_of (adjudicate (doubtful ∷ []) ramp_baseline true []))
service_agrees_example = service_agrees doubtful [] ramp_baseline true []

-- The result of the lot with the good curve and the one without samples.
abbrev served : Option (InspectionResult ℤ)
served = inspect always ramp_baseline plant 1 (dec 24 1) true (ramp ∷ no_samples ∷ [])

abbrev result : InspectionResult ℤ
result = or_else served (rejected_result [])

served_returns : served ≡ some result
unfolding inspect gate_curves post_init first_fault score_curves extract_features best_split
    prefix_sums split_sse fit least_squares running sweep total_sum_squares flattening_ratio
    score_signature deviations deviation flattening noisy_or classify contamination threading keep
    sorted_by greatest every some_of service_adjudicate conclude
served_returns = refl

served_passes : result.ruling.verdict ≡ pass
unfolding inspect gate_curves post_init first_fault score_curves extract_features best_split
    prefix_sums split_sse fit least_squares running sweep total_sum_squares flattening_ratio
    score_signature deviations deviation flattening noisy_or classify contamination threading keep
    sorted_by greatest every some_of service_adjudicate conclude
served_passes = refl

pass-IsShippable_example : IsShippable true result
pass-IsShippable_example =
    pass-IsShippable fixed-IsOrdered always ramp_baseline plant 1 (dec 24 1) true
      (ramp ∷ no_samples ∷ []) result served_returns served_passes
