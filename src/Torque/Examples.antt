-- ===== src/Torque/Examples.antt =====
-- A contaminated and a clean signature in millionths, and the theorems at them.
use defect_sense.Prelude.{
  Option, none, false, ℕ, ◌+◌, ◌≤◌, ◌≡◌, refl, Bool, true, none, some, List, [], ◌∷◌, length,
  get_elem?, arith,
}
use defect_sense.Prelude.Int.{ℤ}
use defect_sense.Torque.{TorqueSample}
use defect_sense.Torque.Curve.{post_init, first_fault}
use defect_sense.Torque.Fit.{
  min_segment_points, angles, running, prefix_sums, least_squares, fit, split_sse, sweep,
  best_split, extract_features,
}
use defect_sense.Torque.Knee.{IsKnee, IsKnee-minimises, extracts_every_curve}
use defect_sense.Float.{◌≼◌, nought, unit}
use defect_sense.Float.Fixed.{fixed, fixed-IsOrdered}
use defect_sense.Torque.{SignatureBaseline, SignatureFeatures, SignatureVerdict}
use defect_sense.Torque.Score.{score_signature, deviations, deviation, flattening}
use defect_sense.Torque.Classify.{classify, contamination, threading}
use defect_sense.Torque.Bounds.{score_bounds}

abbrev pub dec : ℕ → ℕ → ℤ
dec m k = fixed.decimal m k

abbrev pub wheel_baseline : SignatureBaseline ℤ
wheel_baseline = record {
  knee_angle_deg = dec 14 0;
  knee_angle_tolerance_deg = dec 2 0;
  elastic_slope_nm_per_deg = dec 32 1;
  elastic_slope_tolerance = dec 3 1;
  residual_variance_max = dec 2 0;
  rundown_torque_max_nm = dec 12 0;
  spec_lo_nm = dec 110 0;
  spec_hi_nm = dec 125 0;
  yield_flattening_ratio = dec 60 2;
  reversal_count_max = dec 2 0;
  derived_from_runs = 20;
  sigma_multiplier = dec 3 0;
}

abbrev pub clean : SignatureFeatures ℤ
clean = record {
  knee_angle_deg = dec 14 0;
  knee_torque_nm = dec 10 0;
  rundown_slope_nm_per_deg = dec 5 1;
  rundown_torque_mean_nm = dec 6 0;
  elastic_slope_nm_per_deg = dec 32 1;
  elastic_r2 = dec 99 2;
  elastic_residual_variance = dec 1 0;
  elastic_span_deg = dec 34 0;
  late_to_early_slope_ratio = dec 1 0;
  final_torque_nm = dec 118 0;
  peak_torque_nm = dec 118 0;
  reversal_count = 0;
  sample_count = 60;
}

-- The knee is late and the slope is shallow, and the final torque is in spec.
abbrev pub oily : SignatureFeatures ℤ
oily = record clean { knee_angle_deg = dec 22 0; elastic_slope_nm_per_deg = dec 21 1 }

abbrev pub half : ℤ
half = dec 45 2

-- What stands where a scoring fails.
abbrev unscored : SignatureFeatures ℤ → SignatureVerdict ℤ
unscored f = record {
  features = f;
  anomaly_score = nought;
  deviations = [];
  endpoint_in_spec = false;
  signature_anomalous = false;
  ranked_classes = [];
}

abbrev scored : SignatureFeatures ℤ → Option (SignatureVerdict ℤ) → SignatureVerdict ℤ
scored f none = unscored f
scored f (some v) = v

abbrev pub oily_verdict : SignatureVerdict ℤ
oily_verdict = scored oily (score_signature oily wheel_baseline half)

abbrev pub clean_verdict : SignatureVerdict ℤ
clean_verdict = scored clean (score_signature clean wheel_baseline half)

oily_score : oily_verdict.anomaly_score ≡ dec 61 2
unfolding score_signature deviations deviation flattening classify contamination threading
oily_score = refl

score_bounds_example :
    (v : SignatureVerdict ℤ) × (score_signature oily wheel_baseline half ≡ some v)
    × (nought ≼ v.anomaly_score)
    × (v.anomaly_score ≼ unit)
score_bounds_example = score_bounds fixed-IsOrdered oily wheel_baseline half

abbrev sample : ℕ → ℕ → TorqueSample ℤ
sample angle torque = record { angle_deg = dec angle 0; torque_nm = dec torque 0 }

-- Flat to 4 degrees, then 3 Nm for each degree.
abbrev ramp : List (TorqueSample ℤ)
ramp =
    sample 0 2
    ∷ sample 1 2
    ∷ sample 2 2
    ∷ sample 3 2
    ∷ sample 4 2
    ∷ sample 5 2
    ∷ sample 6 5
    ∷ sample 7 8
    ∷ sample 8 11
    ∷ sample 9 14
    ∷ sample 10 17
    ∷ []

abbrev always : ℤ → Bool
always x = true

ramp_valid : post_init always ramp ≡ none
unfolding post_init first_fault
ramp_valid = refl

ramp_knee : best_split (prefix_sums ramp) 11 ≡ some 5
unfolding best_split prefix_sums split_sse fit least_squares running sweep
ramp_knee = refl

IsKnee-minimises_example :
    (k : ℕ) × (s : ℤ) × IsKnee ramp k
    × (split_sse (prefix_sums ramp) (length ramp) k ≡ some s)
    × ((j : ℕ) (t : ℤ)
        → min_segment_points ≤ j
        → j + min_segment_points ≤ length ramp
        → split_sse (prefix_sums ramp) (length ramp) j ≡ some t
        → s ≼ t)
IsKnee-minimises_example = IsKnee-minimises fixed-IsOrdered ramp (omega arith)

extracts_every_curve_example :
    (f : SignatureFeatures ℤ) × (extract_features
        (record { fastener_position = 1; samples = ramp; tool_id = "T1"; unit_id = "U1" })
      ≡ some f)
    × (f.sample_count ≡ length ramp)
    × ((k : ℕ) × IsKnee ramp k × (get_elem? (angles ramp) k ≡ some f.knee_angle_deg))
extracts_every_curve_example =
    extracts_every_curve fixed-IsOrdered ramp always 1 "T1" "U1" ramp_valid
