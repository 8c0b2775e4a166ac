-- ===== src/Signals/Examples.antt =====
-- A sweep of eleven samples in millionths, and the theorems at it. The functions of `math` are
-- stand-ins: no theorem asks anything of them.
use defect_sense.Prelude.{
  ℕ, zero, suc, ◌/◌, ◌≡◌, ◌⊎◌, ◌↔◌, refl, String, true, none, some, List, [], ◌∷◌, map, inl, inr,
  if◌then◌else◌,
}
use defect_sense.Prelude.Int.{ℤ, pos, negsuc}
use defect_sense.Prelude.Sort.{sorted_by, insert_by, greatest, some_of}
use defect_sense.Auth.{member}
use defect_sense.Dict.{Dict, lookup, insert}
use defect_sense.Float.{◌⊕◌, ◌⊗◌, nought, unit}
use defect_sense.Float.Fixed.{fixed, fixed-IsOrdered}
use defect_sense.Torque.{TorqueSample, TorqueAngleCurve}
use defect_sense.Torque.{SignatureBaseline}
use defect_sense.Torque.Examples.{clean as clean_sweep}
use defect_sense.Torque.Learn.{
  baseline, SameFeature, baselines_agree, from_clean_runs as learn_wheel,
}
use defect_sense.Signals.{
  Library, sweep, SignalSeries, first_fault, post_init, FeatureBaseline, SignalError, SpecLimit,
  DeviationRule, Deviation, above_only, below_only,
}
use defect_sense.Signals.Extractors.{endpoint, stability}
use defect_sense.Signals.Extract.{namespaced, features, put_all, extract_into, extract, extractors}
use defect_sense.Signals.Learn.{add_new, key_set, values_of, tolerance_of, learn, from_clean_runs}
use defect_sense.Signals.Score.{complement, deviations_of, deviation_of, score_features}
use defect_sense.Signals.Physics.{as_sample, as_features}
use defect_sense.Signals.Namespace.{extract_keeps}
use defect_sense.Signals.Baseline.{IsBeyond, fires_exactly_when-IsBeyond}

abbrev dec : ℕ → ℕ → ℤ
dec m k = fixed.decimal m k

abbrev total_of : List ℤ → ℤ
total_of [] = nought
total_of (x ∷ xs) = x ⊕ total_of xs

abbrev power : ℤ → ℕ → ℤ
power x zero = unit
power x (suc n) = x ⊗ power x n

abbrev whole : ℤ → ℕ
whole (pos n) = n / 1_000_000_000_000
whole (negsuc n) = 0

instance abbrev stand_in : Library ℤ
stand_in = record {
  sqrt = λ x. x;
  cos = λ x. unit;
  pi = dec 314 2;
  fsum = total_of;
  pow = power;
  is_finite = λ x. true;
  truncate = whole;
  digits = λ i. "0";
}

abbrev sample : ℕ → ℕ → TorqueSample ℤ
sample angle torque = record { angle_deg = dec angle 0; torque_nm = dec torque 0 }

abbrev ramp : TorqueAngleCurve ℤ
ramp = record {
  fastener_position = 1;
  samples =
      sample 0 2
      ∷ sample 1 2
      ∷ sample 2 2
      ∷ sample 3 2
      ∷ sample 4 2
      ∷ sample 5 2
      ∷ sample 6 5
      ∷ sample 7 8
      ∷ sample 8 11
      ∷ sample 9 14
      ∷ sample 10 17
      ∷ [];
  tool_id = "T1";
  unit_id = "U1";
}

abbrev torque_channel : SignalSeries ℤ
torque_channel = record {
  channel = "torque";
  samples = map as_sample ramp.samples;
  kind = sweep;
  x_unit = "deg";
  y_unit = "Nm";
  position = 1;
  source_id = "T1";
  unit_id = "U1";
}

abbrev ends : Dict ℤ
ends = ("final_y", dec 17 0) ∷ ("peak_y", dec 17 0) ∷ ("min_y", dec 2 0) ∷ ("span_x", dec 10 0) ∷ []

ramp_ends : endpoint torque_channel ≡ some ends
unfolding endpoint greatest
ramp_ends = refl

abbrev both : Dict ℤ
both =
    ("endpoint.final_y", dec 17 0)
    ∷ ("endpoint.peak_y", dec 17 0)
    ∷ ("endpoint.min_y", dec 2 0)
    ∷ ("endpoint.span_x", dec 10 0)
    ∷ ("stability.reversal_count", dec 0 0)
    ∷ ("stability.monotonic_fraction", dec 1 0)
    ∷ []

ramp_extracts : extract torque_channel ("endpoint" ∷ "stability" ∷ []) ≡ features both
unfolding extract extract_into put_all insert lookup endpoint stability greatest
ramp_extracts = refl

endpoint_known : lookup "endpoint" (extractors {N = ℤ}) ≡ some endpoint
unfolding lookup
endpoint_known = refl

extract_keeps_example :
    lookup (namespaced "endpoint" "min_y") both
    ≡ (if member "endpoint" ("endpoint" ∷ "stability" ∷ []) then lookup "min_y" ends else none)
extract_keeps_example =
    extract_keeps torque_channel "endpoint" "min_y" endpoint ends endpoint_known ramp_ends
      ("endpoint" ∷ "stability" ∷ []) both ramp_extracts

ramp_valid : post_init stand_in.is_finite torque_channel ≡ none
unfolding post_init first_fault
ramp_valid = refl

abbrev found : Dict ℤ
found = ("torque.knee", dec 22 0) ∷ ("torque.slope", dec 21 1) ∷ []

-- Means 14 and 3.2; the tolerances are at least a fiftieth of them.
abbrev clean : Dict ℤ
clean = ("torque.knee", dec 14 0) ∷ ("torque.slope", dec 32 1) ∷ []

abbrev learned : FeatureBaseline ℤ
learned = record {
  means = ("torque.knee", dec 14 0) ∷ ("torque.slope", dec 32 1) ∷ [];
  tolerances = ("torque.knee", dec 28 2) ∷ ("torque.slope", dec 64 3) ∷ [];
  derived_from_runs = 2;
  sigma = dec 3 0;
}

two_runs : from_clean_runs (clean ∷ clean ∷ []) (dec 3 0) 2 ≡ inr learned
unfolding from_clean_runs learn key_set add_new sorted_by insert_by values_of tolerance_of lookup
    some_of
two_runs = refl

abbrev plainly : DeviationRule ℤ → ℤ → ℤ → ℤ → String
plainly rule observed expected units = rule.feature

abbrev knee_rule : DeviationRule ℤ
knee_rule = record {
  feature = "torque.knee";
  weight = dec 35 2;
  direction = above_only;
  statement = "";
}

abbrev slope_rule : DeviationRule ℤ
slope_rule = record {
  feature = "torque.slope";
  weight = dec 40 2;
  direction = below_only;
  statement = "";
}

abbrev final_limit : SpecLimit ℤ
final_limit = record { feature = "torque.slope"; lo = some (dec 1 0); hi = none; label = "slope" }

abbrev judged : ℤ
judged =
    (score_features plainly found learned (knee_rule ∷ slope_rule ∷ []) (final_limit ∷ [])
      (dec 45 2)).score

judged_high : judged ≡ dec 61 2
unfolding score_features deviations_of complement deviation_of lookup
judged_high = refl

fires_exactly_when-IsBeyond_example :
    ((d : Deviation ℤ) × (deviation_of plainly found learned knee_rule ≡ some d)) ↔ (
      (o : ℤ) × (lookup "torque.knee" found ≡ some o)
      × IsBeyond fixed-IsOrdered (clean ∷ clean ∷ []) (dec 3 0) knee_rule o)
fires_exactly_when-IsBeyond_example =
    fires_exactly_when-IsBeyond fixed-IsOrdered (clean ∷ clean ∷ []) (dec 3 0) 2 learned plainly
      found knee_rule two_runs

-- The same wheel, in spec and clean, measured twice.
abbrev wheel : SignatureBaseline ℤ
wheel = record {
  knee_angle_deg = dec 14 0;
  knee_angle_tolerance_deg = dec 28 2;
  elastic_slope_nm_per_deg = dec 32 1;
  elastic_slope_tolerance = dec 64 3;
  residual_variance_max = dec 1 0;
  rundown_torque_max_nm = dec 6 0;
  spec_lo_nm = dec 110 0;
  spec_hi_nm = dec 125 0;
  yield_flattening_ratio = dec 60 2;
  reversal_count_max = dec 1 0;
  derived_from_runs = 2;
  sigma_multiplier = dec 3 0;
}

wheel_learned :
    learn_wheel (clean_sweep ∷ clean_sweep ∷ []) (dec 110 0) (dec 125 0) (dec 3 0) 2
    ≡ baseline wheel
unfolding learn_wheel
wheel_learned = refl

abbrev none_learned : FeatureBaseline ℤ
none_learned = record { means = []; tolerances = []; derived_from_runs = 0; sigma = dec 3 0 }

abbrev right_of : SignalError ℤ ⊎ FeatureBaseline ℤ → FeatureBaseline ℤ
right_of (inl refused) = none_learned
right_of (inr learnt) = learnt

abbrev generic : FeatureBaseline ℤ
generic = right_of (from_clean_runs (map as_features (clean_sweep ∷ clean_sweep ∷ [])) (dec 3 0) 2)

generic_learned :
    from_clean_runs (map as_features (clean_sweep ∷ clean_sweep ∷ [])) (dec 3 0) 2 ≡ inr generic
unfolding from_clean_runs
generic_learned = refl

baselines_agree_example :
    SameFeature generic "breakpoint_x" (dec 14 0) (dec 28 2)
    × SameFeature generic "slope_after" (dec 32 1) (dec 64 3)
baselines_agree_example =
    baselines_agree (clean_sweep ∷ clean_sweep ∷ []) (dec 110 0) (dec 125 0) (dec 3 0) 2 wheel
      generic wheel_learned generic_learned
