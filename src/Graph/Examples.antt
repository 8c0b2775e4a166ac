-- ===== src/Graph/Examples.antt =====
-- Three runs of the graph in millionths: a nominal wheel, one whose final torque is out of spec, and
-- one without a signal.
use defect_sense.Prelude.{
  ℕ, ◌≡◌, ◌≢◌, ◌↔◌, refl, Bool, true, false, Option, none, some, List, [], ◌∷◌, All,
}
use defect_sense.Prelude.Sort.{keep, sorted_by, greatest}
use defect_sense.Prelude.Int.{ℤ}
use defect_sense.Enums.{pass, defect, escalate, accept, rejected, minor, critical, fusion, process}
use defect_sense.Float.{◌≼◌, nought}
use defect_sense.Float.Fixed.{fixed, fixed-IsOrdered}
use defect_sense.Torque.{TorqueSample, TorqueAngleCurve, SignatureBaseline}
use defect_sense.Torque.Curve.{post_init, first_fault}
use defect_sense.Torque.Fit.{
  running, prefix_sums, least_squares, fit, total_sum_squares, split_sse, sweep, best_split,
  flattening_ratio, extract_features,
}
use defect_sense.Torque.Score.{score_signature, deviations, deviation, flattening, noisy_or}
use defect_sense.Torque.Classify.{classify, contamination, threading}
use defect_sense.Adjudication.{FastenerOutcome, adjudicate, nominal, out_of_spec, needs_human}
use defect_sense.Adjudication.Verdicts.{IsNominal}
use defect_sense.Cost.{
  CostModel, ActionCost, ranked_rows, is_halt, triage, priced_rows, action_costs, price, expected,
  rework_cost, scrap_cost, escape_cost, halt_cost, hold_cost, reasons,
}
use defect_sense.Cost.Absent.{IsPlant}
use defect_sense.Graph.{
  InspectionInputs, FusionVerdict, TriageResult, QcState, fresh, or_else, apply, complete,
}
use defect_sense.Graph.Nodes.{
  score_curves, by_position, long_enough, ingestion, vision, process_sentinel, fastener_results,
}
use defect_sense.Graph.Run.{
  vision_process_context, context_process_vision, run_inspection, shipped, triage_context, finish,
  adjudicator, cost_triage, priced,
}
use defect_sense.Graph.Order.{AgreeRun, order_independent}
use defect_sense.Graph.Outcome.{judged}
use defect_sense.Graph.Decisions.{ships_only-IsNominal, reported_cost, rejected_data_accepts}

abbrev dec : ℕ → ℕ → ℤ
dec m k = fixed.decimal m k

abbrev sample : ℕ → ℕ → TorqueSample ℤ
sample angle torque = record { angle_deg = dec angle 0; torque_nm = dec torque 0 }

-- Flat to 4 degrees, then 3 Nm for each degree.
abbrev pub ramp : TorqueAngleCurve ℤ
ramp = record {
  fastener_position = 1;
  samples =
      sample 0 2
      ∷ sample 1 2
      ∷ sample 2 2
      ∷ sample 3 2
      ∷ sample 4 2
      ∷ sample 5 2
      ∷ sample 6 5
      ∷ sample 7 8
      ∷ sample 8 11
      ∷ sample 9 14
      ∷ sample 10 17
      ∷ [];
  tool_id = "T1";
  unit_id = "U1";
}

abbrev pub ramp_baseline : SignatureBaseline ℤ
ramp_baseline = record {
  knee_angle_deg = dec 5 0;
  knee_angle_tolerance_deg = dec 2 0;
  elastic_slope_nm_per_deg = dec 3 0;
  elastic_slope_tolerance = dec 3 1;
  residual_variance_max = dec 2 0;
  rundown_torque_max_nm = dec 12 0;
  spec_lo_nm = dec 15 0;
  spec_hi_nm = dec 20 0;
  yield_flattening_ratio = dec 60 2;
  reversal_count_max = dec 2 0;
  derived_from_runs = 20;
  sigma_multiplier = dec 3 0;
}

abbrev pub plant : CostModel ℤ
plant = record {
  unit_material_cost = dec 8500 0;
  rework_minutes = dec 12 0;
  labour_rate_per_hour = dec 600 0;
  rework_parts_cost = dec 400 0;
  line_rate_units_per_hour = dec 40 0;
  margin_per_unit = dec 1500 0;
  field_failure_rate = dec 2 2;
  warranty_cost_per_failure = dec 60_000 0;
  recall_exposure_per_unit = dec 400_000 0;
  inspection_cost_per_unit = dec 50 0;
  currency = "INR";
}

plant-IsPlant : IsPlant fixed-IsOrdered plant
plant-IsPlant = record {
  material = refl;
  minutes = refl;
  labour = refl;
  parts = refl;
  line_rate = refl;
  margin = refl;
  inspection = refl;
}

abbrev pub nominal_inputs : InspectionInputs ℤ
nominal_inputs = record {
  curves = ramp ∷ [];
  baseline = ramp_baseline;
  cost_model = plant;
  verifiers_passed = true;
  verifier_results = [];
  containment_scope = 1;
  expected_halt_hours = dec 24 1;
  custom_vision_verdict = none;
  outcomes = [];
  adjudication = none;
}

abbrev out_of_spec_inputs : InspectionInputs ℤ
out_of_spec_inputs = record nominal_inputs {
  baseline = record ramp_baseline { spec_lo_nm = dec 30 0; spec_hi_nm = dec 40 0 };
}

abbrev silent_inputs : InspectionInputs ℤ
silent_inputs = record nominal_inputs { curves = [] }

abbrev pub as_is : ℤ → ℤ
as_is x = x

abbrev pub always : ℤ → Bool
always x = true

abbrev pub run : InspectionInputs ℤ → Option (QcState ℤ)
run inputs = run_inspection as_is vision_process_context fresh inputs

pub ramp_valid : post_init always ramp.samples ≡ none
unfolding post_init first_fault
ramp_valid = refl

order_independent_example :
    AgreeRun (run nominal_inputs) (run_inspection as_is context_process_vision fresh nominal_inputs)
order_independent_example =
    order_independent as_is vision_process_context context_process_vision fresh nominal_inputs

-- The state in which a run ends.
abbrev pub end_of : Option (QcState ℤ) → QcState ℤ
end_of r = or_else r fresh

abbrev pub nominal_fusion : FusionVerdict ℤ
nominal_fusion = record {
  verdict = pass;
  confidence = dec 94 2;
  severity = minor;
  reasoning = nominal 1;
  primary_signal = fusion;
  fusion_only = false;
  escalation_reason = none;
}

pub nominal_ends : run nominal_inputs ≡ some (end_of (run nominal_inputs))
unfolding run_inspection ingestion vision process_sentinel score_curves extract_features best_split
    prefix_sums split_sse fit least_squares running sweep total_sum_squares flattening_ratio
    score_signature deviations deviation flattening noisy_or classify contamination threading
    fastener_results finish adjudicator adjudicate cost_triage priced keep sorted_by greatest
nominal_ends = refl

pub nominal_passes : (end_of (run nominal_inputs)).fusion ≡ some nominal_fusion
unfolding run_inspection ingestion vision process_sentinel score_curves extract_features best_split
    prefix_sums split_sse fit least_squares running sweep total_sum_squares flattening_ratio
    score_signature deviations deviation flattening noisy_or classify contamination threading
    fastener_results finish adjudicator adjudicate cost_triage priced keep sorted_by greatest apply
nominal_passes = refl

ships_only-IsNominal_example :
    ◌≡◌ {A = Bool} true true
    × ((os : List (FastenerOutcome ℤ)) × (score_curves ramp_baseline
            (sorted_by by_position (keep long_enough (ramp ∷ [])))
          ≡ some os)
        × (os ≢ [])
        × All IsNominal os)
    × ((end_of (run nominal_inputs)).triage ≡ some (shipped plant))
    × ((end_of (run nominal_inputs)).status ≡ complete)
ships_only-IsNominal_example =
    ships_only-IsNominal as_is vision_process_context fresh (end_of (run nominal_inputs))
      nominal_inputs nominal_ends nominal_fusion nominal_passes refl

abbrev failed_fusion : FusionVerdict ℤ
failed_fusion = record {
  verdict = defect;
  confidence = dec 95 2;
  severity = critical;
  reasoning = out_of_spec (dec 17 0) 1 (dec 30 0) (dec 40 0);
  primary_signal = process;
  fusion_only = false;
  escalation_reason = none;
}

abbrev failed_triage : TriageResult ℤ
failed_triage = or_else (end_of (run out_of_spec_inputs)).triage (shipped plant)

failed_ends : run out_of_spec_inputs ≡ some (end_of (run out_of_spec_inputs))
unfolding run_inspection ingestion vision process_sentinel score_curves extract_features best_split
    prefix_sums split_sse fit least_squares running sweep total_sum_squares flattening_ratio
    score_signature deviations deviation flattening noisy_or classify contamination threading
    fastener_results finish adjudicator adjudicate cost_triage priced keep sorted_by greatest apply
    triage ranked_rows priced_rows action_costs price expected rework_cost scrap_cost escape_cost
    halt_cost hold_cost reasons needs_human
failed_ends = refl

failed_fuses : (end_of (run out_of_spec_inputs)).fusion ≡ some failed_fusion
unfolding run_inspection ingestion vision process_sentinel score_curves extract_features best_split
    prefix_sums split_sse fit least_squares running sweep total_sum_squares flattening_ratio
    score_signature deviations deviation flattening noisy_or classify contamination threading
    fastener_results finish adjudicator adjudicate cost_triage priced keep sorted_by greatest apply
    triage ranked_rows priced_rows action_costs price expected rework_cost scrap_cost escape_cost
    halt_cost hold_cost reasons needs_human
failed_fuses = refl

failed_triages : (end_of (run out_of_spec_inputs)).triage ≡ some failed_triage
unfolding run_inspection ingestion vision process_sentinel score_curves extract_features best_split
    prefix_sums split_sse fit least_squares running sweep total_sum_squares flattening_ratio
    score_signature deviations deviation flattening noisy_or classify contamination threading
    fastener_results finish adjudicator adjudicate cost_triage priced keep sorted_by greatest apply
    triage ranked_rows priced_rows action_costs price expected rework_cost scrap_cost escape_cost
    halt_cost hold_cost reasons needs_human
failed_triages = refl

reported_cost_example :
    (os : List (FastenerOutcome ℤ)) × (score_curves
        (out_of_spec_inputs).baseline
        (sorted_by by_position (keep long_enough (ramp ∷ [])))
      ≡ some os)
    × (cheapest : ActionCost ℤ) × (others : List (ActionCost ℤ)) × (ranked_rows plant
          (triage_context out_of_spec_inputs (judged out_of_spec_inputs os))
        ≡ cheapest ∷ others)
    × (failed_triage.expected_cost ≡ cheapest.expected_cost)
    × ((is_halt cheapest.action ≡ false) ↔ (failed_triage.recommended ≡ cheapest.action))
reported_cost_example =
    reported_cost as_is vision_process_context fresh (end_of (run out_of_spec_inputs))
      out_of_spec_inputs failed_ends failed_fusion failed_triage failed_fuses failed_triages refl

silent_ends : run silent_inputs ≡ some (end_of (run silent_inputs))
unfolding run_inspection ingestion vision process_sentinel score_curves extract_features best_split
    prefix_sums split_sse fit least_squares running sweep total_sum_squares flattening_ratio
    score_signature deviations deviation flattening noisy_or classify contamination threading
    fastener_results finish adjudicator adjudicate cost_triage priced keep sorted_by greatest apply
    triage ranked_rows priced_rows action_costs price expected rework_cost scrap_cost escape_cost
    halt_cost hold_cost reasons needs_human
silent_ends = refl

rejected_data_accepts_example :
    ((end_of (run silent_inputs)).data_quality ≡ rejected)
    × ((f : FusionVerdict ℤ) × ((end_of (run silent_inputs)).fusion ≡ some f)
        × (f.verdict ≡ escalate))
    × ((r : TriageResult ℤ) × ((end_of (run silent_inputs)).triage ≡ some r)
        × (r.recommended ≡ accept)
        × (r.expected_cost ≼ nought))
unfolding keep
rejected_data_accepts_example =
    rejected_data_accepts fixed-IsOrdered as_is vision_process_context fresh
      (end_of (run silent_inputs)) silent_inputs plant-IsPlant silent_ends refl
