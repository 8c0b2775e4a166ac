-- ===== src/Api/Created/Examples.antt =====
-- A request for a clean wheel of one bolt, and the attributions that go with it.
use defect_sense.Prelude.{
  ℕ, ◌≡◌, ◌≢◌, ◌↔◌, ◌⊎◌, refl, String, true, false, Option, none, some, List, [], ◌∷◌, All,
}
use defect_sense.Prelude.Sort.{keep, sorted_by, greatest, some_of}
use defect_sense.Prelude.Int.{ℤ}
use defect_sense.Enums.{qa, pass}
use defect_sense.Float.Fixed.{fixed, fixed-IsOrdered}
use defect_sense.Torque.{TorqueAngleCurve}
use defect_sense.Torque.Fit.{
  running, prefix_sums, least_squares, fit, total_sum_squares, split_sse, sweep, best_split,
  flattening_ratio, extract_features,
}
use defect_sense.Torque.Score.{score_signature, deviations, deviation, flattening, noisy_or}
use defect_sense.Torque.Classify.{classify, contamination, threading}
use defect_sense.Adjudication.{FastenerOutcome, adjudicate}
use defect_sense.Adjudication.Verdicts.{IsNominal}
use defect_sense.Auth.{allows, config_of}
use defect_sense.Graph.{apply}
use defect_sense.Graph.Nodes.{
  score_curves, by_position, long_enough, ingestion, vision, process_sentinel, fastener_results,
}
use defect_sense.Graph.Run.{
  vision_process_context, run_inspection, finish, adjudicator, cost_triage, priced,
}
use defect_sense.Graph.Examples.{ramp, ramp_baseline, always, ramp_valid}
use defect_sense.Api.{InspectionView, Process, view_from_state}
use defect_sense.Api.Writes.{publish}
use defect_sense.Api.Samples.{round, form, started, matrix, dec, Records}
use defect_sense.Api.Repository.{in_memory}
use defect_sense.Api.Creation.{
  clean, under_torque, missing_fastener, CurveClass, InspectRequest, has_image, Created,
  internal_error, created, Circumstances, custom_vision, inputs_of, create_inspection, label_of,
  labels_at,
}
use defect_sense.Api.Created.{creates_exactly_when, creates_pass-IsNominal}

-- Each wheel has one bolt, with the same curve.
abbrev one_bolt : Option (ℕ × CurveClass × ℤ) → List (TorqueAngleCurve ℤ)
one_bolt labels = ramp ∷ []

abbrev numbered : ℕ → String
numbered n = "VIN-SYN-00001"

abbrev clean_request : InspectRequest
clean_request = record {
  scenario = clean;
  position = 3;
  containment_scope = 12;
  image_data_uri = none;
}

abbrev world : Circumstances ℤ
world = record {
  correlation_id = "insp-1";
  created_at = 7;
  assigned_at = 8;
  total_latency_ms = dec 4;
  arrival = vision_process_context;
}

abbrev learned : Process ℤ Records
learned = record started { baseline = ramp_baseline }

creates_exactly_when_example :
    let outcome =
      (create_inspection round
        (in_memory form)
        one_bolt
        numbered
        matrix
        qa
        world
        clean_request
        learned).0 in
    (((view : InspectionView ℤ) × (outcome ≡ created view)) ↔ (
      (clean_request.scenario ≢ under_torque) × (has_image clean_request.image_data_uri ≡ false)))
    × ((outcome ≡ internal_error) ↔ (
        (clean_request.scenario ≡ under_torque) ⊎ (has_image clean_request.image_data_uri ≡ true)))
unfolding allows config_of some_of
creates_exactly_when_example =
    creates_exactly_when fixed-IsOrdered always round (in_memory form) one_bolt numbered matrix qa
      world clean_request learned (λ labels. (ramp_valid, tt)) refl

abbrev outcome : Created ℤ
outcome =
    (create_inspection round (in_memory form) one_bolt numbered matrix qa world clean_request
      learned).0

-- The clean wheel is created.
clean_view : (view : InspectionView ℤ) × (outcome ≡ created view) × (view.verdict ≡ pass)
unfolding create_inspection inputs_of publish allows config_of some_of run_inspection ingestion
    vision process_sentinel score_curves extract_features best_split prefix_sums split_sse fit
    least_squares running sweep total_sum_squares flattening_ratio score_signature deviations
    deviation flattening noisy_or classify contamination threading fastener_results finish
    adjudicator adjudicate cost_triage priced keep sorted_by greatest apply view_from_state
    custom_vision
clean_view = (_, refl, refl)

creates_pass-IsNominal_example :
    (clean_request.scenario ≢ missing_fastener)
    × ((label : CurveClass × ℤ) × (os : List (FastenerOutcome ℤ)) × (label_of clean_request.scenario
          ≡ some label)
        × (score_curves ramp_baseline (
              sorted_by by_position
                (keep long_enough (one_bolt (labels_at clean_request.position label))))
            ≡ some os)
        × (os ≢ [])
        × All IsNominal os)
creates_pass-IsNominal_example =
    creates_pass-IsNominal round (in_memory form) one_bolt numbered matrix qa world clean_request
      learned clean_view.0 clean_view.1 clean_view.2
