-- ===== src/Api/Creation.antt =====
-- `create_inspection` of apps/api/main.py up to the run of the verdict graph. The curves that
-- `generate_wheel` draws for its labels and a seed are a function that is an argument, as is the text of a
-- unit's number. FastAPI has validated the request, whose seed only the generator reads, and whose type of
-- component only a text.
use text.Mathlib.Text.{◌==◌ as str_eq}
use defect_sense.Prelude.{
  ℕ, ◌+◌, ◌⊎◌, inl, inr, String, Bool, true, false, Option, none, some, List, [], ◌∷◌, not, ◌>>=◌,
  ◌==◌, if◌then◌else◌,
}
use defect_sense.Prelude.Sort.{keep}
use defect_sense.Enums.{Role, llm}
use defect_sense.Float.{Float, nought}
use defect_sense.Torque.{TorqueAngleCurve}
use defect_sense.Cost.{CostModel}
use defect_sense.Auth.{RbacMatrix, require}
use defect_sense.Provenance.{Provenance, Dishonesty, given_by, construct}
use defect_sense.Graph.{QcState, VerifierResult, VisionVerdict, InspectionInputs, fresh}
use defect_sense.Graph.Nodes.{checked_score}
use defect_sense.Graph.Run.{Arrival, run_inspection}
use defect_sense.Api.{
  InspectionState, InspectionView, Process, InspectionRepository, default_station_id,
}
use defect_sense.Api.Writes.{Effect, publish}

pub data Scenario : Type 0 where
  clean thread_contamination cross_threading : Scenario
  over_torque under_torque missing_fastener : Scenario

-- data/generators/torque_curve.py
pub data CurveClass : Type 0 where
  clean thread_contamination cross_threading over_torque under_torque : CurveClass

pub record InspectRequest : Type 0 where
  pub scenario : Scenario
  pub position : ℕ
  pub containment_scope : ℕ
  pub image_data_uri : Option String

-- `if request.image_data_uri`
abbrev pub has_image : Option String → Bool
has_image none = false
has_image (some uri) = not (str_eq uri "")

abbrev pub is_missing : Scenario → Bool
is_missing missing_fastener = true
is_missing _ = false

abbrev pub is_clean : Scenario → Bool
is_clean clean = true
is_clean _ = false

abbrev pub result_of : String → Bool → String → String → VerifierResult
result_of name passed expected observed = record {
  name = name;
  passed = passed;
  expected = expected;
  observed = observed;
}

abbrev pub verifiers_of : Bool → List VerifierResult
verifiers_of true = result_of "fastener_count" false "5" "4" ∷ []
verifiers_of false =
    result_of "fastener_count" true "5" "5"
    ∷ result_of "bolt_circle_diameter" true "120.0mm" "120.0mm"
    ∷ result_of "angular_spacing" true "72.0deg" "72.0deg"
    ∷ result_of "tpms_present" true "present" "present"
    ∷ []

-- 403, an exception that no handler answers, and the view.
pub data Created (N : Type 0) : Type 0 where
  denied internal_error : Created N
  created : InspectionView N → Created N

-- What the request does not determine: the identifier, the two readings of the clock, the latencies of
-- the trace, and the order in which the specialists end.
pub record Circumstances (N : Type 0) : Type 0 where
  pub correlation_id : String
  pub created_at : ℕ
  pub assigned_at : ℕ
  pub total_latency_ms : N
  pub arrival : Arrival

module _ {N : Type 0} ⦃F : Float N⦄ where
  -- SCENARIOS[scenario], which has no entry for `under_torque`
  abbrev pub label_of : Scenario → Option (CurveClass × N)
  label_of clean = some (CurveClass.clean, nought)
  label_of thread_contamination = some (CurveClass.thread_contamination, F.decimal 8 1)
  label_of cross_threading = some (CurveClass.cross_threading, F.decimal 8 1)
  label_of over_torque = some (CurveClass.over_torque, F.decimal 9 1)
  label_of under_torque = none
  label_of missing_fastener = some (CurveClass.clean, nought)

  abbrev pub labels_at : ℕ → CurveClass × N → Option (ℕ × CurveClass × N)
  labels_at position (clean, severity) = none
  labels_at position (label, severity) = some (position, label, severity)

  -- [c for c in curves if c.fastener_position != position]
  abbrev pub without : ℕ → List (TorqueAngleCurve N) → List (TorqueAngleCurve N)
  without position curves = keep (λ c. not (c.fastener_position == position)) curves

  abbrev pub wheel_cost_model : CostModel N
  wheel_cost_model = record {
    unit_material_cost = F.decimal 8_000 0;
    rework_minutes = F.decimal 16 0;
    labour_rate_per_hour = F.decimal 2_250 0;
    rework_parts_cost = F.decimal 2_600 0;
    line_rate_units_per_hour = F.decimal 60 0;
    margin_per_unit = F.decimal 3_500 0;
    field_failure_rate = F.decimal 8 2;
    warranty_cost_per_failure = F.decimal 45_000 0;
    recall_exposure_per_unit = F.decimal 120_000 0;
    inspection_cost_per_unit = F.decimal 150 0;
    currency = "INR";
  }

  -- The attribution of the verdict on an uploaded image.
  abbrev pub upload_provenance : Provenance N
  upload_provenance = given_by llm "vlm_vision_inspector" none (some 145)

  abbrev pub upload_verdict : Scenario → List VerifierResult → VisionVerdict N
  upload_verdict scenario verifiers = record {
    anomaly_score = if is_clean scenario then F.decimal 5 2 else F.decimal 85 2;
    confidence = F.decimal 95 2;
    frames_evaluated = 1;
    frames_anomalous = if is_clean scenario then 0 else 1;
    temporal_consensus = true;
    verifiers = verifiers;
  }

  -- VisionVerdict(...): its attribution is made first, then its scores are checked.
  abbrev pub attributed : Dishonesty ⊎ Provenance N → VisionVerdict N → Option (VisionVerdict N)
  attributed (inl fault) verdict = none
  attributed (inr provenance) verdict = do
    anomaly_score ← checked_score verdict.anomaly_score
    confidence ← checked_score verdict.confidence
    some verdict

  unfoldable pub custom_vision :
      InspectRequest → List VerifierResult → Option (Option (VisionVerdict N))
  unfolding construct
  custom_vision request verifiers =
      let made =
        attributed (construct upload_provenance) (upload_verdict request.scenario verifiers) in
      if has_image request.image_data_uri
      then elim made [ none ↦ none | some verdict ↦ some (some verdict) ]
      else some none

module _ {N H : Type 0} ⦃F : Float N⦄ (round : ℕ → N → N) (repository : InspectionRepository N H)
    (generate_wheel : Option (ℕ × CurveClass × N) → List (TorqueAngleCurve N))
    (unit_id : ℕ → String) where
  abbrev pub inputs_with :
      InspectRequest → Process N H → CurveClass × N → Option (VisionVerdict N) → InspectionInputs N
  inputs_with request p label seen =
      let missing = is_missing request.scenario in
      let curves = generate_wheel (labels_at request.position label) in
      record {
        curves = if missing then without request.position curves else curves;
        baseline = p.baseline;
        cost_model = wheel_cost_model;
        verifiers_passed = not missing;
        verifier_results = verifiers_of missing;
        containment_scope = request.containment_scope;
        expected_halt_hours = F.decimal 24 1;
        custom_vision_verdict = seen;
        outcomes = [];
        adjudication = none;
      }

  unfoldable pub inputs_of : InspectRequest → Process N H → Option (InspectionInputs N)
  unfolding custom_vision
  inputs_of request p = do
    label ← label_of request.scenario
    seen ← custom_vision request (verifiers_of (is_missing request.scenario))
    some (inputs_with request p label seen)

  abbrev pub state_of : Circumstances N → ℕ → QcState N → InspectionState N
  state_of world n channels = record {
    correlation_id = world.correlation_id;
    unit_id = unit_id n;
    pack_id = "wheel_assembly";
    station_id = default_station_id;
    is_synthetic = true;
    created_at = world.created_at;
    total_latency_ms = world.total_latency_ms;
    channels = channels;
  }

  abbrev pub counted : Process N H → Process N H
  counted p = record p { unit_counter = p.unit_counter + 1 }

  abbrev pub published :
      Circumstances N → Option (QcState N) → Process N H → Created N × (List Effect × Process N H)
  published world none p = (internal_error, ([], p))
  published world (some channels) p =
      let (view, done) =
        publish round repository world.assigned_at (state_of world p.unit_counter channels) p in
      (created view, done)

  unfoldable pub create_inspection :
      RbacMatrix
      → Role
      → Circumstances N
      → InspectRequest
      → Process N H
      → Created N × (List Effect × Process N H)
  unfolding inputs_of
  create_inspection m role world request p =
      if require m role "inspection:create"
      then published world (inputs_of request p >>= run_inspection (round 3) world.arrival fresh)
          (counted p)
      else (denied, ([], p))
