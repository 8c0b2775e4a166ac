-- ===== src/Graph/Nodes.antt =====
-- The nodes of src/forge/agents/graph.py and the graph that joins them. A pydantic ValidationError
-- and an exception of a called function are `none`. `round3` is Python's `round(x, 3)`.
use Prim.Native.String.{[] as no_text, ◌∷◌ as ◌then◌, ◌++◌ as ◌joined◌}
use Prim.Native.Char.{code}
use defect_sense.Prelude.{
  ℕ, String, Bool, true, false, Option, none, some, List, [], ◌∷◌, ◌++◌, ◌>>=◌, ◌&&◌, not, map,
  length, ltb, if◌then◌else◌,
}
use defect_sense.Prelude.Sort.{keep, sorted_by, greatest}
use defect_sense.Enums.{
  good, degraded, rejected, ingestion as ingestion_agent, vision_inspector,
  process_sentinel as process_agent, AgentName, data_quality_degraded,
}
use defect_sense.Float.{Float, nought, unit}
use defect_sense.Torque.{TorqueAngleCurve, SignatureBaseline, DefectClass}
use defect_sense.Torque.Fit.{extract_features}
use defect_sense.Torque.Score.{score_signature}
use defect_sense.Adjudication.{FastenerOutcome, scores_less}
use defect_sense.Graph.{
  VerifierResult, VisionVerdict, InspectionInputs, FastenerResult, ProcessVerdict, SignalRecord,
  QualityReason, too_few_samples, nothing_analysable, SpanError, gate_rejected, no_curves,
  TraceSpan, analyzing, Update, no_update,
}

abbrev pub span : AgentName → TraceSpan
span agent = record { agent = agent; ok = true; retry_count = 0; error = none }

abbrev pub failed_span : AgentName → SpanError → TraceSpan
failed_span agent e = record { agent = agent; ok = false; retry_count = 0; error = some e }

abbrev pub codes : String → List ℕ
codes no_text = []
codes (c then s) = code c ∷ codes s

-- f"{v.name} expected {v.expected} observed {v.observed}"
abbrev pub described : VerifierResult → String
described v =
    v.name joined (" expected " joined (v.expected joined (" observed " joined v.observed)))

-- ", ".join(...)
abbrev pub joined_texts : List String → String
joined_texts [] = no_text
joined_texts (s ∷ []) = s
joined_texts (s ∷ t ∷ ss) = s joined (", " joined joined_texts (t ∷ ss))

abbrev pub verifier_detail : List VerifierResult → List ℕ
verifier_detail vs = codes (joined_texts (map described (keep (λ v. not v.passed) vs)))

module _ {N : Type 0} ⦃F : Float N⦄ where
  abbrev pub long_enough : TorqueAngleCurve N → Bool
  long_enough c = not (ltb (length c.samples) 10)

  abbrev pub short_reasons : List (TorqueAngleCurve N) → List QualityReason
  short_reasons curves =
      map (λ c. too_few_samples c.fastener_position) (keep (λ c. ltb (length c.samples) 10) curves)

  abbrev pub gate : List (TorqueAngleCurve N) → List QualityReason → Update N
  gate [] reasons = record no_update {
    data_quality = some (rejected, reasons ++ (nothing_analysable ∷ []));
    status = some analyzing;
    trace = failed_span ingestion_agent gate_rejected ∷ [];
  }
  gate (c ∷ cs) [] = record no_update {
    data_quality = some (good, []);
    status = some analyzing;
    trace = span ingestion_agent ∷ [];
  }
  gate (c ∷ cs) (r ∷ rs) = record no_update {
    data_quality = some (degraded, r ∷ rs);
    status = some analyzing;
    trace = span ingestion_agent ∷ [];
    degradations = data_quality_degraded ∷ [];
  }

  unfoldable pub ingestion : InspectionInputs N → Update N × InspectionInputs N
  ingestion inputs =
      let valid = keep long_enough inputs.curves in
      (gate valid (short_reasons inputs.curves), record inputs { curves = valid })

  -- Annotated[float, Field(ge=0.0, le=1.0)]
  abbrev pub checked_score : N → Option N
  checked_score x = if F.le nought x && F.le x unit then some x else none

  abbrev pub own_vision : InspectionInputs N → VisionVerdict N
  own_vision inputs = record {
    anomaly_score = if inputs.verifiers_passed then nought else unit;
    confidence = F.decimal 99 2;
    frames_evaluated = 1;
    frames_anomalous = if inputs.verifiers_passed then 0 else 1;
    temporal_consensus = true;
    verifiers = inputs.verifier_results;
  }

  abbrev pub vision_verdict : InspectionInputs N → Option (VisionVerdict N)
  vision_verdict inputs = elim inputs.custom_vision_verdict [
    | some given ↦ some given
    | none ↦ (do
      score ← checked_score (own_vision inputs).anomaly_score
      confidence ← checked_score (own_vision inputs).confidence
      some (own_vision inputs))
  ]

  unfoldable pub vision : InspectionInputs N → Option (Update N)
  vision inputs = do
    verdict ← vision_verdict inputs
    some (record no_update { vision = some verdict; trace = span vision_inspector ∷ [] })

  -- sorted(inputs.curves, key=lambda c: c.fastener_position)
  abbrev pub by_position : TorqueAngleCurve N → TorqueAngleCurve N → Bool
  by_position c d = ltb c.fastener_position d.fastener_position

  unfoldable pub score_curves :
      SignatureBaseline N → List (TorqueAngleCurve N) → Option (List (FastenerOutcome N))
  score_curves b [] = some []
  score_curves b (c ∷ cs) = do
    features ← extract_features c
    signature ← score_signature features b (F.decimal 45 2)
    rest ← score_curves b cs
    some (record { position = c.fastener_position; signature = signature } ∷ rest)

  abbrev pub first_class : List (DefectClass × N) → Option DefectClass
  first_class [] = none
  first_class ((c, x) ∷ cs) = some c

  abbrev pub fastener_result : FastenerOutcome N → FastenerResult N
  fastener_result o = record {
    position = o.position;
    final_torque_nm = o.signature.features.final_torque_nm;
    knee_angle_deg = o.signature.features.knee_angle_deg;
    elastic_slope_nm_per_deg = o.signature.features.elastic_slope_nm_per_deg;
    anomaly_score = o.signature.anomaly_score;
    endpoint_in_spec = o.signature.endpoint_in_spec;
    signature_anomalous = o.signature.signature_anomalous;
    deviations = o.signature.deviations;
    likely_class = first_class o.signature.ranked_classes;
  }

  unfoldable pub fastener_results : List (FastenerOutcome N) → Option (List (FastenerResult N))
  fastener_results [] = some []
  fastener_results (o ∷ os) = do
    score ← checked_score o.signature.anomaly_score
    rest ← fastener_results os
    some (fastener_result o ∷ rest)

  abbrev pub process_verdict :
      FastenerOutcome N → List (FastenerOutcome N) → Option (ProcessVerdict N)
  process_verdict o os = do
    let worst = greatest scores_less o os
    fasteners ← fastener_results (o ∷ os)
    score ← checked_score worst.signature.anomaly_score
    confidence ← checked_score (F.decimal 95 2)
    some (record { fasteners = fasteners; anomaly_score = score; confidence = confidence })

  module _ (round3 : N → N) where
    abbrev pub signal_of : TorqueAngleCurve N → SignalRecord N
    signal_of c = record {
      position = c.fastener_position;
      samples = map (λ s. (round3 s.angle_deg, round3 s.torque_nm)) c.samples;
    }

    abbrev pub process_update :
        List (TorqueAngleCurve N) → List (FastenerOutcome N) → Option (Update N)
    process_update curves [] =
        some (record no_update { trace = failed_span process_agent no_curves ∷ [] })
    process_update curves (o ∷ os) = do
      verdict ← process_verdict o os
      some (record no_update {
        process = some verdict;
        signals = some (map signal_of curves);
        trace = span process_agent ∷ [];
      })

    -- `inputs.outcomes = outcomes`, on the shared object
    abbrev pub remember :
        InspectionInputs N
        → List (FastenerOutcome N)
        → Update N
        → Option (Update N × InspectionInputs N)
    remember inputs outcomes update = some (update, record inputs { outcomes = outcomes })

    unfoldable pub process_sentinel : InspectionInputs N → Option (Update N × InspectionInputs N)
    process_sentinel inputs = do
      let curves = sorted_by by_position inputs.curves
      outcomes ← score_curves inputs.baseline curves
      update ← process_update curves outcomes
      remember inputs outcomes update
