-- ===== src/Inspect.antt =====
-- The inspection service of src/forge/application/usecases/inspect.py, which has a gate and an
-- adjudication of its own. Texts, identifiers, spans and times are left out. An exception of a called
-- function, and `max` or `next` on nothing, are `none`.
pub mod Agreement
pub mod Shipping
mod Examples
use defect_sense.Prelude.{
  ℕ, Bool, true, false, Option, none, some, List, [], ◌∷◌, ◌++◌, ◌>>=◌, ◌&&◌, ◌||◌, not,
  if◌then◌else◌,
}
use defect_sense.Prelude.Sort.{keep, every, some_of, greatest, sorted_by}
use defect_sense.Enums.{
  Severity, critical, major, minor, Verdict, pass, defect, escalate, SignalKind, vision, process,
  fusion, no_signal, Disposition, accept, quarantine, DataQuality, good, degraded, rejected,
}
use defect_sense.Float.{Float, ◌⊕◌, ◌⊗◌, nought}
use defect_sense.Torque.{TorqueAngleCurve, SignatureBaseline, severity}
use defect_sense.Torque.Curve.{TorqueCurveError, post_init}
use defect_sense.Adjudication.{
  FastenerOutcome, outcome_fusion_only, anomalous, in_spec, out_of_band, scores_less,
  fused_confidence, is_pass, in_band,
}
use defect_sense.Cost.{CostModel, TriageContext, TriageDecision, ActionCost, default_triage}
use defect_sense.Graph.{HumanText, silent, quotes, rejected_by_gate}
use defect_sense.Graph.Nodes.{score_curves, by_position}
use defect_sense.Graph.Run.{is_critical, human_text}

module _ (N : Type 0) where
  pub record Ruling : Type 0 where
    pub verdict : Verdict
    pub severity : Severity
    pub confidence : N
    pub primary_signal : SignalKind

module _ {N : Type 0} ⦃F : Float N⦄ where
  -- max(os, key=lambda o: o.signature.anomaly_score)
  abbrev pub worst_of : List (FastenerOutcome N) → Option (FastenerOutcome N)
  worst_of [] = none
  worst_of (o ∷ os) = some (greatest scores_less o os)

  abbrev pub first_of : List (FastenerOutcome N) → Option (FastenerOutcome N)
  first_of [] = none
  first_of (o ∷ os) = some o

  abbrev pub ruling : Verdict → Severity → N → SignalKind → Ruling N
  ruling v s c k = record { verdict = v; severity = s; confidence = c; primary_signal = k }

  -- `if anomalous`
  abbrev pub rule_anomalous : Option (FastenerOutcome N) → Ruling N
  rule_anomalous none = ruling pass minor (F.decimal 94 2) fusion
  rule_anomalous (some worst) =
      ruling escalate (severity worst.signature)
        (F.decimal 45 2 ⊕ worst.signature.anomaly_score ⊗ F.decimal 20 2) process

  -- `if fusion`, and what follows it
  abbrev pub rule_fusion : Option (FastenerOutcome N) → Option (Ruling N) → Option (Ruling N)
  rule_fusion none otherwise = otherwise
  rule_fusion (some worst) otherwise =
      some (ruling defect critical (fused_confidence worst.signature.anomaly_score) fusion)

  -- `_adjudicate`
  unfoldable pub service_adjudicate : List (FastenerOutcome N) → Bool → Bool → Option (Ruling N)
  service_adjudicate outcomes verifiers_passed endpoints_ok =
      if not verifiers_passed
      then (worst_of outcomes >>= λ worst. some (ruling defect critical (F.decimal 99 2) vision))
      else rule_fusion (worst_of (keep outcome_fusion_only outcomes)) (
          if not endpoints_ok
          then (first_of (keep out_of_band outcomes) >>= λ bad.
              some (ruling defect critical (F.decimal 95 2) process))
          else some (rule_anomalous (worst_of (keep anomalous outcomes))))

module _ (N : Type 0) where
  pub data GateReason : Type 0 where
    malformed : ℕ → TorqueCurveError N → GateReason
    nothing_left : GateReason

  pub record InspectionResult : Type 0 where
    pub ruling : Ruling N
    pub fusion_only : Bool
    pub fasteners : List (FastenerOutcome N)
    pub disposition : Disposition
    pub expected_cost : N
    pub cost_low : N
    pub cost_high : N
    pub requires_human : Bool
    pub human_reason : HumanText N
    pub data_quality : DataQuality
    pub data_quality_reasons : List GateReason

module _ {N : Type 0} ⦃F : Float N⦄ where
  -- A TorqueCurveError is a reason, and leaves the curve out.
  abbrev pub sift :
      Option (TorqueCurveError N)
      → TorqueAngleCurve N
      → List (TorqueAngleCurve N) × List (GateReason N)
      → List (TorqueAngleCurve N) × List (GateReason N)
  sift none c rest = (c ∷ rest.0, rest.1)
  sift (some e) c rest = (rest.0, malformed c.fastener_position e ∷ rest.1)

  -- The gate makes each curve anew.
  unfoldable pub gate_curves :
      (N → Bool) → List (TorqueAngleCurve N) → List (TorqueAngleCurve N) × List (GateReason N)
  gate_curves is_finite [] = ([], [])
  gate_curves is_finite (c ∷ cs) = sift (post_init is_finite c.samples) c (gate_curves is_finite cs)

  abbrev pub quality_of : List (GateReason N) → DataQuality
  quality_of [] = good
  quality_of (r ∷ rs) = degraded

  -- `_rejected`
  abbrev pub rejected_result : List (GateReason N) → InspectionResult N
  rejected_result reasons = record {
    ruling = ruling escalate major nought no_signal;
    fusion_only = false;
    fasteners = [];
    disposition = quarantine;
    expected_cost = nought;
    cost_low = nought;
    cost_high = nought;
    requires_human = true;
    human_reason = rejected_by_gate;
    data_quality = rejected;
    data_quality_reasons = reasons ++ (nothing_left ∷ []);
  }

  -- The result with the costs and the requests for a human; the band asks where the triage does not.
  abbrev pub result_with :
      List (FastenerOutcome N)
      → Bool
      → List (GateReason N)
      → Ruling N
      → Disposition
      → N
      → N
      → N
      → Bool
      → HumanText N
      → InspectionResult N
  result_with outcomes verifiers_passed reasons r disposition cost low high wants why =
      let band = not (is_pass r.verdict) && in_band r.confidence in
      record {
        ruling = r;
        fusion_only = some_of outcome_fusion_only outcomes && verifiers_passed;
        fasteners = outcomes;
        disposition = disposition;
        expected_cost = cost;
        cost_low = low;
        cost_high = high;
        requires_human = wants || band;
        human_reason = if not wants && band then quotes r.confidence else why;
        data_quality = quality_of reasons;
        data_quality_reasons = reasons;
      }

  abbrev pub service_context : Ruling N → ℕ → N → TriageContext N
  service_context r scope hours = record {
    defect_probability = r.confidence;
    probability_uncertainty = F.decimal 6 2;
    severity = r.severity;
    containment_scope = scope;
    expected_halt_hours = hours;
    is_safety_critical = is_critical r.severity;
  }

  abbrev pub priced_result :
      List (FastenerOutcome N)
      → Bool
      → List (GateReason N)
      → Ruling N
      → TriageDecision N
      → List (ActionCost N)
      → Option (InspectionResult N)
  priced_result outcomes v reasons r d [] = none
  priced_result outcomes v reasons r d (best ∷ others) = some (
      result_with outcomes v reasons r d.recommended best.expected_cost best.cost_low best.cost_high
        d.requires_human (human_text d.human_reason none))

  unfoldable pub conclude :
      CostModel N
      → ℕ
      → N
      → Bool
      → List (GateReason N)
      → List (FastenerOutcome N)
      → Ruling N
      → Option (InspectionResult N)
  conclude m scope hours v reasons outcomes r =
      if is_pass r.verdict
      then some (result_with outcomes v reasons r accept nought nought nought false silent)
      else (default_triage m (service_context r scope hours) >>= λ d.
          priced_result outcomes v reasons r d d.ranked)

  abbrev pub after_gate :
      SignatureBaseline N
      → CostModel N
      → ℕ
      → N
      → Bool
      → List (TorqueAngleCurve N)
      → List (GateReason N)
      → Option (InspectionResult N)
  after_gate b m scope hours v [] reasons = some (rejected_result reasons)
  after_gate b m scope hours v (c ∷ cs) reasons = do
    outcomes ← score_curves b (sorted_by by_position (c ∷ cs))
    worst ← worst_of outcomes
    r ← service_adjudicate outcomes v (every in_spec outcomes)
    conclude m scope hours v reasons outcomes r

  unfoldable pub inspect :
      (N → Bool)
      → SignatureBaseline N
      → CostModel N
      → ℕ
      → N
      → Bool
      → List (TorqueAngleCurve N)
      → Option (InspectionResult N)
  inspect is_finite b m scope hours v curves =
      let (valid, reasons) = gate_curves is_finite curves in
      after_gate b m scope hours v valid reasons
