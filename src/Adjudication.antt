-- ===== src/Adjudication.antt =====
-- src/forge/domain/adjudication.py: the reconciliation of the signals into one verdict. A reasoning
-- text is the choice of its template with the values that are put into it.
pub mod Verdicts
pub mod Confidence
mod Examples
use defect_sense.Prelude.{
  ℕ, Bool, true, false, Option, none, some, List, [], ◌∷◌, ◌&&◌, not, length, if◌then◌else◌,
}
use defect_sense.Prelude.Sort.{keep, every, greatest}
use defect_sense.Enums.{
  Severity, critical, major, minor, Verdict, pass, defect, escalate, SignalKind, vision, process,
  fusion, no_signal,
}
use defect_sense.Float.{Float, ◌⊕◌, ◌⊗◌, nought, min_of}
use defect_sense.Torque.{SignatureBaseline, SignatureVerdict, fusion_only, severity}

abbrev pub is_pass : Verdict → Bool
is_pass pass = true
is_pass _ = false

module _ (N : Type 0) where
  pub record FastenerOutcome : Type 0 where
    pub position : ℕ
    pub signature : SignatureVerdict N

  pub data Reason : Type 0 where
    no_signals : Reason
    verifier_failed : List ℕ → Reason
    shape_off : N → ℕ → N → N → N → N → Reason
    out_of_spec : N → ℕ → N → N → Reason
    ambiguous : ℕ → N → Reason
    nominal : ℕ → Reason

  pub record Adjudication : Type 0 where
    pub verdict : Verdict
    pub severity : Severity
    pub confidence : N
    pub primary_signal : SignalKind
    pub reasoning : Reason
    pub fusion_only : Bool
    pub signals_conflict : Bool

module _ {N : Type 0} ⦃F : Float N⦄ where
  abbrev pub outcome_fusion_only : FastenerOutcome N → Bool
  outcome_fusion_only o = fusion_only o.signature

  abbrev pub anomalous : FastenerOutcome N → Bool
  anomalous o = o.signature.signature_anomalous

  abbrev pub in_spec : FastenerOutcome N → Bool
  in_spec o = o.signature.endpoint_in_spec

  abbrev pub out_of_band : FastenerOutcome N → Bool
  out_of_band o = not (in_spec o)

  -- key=lambda o: o.signature.anomaly_score
  abbrev pub scores_less : FastenerOutcome N → FastenerOutcome N → Bool
  scores_less o p = F.lt o.signature.anomaly_score p.signature.anomaly_score

  unfoldable pub absent : Adjudication N
  absent = record {
    verdict = escalate;
    severity = major;
    confidence = nought;
    primary_signal = no_signal;
    reasoning = no_signals;
    fusion_only = false;
    signals_conflict = false;
  }

  unfoldable pub failed_verifier : List ℕ → Adjudication N
  failed_verifier detail = record {
    verdict = defect;
    severity = critical;
    confidence = F.decimal 99 2;
    primary_signal = vision;
    reasoning = verifier_failed detail;
    fusion_only = false;
    signals_conflict = false;
  }

  abbrev pub fused_confidence : N → N
  fused_confidence score = min_of (F.decimal 60 2 ⊕ score ⊗ F.decimal 35 2) (F.decimal 97 2)

  unfoldable pub fused : FastenerOutcome N → SignatureBaseline N → Adjudication N
  fused worst b = record {
    verdict = defect;
    severity = critical;
    confidence = fused_confidence worst.signature.anomaly_score;
    primary_signal = fusion;
    reasoning =
        shape_off worst.signature.features.final_torque_nm worst.position
          worst.signature.features.elastic_slope_nm_per_deg b.elastic_slope_nm_per_deg
          worst.signature.features.knee_angle_deg b.knee_angle_deg;
    fusion_only = true;
    signals_conflict = true;
  }

  unfoldable pub endpoint_bad : FastenerOutcome N → SignatureBaseline N → Adjudication N
  endpoint_bad bad b = record {
    verdict = defect;
    severity = critical;
    confidence = F.decimal 95 2;
    primary_signal = process;
    reasoning =
        out_of_spec bad.signature.features.final_torque_nm bad.position b.spec_lo_nm b.spec_hi_nm;
    fusion_only = false;
    signals_conflict = false;
  }

  unfoldable pub undecided : FastenerOutcome N → Adjudication N
  undecided worst = record {
    verdict = escalate;
    severity = severity worst.signature;
    confidence = F.decimal 45 2 ⊕ worst.signature.anomaly_score ⊗ F.decimal 20 2;
    primary_signal = process;
    reasoning = ambiguous worst.position worst.signature.anomaly_score;
    fusion_only = false;
    signals_conflict = true;
  }

  unfoldable pub nominal_unit : ℕ → Adjudication N
  nominal_unit n = record {
    verdict = pass;
    severity = minor;
    confidence = F.decimal 94 2;
    primary_signal = fusion;
    reasoning = nominal n;
    fusion_only = false;
    signals_conflict = false;
  }

  -- `if fusion`, `if not endpoints_ok` with its `next(...)`, and `if anomalous`: each branch has the
  -- list that it is about, and what the code does when the list is empty.
  abbrev pub fusion_branch :
      List (FastenerOutcome N) → SignatureBaseline N → Adjudication N → Adjudication N
  fusion_branch [] b otherwise = otherwise
  fusion_branch (o ∷ os) b otherwise = fused (greatest scores_less o os) b

  abbrev pub endpoint_branch :
      List (FastenerOutcome N) → SignatureBaseline N → Adjudication N → Adjudication N
  endpoint_branch [] b otherwise = otherwise
  endpoint_branch (o ∷ os) b otherwise = endpoint_bad o b

  abbrev pub anomaly_branch : List (FastenerOutcome N) → Adjudication N → Adjudication N
  anomaly_branch [] otherwise = otherwise
  anomaly_branch (o ∷ os) otherwise = undecided (greatest scores_less o os)

  unfoldable pub adjudicate :
      List (FastenerOutcome N) → SignatureBaseline N → Bool → List ℕ → Adjudication N
  unfolding absent failed_verifier fused endpoint_bad undecided nominal_unit
  adjudicate [] b verifiers_passed detail = absent
  adjudicate (o ∷ os) b verifiers_passed detail =
      let outcomes = o ∷ os in
      if not verifiers_passed
      then failed_verifier detail
      else fusion_branch (keep outcome_fusion_only outcomes) b (
          endpoint_branch (keep out_of_band outcomes) b
            (anomaly_branch (keep anomalous outcomes) (nominal_unit (length outcomes))))

  -- `and in the band`: HITL_CONFIDENCE_BAND = (0.45, 0.70)
  abbrev pub in_band : N → Bool
  in_band confidence = F.le (F.decimal 45 2) confidence && F.le confidence (F.decimal 70 2)

  -- The explanation is empty (`none`), or the one that quotes the confidence.
  unfoldable pub needs_human : Adjudication N → Bool → Bool × Option N
  needs_human a triage_requires_human =
      if triage_requires_human
      then (true, none)
      else if not (is_pass a.verdict) && in_band a.confidence
      then (true, some a.confidence)
      else (false, none)
