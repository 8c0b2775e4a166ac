-- ===== src/Graph.antt =====
-- src/forge/agents/graph.py: the data of one inspection run. Of QCState (src/forge/domain/state.py)
-- the channels that the verdict graph writes are modelled. Left out are display texts, identifiers,
-- times and provenance, and the scores of a record are those that its validators check.
pub mod Nodes
pub mod Run
pub mod Order
pub mod Total
pub mod Outcome
pub mod Decisions
pub mod Examples
use defect_sense.Prelude.{
  ℕ, String, Bool, true, false, Option, none, some, List, [], ◌∷◌, ◌++◌, ◌&&◌,
}
use defect_sense.Enums.{
  Severity, Verdict, Disposition, SignalKind, DataQuality, AgentName, DegradationKind, good,
}
use defect_sense.Float.{Float, nought, unit}
use defect_sense.Torque.{TorqueAngleCurve, SignatureBaseline, DefectClass, Deviation}
use defect_sense.Adjudication.{FastenerOutcome, Adjudication, Reason}
use defect_sense.Cost.{CostModel, HumanReason}

pub record VerifierResult : Type 0 where
  pub name : String
  pub passed : Bool
  pub expected : String
  pub observed : String

module _ (N : Type 0) where
  pub record VisionVerdict : Type 0 where
    pub anomaly_score : N
    pub confidence : N
    pub frames_evaluated : ℕ
    pub frames_anomalous : ℕ
    pub temporal_consensus : Bool
    pub verifiers : List VerifierResult

  pub record InspectionInputs : Type 0 where
    pub curves : List (TorqueAngleCurve N)
    pub baseline : SignatureBaseline N
    pub cost_model : CostModel N
    pub verifiers_passed : Bool
    pub verifier_results : List VerifierResult
    pub containment_scope : ℕ
    pub expected_halt_hours : N
    pub custom_vision_verdict : Option (VisionVerdict)
    pub outcomes : List (FastenerOutcome N)
    pub adjudication : Option (Adjudication N)

  pub record FastenerResult : Type 0 where
    pub position : ℕ
    pub final_torque_nm : N
    pub knee_angle_deg : N
    pub elastic_slope_nm_per_deg : N
    pub anomaly_score : N
    pub endpoint_in_spec : Bool
    pub signature_anomalous : Bool
    pub deviations : List (Deviation N)
    pub likely_class : Option DefectClass

  pub record ProcessVerdict : Type 0 where
    pub fasteners : List FastenerResult
    pub anomaly_score : N
    pub confidence : N

  pub record SignalRecord : Type 0 where
    pub position : ℕ
    pub samples : List (N × N)

  pub record FusionVerdict : Type 0 where
    pub verdict : Verdict
    pub confidence : N
    pub severity : Severity
    pub reasoning : Reason N
    pub primary_signal : SignalKind
    pub fusion_only : Bool
    pub escalation_reason : Option (Reason N)

  -- `decision.human_reason or why`: the reasons of the triage, the quoted confidence, or nothing; and
  -- what the inspection service says of data that its gate rejects.
  pub data HumanText : Type 0 where
    triage_reasons : List (HumanReason N) → HumanText
    quotes : N → HumanText
    silent : HumanText
    rejected_by_gate : HumanText

  pub record TriageResult : Type 0 where
    pub recommended : Disposition
    pub expected_cost : N
    pub cost_low : N
    pub cost_high : N
    pub currency : String
    pub alternatives : List (Disposition × N)
    pub requires_human : Bool
    pub human_reason : HumanText

pub data QualityReason : Type 0 where
  too_few_samples : ℕ → QualityReason
  nothing_analysable : QualityReason

pub data SpanError : Type 0 where
  gate_rejected no_curves no_adjudication : SpanError

pub record TraceSpan : Type 0 where
  pub agent : AgentName
  pub ok : Bool
  pub retry_count : ℕ
  pub error : Option SpanError

pub data Status : Type 0 where
  ingesting analyzing adjudicating awaiting_human complete : Status

module _ (N : Type 0) where
  pub record QcState : Type 0 where
    pub data_quality : DataQuality
    pub data_quality_reasons : List QualityReason
    pub signals : List (SignalRecord N)
    pub vision : Option (VisionVerdict N)
    pub process : Option (ProcessVerdict N)
    pub fusion : Option (FusionVerdict N)
    pub triage : Option (TriageResult N)
    pub trace : List TraceSpan
    pub degradations : List DegradationKind
    pub adjudicator_retries : Option ℕ
    pub status : Status

  -- The dict that a node returns: a key that it leaves out is `none`, or the empty list for a channel
  -- that accumulates.
  pub record Update : Type 0 where
    pub data_quality : Option (DataQuality × List QualityReason)
    pub signals : Option (List (SignalRecord N))
    pub vision : Option (VisionVerdict N)
    pub process : Option (ProcessVerdict N)
    pub fusion : Option (FusionVerdict N)
    pub triage : Option (TriageResult N)
    pub trace : List TraceSpan
    pub degradations : List DegradationKind
    pub retries : Option (Option ℕ)
    pub status : Option Status

abbrev pub or_else {ℓ} : {A : Type ℓ} → Option A → A → A
or_else none a = a
or_else (some b) a = b

abbrev pub or_keep {ℓ} : {A : Type ℓ} → Option A → Option A → Option A
or_keep none a = a
or_keep (some b) a = some b

module _ {N : Type 0} where
  -- QCState() with the defaults of its channels.
  abbrev pub fresh : QcState N
  fresh = record {
    data_quality = good;
    data_quality_reasons = [];
    signals = [];
    vision = none;
    process = none;
    fusion = none;
    triage = none;
    trace = [];
    degradations = [];
    adjudicator_retries = none;
    status = ingesting;
  }

  abbrev pub no_update : Update N
  no_update = record {
    data_quality = none;
    signals = none;
    vision = none;
    process = none;
    fusion = none;
    triage = none;
    trace = [];
    degradations = [];
    retries = none;
    status = none;
  }

  -- One write of LangGraph: `operator.add` on `trace` and `degradations`, and the last value elsewhere.
  unfoldable pub apply : QcState N → Update N → QcState N
  apply s u = record {
    data_quality = (or_else u.data_quality (s.data_quality, s.data_quality_reasons)).0;
    data_quality_reasons = (or_else u.data_quality (s.data_quality, s.data_quality_reasons)).1;
    signals = or_else u.signals s.signals;
    vision = or_keep u.vision s.vision;
    process = or_keep u.process s.process;
    fusion = or_keep u.fusion s.fusion;
    triage = or_keep u.triage s.triage;
    trace = s.trace ++ u.trace;
    degradations = s.degradations ++ u.degradations;
    adjudicator_retries = or_else u.retries s.adjudicator_retries;
    status = or_else u.status s.status;
  }
