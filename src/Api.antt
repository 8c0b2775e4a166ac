-- ===== src/Api.antt =====
-- The process state of apps/api/main.py: its two caches, and the view that a client gets of an
-- inspection. Of `QCState` (here `InspectionState`) the channels of the verdict graph and the identity are
-- modelled, of a view the fields that are computed from them. Python's `round` is an argument.
pub mod Caches
pub mod Coherent
pub mod Publish
pub mod History
pub mod Page
pub mod Reads
pub mod Scope
pub mod Custody
pub mod Feed
pub mod Delivery
pub mod Live
pub mod Repository
pub mod Passed
pub mod Creation
pub mod Created
pub mod Views
pub mod Writes
mod Samples
mod Examples
use defect_sense.Prelude.{
  ℕ, zero, suc, ◌%◌, String, Bool, true, false, Option, none, some, List, [], ◌∷◌, ◌++◌, ◌&&◌, map,
  length, ltb, ◌==◌, if◌then◌else◌,
}
use defect_sense.Prelude.Sort.{keep}
use defect_sense.Dict.{Dict, lookup, insert, remove}
use defect_sense.Enums.{
  Verdict, Severity, SignalKind, Disposition, DataQuality, AgentName, escalate, major, no_signal,
  quarantine,
}
use defect_sense.Float.{Float, nought}
use defect_sense.Torque.{DefectClass, Deviation, SignatureBaseline}
use defect_sense.Adjudication.{Reason}
use defect_sense.Graph.{
  QcState, FastenerResult, ProcessVerdict, SignalRecord, FusionVerdict, TriageResult, HumanText,
  silent, QualityReason, TraceSpan,
}

-- An OrderedDict, oldest first: `d.move_to_end(k)`, and `while len(d) > limit: d.popitem(last=False)`.
module _ {ℓ} {V : Type ℓ} where
  unfoldable pub move_to_end : String → Dict V → Dict V
  move_to_end k d = elim (lookup k d) [ none ↦ d | some v ↦ remove k d ++ ((k, v) ∷ []) ]

  unfoldable pub trimmed : ℕ → Dict V → Dict V
  trimmed limit [] = []
  trimmed limit (e ∷ d) =
      let rest = trimmed limit d in if ltb limit (length (e ∷ d)) then rest else e ∷ d

  unfoldable pub cached : ℕ → String → V → Dict V → Dict V
  cached limit k v d = trimmed limit (move_to_end k (insert k v d))

-- _STATE_CACHE_MAX, _VIEW_CACHE_MAX
abbrev pub state_cache_max : ℕ
state_cache_max = 512

abbrev pub view_cache_max : ℕ
view_cache_max = 512

abbrev pub default_station_id : String
default_station_id = "WA-01"

-- An entry of `_ASSIGNMENTS`, by its fields that a view shows.
pub record Assignment : Type 0 where
  pub assigned_to_username : String
  pub assigned_to_name : String
  pub assigned_by_name : String
  pub assigned_at : ℕ

module _ (N : Type 0) where
  pub record InspectionState : Type 0 where
    pub correlation_id : String
    pub unit_id : String
    pub pack_id : String
    pub station_id : String
    pub is_synthetic : Bool
    pub created_at : ℕ
    pub total_latency_ms : N
    pub channels : QcState N

  pub record FastenerView : Type 0 where
    pub position : ℕ
    pub final_torque_nm : N
    pub knee_angle_deg : N
    pub elastic_slope_nm_per_deg : N
    pub anomaly_score : N
    pub endpoint_in_spec : Bool
    pub signature_anomalous : Bool
    pub fusion_only : Bool
    pub likely_class : Option DefectClass
    pub deviations : List (Deviation N)
    pub curve : List (N × N)

  pub record SpanView : Type 0 where
    pub agent : AgentName
    pub ok : Bool

  pub record BaselineView : Type 0 where
    pub knee_angle_deg : N
    pub knee_tolerance_deg : N
    pub elastic_slope_nm_per_deg : N
    pub elastic_slope_tolerance : N
    pub spec_lo_nm : N
    pub spec_hi_nm : N
    pub derived_from_runs : ℕ
    pub sigma : N

  -- `reasoning` is `none` for "No verdict was produced.".
  pub record InspectionView : Type 0 where
    pub correlation_id : String
    pub unit_id : String
    pub pack_id : String
    pub station_id : String
    pub verdict : Verdict
    pub severity : Severity
    pub confidence : N
    pub fusion_only : Bool
    pub primary_signal : SignalKind
    pub reasoning : Option (Reason N)
    pub disposition : Disposition
    pub expected_cost : N
    pub cost_low : N
    pub cost_high : N
    pub currency : String
    pub requires_human : Bool
    pub human_reason : HumanText N
    pub data_quality : DataQuality
    pub data_quality_reasons : List QualityReason
    pub fasteners : List FastenerView
    pub spans : List SpanView
    pub total_ms : N
    pub is_synthetic : Bool
    pub created_at : ℕ
    pub baseline : BaselineView
    pub narrative : Option String
    pub assigned : Option Assignment

-- `x.attribute if x else default`
abbrev pub shown {ℓ κ} : {A : Type ℓ} {B : Type κ} → Option A → (A → B) → B → B
shown none f b = b
shown (some a) f b = f a

module _ {N : Type 0} ⦃F : Float N⦄ (round : ℕ → N → N) where
  -- {s.position: s.samples for s in qc.signals}.get(position, []): of two signals the last is kept.
  unfoldable pub curve_at : ℕ → List (SignalRecord N) → List (N × N) → List (N × N)
  curve_at position [] found = found
  curve_at position (s ∷ signals) found =
      curve_at position signals (if s.position == position then s.samples else found)

  unfoldable pub fastener_view : List (SignalRecord N) → FastenerResult N → FastenerView N
  unfolding curve_at
  fastener_view signals f = record {
    position = f.position;
    final_torque_nm = round 2 f.final_torque_nm;
    knee_angle_deg = round 2 f.knee_angle_deg;
    elastic_slope_nm_per_deg = round 3 f.elastic_slope_nm_per_deg;
    anomaly_score = round 3 f.anomaly_score;
    endpoint_in_spec = f.endpoint_in_spec;
    signature_anomalous = f.signature_anomalous;
    fusion_only = f.endpoint_in_spec && f.signature_anomalous;
    likely_class = f.likely_class;
    deviations = f.deviations;
    curve = curve_at f.position signals [];
  }

  abbrev pub span_view : TraceSpan → SpanView N
  span_view s = record { agent = s.agent; ok = s.ok }

  unfoldable pub baseline_view : SignatureBaseline N → BaselineView N
  baseline_view b = record {
    knee_angle_deg = round 2 b.knee_angle_deg;
    knee_tolerance_deg = round 2 b.knee_angle_tolerance_deg;
    elastic_slope_nm_per_deg = round 3 b.elastic_slope_nm_per_deg;
    elastic_slope_tolerance = round 3 b.elastic_slope_tolerance;
    spec_lo_nm = b.spec_lo_nm;
    spec_hi_nm = b.spec_hi_nm;
    derived_from_runs = b.derived_from_runs;
    sigma = b.sigma_multiplier;
  }

  unfoldable pub view_from_state :
      SignatureBaseline N → Dict Assignment → InspectionState N → InspectionView N
  unfolding fastener_view
  view_from_state b assignments qc = record {
    correlation_id = qc.correlation_id;
    unit_id = qc.unit_id;
    pack_id = qc.pack_id;
    station_id = qc.station_id;
    verdict = shown qc.channels.fusion (λ f. f.verdict) escalate;
    severity = shown qc.channels.fusion (λ f. f.severity) major;
    confidence = shown qc.channels.fusion (λ f. round 3 f.confidence) nought;
    fusion_only = shown qc.channels.fusion (λ f. f.fusion_only) false;
    primary_signal = shown qc.channels.fusion (λ f. f.primary_signal) no_signal;
    reasoning = shown qc.channels.fusion (λ f. some f.reasoning) none;
    disposition = shown qc.channels.triage (λ t. t.recommended) quarantine;
    expected_cost = shown qc.channels.triage (λ t. round 2 t.expected_cost) nought;
    cost_low = shown qc.channels.triage (λ t. round 2 t.cost_low) nought;
    cost_high = shown qc.channels.triage (λ t. round 2 t.cost_high) nought;
    currency = shown qc.channels.triage (λ t. t.currency) "INR";
    requires_human = shown qc.channels.triage (λ t. t.requires_human) false;
    human_reason = shown qc.channels.triage (λ t. t.human_reason) silent;
    data_quality = qc.channels.data_quality;
    data_quality_reasons = qc.channels.data_quality_reasons;
    fasteners =
        shown qc.channels.process (λ p. map (fastener_view qc.channels.signals) p.fasteners) [];
    spans = map span_view qc.channels.trace;
    total_ms = round 2 qc.total_latency_ms;
    is_synthetic = qc.is_synthetic;
    created_at = qc.created_at;
    baseline = baseline_view b;
    narrative = none;
    assigned = lookup qc.correlation_id assignments;
  }

-- What the process holds. `H` is the repository's own state: `none` until the start has opened one.
module _ (N H : Type 0) where
  pub record Process : Type 0 where
    pub baseline : SignatureBaseline N
    pub recent : List String
    pub states : Dict (InspectionState N)
    pub views : Dict (InspectionView N)
    pub storage : Option H
    pub assignments : Dict Assignment
    pub assignment_counter : ℕ
    pub unit_counter : ℕ

  -- src/forge/application/ports/platform.py, `InspectionRepository`: `list` gives the identifiers of the newest
  -- `limit` records and how many there are.
  pub record InspectionRepository : Type 0 where
    pub save : InspectionState N → H → H
    pub get : String → H → Option (InspectionState N)
    pub list : ℕ → H → List String × ℕ

module _ {N H : Type 0} (repository : InspectionRepository N H) where
  -- `_State.persist`
  unfoldable pub persist : InspectionState N → Process N H → Process N H
  unfolding cached
  persist qc p = record p {
    states = cached state_cache_max qc.correlation_id qc p.states;
    storage = shown p.storage (λ h. some (repository.save qc h)) none;
  }

  unfoldable pub cache_view : InspectionView N → Process N H → Process N H
  unfolding cached
  cache_view view p = record p { views = cached view_cache_max view.correlation_id view p.views }
