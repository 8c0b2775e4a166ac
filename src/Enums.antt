-- ===== src/Enums.antt =====
-- The vocabulary of src/forge/domain/enums.py.
pub data Role : Type 0 where
  shop_floor_worker qa admin : Role

pub data Severity : Type 0 where
  critical major minor cosmetic : Severity

pub data Verdict : Type 0 where
  pass defect escalate : Verdict

pub data Disposition : Type 0 where
  accept rework quarantine scrap halt_line : Disposition

pub data SignalKind : Type 0 where
  vision process spec fusion no_signal : SignalKind

pub data DataQuality : Type 0 where
  good degraded rejected : DataQuality

pub data AgentName : Type 0 where
  orchestrator ingestion vision_inspector process_sentinel context adjudicator : AgentName
  root_cause cost_triage guardian action learning analyst : AgentName

pub data ModelTier : Type 0 where
  reasoning fast vision_tier : ModelTier

pub data ProvenanceSource : Type 0 where
  measured model llm retrieved external_api rule human cached : ProvenanceSource

pub data DegradationKind : Type 0 where
  llm_tier_downgrade llm_unavailable vision_tier_unavailable budget_exceeded : DegradationKind
  circuit_open cache_served stale_context stale_external_data : DegradationKind
  data_quality_degraded temporal_window_short retrieval_relaxed : DegradationKind
  rule_engine_fallback : DegradationKind
