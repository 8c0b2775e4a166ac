-- ===== src/Llm/Service.antt =====
-- `LLMService` of src/forge/infrastructure/llm/service.py: generation with its cache. Readings of the
-- wall clock are arguments.
use defect_sense.Prelude.{
  false, ℕ, Bool, Option, none, some, List, [], ◌∷◌, ◌++◌, ◌==◌, if◌then◌else◌,
}
use defect_sense.Prelude.Sort.{some_of}
use defect_sense.Dict.{Dict}
use defect_sense.Breaker.{CircuitBreaker}
use defect_sense.Enums.{
  DegradationKind, llm_tier_downgrade, llm_unavailable, vision_tier_unavailable, budget_exceeded,
  circuit_open, cache_served, stale_context, stale_external_data, data_quality_degraded,
  temporal_window_short, retrieval_relaxed, rule_engine_fallback,
}
use defect_sense.Llm.{
  GenerationRequest, Completion, ModelCapabilities, TierConfig, ModelConfig, tier,
}
use defect_sense.Llm.Cache.{ResponseCache, empty_cache, get, put}
use defect_sense.Llm.Chain.{World, Stage, tiers_from, run_chain}

pub record LlmService : Type 0 where
  pub config : ModelConfig
  pub cache : Option ResponseCache
  pub registry : Dict CircuitBreaker
  pub probed : Dict ModelCapabilities
  pub attempts : ℕ

-- `__init__`; the registry is the process's.
unfoldable pub new_service : ModelConfig → Bool → Dict CircuitBreaker → LlmService
new_service config demo_mode registry = record {
  config = config;
  cache =
      if config.cache.enabled
      then some (
          empty_cache
            (if demo_mode then config.cache.demo_mode_ttl_seconds else config.cache.ttl_seconds))
      else none;
  registry = registry;
  probed = [];
  attempts = 0;
}

-- The exceptions LLMUnavailableError, ModelConfigError and any other, apart.
pub data Outcome : Type 0 where
  answered : Completion → Outcome
  exhausted undeclared raised : Outcome

abbrev rank : DegradationKind → ℕ
rank llm_tier_downgrade = 0
rank llm_unavailable = 1
rank vision_tier_unavailable = 2
rank budget_exceeded = 3
rank circuit_open = 4
rank cache_served = 5
rank stale_context = 6
rank stale_external_data = 7
rank data_quality_degraded = 8
rank temporal_window_short = 9
rank retrieval_relaxed = 10
rank rule_engine_fallback = 11

abbrev pub kind_eq : DegradationKind → DegradationKind → Bool
kind_eq d e = rank d == rank e

abbrev pub among : DegradationKind → List DegradationKind → Bool
among d ds = some_of (kind_eq d) ds

-- list(dict.fromkeys(seen + ds)), where `seen` has no kind twice
unfoldable pub from_keys : List DegradationKind → List DegradationKind → List DegradationKind
from_keys seen [] = seen
from_keys seen (d ∷ ds) = from_keys (if among d seen then seen else seen ++ (d ∷ [])) ds

abbrev pub merged : Completion → List DegradationKind → Completion
merged c [] = c
merged c (d ∷ ds) = record c { degradations = from_keys [] (c.degradations ++ (d ∷ ds)) }

abbrev pub stage_of : LlmService → Stage
stage_of s = record {
  registry = s.registry;
  attempts = s.attempts;
  degradations = [];
  escaped = false;
}

module _ (w : World) where
  abbrev pub cached :
      ℕ → GenerationRequest → Option ResponseCache → Option Completion × Option ResponseCache
  cached now r none = (none, none)
  cached now r (some c) = let (hit, c') = get w.digest w.second now r c in (hit, some c')

  abbrev pub store :
      ℕ → GenerationRequest → Completion → Option ResponseCache → Option ResponseCache
  store now r c none = none
  store now r c (some cache) = some (put w.digest now r c cache)

  abbrev after : LlmService → Stage → LlmService
  after s stage = record s { registry = stage.registry; attempts = stage.attempts }

  abbrev pub finish :
      ℕ → GenerationRequest → LlmService → Option Completion × Stage → Outcome × LlmService
  finish later r s (none, stage) = (if stage.escaped then raised else exhausted, after s stage)
  finish later r s (some c, stage) =
      let c' = merged c stage.degradations in
      (answered c', record (after s stage) { cache = store later r c' s.cache })

  abbrev pub run_declared :
      ℕ → GenerationRequest → LlmService → Option TierConfig → Outcome × LlmService
  run_declared later r s none = (undeclared, s)
  run_declared later r s (some c) =
      finish later r s (run_chain w s.config s.probed r (tiers_from r.tier) (stage_of s))

  abbrev pub generate_missed :
      ℕ
      → GenerationRequest
      → LlmService
      → Option Completion × Option ResponseCache
      → Outcome × LlmService
  generate_missed later r s (some hit, cache) = (answered hit, record s { cache = cache })
  generate_missed later r s (none, cache) =
      run_declared later r (record s { cache = cache }) (tier s.config r.tier)

  -- `generate`. The wall clock is read for the cache, and `later` when the answer is stored.
  unfoldable pub generate : ℕ → ℕ → GenerationRequest → LlmService → Outcome × LlmService
  generate now later r s = generate_missed later r s (cached now r s.cache)
