-- ===== src/Llm.antt =====
-- The data of the language model service: src/forge/application/ports/llm.py and the resolved
-- configuration of src/forge/infrastructure/llm/config.py. Latencies, costs and the temperature, which
-- are handed on and never tested, are left out; a JSON schema is its text.
pub mod Adapters
pub mod Cache
pub mod Chain
pub mod Service
pub mod Capabilities
pub mod Degradations
pub mod Honest
pub mod Attribution
pub mod Replay
pub mod Keys
pub mod Probes
mod Examples
pub mod Loading
use defect_sense.Prelude.{
  ℕ, String, Bool, true, false, Option, none, some, List, [], ◌∷◌, if◌then◌else◌, ◌&&◌, ◌||◌, not,
}
use defect_sense.Prelude.Sort.{some_of}
use defect_sense.Enums.{ModelTier, reasoning, fast, vision_tier, DegradationKind}

pub record Message : Type 0 where
  pub role : String
  pub content : String
  pub images : List String

pub record GenerationRequest : Type 0 where
  pub tier : ModelTier
  pub messages : List Message
  pub response_schema : Option String
  pub max_output_tokens : Option ℕ
  pub pack_id : String
  pub correlation_id : String
  pub stop : List String

pub record TokenUsage : Type 0 where
  pub input_tokens : ℕ
  pub output_tokens : ℕ

pub data FinishReason : Type 0 where
  stop_reason length_reason : FinishReason
  other_reason : String → FinishReason

pub record Completion : Type 0 where
  pub text : String
  pub tier_requested : ModelTier
  pub tier_used : ModelTier
  pub provider_used : String
  pub model_used : String
  pub tokens : TokenUsage
  pub degradations : List DegradationKind
  pub from_cache : Bool
  pub cache_age_seconds : Option ℕ
  pub finish_reason : FinishReason

abbrev pub cut_off : FinishReason → Bool
cut_off length_reason = true
cut_off _ = false

abbrev pub was_truncated : Completion → Bool
was_truncated c = cut_off c.finish_reason

pub record ModelCapabilities : Type 0 where
  pub provider : String
  pub model : String
  pub reachable : Bool
  pub supports_vision : Bool
  pub supports_function_calling : Bool
  pub supports_json_mode : Bool
  pub supports_streaming : Bool
  pub max_context : ℕ

-- The classes below LLMError.
pub data LlmError : Type 0 where
  timed_out rate_limited : String → LlmError
  unreachable : String → LlmError
  http_status : String → ℕ → LlmError
  unparseable : String → LlmError

pub data ProviderKind : Type 0 where
  openai_compatible anthropic fake : ProviderKind

abbrev pub is_fake : ProviderKind → Bool
is_fake fake = true
is_fake _ = false

pub record ProviderConfig : Type 0 where
  pub name : String
  pub kind : ProviderKind
  pub model : String
  pub base_url : Option String
  pub api_key : Option String

abbrev pub present {ℓ} : {A : Type ℓ} → Option A → Bool
present none = false
present (some a) = true

abbrev pub blank : String → Bool
blank String.[] = true
blank (String.◌∷◌ c s) = false

abbrev pub credentials : ProviderKind → Option String → Option String → Bool
credentials openai_compatible base_url api_key = present base_url
credentials _ base_url api_key = present api_key

-- An empty address or key is `none`: load puts `or None` behind both.
unfoldable pub is_configured : ProviderConfig → Bool
is_configured p =
    if is_fake p.kind
    then true
    else if blank p.model
    then false
    else credentials p.kind p.base_url p.api_key

pub record Budget : Type 0 where
  pub max_input_tokens : ℕ
  pub max_output_tokens : ℕ
  pub timeout_ms : ℕ

pub record TierConfig : Type 0 where
  pub tier : ModelTier
  pub chain : List ProviderConfig
  pub terminal_fallback : String
  pub budget : Budget
  pub required_capability : Option String

abbrev pub has_provider : TierConfig → Bool
has_provider t = some_of is_configured t.chain

pub record CacheConfig : Type 0 where
  pub enabled : Bool
  pub ttl_seconds : ℕ
  pub demo_mode_ttl_seconds : ℕ
  pub backend : String

pub record BreakerConfig : Type 0 where
  pub failure_threshold : ℕ
  pub success_threshold : ℕ
  pub open_duration_seconds : ℕ
  pub half_open_max_calls : ℕ

pub record ModelConfig : Type 0 where
  pub tiers : List (ModelTier × TierConfig)
  pub cache : CacheConfig
  pub breaker : BreakerConfig
  pub probe_on_boot : Bool
  pub probe_timeout_ms : ℕ
  pub skipped_providers : List (String × String)

abbrev pub tier_eq : ModelTier → ModelTier → Bool
tier_eq reasoning reasoning = true
tier_eq fast fast = true
tier_eq vision_tier vision_tier = true
tier_eq _ _ = false

unfoldable pub tier_of : ModelTier → List (ModelTier × TierConfig) → Option TierConfig
tier_of t [] = none
tier_of t ((u, c) ∷ tiers) = if tier_eq u t then some c else tier_of t tiers

-- `ModelConfig.tier`: `none` is ModelConfigError.
abbrev pub tier : ModelConfig → ModelTier → Option TierConfig
tier config t = tier_of t config.tiers

-- The value of the enumeration.
abbrev pub tier_value : ModelTier → String
tier_value reasoning = "reasoning"
tier_value fast = "fast"
tier_value vision_tier = "vision"
