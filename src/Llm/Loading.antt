-- ===== src/Llm/Loading.antt =====
-- `load` of src/forge/infrastructure/llm/config.py, from the mapping that the YAML file holds. The
-- environment, and the expansion of `${VAR}` references by a regular expression, are arguments. Where
-- the file leaves a number out, it is `none`.
pub mod Chains
mod Examples
use text.Mathlib.Text.{◌==◌ as str_eq}
use defect_sense.Prelude.{
  ℕ, String, Bool, true, false, Option, none, some, List, [], ◌∷◌, ◌++◌, ◌>>=◌, ◌&&◌, not,
  if◌then◌else◌,
}
use defect_sense.Prelude.Sort.{some_of}
use defect_sense.Dict.{Dict, lookup}
use defect_sense.Enums.{ModelTier, reasoning, fast, vision_tier}
use defect_sense.Llm.{
  ProviderKind, ProviderConfig, is_configured, present, blank, Budget, TierConfig, CacheConfig,
  BreakerConfig, ModelConfig, tier_value, tier_eq,
}

pub record Definition : Type 0 where
  pub enabled_if : Option String
  pub kind : ProviderKind
  pub base_url : Option String
  pub api_key : Option String

pub record Entry : Type 0 where
  pub provider : String
  pub model : String

pub record TierSpec : Type 0 where
  pub chain : List Entry
  pub terminal_fallback : Option String
  pub required_capability : Option String
  pub max_input_tokens : Option ℕ
  pub max_output_tokens : Option ℕ
  pub timeout_ms : Option ℕ

pub record RawConfig : Type 0 where
  pub providers : Dict Definition
  pub tiers : Dict TierSpec
  pub enabled : Option Bool
  pub ttl_seconds : Option ℕ
  pub demo_mode_ttl_seconds : Option ℕ
  pub backend : Option String
  pub failure_threshold : Option ℕ
  pub success_threshold : Option ℕ
  pub open_duration_seconds : Option ℕ
  pub half_open_max_calls : Option ℕ
  pub run_on_boot : Option Bool
  pub timeout_ms : Option ℕ

abbrev get_or {ℓ} : {A : Type ℓ} → Option A → A → A
get_or none a = a
get_or (some b) a = b

-- `x or None` on a text
abbrev filled : String → Option String
filled s = if blank s then none else some s

-- ModelTier(name)
unfoldable pub tier_named : String → Option ModelTier
tier_named name =
    if str_eq name (tier_value reasoning)
    then some reasoning
    else if str_eq name (tier_value fast)
    then some fast
    else if str_eq name (tier_value vision_tier)
    then some vision_tier
    else none

module _ (environ : String → Option String) (expand : String → String) (strip : String → String)
    (raw : RawConfig) where
  abbrev expanded : Option String → Option String
  expanded none = none
  expanded (some s) = filled (expand s)

  -- A gate that is named and whose variable is unset or empty.
  abbrev pub gated : Option String → Bool
  gated none = false
  gated (some gate) = not (blank gate) && blank (get_or (environ gate) "")

  abbrev configured : Entry → Definition → ProviderConfig
  configured e d = record {
    name = e.provider;
    kind = d.kind;
    model = strip (expand e.model);
    base_url = expanded d.base_url;
    api_key = expanded d.api_key;
  }

  -- `build`: the provider, or the name and the variable for which it is skipped. `none` is
  -- ModelConfigError, for a provider without a definition.
  pub data Built : Type 0 where
    provided : ProviderConfig → Built
    skipped : String → String → Built

  abbrev built_from : Entry → Definition → Built
  built_from e d =
      if gated d.enabled_if
      then skipped e.provider (get_or d.enabled_if "")
      else provided (configured e d)

  unfoldable pub build : Entry → Option Built
  build e = lookup e.provider raw.providers >>= λ d. some (built_from e d)

  -- (p.name, p.model) == (q.name, q.model)
  abbrev pub same_model : ProviderConfig → ProviderConfig → Bool
  same_model p q = str_eq p.name q.name && str_eq p.model q.model

  abbrev pub keep_new :
      Built
      → List ProviderConfig
      → List (String × String)
      → List ProviderConfig × List (String × String)
  keep_new (skipped name gate) chain out = (chain, out ++ ((name, gate) ∷ []))
  keep_new (provided p) chain out =
      if not (is_configured p)
      then (chain, out)
      else if some_of (same_model p) chain
      then (chain, out)
      else (chain ++ (p ∷ []), out)

  -- The loop over the entries of a chain; the skipped ones gather over all tiers.
  unfoldable pub build_chain :
      List Entry
      → List ProviderConfig
      → List (String × String)
      → Option (List ProviderConfig × List (String × String))
  build_chain [] chain out = some (chain, out)
  build_chain (e ∷ es) chain out =
      build e >>= λ b. build_chain es (keep_new b chain out).0 (keep_new b chain out).1

  abbrev tier_config : ModelTier → TierSpec → List ProviderConfig → TierConfig
  tier_config t spec chain = record {
    tier = t;
    chain = chain;
    terminal_fallback = get_or spec.terminal_fallback "deterministic_rule_engine";
    budget = record {
      max_input_tokens = get_or spec.max_input_tokens 12_000;
      max_output_tokens = get_or spec.max_output_tokens 2_000;
      timeout_ms = get_or spec.timeout_ms 8_000;
    };
    required_capability = spec.required_capability;
  }

  -- The loop over the tiers: a name that is no tier is ModelConfigError. The keys of a mapping are
  -- distinct, so each tier is written once.
  unfoldable pub load_tiers :
      Dict TierSpec
      → List (String × String)
      → Option (List (ModelTier × TierConfig) × List (String × String))
  load_tiers [] out = some ([], out)
  load_tiers ((name, spec) ∷ specs) out = do
    t ← tier_named name
    (chain, out') ← build_chain spec.chain [] out
    (rest, out'') ← load_tiers specs out'
    some ((t, tier_config t spec chain) ∷ rest, out'')

  abbrev pair_eq : String × String → String × String → Bool
  pair_eq p q = str_eq p.0 q.0 && str_eq p.1 q.1

  -- dict.fromkeys
  unfoldable pub distinct : List (String × String) → List (String × String) → List (String × String)
  distinct seen [] = seen
  distinct seen (p ∷ ps) = distinct (if some_of (pair_eq p) seen then seen else seen ++ (p ∷ [])) ps

  abbrev model_config : List (ModelTier × TierConfig) → List (String × String) → ModelConfig
  model_config tiers out = record {
    tiers = tiers;
    cache = record {
      enabled = get_or raw.enabled true;
      ttl_seconds = get_or raw.ttl_seconds 3_600;
      demo_mode_ttl_seconds = get_or raw.demo_mode_ttl_seconds 604_800;
      backend = expand (get_or raw.backend "memory");
    };
    breaker = record {
      failure_threshold = get_or raw.failure_threshold 5;
      success_threshold = get_or raw.success_threshold 2;
      open_duration_seconds = get_or raw.open_duration_seconds 30;
      half_open_max_calls = get_or raw.half_open_max_calls 1;
    };
    probe_on_boot = get_or raw.run_on_boot true;
    probe_timeout_ms = get_or raw.timeout_ms 6_000;
    skipped_providers = distinct [] out;
  }

  abbrev some_tier : List (ModelTier × TierConfig) → List (String × String) → Option ModelConfig
  some_tier [] out = none
  some_tier (t ∷ tiers) out = some (model_config (t ∷ tiers) out)

  -- `none` is ModelConfigError.
  unfoldable pub load : Option ModelConfig
  load = load_tiers raw.tiers [] >>= λ (tiers, out). some_tier tiers out
