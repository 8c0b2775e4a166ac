-- ===== src/Llm/Capabilities.antt =====
-- What `LLMService` of src/forge/infrastructure/llm/service.py measures of its providers, by the probe of
-- openai_compat.py, and which tiers that makes available.
use text.Mathlib.Text.{◌==◌ as str_eq}
use Prim.Native.String
use defect_sense.Prelude.{
  ℕ, String, Bool, true, false, Option, none, some, List, [], ◌∷◌, ◌++◌, leb, not, ◌&&◌,
  if◌then◌else◌,
}
use defect_sense.Prelude.Sort.{some_of}
use defect_sense.Dict.{Dict, lookup, insert, values}
use defect_sense.Enums.{ModelTier, fast}
use defect_sense.Llm.{
  ProviderKind, openai_compatible, anthropic, fake, ProviderConfig, ModelCapabilities, TierConfig,
  has_provider, tier,
}
use defect_sense.Llm.Adapters.{fake_capabilities}
use defect_sense.Llm.Service.{LlmService}

-- The answers to the POSTs of a probe: `none` is an exception of any kind.
pub record ProbeAnswers : Type 0 where
  pub prompt : Option ℕ
  pub json_text : Option (ℕ × Option String)
  pub red_text : Option (ℕ × Option String)
  pub blue_text : Option (ℕ × Option String)

-- `holds word text` is `word in text.lower()`.
module _ (holds : String → String → Bool) where
  abbrev tells : String → Option (ℕ × Option String) → Bool
  tells word none = false
  tells word (some (status, none)) = false
  tells word (some (status, some text)) = if leb 400 status then false else holds word text

  abbrev unreachable_caps : ProviderConfig → ModelCapabilities
  unreachable_caps p = record {
    provider = p.name;
    model = p.model;
    reachable = false;
    supports_vision = false;
    supports_function_calling = false;
    supports_json_mode = false;
    supports_streaming = false;
    max_context = 0;
  }

  -- `_probe_vision`: both colours have to be named.
  abbrev pub sees : ProbeAnswers → Bool
  sees a = tells "red" a.red_text && tells "blue" a.blue_text

  abbrev reachable_caps : ProviderConfig → ProbeAnswers → ModelCapabilities
  reachable_caps p a = record (unreachable_caps p) {
    reachable = true;
    supports_vision = sees a;
    supports_function_calling = tells "ok" a.json_text;
    supports_json_mode = tells "ok" a.json_text;
    supports_streaming = true;
  }

  abbrev probe_status : ProviderConfig → ProbeAnswers → Option ℕ → ModelCapabilities
  probe_status p a none = unreachable_caps p
  probe_status p a (some status) = if leb 400 status then unreachable_caps p else reachable_caps p a

  -- `OpenAICompatAdapter.probe`, from what the POSTs came to
  unfoldable pub adapter_probe : ProviderConfig → ProbeAnswers → ModelCapabilities
  adapter_probe p a = probe_status p a a.prompt

  abbrev pub measure : ProviderKind → ProviderConfig → ProbeAnswers → ModelCapabilities
  measure fake p a = record (fake_capabilities fast) { provider = p.name; model = p.model }
  measure openai_compatible p a = adapter_probe p a
  measure anthropic p a = adapter_probe p a

  -- `_probe_provider`
  unfoldable pub probe_provider :
      ProviderConfig → ProbeAnswers → LlmService → ModelCapabilities × LlmService
  unfolding adapter_probe fake_capabilities
  probe_provider p a s =
      let caps = measure p.kind p a in (caps, record s { probed = insert p.name caps s.probed })

  abbrev nothing_for : ModelCapabilities
  nothing_for = record {
    provider = "none";
    model = "";
    reachable = false;
    supports_vision = false;
    supports_function_calling = false;
    supports_json_mode = false;
    supports_streaming = false;
    max_context = 0;
  }

  module _ (answers : ProviderConfig → ProbeAnswers) where
    -- The loop of `capabilities`: a provider that was never probed is probed and answers.
    unfoldable pub first_reachable :
        List ProviderConfig → LlmService → ModelCapabilities × LlmService
    first_reachable [] s = (nothing_for, s)
    first_reachable (p ∷ ps) s =
        let rest = first_reachable ps s in
        elim (lookup p.name s.probed) [
          | none ↦ probe_provider p (answers p) s
          | some caps ↦ if caps.reachable then (caps, s) else rest
        ]

    abbrev capabilities_in :
        Option TierConfig → LlmService → Option (ModelCapabilities × LlmService)
    capabilities_in none s = none
    capabilities_in (some c) s = some (first_reachable c.chain s)

    -- `none` is ModelConfigError.
    unfoldable pub capabilities : ModelTier → LlmService → Option (ModelCapabilities × LlmService)
    capabilities t s = capabilities_in (tier s.config t) s

    unfoldable pub distinct_from : Dict ProviderConfig → List ProviderConfig → Dict ProviderConfig
    distinct_from seen [] = seen
    distinct_from seen (p ∷ ps) =
        let k = String.◌++◌ p.name (String.◌++◌ ":" p.model) in
        distinct_from (elim (lookup k seen) [ none ↦ insert k p seen | some old ↦ seen ]) ps

    unfoldable pub all_chains : List (ModelTier × TierConfig) → List ProviderConfig
    all_chains [] = []
    all_chains ((t, c) ∷ tiers) = c.chain ++ all_chains tiers

    unfoldable pub probe_each :
        List ProviderConfig → LlmService → List ModelCapabilities × LlmService
    probe_each [] s = ([], s)
    probe_each (p ∷ ps) s =
        let (caps, s') = probe_provider p (answers p) s in
        let (rest, s'') = probe_each ps s' in (caps ∷ rest, s'')

    unfoldable pub probe : LlmService → List ModelCapabilities × LlmService
    probe s = probe_each (values (distinct_from [] (all_chains s.config.tiers))) s

abbrev sighted : Option ModelCapabilities → Bool
sighted none = false
sighted (some caps) = caps.reachable && caps.supports_vision

abbrev wants_vision : Option String → Bool
wants_vision none = false
wants_vision (some name) = str_eq name "supports_vision"

abbrev available : Dict ModelCapabilities → Option TierConfig → Bool
available probed none = false
available probed (some c) =
    if not (has_provider c)
    then false
    else if wants_vision c.required_capability
    then some_of (λ p. sighted (lookup p.name probed)) c.chain
    else true

unfoldable pub is_tier_available : ModelTier → LlmService → Bool
is_tier_available t s = available s.probed (tier s.config t)
