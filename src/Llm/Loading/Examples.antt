-- ===== src/Llm/Loading/Examples.antt =====
-- A file with a gateway whose key is not set, and a doubled entry.
use defect_sense.Prelude.{◌≡◌, ◌≢◌, refl, String, false, Option, none, some, [], ◌∷◌, All}
use defect_sense.Prelude.Sort.{some_of}
use defect_sense.Dict.{lookup}
use defect_sense.Llm.{openai_compatible, fake, ModelConfig}
use defect_sense.Llm.Loading.{RawConfig, load, load_tiers, build_chain, build, tier_named}
use defect_sense.Llm.Loading.Chains.{IsUsable, Distinct, load-IsClean}

abbrev raw : RawConfig
raw = record {
  providers =
      (
        "tcs",
        record {
          enabled_if = some "KEY";
          kind = openai_compatible;
          base_url = some "u";
          api_key = none;
        },
      )
      ∷ ("fake", record { enabled_if = none; kind = fake; base_url = none; api_key = none })
      ∷ [];
  tiers =
      (
        "fast",
        record {
          chain =
              record { provider = "tcs"; model = "m" }
              ∷ record { provider = "fake"; model = "f" }
              ∷ record { provider = "fake"; model = "f" }
              ∷ [];
          terminal_fallback = none;
          required_capability = none;
          max_input_tokens = none;
          max_output_tokens = none;
          timeout_ms = none;
        },
      )
      ∷ [];
  enabled = none;
  ttl_seconds = none;
  demo_mode_ttl_seconds = none;
  backend = none;
  failure_threshold = none;
  success_threshold = none;
  open_duration_seconds = none;
  half_open_max_calls = none;
  run_on_boot = none;
  timeout_ms = none;
}

abbrev no_environ : String → Option String
no_environ s = none

abbrev same_text : String → String
same_text s = s

abbrev no_config : ModelConfig
no_config = record {
  tiers = [];
  cache = record { enabled = false; ttl_seconds = 0; demo_mode_ttl_seconds = 0; backend = "" };
  breaker = record {
    failure_threshold = 0;
    success_threshold = 0;
    open_duration_seconds = 0;
    half_open_max_calls = 0;
  };
  probe_on_boot = false;
  probe_timeout_ms = 0;
  skipped_providers = [];
}

abbrev config_in : Option ModelConfig → ModelConfig
config_in none = no_config
config_in (some c) = c

abbrev loaded : ModelConfig
loaded = config_in (load no_environ same_text same_text raw)

raw_loads : load no_environ same_text same_text raw ≡ some loaded
unfolding load load_tiers build_chain build tier_named lookup some_of
raw_loads = refl

load-IsClean_example :
    (loaded.tiers ≢ [])
    × All
        (λ t.
          All (IsUsable no_environ same_text same_text raw) t.1.chain
          × Distinct no_environ same_text same_text raw t.1.chain)
        loaded.tiers
load-IsClean_example = load-IsClean no_environ same_text same_text raw loaded raw_loads
