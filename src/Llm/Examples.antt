-- ===== src/Llm/Examples.antt =====
-- A gateway that answers 503 in front of the fake adapter.
use Prim.Native.String
use defect_sense.Prelude.{
  inl, ◌+◌, ◌-◌, ◌*◌, ◌/◌, ◌≡◌, refl, String, Bool, true, false, Option, none, some, [], ◌∷◌, ◌++◌,
  ltb, if◌then◌else◌,
}
use defect_sense.Prelude.Sort.{some_of}
use text.Mathlib.Text.{◌==◌ as str_eq}
use defect_sense.Dict.{lookup, insert, remove}
use defect_sense.Enums.{reasoning, vision_tier, cache_served}
use defect_sense.Breaker.{before_call, on_success, on_failure, state, try_probe}
use defect_sense.Llm.{
  GenerationRequest, Completion, openai_compatible, fake, ProviderConfig, Budget, TierConfig,
  ModelConfig, tier_of, is_configured,
}
use defect_sense.Llm.Adapters.{Response, status, payload, fake_generate, fake_capabilities}
use defect_sense.Llm.Adapters
use defect_sense.Llm.Cache.{ResponseCache, key, get, put, empty_cache}
use defect_sense.Llm.Chain.{World, breaker_key, registered, notes, ask, attempt, walk, run_chain}
use defect_sense.Llm.Service.{
  LlmService, new_service, Outcome, answered, from_keys, generate, run_declared,
}
use defect_sense.Llm.Capabilities.{ProbeAnswers}
use defect_sense.Llm.Attribution.{IsAttributed, fresh_answer-IsAttributed}
use defect_sense.Llm.Replay.{after_all, cache_replays}

abbrev world : World
world = record {
  post = λ n p t m. status 503 none;
  clock = λ n k. 10 * n + k;
  second = 1;
  message = λ e. 53 ∷ [];
  made = λ r. ("[FAKE]", record { input_tokens = 1; output_tokens = 1 });
  digest = λ s. "0123456789abcdef0123456789abcdef";
}

abbrev gateway : ProviderConfig
gateway = record {
  name = "tcs";
  kind = openai_compatible;
  model = "gpt";
  base_url = some "https://host";
  api_key = some "k";
}

abbrev stand_in : ProviderConfig
stand_in = record { name = "fake"; kind = fake; model = "fake"; base_url = none; api_key = none }

abbrev budget : Budget
budget = record { max_input_tokens = 12_000; max_output_tokens = 2_000; timeout_ms = 8_000 }

abbrev reasoning_tier : TierConfig
reasoning_tier = record {
  tier = reasoning;
  chain = gateway ∷ stand_in ∷ [];
  terminal_fallback = "deterministic_rule_engine";
  budget = budget;
  required_capability = none;
}

abbrev vision_config : TierConfig
vision_config = record reasoning_tier {
  tier = vision_tier;
  chain = gateway ∷ [];
  required_capability = some "supports_vision";
}

abbrev config : ModelConfig
config = record {
  tiers = (reasoning, reasoning_tier) ∷ (vision_tier, vision_config) ∷ [];
  cache = record {
    enabled = true;
    ttl_seconds = 3_600;
    demo_mode_ttl_seconds = 604_800;
    backend = "memory";
  };
  breaker = record {
    failure_threshold = 5;
    success_threshold = 2;
    open_duration_seconds = 30;
    half_open_max_calls = 1;
  };
  probe_on_boot = true;
  probe_timeout_ms = 6_000;
  skipped_providers = [];
}

abbrev request : GenerationRequest
request = record {
  tier = reasoning;
  messages =
      record { role = "user"; content = "Describe the region."; images = "data:a" ∷ [] } ∷ [];
  response_schema = none;
  max_output_tokens = none;
  pack_id = "wheel";
  correlation_id = "c1";
  stop = [];
}

-- The same words about another image.
abbrev other_image : GenerationRequest
other_image = record request {
  messages =
      record { role = "user"; content = "Describe the region."; images = "data:b" ∷ [] } ∷ [];
}

abbrev service : LlmService
service = record {
  config = config;
  cache = some (empty_cache 3_600);
  registry = [];
  probed = [];
  attempts = 0;
}

new_service_lem : new_service config false [] ≡ service
unfolding new_service
new_service_lem = refl

abbrev first_run : Outcome × LlmService
first_run = generate world 100 101 request service

abbrev completion_in : Outcome → Completion
completion_in (answered c) = c
completion_in _ = fake_generate world.made request

abbrev answer : Completion
answer = completion_in first_run.0

abbrev one_left : LlmService
one_left = first_run.1

first_run_answers : first_run ≡ (answered answer, one_left)
unfolding generate get key run_chain walk attempt registered breaker_key before_call on_failure
    on_success notes ask payload Adapters.generate fake_generate put insert lookup tier_of from_keys
    some_of state try_probe
first_run_answers = refl

answer_fresh : answer.from_cache ≡ false
unfolding generate get key run_chain walk attempt registered breaker_key before_call on_failure
    on_success notes ask payload Adapters.generate fake_generate put insert lookup tier_of from_keys
    some_of state try_probe
answer_fresh = refl

fresh_answer-IsAttributed_example : IsAttributed world request config [] answer
fresh_answer-IsAttributed_example =
    fresh_answer-IsAttributed world request 100 101 service one_left answer first_run_answers
      answer_fresh

reasoning_declared : tier_of reasoning config.tiers ≡ some reasoning_tier
unfolding tier_of
reasoning_declared = refl

abbrev cache_in : Option ResponseCache → ResponseCache
cache_in none = empty_cache 0
cache_in (some c) = c

abbrev cache_left : ResponseCache
cache_left = cache_in one_left.cache

cache_stands : one_left.cache ≡ some cache_left
unfolding generate get key run_chain walk attempt registered breaker_key before_call on_failure
    on_success notes ask payload Adapters.generate fake_generate put insert lookup tier_of from_keys
    some_of state try_probe
cache_stands = refl

same_key : key world.digest other_image ≡ key world.digest request
unfolding key
same_key = refl

-- A request of another product comes in between, and is not served from the cache.
abbrev door_request : GenerationRequest
door_request = record request { pack_id = "door" }

abbrev third_run : LlmService
third_run = after_all world ((120, 121, door_request) ∷ []) one_left

abbrev cache_later : ResponseCache
cache_later = cache_in third_run.cache

cache_later_stands : third_run.cache ≡ some cache_later
unfolding after_all generate get key run_chain walk attempt registered breaker_key before_call
    on_failure on_success notes ask payload Adapters.generate fake_generate put insert lookup
    tier_of from_keys some_of state try_probe
cache_later_stands = refl

other_key : str_eq (key world.digest door_request) (key world.digest request) ≡ false
unfolding key
other_key = refl

-- The other image is asked about 59 seconds later, and gets the first one's answer.
cache_replays_example : generate world 160 161 other_image third_run ≡ (
    if ltb (cache_later.ttl * 1) (160 - 101)
    then run_declared world 161 other_image
        (record third_run {
          cache = some (record cache_later {
            misses = cache_later.misses + 1;
            entries = remove (key world.digest other_image) cache_later.entries;
          });
        })
        (tier_of reasoning third_run.config.tiers)
    else (
      answered (record answer {
        from_cache = true;
        cache_age_seconds = some ((160 - 101) / 1);
        degradations = answer.degradations ++ (cache_served ∷ []);
      }),
      record third_run { cache = some (record cache_later { hits = cache_later.hits + 1 }) },
    ))
cache_replays_example =
    cache_replays world request 100 101 160 161 service one_left other_image answer
      (empty_cache 3_600) cache_left cache_later ((120, 121, door_request) ∷ []) refl
      first_run_answers answer_fresh same_key cache_stands (inl other_key, tt) cache_later_stands

digest_long : (s : String) → String.count (world.digest s) ≡ 32
digest_long s = refl

abbrev contains : String → String → Bool
contains word text = str_eq word text

abbrev blind : ProbeAnswers
blind = record {
  prompt = some 200;
  json_text = some (200, some "ok");
  red_text = some (200, some "green");
  blue_text = none;
}

abbrev seeing : ProbeAnswers
seeing = record blind { red_text = some (200, some "red"); blue_text = some (200, some "blue") }

abbrev other_model : ProviderConfig
other_model = record gateway { model = "gpt-vision" }

vision_declared : tier_of vision_tier config.tiers ≡ some vision_config
unfolding tier_of
vision_declared = refl

gateway_callable : is_configured gateway ≡ true
unfolding is_configured
gateway_callable = refl
