-- ===== src/Llm/Chain.antt =====
-- The fallback chain of src/forge/infrastructure/llm/service.py (`_run_chain`) and the registry of
-- breakers behind it. One request is served at a time: nothing else touches a breaker between the
-- admission of a call and the report of its outcome.
use Prim.Native.String
use defect_sense.Prelude.{
  ℕ, ◌+◌, ◌*◌, String, Bool, true, false, Option, none, some, List, [], ◌∷◌, ◌++◌, not, ltb, ◌==◌,
  if◌then◌else◌,
}
use defect_sense.Dict.{Dict, lookup, insert}
use defect_sense.Enums.{
  ModelTier, reasoning, fast, vision_tier, DegradationKind, llm_tier_downgrade, llm_unavailable,
  budget_exceeded, circuit_open, rule_engine_fallback,
}
use defect_sense.Breaker.{
  CircuitBreaker, new, Admission, admitted, refused, before_call, on_success, on_failure,
}
use defect_sense.Llm.{
  GenerationRequest, TokenUsage, Completion, was_truncated, LlmError, ProviderKind,
  openai_compatible, anthropic, fake, is_fake, ProviderConfig, ModelCapabilities, Budget,
  TierConfig, BreakerConfig, ModelConfig, tier_eq, tier,
}
use defect_sense.Llm.Adapters.{
  Payload, payload, Response, Answer, reply, failed, crashed, generate, fake_generate,
}

-- What the service does not decide: the answer to the n-th attempt, the monotonic clock (its readings
-- within an attempt, in ticks, of which a second has `second`), the message of an exception, the text
-- of the fake adapter, and the hash of the cache keys.
pub record World : Type 0 where
  pub post : ℕ → ProviderConfig → ℕ → Payload → Response
  pub clock : ℕ → ℕ → ℕ
  pub second : ℕ
  pub message : LlmError → List ℕ
  pub made : GenerationRequest → String × TokenUsage
  pub digest : String → String

-- `_DOWNGRADE`
abbrev pub downgrade : ModelTier → Option ModelTier
downgrade reasoning = some fast
downgrade fast = none
downgrade vision_tier = none

abbrev lower_tiers : Option ModelTier → List ModelTier
lower_tiers none = []
lower_tiers (some t) = t ∷ []

-- The tiers that `_run_chain` comes to, one after the other: no downgrade leads further than one step.
abbrev pub tiers_from : ModelTier → List ModelTier
tiers_from t = t ∷ lower_tiers (downgrade t)

unfoldable pub breaker_key : ProviderConfig → String
breaker_key p = String.◌++◌ "llm:" (String.◌++◌ p.name (String.◌++◌ ":" p.model))

abbrev pub made_or : CircuitBreaker → Option CircuitBreaker → CircuitBreaker
made_or b none = b
made_or b (some old) = old

-- `BreakerRegistry.get`: the breaker with the name, a new one where there is none.
unfoldable pub registered : ℕ → BreakerConfig → String → Dict CircuitBreaker → CircuitBreaker
registered second c k registry =
    made_or
      (new k c.failure_threshold c.success_threshold (c.open_duration_seconds * second)
        c.half_open_max_calls)
      (lookup k registry)

-- What a walk along the chains changes; `escaped` is an exception that the chain does not catch, which
-- ends it.
pub record Stage : Type 0 where
  pub registry : Dict CircuitBreaker
  pub attempts : ℕ
  pub degradations : List DegradationKind
  pub escaped : Bool

abbrev when : Bool → DegradationKind → List DegradationKind
when true d = d ∷ []
when false d = []

-- What an answer adds to the degradations of the request.
unfoldable pub notes : Completion → ModelTier → ModelTier → ℕ → ProviderKind → List DegradationKind
notes c asked t position kind =
    when (was_truncated c) budget_exceeded
    ++ (when (not (tier_eq t asked)) llm_tier_downgrade
        ++ (when (ltb 0 position) llm_tier_downgrade ++ when (is_fake kind) rule_engine_fallback))

abbrev limited : ℕ → Option ℕ → Option ℕ
limited budget none = some budget
limited budget (some n) = if n == 0 then some budget else some n

-- The request with the tier's limit on the output, where it has none of its own.
abbrev pub call_request : Budget → GenerationRequest → GenerationRequest
call_request b r = record r { max_output_tokens = limited b.max_output_tokens r.max_output_tokens }

module _ (w : World) (cfg : ModelConfig) (probed : Dict ModelCapabilities)
    (r : GenerationRequest) where
  -- caps.supports_json_mode if caps else True
  abbrev pub json_mode : Option ModelCapabilities → Bool
  json_mode none = true
  json_mode (some caps) = caps.supports_json_mode

  abbrev pub ask_remote : ℕ → Budget → ProviderConfig → Answer
  ask_remote n b p =
      generate p (call_request b r)
        (w.post n p b.timeout_ms (payload p (json_mode (lookup p.name probed)) (call_request b r)))

  -- `_adapter`, and the call of its `generate`
  abbrev pub ask_kind : ProviderKind → ℕ → Budget → ProviderConfig → Answer
  ask_kind fake n b p = reply (fake_generate w.made (call_request b r))
  ask_kind openai_compatible n b p = ask_remote n b p
  ask_kind anthropic n b p = ask_remote n b p

  unfoldable pub ask : ℕ → Budget → ProviderConfig → Answer
  ask n b p = ask_kind p.kind n b p

  abbrev pub settle :
      ModelTier → ℕ → ProviderConfig → CircuitBreaker → Answer → Stage → Option Completion × Stage
  settle t position p b (failed e) s = (
    none,
    record s {
      registry =
          insert (breaker_key p) (on_failure (w.clock s.attempts 2) (w.message e) b) s.registry;
      attempts = s.attempts + 1;
    },
  )
  settle t position p b crashed s = (
    none,
    record s {
      registry = insert (breaker_key p) b s.registry;
      attempts = s.attempts + 1;
      escaped = true;
    },
  )
  settle t position p b (reply c) s = (
    some (record c { tier_requested = if tier_eq t r.tier then c.tier_requested else r.tier }),
    record s {
      registry = insert (breaker_key p) (on_success b) s.registry;
      attempts = s.attempts + 1;
      degradations = s.degradations ++ notes c r.tier t position p.kind;
    },
  )

  abbrev pub proceed :
      ModelTier
      → Budget
      → ℕ
      → ProviderConfig
      → Admission × CircuitBreaker
      → Stage
      → Option Completion × Stage
  proceed t budget position p (refused later, b) s = (
    none,
    record s {
      registry = insert (breaker_key p) b s.registry;
      attempts = s.attempts + 1;
      degradations = s.degradations ++ (circuit_open ∷ []);
    },
  )
  proceed t budget position p (admitted, b) s = settle t position p b (ask s.attempts budget p) s

  -- One round of the loop over a chain.
  unfoldable pub attempt :
      ModelTier → Budget → ℕ → ProviderConfig → Stage → Option Completion × Stage
  attempt t budget position p s =
      proceed t budget position p
        (before_call (w.clock s.attempts 0) (w.clock s.attempts 1)
          (registered w.second cfg.breaker (breaker_key p) s.registry))
        s

  abbrev pub otherwise :
      Option Completion × Stage → (Stage → Option Completion × Stage) → Option Completion × Stage
  otherwise (none, s) rest = if s.escaped then (none, s) else rest s
  otherwise (some c, s) rest = (some c, s)

  unfoldable pub walk :
      ModelTier → Budget → ℕ → List ProviderConfig → Stage → Option Completion × Stage
  walk t budget position [] s = (none, s)
  walk t budget position (p ∷ ps) s =
      otherwise (attempt t budget position p s) (λ s'. walk t budget (position + 1) ps s')

  abbrev pub give_up : Stage → Option Completion × Stage
  give_up s = (none, record s { degradations = s.degradations ++ (llm_unavailable ∷ []) })

  abbrev pub walk_tier :
      ModelTier
      → Option TierConfig
      → Stage
      → (Stage → Option Completion × Stage)
      → Option Completion × Stage
  walk_tier t none s rest = give_up s
  walk_tier t (some c) s rest = otherwise (walk t c.budget 0 c.chain s) rest

  -- `_run_chain` along the tiers, of which the first is declared; `none` is LLMUnavailableError, or
  -- the exception that has escaped.
  unfoldable pub run_chain : List ModelTier → Stage → Option Completion × Stage
  run_chain [] s = give_up s
  run_chain (t ∷ ts) s = walk_tier t (tier cfg t) s (λ s'. run_chain ts s')
