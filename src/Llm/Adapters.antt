-- ===== src/Llm/Adapters.antt =====
-- The adapters src/forge/infrastructure/llm/openai_compat.py and fake.py: what `generate` sends, and what
-- it makes of the answer. The network is an argument.
use Prim.Native.String
use defect_sense.Prelude.{
  ℕ, String, Bool, true, false, Option, none, some, List, [], ◌∷◌, map, leb, ◌==◌, if◌then◌else◌,
  ◌&&◌,
}
use defect_sense.Enums.{ModelTier}
use defect_sense.Llm.{
  GenerationRequest, TokenUsage, FinishReason, stop_reason, Completion, LlmError, timed_out,
  rate_limited, unreachable, http_status, unparseable, ProviderConfig, ModelCapabilities, present,
  tier_value,
}

-- The content of a message: its text, or blocks of text and images.
pub data Content : Type 0 where
  plain : String → Content
  blocks : String → List String → Content

pub record Payload : Type 0 where
  pub model : String
  pub messages : List (String × Content)
  pub max_tokens : Option ℕ
  pub stop : List String
  pub json_object : Bool

abbrev content_of : String → List String → Content
content_of text [] = plain text
content_of text (uri ∷ uris) = blocks text (uri ∷ uris)

-- A limit of 0 is left out.
abbrev limit_of : Option ℕ → Option ℕ
limit_of none = none
limit_of (some n) = if n == 0 then none else some n

-- `_payload`
unfoldable pub payload : ProviderConfig → Bool → GenerationRequest → Payload
payload p json_mode r = record {
  model = p.model;
  messages = map (λ m. (m.role, content_of m.content m.images)) r.messages;
  max_tokens = limit_of r.max_output_tokens;
  stop = r.stop;
  json_object = json_mode && present r.response_schema;
}

-- The part of a parsed body that is read: a key that is not there is `none`.
pub record Body : Type 0 where
  pub content : Option String
  pub model : Option String
  pub prompt_tokens : Option ℕ
  pub completion_tokens : Option ℕ
  pub finish_reason : Option FinishReason

-- What a POST comes to; a body that is not JSON, or has no
-- `choices[0].message.content`, is no `Body`.
-- `misshapen` is one of another shape (a list, choices or usage of a wrong type, token counts that are null).
pub data Response : Type 0 where
  timeout broken : Response
  status : ℕ → Option Body → Response
  misshapen : ℕ → Response

-- `failed` is an LLMError, `crashed` any other exception.
pub data Answer : Type 0 where
  reply : Completion → Answer
  failed : LlmError → Answer
  crashed : Answer

abbrev or_else {ℓ} : {A : Type ℓ} → Option A → A → A
or_else none a = a
or_else (some b) a = b

abbrev completion_of : ProviderConfig → GenerationRequest → Body → Completion
completion_of p r b = record {
  text = or_else b.content "";
  tier_requested = r.tier;
  tier_used = r.tier;
  provider_used = p.name;
  model_used = or_else b.model p.model;
  tokens = record {
    input_tokens = or_else b.prompt_tokens 0;
    output_tokens = or_else b.completion_tokens 0;
  };
  degradations = [];
  from_cache = false;
  cache_age_seconds = none;
  finish_reason = or_else b.finish_reason stop_reason;
}

abbrev parsed : ProviderConfig → GenerationRequest → Option Body → Answer
parsed p r none = failed (unparseable p.name)
parsed p r (some b) = reply (completion_of p r b)

-- The errors of a status code, or else what the body comes to.
abbrev by_status : ProviderConfig → ℕ → Answer → Answer
by_status p code read =
    if code == 429
    then failed (rate_limited p.name)
    else if leb 400 code
    then failed (http_status p.name code)
    else read

-- `OpenAICompatAdapter.generate`, from what the POST came to. Reading a body of another shape raises a
-- TypeError or an AttributeError, which is not caught.
unfoldable pub generate : ProviderConfig → GenerationRequest → Response → Answer
generate p r timeout = failed (timed_out p.name)
generate p r broken = failed (unreachable p.name)
generate p r (status code body) = by_status p code (parsed p r body)
generate p r (misshapen code) = by_status p code crashed

abbrev fake_model : ModelTier → String
fake_model t = String.◌++◌ "fake-" (String.◌++◌ (tier_value t) "-v1")

-- `FakeAdapter.capabilities`: no vision.
unfoldable pub fake_capabilities : ModelTier → ModelCapabilities
fake_capabilities t = record {
  provider = "fake";
  model = fake_model t;
  reachable = true;
  supports_vision = false;
  supports_function_calling = true;
  supports_json_mode = true;
  supports_streaming = false;
  max_context = 32_000;
}

-- `FakeAdapter.generate`. Its text and its token counts are functions of the request, made with
-- hashlib, json and repr; they are an argument.
unfoldable pub fake_generate :
    (GenerationRequest → String × TokenUsage) → GenerationRequest → Completion
fake_generate made r = record {
  text = (made r).0;
  tier_requested = r.tier;
  tier_used = r.tier;
  provider_used = "fake";
  model_used = fake_model r.tier;
  tokens = (made r).1;
  degradations = [];
  from_cache = false;
  cache_age_seconds = none;
  finish_reason = stop_reason;
}
