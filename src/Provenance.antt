-- ===== src/Provenance.antt =====
-- src/forge/domain/provenance.py: the attribution of a value, and what its constructor refuses. The text
-- of the strip under a panel, the token counts, the version of a prompt and the time of generation are
-- left out, as are a citation's score and kind; its `quote` is at most 400 characters long, which the
-- model does not check.
mod Examples
use defect_sense.Prelude.{
  ℕ, ◌≡◌, ◌≢◌, ◌↔◌, ◌⊎◌, String, Bool, true, Option, none, some, List, [], ◌∷◌, arith, Option-cases,
  inl, inr, ◌&&◌, if◌then◌else◌,
}
use defect_sense.Enums.{
  ModelTier, ProvenanceSource, measured, llm, retrieved, cached, DegradationKind,
}
use defect_sense.Float.{Float, ◌≼◌, nought, unit}

pub record Citation : Type 0 where
  pub doc_id : String
  pub chunk_id : String
  pub title : String
  pub quote : String
  pub url : Option String

module _ (N : Type 0) where
  pub record Provenance : Type 0 where
    pub source : ProvenanceSource
    pub producer : String
    pub confidence : Option N
    pub latency_ms : Option ℕ
    pub tier : Option ModelTier
    pub model_id : Option String
    pub degradations : List DegradationKind
    pub cache_age_seconds : Option ℕ
    pub is_synthetic : Bool
    pub citations : List Citation

-- The messages of the validators, in their order.
pub data Dishonesty : Type 0 where
  confidence_out_of_range llm_without_tier cached_without_age : Dishonesty
  retrieved_without_citation measured_with_confidence : Dishonesty

abbrev pub if_missing {ℓ} : {A : Type ℓ} → Dishonesty → Option A → Option Dishonesty
if_missing fault none = some fault
if_missing fault (some _) = none

abbrev pub if_given {ℓ} : {A : Type ℓ} → Dishonesty → Option A → Option Dishonesty
if_given fault none = none
if_given fault (some _) = some fault

abbrev pub if_empty {ℓ} : {A : Type ℓ} → Dishonesty → List A → Option Dishonesty
if_empty fault [] = some fault
if_empty fault (_ ∷ _) = none

module _ {N : Type 0} ⦃F : Float N⦄ where
  -- `Confidence`, ge=0.0 and le=1.0
  abbrev pub in_range : Option N → Bool
  in_range none = true
  in_range (some x) = F.le nought x && F.le x unit

  -- `_require_honesty`
  unfoldable pub require_honesty : Provenance N → Option Dishonesty
  require_honesty p = elim p.source [
    | llm ↦ if_missing llm_without_tier p.tier
    | cached ↦ if_missing cached_without_age p.cache_age_seconds
    | retrieved ↦ if_empty retrieved_without_citation p.citations
    | measured ↦ if_given measured_with_confidence p.confidence
    | _ ↦ none
  ]

  -- Provenance(...): the fields are checked before the validator runs.
  unfoldable pub construct : Provenance N → Dishonesty ⊎ Provenance N
  unfolding require_honesty
  construct p =
      if in_range p.confidence
      then elim (require_honesty p) [ none ↦ inr p | some fault ↦ inl fault ]
      else inl confidence_out_of_range

  -- The fields that a producer gives; the others have their defaults.
  abbrev pub given_by : ProvenanceSource → String → Option N → Option ℕ → Provenance N
  given_by source producer confidence latency_ms = record {
    source = source;
    producer = producer;
    confidence = confidence;
    latency_ms = latency_ms;
    tier = none;
    model_id = none;
    degradations = [];
    cache_age_seconds = none;
    is_synthetic = true;
    citations = [];
  }

  -- `measured` of provenance.py and `_measured` of src/forge/agents/graph.py
  unfoldable pub measured_by : String → Option ℕ → Dishonesty ⊎ Provenance N
  unfolding construct
  measured_by producer latency_ms = construct (given_by measured producer none latency_ms)

-- What a reader of an attribution may rely on.
pub record IsHonest {N : Type 0} ⦃F : Float N⦄ (p : Provenance N) : Type 0 where
  pub bounded : (x : N) → p.confidence ≡ some x → (nought ≼ x) × (x ≼ unit)
  pub tiered : p.source ≡ llm → p.tier ≢ none
  pub aged : p.source ≡ cached → p.cache_age_seconds ≢ none
  pub cited : p.source ≡ retrieved → p.citations ≢ []
  pub factual : p.source ≡ measured → p.confidence ≡ none

module _ {N : Type 0} ⦃F : Float N⦄ where
  -- An attribution can be constructed exactly when it is honest: a confidence lies between 0 and 1, what a
  -- language model said names its tier, what a cache served its age, what was retrieved a source, and
  -- what was measured claims no confidence.
  pub construct-IsHonest : (p : Provenance N) → (construct p ≡ inr p) ↔ IsHonest p
  unfolding construct require_honesty
  construct-IsHonest p = (
    λ e. record {
      bounded = λ x c. ground arith;
      tiered = λ s t. ground arith;
      aged = λ s t. ground arith;
      cited = λ s t. ground arith;
      factual = λ s. ground arith;
    },
    λ h. elim (Option-cases p.confidence) [
      | inl unclaimed ↦ ground (arith, h.tiered, h.aged, h.cited)
      | inr (x, claimed) ↦ ground (arith, h.tiered, h.aged, h.cited, h.factual, h.bounded x claimed)
    ],
  )
