-- ===== src/Llm/Attribution.antt =====
-- What an answer of the service says of where it comes from, and what it cannot hide.
use mathlib.Core.Path.{subst}
use defect_sense.Prelude.{
  ℕ, ◌+◌, ◌<◌, ◌≡◌, refl, sym, ap, ◌∙◌, String, Bool, true, false, Option, none, some, List, [],
  ◌∷◌, ◌++◌, ◌||◌, arith, get_elem?, if◌then◌else◌,
}
use defect_sense.Dict.{Dict, lookup}
use defect_sense.Enums.{
  ModelTier, reasoning, fast, vision_tier, DegradationKind, llm_tier_downgrade, budget_exceeded,
  rule_engine_fallback,
}
use defect_sense.Llm.{
  GenerationRequest, Completion, was_truncated, is_fake, ProviderConfig, ModelCapabilities,
  TierConfig, ModelConfig, tier_eq, tier,
}
use defect_sense.Llm.Adapters.{reply}
use defect_sense.Llm.Cache.{ResponseCache, CacheEntry, key, get, get_entry}
use defect_sense.Llm.Chain.{World, Stage, notes, ask, run_chain, tiers_from}
use defect_sense.Llm.Service.{
  LlmService, Outcome, answered, among, merged, stage_of, cached, finish, run_declared,
  generate_missed, generate,
}
use defect_sense.Llm.Degradations.{
  Once, among-append, among-merged, merged-Once, notes_truncated, notes_downgraded, notes_fallback,
  notes_invented,
}
use defect_sense.Llm.Honest.{TierOrigin, run_chain-TierOrigin, ask-IsPlain}

pub answered_inj : {c d : Completion} → answered c ≡ answered d → c ≡ d
answered_inj e = cc

tier_eq_sound : (t u : ModelTier) → tier_eq t u ≡ true → t ≡ u
tier_eq_sound reasoning reasoning h = refl
tier_eq_sound fast fast h = refl
tier_eq_sound vision_tier vision_tier h = refl
tier_eq_sound t u h = ground arith

-- A merge of degradations touches nothing else.
merged_same :
    (c : Completion) (ds : List DegradationKind)
    → ((merged c ds).text ≡ c.text)
      × ((merged c ds).provider_used ≡ c.provider_used)
      × ((merged c ds).tier_requested ≡ c.tier_requested)
      × ((merged c ds).tier_used ≡ c.tier_used)
merged_same c [] = (refl, refl, refl, refl)
merged_same c (d ∷ ds) = (refl, refl, refl, refl)

pub true_right : (b : Bool) → (b || true) ≡ true
true_right true = refl
true_right false = refl

same_either : {A : Type 0} {x : A} (b : Bool) → (if b then x else x) ≡ x
same_either true = refl
same_either false = refl

module _ (w : World) (r : GenerationRequest) where
  -- The completion is a provider's, at a place of a declared tier, and its degradations say what that
  -- provider is not.
  pub record IsAttributed (config : ModelConfig) (probed : Dict ModelCapabilities) (c : Completion)
      : Type 0 where
    pub of_tier : ModelTier
    pub of_config : TierConfig
    pub declared : tier config of_tier ≡ some of_config
    pub place : ℕ
    pub provider : ProviderConfig
    pub placed : get_elem? of_config.chain place ≡ some provider
    pub number : ℕ
    pub original : Completion
    pub asked : ask w config probed r number of_config.budget provider ≡ reply original
    pub text : c.text ≡ original.text
    pub named : c.provider_used ≡ original.provider_used
    pub requested : c.tier_requested ≡ r.tier
    pub used : c.tier_used ≡ r.tier
    pub downgraded : tier_eq of_tier r.tier ≡ false → among llm_tier_downgrade c.degradations ≡ true
    pub fallback : 0 < place → among llm_tier_downgrade c.degradations ≡ true
    pub invented : is_fake provider.kind ≡ true → among rule_engine_fallback c.degradations ≡ true
    pub cut : was_truncated original ≡ true → among budget_exceeded c.degradations ≡ true
    pub once : Once c.degradations

  merged-IsAttributed :
      (s : LlmService) (c : Completion) (stage : Stage)
      → TierOrigin w s.config s.probed r c stage
      → IsAttributed s.config s.probed (merged c stage.degradations)
  merged-IsAttributed s c stage t =
      let o = t.origin in
      let plain =
        ask-IsPlain w s.config s.probed r o.number t.of_config.budget o.provider o.original
          o.asked in
      let (text, provider_used, requested, used) = merged_same c stage.degradations in
      let same : (d : DegradationKind)
          → among d (notes o.original r.tier t.of_tier (0 + o.place) o.provider.kind) ≡ true
          → among d (merged c stage.degradations).degradations ≡ true =
        λ d h. among-merged d c stage.degradations (noted d o.earlier _ h o.noted) in
      record {
        of_tier = t.of_tier;
        of_config = t.of_config;
        declared = t.declared;
        place = o.place;
        provider = o.provider;
        placed = o.placed;
        number = o.number;
        original = o.original;
        asked = o.asked;
        text = text ∙ ap (λ (k : Completion). k.text) o.answer;
        named = provider_used ∙ ap (λ (k : Completion). k.provider_used) o.answer;
        requested =
            requested
            ∙ ap (λ (k : Completion). k.tier_requested) o.answer
            ∙ rw plain.requested (same_either (tier_eq t.of_tier r.tier));
        used = used ∙ ap (λ (k : Completion). k.tier_used) o.answer ∙ plain.used;
        downgraded = λ h.
            same llm_tier_downgrade
              (notes_downgraded o.original r.tier t.of_tier (0 + o.place) o.provider.kind h);
        fallback = λ h. same llm_tier_downgrade (
            notes_fallback o.original r.tier t.of_tier (0 + o.place) o.provider.kind (omega arith));
        invented = λ h.
            same rule_engine_fallback
              (notes_invented o.original r.tier t.of_tier (0 + o.place) o.provider.kind h);
        cut = λ h.
            same budget_exceeded
              (notes_truncated o.original r.tier t.of_tier (0 + o.place) o.provider.kind h);
        once = merged-Once c stage.degradations (rw (o.answer, plain.clean) tt);
      }
    where
      noted :
          (d : DegradationKind) (earlier new : List DegradationKind)
          → among d new ≡ true
          → stage.degradations ≡ earlier ++ new
          → among d stage.degradations ≡ true
      noted d earlier new h e =
          rw e (rw (among-append d earlier new, h) (true_right (among d earlier)))

  -- A completion that is not from the cache is attributed.
  finish-IsAttributed :
      (later : ℕ) (s s' : LlmService) (c : Completion)
      → run_declared w later r s (tier s.config r.tier) ≡ (answered c, s')
      → IsAttributed s.config s.probed c
  finish-IsAttributed later s s' c = of_tier (tier s.config r.tier)
    where
      ended :
          (x : Option Completion × Stage)
          → run_chain w s.config s.probed r (tiers_from r.tier) (stage_of s) ≡ x
          → finish w later r s x ≡ (answered c, s')
          → IsAttributed s.config s.probed c
      ended (none, stage) run e = absurd (ground arith)
      ended (some d, stage) run e =
          subst (IsAttributed s.config s.probed)
            (answered_inj (ap (λ (z : Outcome × LlmService). z.0) e))
            (merged-IsAttributed s d stage (
              run_chain-TierOrigin w s.config s.probed r (tiers_from r.tier) (stage_of s) d stage
                run))

      of_tier :
          (k : Option TierConfig)
          → run_declared w later r s k ≡ (answered c, s')
          → IsAttributed s.config s.probed c
      of_tier none e = absurd (ground arith)
      of_tier (some k) e = ended _ refl e

  entry-from_cache :
      (now : ℕ) (k : String) (e : Option CacheEntry) (c : ResponseCache) (hit : Completion)
      → (get_entry w.digest w.second now k e c).0 ≡ some hit
      → hit.from_cache ≡ true
  entry-from_cache now k none c hit h = absurd (ground arith)
  entry-from_cache now k (some e) c hit h = ground arith

  pub cached-from_cache :
      (now : ℕ) (o : Option ResponseCache) (hit : Completion)
      → (cached w now r o).0 ≡ some hit
      → hit.from_cache ≡ true
  unfolding get
  cached-from_cache now none hit h = absurd (ground arith)
  cached-from_cache now (some c) hit h =
      entry-from_cache now _ (lookup (key w.digest r) c.entries) c hit h

  -- An answer that is not from the cache is that of a provider of a declared tier, asked with this
  -- request; whatever it is short of is among its degradations, each of which stands there once: a lower
  -- tier, a place behind the head of the chain, the fake adapter, a text cut off at its limit. It names
  -- the tier of the request as the tier asked for, and as the tier used.
  pub fresh_answer-IsAttributed :
      (now later : ℕ) (s s' : LlmService) (c : Completion)
      → generate w now later r s ≡ (answered c, s')
      → c.from_cache ≡ false
      → IsAttributed s.config s.probed c
  unfolding generate
  fresh_answer-IsAttributed now later s s' c h live = looked_up (cached w now r s.cache) refl h
    where
      false_true : false ≡ true → ⊥
      false_true k = cc

      looked_up :
          (x : Option Completion × Option ResponseCache)
          → cached w now r s.cache ≡ x
          → generate_missed w later r s x ≡ (answered c, s')
          → IsAttributed s.config s.probed c
      looked_up (some hit, cache) found e =
          let same : c ≡ hit = answered_inj (ap (λ (z : Outcome × LlmService). z.0) (sym e)) in
          let stale : hit.from_cache ≡ true =
            cached-from_cache now s.cache hit
              (ap (λ (z : Option Completion × Option ResponseCache). z.0) found) in
          absurd (false_true (sym live ∙ ap (λ (k : Completion). k.from_cache) same ∙ stale))
      looked_up (none, cache) found e =
          finish-IsAttributed later (record s { cache = cache }) s' c e
