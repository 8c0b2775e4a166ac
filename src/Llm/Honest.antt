-- ===== src/Llm/Honest.antt =====
-- What an answer of the language model service says of where it comes from.
use defect_sense.Prelude.{
  Bool, true, ℕ, suc, ◌+◌, ◌≡◌, refl, sym, ap, ◌∙◌, false, Option, none, some, List, [], ◌∷◌, ◌++◌,
  arith, get_elem?, if◌then◌else◌, some_inj,
}
use defect_sense.Enums.{ModelTier, DegradationKind}
use defect_sense.Breaker.{CircuitBreaker, Admission, admitted, refused}
use defect_sense.Llm.{
  GenerationRequest, Completion, fake, openai_compatible, anthropic, ProviderKind, ProviderConfig,
  ModelCapabilities, Budget, TierConfig, ModelConfig, tier_eq, tier,
}
use defect_sense.Dict.{Dict}
use defect_sense.Llm.Adapters.{
  Answer, reply, failed, crashed, Response, timeout, broken, status, misshapen, Body,
}
use defect_sense.Llm.Adapters
use defect_sense.Llm.Chain.{
  World, Stage, notes, call_request, ask, ask_kind, settle, proceed, attempt, otherwise, walk,
  walk_tier, run_chain,
}

-- A walk that finds a completion after a failure has gone on.
went_on :
    (s s' : Stage) (c : Completion) (x : Option Completion × Stage) (b : Bool)
    → (if b then (none, s) else x) ≡ (some c, s')
    → x ≡ (some c, s')
went_on s s' c x true e = absurd (ground arith)
went_on s s' c x false e = e

module _ (w : World) (cfg : ModelConfig) (probed : Dict ModelCapabilities)
    (r : GenerationRequest) where
  abbrev pub retiered : ModelTier → Completion → Completion
  retiered t c = record c { tier_requested = if tier_eq t r.tier then c.tier_requested else r.tier }

  -- The provider at a place of a list has answered, and the degradations end with what that adds.
  pub record Origin (t : ModelTier) (budget : Budget) (offset : ℕ) (ps : List ProviderConfig)
      (c : Completion) (s : Stage) : Type 0 where
    pub place : ℕ
    pub provider : ProviderConfig
    pub placed : get_elem? ps place ≡ some provider
    pub number : ℕ
    pub original : Completion
    pub asked : ask w cfg probed r number budget provider ≡ reply original
    pub answer : c ≡ retiered t original
    pub earlier : List DegradationKind
    pub noted : s.degradations ≡ earlier ++ notes original r.tier t (offset + place) provider.kind

  zero_right : {n : ℕ} → n + 0 ≡ n
  zero_right = omega arith

  settle-Origin :
      (t : ModelTier) (budget : Budget) (position : ℕ) (p : ProviderConfig)
      (ps : List ProviderConfig) (b : CircuitBreaker) (s : Stage) (a : Answer)
      → ask w cfg probed r s.attempts budget p ≡ a
      → (c : Completion) (s' : Stage) → settle w cfg probed r t position p b a s ≡ (some c, s')
      → Origin t budget position (p ∷ ps) c s'
  settle-Origin t budget position p ps b s (failed e) asked c s' h = absurd (ground arith)
  settle-Origin t budget position p ps b s crashed asked c s' h = absurd (ground arith)
  settle-Origin t budget position p ps b s (reply o) asked c s' h = record {
    place = 0;
    provider = p;
    placed = refl;
    number = s.attempts;
    original = o;
    asked = asked;
    answer = some_inj (sym (ap (λ (z : Option Completion × Stage). z.0) h));
    earlier = s.degradations;
    noted = rw zero_right (sym (ap (λ (z : Option Completion × Stage). z.1.degradations) h));
  }

  attempt-Origin :
      (t : ModelTier) (budget : Budget) (position : ℕ) (p : ProviderConfig)
      (ps : List ProviderConfig) (s : Stage) (c : Completion) (s' : Stage)
      → attempt w cfg probed r t budget position p s ≡ (some c, s')
      → Origin t budget position (p ∷ ps) c s'
  unfolding attempt
  attempt-Origin t budget position p ps s c s' h = proceeded _ h
    where
      proceeded :
          (x : Admission × CircuitBreaker)
          → proceed w cfg probed r t budget position p x s ≡ (some c, s')
          → Origin t budget position (p ∷ ps) c s'
      proceeded (refused later, b) e = absurd (ground arith)
      proceeded (admitted, b) e =
          settle-Origin t budget position p ps b s (ask w cfg probed r s.attempts budget p) refl c
            s' e

  later-Origin :
      {t : ModelTier} {budget : Budget} {offset : ℕ} {p : ProviderConfig} {ps : List ProviderConfig}
      {c : Completion} {s : Stage}
      → Origin t budget (offset + 1) ps c s
      → Origin t budget offset (p ∷ ps) c s
  later-Origin {offset} o = record {
    place = suc o.place;
    provider = o.provider;
    placed = o.placed;
    number = o.number;
    original = o.original;
    asked = o.asked;
    answer = o.answer;
    earlier = o.earlier;
    noted = rw (moved offset o.place) o.noted;
  }
    where
      moved : (n m : ℕ) → n + suc m ≡ (n + 1) + m
      moved n m = omega arith

  walk-Origin :
      (t : ModelTier) (budget : Budget) (position : ℕ) (ps : List ProviderConfig) (s : Stage)
      (c : Completion) (s' : Stage)
      → walk w cfg probed r t budget position ps s ≡ (some c, s')
      → Origin t budget position ps c s'
  unfolding walk
  walk-Origin t budget position [] s c s' h = absurd (ground arith)
  walk-Origin t budget position (p ∷ ps) s c s' h =
      tried _ refl h (λ s'' e. walk-Origin t budget (position + 1) ps s'' c s' e)
    where
      tried :
          (x : Option Completion × Stage)
          → attempt w cfg probed r t budget position p s ≡ x
          → otherwise w cfg probed r x (λ s''. walk w cfg probed r t budget (position + 1) ps s'')
            ≡ (some c, s')
          → ((s'' : Stage)
              → walk w cfg probed r t budget (position + 1) ps s'' ≡ (some c, s')
              → Origin t budget (position + 1) ps c s')
          → Origin t budget position (p ∷ ps) c s'
      tried (none, s'') first e rest = later-Origin (rest s'' (went_on s'' s' c _ s''.escaped e))
      tried (some d, s'') first e rest = attempt-Origin t budget position p ps s c s' (first ∙ e)

  -- Of which declared tier the provider is.
  pub record TierOrigin (c : Completion) (s : Stage) : Type 0 where
    pub of_tier : ModelTier
    pub of_config : TierConfig
    pub declared : tier cfg of_tier ≡ some of_config
    pub origin : Origin of_tier of_config.budget 0 of_config.chain c s

  pub run_chain-TierOrigin :
      (ts : List ModelTier) (s : Stage) (c : Completion) (s' : Stage)
      → run_chain w cfg probed r ts s ≡ (some c, s')
      → TierOrigin c s'
  unfolding run_chain
  run_chain-TierOrigin [] s c s' h = absurd (ground arith)
  run_chain-TierOrigin (t ∷ ts) s c s' h =
      walked _ refl h (λ s'' e. run_chain-TierOrigin ts s'' c s' e)
    where
      tried :
          (k : TierConfig) (x : Option Completion × Stage)
          → tier cfg t ≡ some k
          → walk w cfg probed r t k.budget 0 k.chain s ≡ x
          → otherwise w cfg probed r x (λ s''. run_chain w cfg probed r ts s'') ≡ (some c, s')
          → ((s'' : Stage) → run_chain w cfg probed r ts s'' ≡ (some c, s') → TierOrigin c s')
          → TierOrigin c s'
      tried k (none, s'') found first e rest = rest s'' (went_on s'' s' c _ s''.escaped e)
      tried k (some d, s'') found first e rest = record {
        of_tier = t;
        of_config = k;
        declared = found;
        origin = walk-Origin t k.budget 0 k.chain s c s' (first ∙ e);
      }

      walked :
          (k : Option TierConfig)
          → tier cfg t ≡ k
          → walk_tier w cfg probed r t k s (λ s''. run_chain w cfg probed r ts s'') ≡ (some c, s')
          → ((s'' : Stage) → run_chain w cfg probed r ts s'' ≡ (some c, s') → TierOrigin c s')
          → TierOrigin c s'
      walked none found e rest = absurd (ground arith)
      walked (some k) found e rest =
          tried k (walk w cfg probed r t k.budget 0 k.chain s) found refl e rest

  -- What an adapter says of a completion that it makes.
  pub record IsPlain (c : Completion) : Type 0 where
    pub requested : c.tier_requested ≡ r.tier
    pub used : c.tier_used ≡ r.tier
    pub clean : c.degradations ≡ []
    pub live : c.from_cache ≡ false

  remote-IsPlain :
      (b : Budget) (p : ProviderConfig) (a : Response) (c : Completion)
      → Adapters.generate p (call_request b r) a ≡ reply c
      → IsPlain c
  unfolding Adapters.generate
  remote-IsPlain b p timeout c h = absurd (ground arith)
  remote-IsPlain b p broken c h = absurd (ground arith)
  remote-IsPlain b p (misshapen code) c h = absurd (ground arith)
  remote-IsPlain b p (status code none) c h = absurd (ground arith)
  remote-IsPlain b p (status code (some body)) c h = ground arith

  pub ask-IsPlain :
      (n : ℕ) (b : Budget) (p : ProviderConfig) (c : Completion)
      → ask w cfg probed r n b p ≡ reply c
      → IsPlain c
  unfolding ask Adapters.fake_generate
  ask-IsPlain n b p c = of_kind p.kind
    where
      of_kind : (k : ProviderKind) → ask_kind w cfg probed r k n b p ≡ reply c → IsPlain c
      of_kind fake h = ground arith
      of_kind openai_compatible h = remote-IsPlain b p _ c h
      of_kind anthropic h = remote-IsPlain b p _ c h
