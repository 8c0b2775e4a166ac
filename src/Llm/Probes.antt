-- ===== src/Llm/Probes.antt =====
-- What a probe of the capabilities makes available.
use defect_sense.Prelude.{
  ◌≡◌, refl, ◌∙◌, String, Bool, true, false, some, [], ◌∷◌, ◌&&◌, if◌then◌else◌,
}
use defect_sense.Prelude.Sort.{some_of}
use defect_sense.Dict.{lookup, insert, lookup-insert, eq_iff}
use defect_sense.Enums.{ModelTier}
use defect_sense.Llm.{ProviderConfig, TierConfig, is_configured, tier}
use defect_sense.Llm.Service.{LlmService}
use defect_sense.Llm.Capabilities.{ProbeAnswers, measure, probe_provider, is_tier_available}

module _ (holds : String → String → Bool) where
  -- A tier that needs vision and has one provider is available, once two providers of that provider's
  -- name have been probed, exactly when the probe of the second finds it reachable and with vision, be
  -- its model that of the tier or another: the capabilities are kept by the name of the provider.
  pub vision_by_name :
      (t : ModelTier) (s : LlmService) (tc : TierConfig) (p q : ProviderConfig) (a b : ProbeAnswers)
      → tier s.config t ≡ some tc
      → tc.chain ≡ p ∷ []
      → tc.required_capability ≡ some "supports_vision"
      → is_configured p ≡ true
      → q.name ≡ p.name
      → is_tier_available t (probe_provider holds q b (probe_provider holds p a s).1).1
        ≡ ((measure holds q.kind q b).reachable && (measure holds q.kind q b).supports_vision)
  unfolding is_tier_available probe_provider some_of
  vision_by_name t s tc p q a b declared chain wants callable named =
      let caps = measure holds q.kind q b in
      let found : lookup p.name
            (insert q.name caps (insert p.name (measure holds p.kind p a) s.probed))
          ≡ some caps =
        lookup-insert q.name p.name caps (insert p.name (measure holds p.kind p a) s.probed)
        ∙ rw ((eq_iff q.name p.name).1 named) refl in
      rw (declared, chain, callable, wants, found) (either _)
    where
      either : (x : Bool) → (if x then true else false) ≡ x
      either true = refl
      either false = refl
