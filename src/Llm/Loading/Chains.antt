-- ===== src/Llm/Loading/Chains.antt =====
-- The chains of a configuration that is loaded.
use mathlib.Core.Path.{subst}
use defect_sense.Prelude.{
  ◌≡◌, ◌≢◌, refl, ap, String, true, false, Option, some, List, [], ◌∷◌, ◌++◌, arith, All,
  All-append, Bool-cases, Option-cases, inl, inr, some_inj,
}
use defect_sense.Prelude.Sort.{some_of}
use defect_sense.Dict.{Dict, lookup}
use defect_sense.Enums.{ModelTier}
use defect_sense.Llm.{ProviderConfig, is_configured, TierConfig, ModelConfig}
use defect_sense.Llm.Loading.{
  RawConfig, Definition, Entry, TierSpec, Built, provided, skipped, gated, build, same_model,
  keep_new, build_chain, load_tiers, tier_named, some_tier, load,
}

module _ (environ : String → Option String) (expand : String → String) (strip : String → String)
    (raw : RawConfig) where
  -- The provider has a definition whose gate is open, takes its kind from it, and can be called.
  pub record IsUsable (p : ProviderConfig) : Type 0 where
    pub definition : Definition
    pub defined : lookup p.name raw.providers ≡ some definition
    pub enabled : gated environ expand strip raw definition.enabled_if ≡ false
    pub of_kind : p.kind ≡ definition.kind
    pub callable : is_configured p ≡ true

  -- No two providers have the same name and the same model.
  abbrev pub Distinct : List ProviderConfig → Type 0
  Distinct [] = Unit
  Distinct (p ∷ ps) = All (λ q. same_model environ expand strip raw q p ≡ false) ps × Distinct ps

  -- What a loop over entries keeps: a chain of usable and distinct providers.
  abbrev IsClean : List ProviderConfig → Type 0
  IsClean ps = All IsUsable ps × Distinct ps

  Distinct-append :
      (ps : List ProviderConfig) (p : ProviderConfig)
      → Distinct ps
      → some_of (same_model environ expand strip raw p) ps ≡ false
      → Distinct (ps ++ (p ∷ []))
  unfolding some_of
  Distinct-append [] p h fresh = (tt, tt)
  Distinct-append (q ∷ ps) p (h, hs) fresh =
      elim (Bool-cases (same_model environ expand strip raw p q)) [
        | inl same ↦ absurd (ground arith)
        | inr other ↦ (
          All-append (λ k. same_model environ expand strip raw k q ≡ false) ps (p ∷ []) h
              (other, tt),
          Distinct-append ps p hs (rw other at fresh),
        )
      ]

  IsProvided : Entry → Built environ expand strip raw → Type 0
  IsProvided e (provided p) = is_configured p ≡ true → IsUsable p
  IsProvided e (skipped name gate) = Unit

  build-IsProvided :
      (e : Entry) (b : Built environ expand strip raw)
      → build environ expand strip raw e ≡ some b
      → IsProvided e b
  unfolding build IsProvided
  build-IsProvided e b h = elim (Option-cases (lookup e.provider raw.providers)) [
    | inl missing ↦ absurd (ground arith)
    | inr (d, found) ↦ elim (Bool-cases (gated environ expand strip raw d.enabled_if)) [
      | inl shut ↦ subst (IsProvided e) (some_inj (rw (found, shut) at h)) tt
      | inr open_gate ↦ subst (IsProvided e) (some_inj (rw (found, open_gate) at h)) (λ k. record {
        definition = d;
        defined = found;
        enabled = open_gate;
        of_kind = refl;
        callable = k;
      })
    ]
  ]

  keep_new-IsClean :
      (e : Entry) (b : Built environ expand strip raw) (chain : List ProviderConfig)
      (out : List (String × String))
      → IsProvided e b
      → IsClean chain
      → IsClean (keep_new environ expand strip raw b chain out).0
  unfolding IsProvided
  keep_new-IsClean e (skipped name gate) chain out u h = h
  keep_new-IsClean e (provided p) chain out u h = elim (Bool-cases (is_configured p)) [
    | inr lacking ↦ rw lacking h
    | inl callable ↦ elim (Bool-cases (some_of (same_model environ expand strip raw p) chain)) [
      | inl old ↦ rw (callable, old) h
      | inr fresh ↦
          rw (callable, fresh)
            (
              All-append IsUsable chain (p ∷ []) h.0 (u callable, tt),
              Distinct-append chain p h.1 fresh,
            )
    ]
  ]

  build_chain-IsClean :
      (es : List Entry) (chain : List ProviderConfig) (out : List (String × String))
      (x : List ProviderConfig × List (String × String))
      → IsClean chain
      → build_chain environ expand strip raw es chain out ≡ some x
      → IsClean x.0
  unfolding build_chain
  build_chain-IsClean [] chain out x h e =
      subst (λ (y : List ProviderConfig × List (String × String)). IsClean y.0) (some_inj e) h
  build_chain-IsClean (d ∷ ds) chain out x h e =
      elim (Option-cases (build environ expand strip raw d)) [
        | inl missing ↦ absurd (ground arith)
        | inr (b, built) ↦
            build_chain-IsClean ds (keep_new environ expand strip raw b chain out).0
              (keep_new environ expand strip raw b chain out).1 x
              (keep_new-IsClean d b chain out (build-IsProvided d b built) h) (rw built at e)
      ]

  abbrev AreClean : List (ModelTier × TierConfig) → Type 0
  AreClean tiers = All (λ t. IsClean t.1.chain) tiers

  load_tiers-AreClean :
      (specs : Dict TierSpec) (out : List (String × String))
      (x : List (ModelTier × TierConfig) × List (String × String))
      → load_tiers environ expand strip raw specs out ≡ some x
      → AreClean x.0
  unfolding load_tiers
  load_tiers-AreClean [] out x e =
      subst (λ (y : List (ModelTier × TierConfig) × List (String × String)). AreClean y.0)
        (some_inj e) tt
  load_tiers-AreClean ((name, spec) ∷ specs) out x e = elim (Option-cases (tier_named name)) [
    | inl unknown ↦ absurd (ground arith)
    | inr (t, named) ↦
        elim (Option-cases (build_chain environ expand strip raw spec.chain [] out)) [
          | inl failed ↦ absurd (ground arith)
          | inr ((chain, out'), built) ↦
              elim (Option-cases (load_tiers environ expand strip raw specs out')) [
                | inl failed ↦ absurd (ground arith)
                | inr ((rest, out''), loaded) ↦
                    subst
                      (λ (y : List (ModelTier × TierConfig) × List (String × String)). AreClean y.0)
                      (some_inj (rw (named, built, loaded) at e))
                      (
                        build_chain-IsClean spec.chain [] out (chain, out') (tt, tt) built,
                        load_tiers-AreClean specs out' (rest, out'') loaded,
                      )
              ]
        ]
  ]

  -- A configuration that loads has a tier, and every chain in it holds usable providers only, each with
  -- its definition's kind and its gate open, and no two with one name and one model.
  pub load-IsClean :
      (cfg : ModelConfig)
      → load environ expand strip raw ≡ some cfg
      → (cfg.tiers ≢ []) × All (λ t. All IsUsable t.1.chain × Distinct t.1.chain) cfg.tiers
  unfolding load
  load-IsClean cfg e = elim (Option-cases (load_tiers environ expand strip raw raw.tiers [])) [
    | inl failed ↦ absurd (ground arith)
    | inr ((tiers, out), loaded) ↦
        of_tiers tiers out (load_tiers-AreClean raw.tiers [] (tiers, out) loaded) (rw loaded at e)
  ]
    where
      cons_nil : {t : ModelTier × TierConfig} {ts : List (ModelTier × TierConfig)} → t ∷ ts ≡ [] → ⊥
      cons_nil k = cc

      of_tiers :
          (tiers : List (ModelTier × TierConfig)) (out : List (String × String))
          → AreClean tiers
          → some_tier environ expand strip raw tiers out ≡ some cfg
          → (cfg.tiers ≢ []) × All (λ t. All IsUsable t.1.chain × Distinct t.1.chain) cfg.tiers
      of_tiers [] out h k = absurd (ground arith)
      of_tiers (t ∷ tiers) out h k =
          let same : t ∷ tiers ≡ cfg.tiers = ap (λ (c : ModelConfig). c.tiers) (some_inj k) in
          rw (← same) (λ nothing. cons_nil nothing, h)
