-- ===== src/Adjudication/Verdicts.antt =====
-- When each verdict is given.
use defect_sense.Prelude.{
  ℕ, ◌≡◌, ◌≢◌, ◌↔◌, inl, inr, refl, Bool, true, false, List, [], ◌∷◌, ◌&&◌, arith, All, Bool-cases,
  List-cases,
}
use defect_sense.Prelude.Sort.{keep, some_of}
use defect_sense.Enums.{Verdict, pass, defect, escalate}
use defect_sense.Float.{Float}
use defect_sense.Torque.{SignatureBaseline}
use defect_sense.Adjudication.{
  FastenerOutcome, outcome_fusion_only, anomalous, in_spec, out_of_band, adjudicate, fusion_branch,
  endpoint_branch, anomaly_branch, endpoint_bad, undecided, nominal_unit,
}

module _ {N : Type 0} ⦃F : Float N⦄ where
  abbrev pub IsNominal : FastenerOutcome N → Type 0
  IsNominal o = (in_spec o ≡ true) × (anomalous o ≡ false)

  pub IsNominal-All :
      (os : List (FastenerOutcome N))
      → (keep outcome_fusion_only os ≡ [])
      → keep out_of_band os ≡ []
      → All IsNominal os
  unfolding keep
  IsNominal-All [] f e = tt
  IsNominal-All (o ∷ os) f e = elim (Bool-cases (in_spec o)) [
    | inl spec ↦ elim (Bool-cases (anomalous o)) [
      | inl odd ↦ absurd (ground arith)
      | inr fine ↦ ((spec, fine), IsNominal-All os (ground arith) (ground arith))
    ]
    | inr off ↦ absurd (ground arith)
  ]

  pub IsNominal-none :
      (os : List (FastenerOutcome N))
      → All IsNominal os
      → (keep outcome_fusion_only os ≡ []) × (keep out_of_band os ≡ []) × (keep anomalous os ≡ [])
  unfolding keep
  IsNominal-none [] h = (refl, refl, refl)
  IsNominal-none (o ∷ os) (h, hs) = ground (arith, IsNominal-none os hs)

  -- With signals at hand, the verdict is `pass` or `defect`, and which of the two is decided.
  data Decided (os : List (FastenerOutcome N)) (verifiers_passed : Bool) : Verdict → Type 0 where
    passed : verifiers_passed ≡ true → All IsNominal os → Decided os verifiers_passed pass
    failed : ¬ ((verifiers_passed ≡ true) × All IsNominal os) → Decided os verifiers_passed defect

  decide_verdict :
      (o : FastenerOutcome N) (os : List (FastenerOutcome N)) (b : SignatureBaseline N) (v : Bool)
      (detail : List ℕ)
      → Decided (o ∷ os) v (adjudicate (o ∷ os) b v detail).verdict
  unfolding adjudicate
  decide_verdict o os b false detail = failed (λ h. cc h.0)
  decide_verdict o os b true detail = elim (List-cases (keep outcome_fusion_only (o ∷ os))) [
    | inr (w, ws, some_fused) ↦
        rw (some_fused, fusion_branch)
          (failed (λ h. cc (some_fused, (IsNominal-none (o ∷ os) h.1).0)))
    | inl no_fused ↦ elim (List-cases (keep out_of_band (o ∷ os))) [
      | inr (w, ws, some_out) ↦
          rw (no_fused, fusion_branch, some_out, endpoint_branch)
            (failed (λ h. cc (some_out, (IsNominal-none (o ∷ os) h.1).1)))
      | inl none_out ↦
          let fine = IsNominal-All (o ∷ os) no_fused none_out in
          rw
            (
              no_fused,
              fusion_branch,
              none_out,
              endpoint_branch,
              (IsNominal-none (o ∷ os) fine).2,
              anomaly_branch,
            )
            (passed refl fine)
    ]
  ]

  Decided-ne-escalate :
      {os : List (FastenerOutcome N)} {v : Bool} {r : Verdict} → Decided os v r → r ≢ escalate
  Decided-ne-escalate (passed e fine) = λ p. cc
  Decided-ne-escalate (failed bad) = λ p. cc

  Decided-pass :
      {os : List (FastenerOutcome N)} {v : Bool} {r : Verdict}
      → Decided os v r
      → (r ≡ pass) ↔ ((v ≡ true) × All IsNominal os)
  Decided-pass (passed e fine) = (λ _. (e, fine), λ _. refl)
  Decided-pass (failed bad) = (λ p. cc, λ h. absurd (bad h))

  -- The adjudication escalates exactly when there are no signals: the branch for an anomaly that is
  -- not decisive is never taken, since an anomalous signature either has its endpoint in spec, which
  -- is the fusion case, or out of spec, which is decisive.
  pub escalates_exactly_when_absent :
      (os : List (FastenerOutcome N)) (b : SignatureBaseline N) (verifiers_passed : Bool)
      (detail : List ℕ)
      → ((adjudicate os b verifiers_passed detail).verdict ≡ escalate) ↔ (os ≡ [])
  unfolding adjudicate
  escalates_exactly_when_absent [] b v detail = (λ _. refl, λ _. refl)
  escalates_exactly_when_absent (o ∷ os) b v detail = (
    λ e. absurd (Decided-ne-escalate (decide_verdict o os b v detail) e),
    λ e. absurd (ground arith),
  )

  -- A unit passes exactly when signals were produced, every verifier passed, and each signal has its
  -- endpoint in spec and a signature that is not anomalous.
  pub passes_exactly_when-IsNominal :
      (os : List (FastenerOutcome N)) (b : SignatureBaseline N) (verifiers_passed : Bool)
      (detail : List ℕ)
      → ((adjudicate os b verifiers_passed detail).verdict ≡ pass)
        ↔ ((os ≢ []) × (verifiers_passed ≡ true) × All IsNominal os)
  unfolding adjudicate
  passes_exactly_when-IsNominal [] b v detail = (λ e. cc, λ h. absurd (h.0 refl))
  passes_exactly_when-IsNominal (o ∷ os) b v detail =
      let (to, from) = Decided-pass (decide_verdict o os b v detail) in
      (λ e. (λ nothing. ground arith, (to e).0, (to e).1), λ h. from (h.1, h.2))

  some_of-keep :
      (p : FastenerOutcome N → Bool) (os : List (FastenerOutcome N))
      → (some_of p os ≡ false → keep p os ≡ []) × (some_of p os ≡ true → keep p os ≢ [])
  unfolding some_of keep
  some_of-keep p [] = (λ _. refl, λ e. cc)
  some_of-keep p (o ∷ os) = elim (Bool-cases (p o)) [
    | inl t ↦ rw t (λ e. cc, λ _ e. ground arith)
    | inr f ↦ rw f (some_of-keep p os)
  ]

  not_fused :
      (xs ys : List (FastenerOutcome N)) (b : SignatureBaseline N) (n : ℕ)
      → (endpoint_branch xs b (anomaly_branch ys (nominal_unit n))).fusion_only ≡ false
  unfolding endpoint_bad undecided nominal_unit
  not_fused (x ∷ xs) ys b n = refl
  not_fused [] [] b n = refl
  not_fused [] (y ∷ ys) b n = refl

  -- The result is marked fusion-only exactly when the verifiers passed and some signal has its
  -- endpoint in spec with an anomalous signature.
  pub fusion_only_exact :
      (os : List (FastenerOutcome N)) (b : SignatureBaseline N) (verifiers_passed : Bool)
      (detail : List ℕ)
      → (adjudicate os b verifiers_passed detail).fusion_only
        ≡ (verifiers_passed && some_of outcome_fusion_only os)
  unfolding adjudicate
  fusion_only_exact [] b v detail = unfold some_of in ground arith
  fusion_only_exact (o ∷ os) b false detail = refl
  fusion_only_exact (o ∷ os) b true detail =
      elim (Bool-cases (some_of outcome_fusion_only (o ∷ os))) [
        | inl found ↦ elim (List-cases (keep outcome_fusion_only (o ∷ os))) [
          | inl nothing ↦ absurd ((some_of-keep outcome_fusion_only (o ∷ os)).1 found nothing)
          | inr (w, ws, fusions) ↦ rw (fusions, fusion_branch, found)
        ]
        | inr missing ↦
            rw ((some_of-keep outcome_fusion_only (o ∷ os)).0 missing, fusion_branch, missing)
              (not_fused _ _ b _)
      ]
