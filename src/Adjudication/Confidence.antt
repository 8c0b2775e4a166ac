-- ===== src/Adjudication/Confidence.antt =====
-- The confidence of the result, and the routing to a human.
use mathlib.Core.Path.{subst}
use defect_sense.Prelude.{
  ℕ, ◌≤◌, ◌<◌, ◌≡◌, inl, inr, refl, Bool, true, false, none, List, [], ◌∷◌, ◌&&◌, not, arith, All,
  List-cases,
}
use defect_sense.Prelude.Sort.{keep, greatest, All-keep, All-greatest}
use defect_sense.Float.{Float, IsOrdered, ◌≼◌, ◌⊕◌, ◌⊗◌, nought, unit}
use defect_sense.Float.Laws.{
  lt_of_lt_le, lt-min, nought-le-unit, decimal_pos, decimal_nonneg, percent-le-unit, le-min,
  min-le_right, add-nonneg, mul-nonneg,
}
use defect_sense.Torque.{SignatureBaseline}
use defect_sense.Adjudication.{
  FastenerOutcome, Adjudication, outcome_fusion_only, anomalous, out_of_band, adjudicate,
  scores_less, fusion_branch, endpoint_branch, anomaly_branch, fused, endpoint_bad, nominal_unit,
  absent, failed_verifier, needs_human, in_band, is_pass,
}
use defect_sense.Adjudication.Verdicts.{IsNominal-All, IsNominal-none}

module _ {N : Type 0} ⦃F : Float N⦄ (laws : IsOrdered N) where
  abbrev pub IsScored : FastenerOutcome N → Type 0
  IsScored o = (nought ≼ o.signature.anomaly_score) × (o.signature.anomaly_score ≼ unit)

  abbrev pub IsConfidence : N → Type 0
  IsConfidence c = (nought ≼ c) × (c ≼ unit)

  -- The branch that was taken, with what is known of the signal that it is about.
  data Taken (P : FastenerOutcome N → Type 0) (b : SignatureBaseline N)
      : Adjudication N → Type 0 where
    by_verifier : (detail : List ℕ) → Taken P b (failed_verifier detail)
    by_shape : (w : FastenerOutcome N) → P w → outcome_fusion_only w ≡ true → Taken P b (fused w b)
    by_endpoint : (bad : FastenerOutcome N) → Taken P b (endpoint_bad bad b)
    by_nothing : (n : ℕ) → Taken P b (nominal_unit n)

  taken :
      (P : FastenerOutcome N → Type 0) (o : FastenerOutcome N) (os : List (FastenerOutcome N))
      (b : SignatureBaseline N) (v : Bool) (detail : List ℕ)
      → All P (o ∷ os)
      → Taken P b (adjudicate (o ∷ os) b v detail)
  unfolding adjudicate
  taken P o os b false detail h = by_verifier detail
  taken P o os b true detail h = elim (List-cases (keep outcome_fusion_only (o ∷ os))) [
    | inr (w, ws, fusions) ↦
        let kept =
          subst (All (λ x. P x × (outcome_fusion_only x ≡ true))) fusions
            (All-keep P outcome_fusion_only (o ∷ os) h) in
        let (good, marked) =
          All-greatest scores_less (λ x. P x × (outcome_fusion_only x ≡ true)) w ws kept.0 kept.1 in
        rw (fusions, fusion_branch) (by_shape (greatest scores_less w ws) good marked)
    | inl no_fused ↦ elim (List-cases (keep out_of_band (o ∷ os))) [
      | inr (w, ws, some_out) ↦
          rw (no_fused, fusion_branch, some_out, endpoint_branch) (by_endpoint w)
      | inl none_out ↦
          rw
            (
              no_fused,
              fusion_branch,
              none_out,
              endpoint_branch,
              (IsNominal-none (o ∷ os) (IsNominal-All (o ∷ os) no_fused none_out)).2,
              anomaly_branch,
            )
            (by_nothing _)
    ]
  ]

  Taken-confidence :
      {b : SignatureBaseline N} {a : Adjudication N}
      → Taken IsScored b a
      → IsConfidence a.confidence
  unfolding failed_verifier fused endpoint_bad nominal_unit
  Taken-confidence (by_verifier detail) =
      (decimal_nonneg laws 99 2, percent-le-unit laws 99 (omega arith))
  Taken-confidence (by_shape w s e) = (
    le-min laws _ _ _
        (add-nonneg laws _ _ (decimal_nonneg laws 60 2)
          (mul-nonneg laws _ _ s.0 (decimal_nonneg laws 35 2)))
        (decimal_nonneg laws 97 2),
    laws.le_trans _ _ _ (min-le_right laws _ _) (percent-le-unit laws 97 (omega arith)),
  )
  Taken-confidence (by_endpoint bad) =
      (decimal_nonneg laws 95 2, percent-le-unit laws 95 (omega arith))
  Taken-confidence (by_nothing n) =
      (decimal_nonneg laws 94 2, percent-le-unit laws 94 (omega arith))

  -- If the scores lie in [0, 1], so does the confidence of the result, on every branch.
  pub confidence_bounds :
      (os : List (FastenerOutcome N)) (b : SignatureBaseline N) (verifiers_passed : Bool)
      (detail : List ℕ)
      → All IsScored os
      → IsConfidence (adjudicate os b verifiers_passed detail).confidence
  unfolding adjudicate absent
  confidence_bounds [] b v detail h = (laws.le_refl nought, nought-le-unit laws)
  confidence_bounds (o ∷ os) b v detail h = Taken-confidence (taken IsScored o os b v detail h)

  -- An anomalous signature scores at least the default threshold of `score_signature`.
  abbrev pub IsOverThreshold : FastenerOutcome N → Type 0
  IsOverThreshold o = anomalous o ≡ true → F.decimal 45 2 ≼ o.signature.anomaly_score

  certain-in_band : (c : N) → F.lt (F.decimal 70 2) c ≡ true → in_band c ≡ false
  certain-in_band c h = ground (arith, laws.lt-eq-not-le (F.decimal 70 2) c)

  over_70 : (m : ℕ) → 70 < m → m ≤ 100 → F.lt (F.decimal 70 2) (F.decimal m 2) ≡ true
  over_70 m h k = laws.decimal_lt 70 m 2 (omega arith) h (omega arith)

  Taken-in_band :
      {b : SignatureBaseline N} {a : Adjudication N}
      → F.lt (F.decimal 70 2) (F.decimal 60 2 ⊕ F.decimal 45 2 ⊗ F.decimal 35 2) ≡ true
      → Taken IsOverThreshold b a
      → (not (is_pass a.verdict) && in_band a.confidence) ≡ false
  unfolding failed_verifier fused endpoint_bad nominal_unit
  Taken-in_band gap (by_verifier detail) =
      certain-in_band _ (over_70 99 (omega arith) (omega arith))
  Taken-in_band gap (by_shape w over e) = certain-in_band _ (
      lt-min laws _ _ _
        (lt_of_lt_le laws _ _ _ gap (
          laws.add_mono _ _ _ _ (laws.le_refl _) (
            laws.mul_mono _ _ _ _ (decimal_nonneg laws 45 2) (decimal_nonneg laws 35 2)
              (over (ground arith)) (laws.le_refl _))))
        (over_70 97 (omega arith) (omega arith)))
  Taken-in_band gap (by_endpoint bad) = certain-in_band _ (over_70 95 (omega arith) (omega arith))
  Taken-in_band gap (by_nothing n) = refl

  -- The uncertainty band asks for no human: where anomalous signatures score at least 0.45, and
  -- 0.60 + 0.45 * 0.35 exceeds 0.70, a human is asked exactly when the cost engine asks for one,
  -- with no explanation from the confidence.
  pub band_never_asks :
      (os : List (FastenerOutcome N)) (b : SignatureBaseline N) (verifiers_passed : Bool)
      (detail : List ℕ) (triage_requires_human : Bool)
      → F.lt (F.decimal 70 2) (F.decimal 60 2 ⊕ F.decimal 45 2 ⊗ F.decimal 35 2) ≡ true
      → All IsOverThreshold os
      → needs_human (adjudicate os b verifiers_passed detail) triage_requires_human
        ≡ (triage_requires_human, none)
  unfolding needs_human
  band_never_asks [] b v detail true gap h = refl
  band_never_asks [] b v detail false gap h =
      unfold adjudicate absent in
      ground (arith, laws.lt-eq-not-le nought (F.decimal 45 2), decimal_pos laws 45 2)
  band_never_asks (o ∷ os) b v detail true gap h = refl
  band_never_asks (o ∷ os) b v detail false gap h =
      rw (Taken-in_band gap (taken IsOverThreshold o os b v detail h))
