-- ===== src/Signals/Bounds.antt =====
-- What the noisy-OR guarantees for any rules whose weights are fractions. The torque module combines
-- its deviations the same way, so its lemmas serve.
use defect_sense.Prelude.{
  ◌≡◌, refl, String, false, some, List, [], ◌∷◌, ◌++◌, map, All, All-map, All-of_map, All-imp,
  arith, Option-cases, inl, inr,
}
use defect_sense.Dict.{Dict, lookup}
use defect_sense.Float.{Float, IsOrdered, ◌⊗◌, ◌⊖◌, ◌≼◌, nought, unit}
use defect_sense.Float.Laws.{mul-nonneg, mul-le_left, sub-nonneg, sub-le, nought-le-unit}
use defect_sense.Torque.{knee_angle}
use defect_sense.Torque as Torque
use defect_sense.Torque.Score.{factor, strength as torque_strength, complement as torque_complement}
use defect_sense.Torque.Bounds.{
  IsFraction, IsOutside, factor-IsFraction, complement-le, complement-le-factor,
}
use defect_sense.Signals.{FeatureBaseline, SpecLimit, DeviationRule, Deviation}
use defect_sense.Signals.Score.{
  compared, deviation_of, deviations_of, strength, complement, score_features,
}

module _ {N : Type 0} ⦃F : Float N⦄ (laws : IsOrdered N) where
  open laws use {le_refl, le_trans, le_total, mul_mono, sub_mono}

  abbrev as_torque : Deviation N → Torque.Deviation N
  as_torque d = record {
    feature = knee_angle;
    observed = d.observed;
    expected = d.expected;
    tolerance_units = d.tolerance_units;
    weight = d.weight;
  }

  same_complement :
      (c : N) (ds : List (Deviation N)) → complement c ds ≡ torque_complement c (map as_torque ds)
  unfolding complement torque_complement strength factor torque_strength
  same_complement c [] = refl
  same_complement c (d ∷ ds) = same_complement (c ⊗ factor (as_torque d)) ds

  unfoldable factor_of : Deviation N → N
  unfolding strength
  factor_of d = unit ⊖ d.weight ⊗ strength d

  abbrev IsFar : Deviation N → Type 0
  IsFar d = IsOutside laws (as_torque d)

  factor_of-IsFraction : (d : Deviation N) → IsFar d → IsFraction laws (factor_of d)
  unfolding factor factor_of strength torque_strength
  factor_of-IsFraction d out = factor-IsFraction laws (as_torque d) out

  -- A greater product so far is a greater product.
  complement-mono :
      (b c : N) (ds : List (Deviation N))
      → nought ≼ b
      → b ≼ c
      → All IsFar ds
      → complement b ds ≼ complement c ds
  unfolding complement factor_of
  complement-mono b c [] h le out = le
  complement-mono b c (d ∷ ds) h le (o, out) =
      let (f0, f1) = factor_of-IsFraction d o in
      complement-mono (b ⊗ factor_of d) (c ⊗ factor_of d) ds (mul-nonneg laws _ _ h f0)
        (mul_mono _ _ _ _ h f0 le (le_refl _)) out

  -- A rule that counts with a weight in [0, 1].
  abbrev pub IsWeighted : DeviationRule N → Type 0
  IsWeighted r = IsFraction laws r.weight

  module _ (statement : DeviationRule N → N → N → N → String) (found : Dict N)
      (baseline : FeatureBaseline N) where
    compared-IsOutside :
        (rule : DeviationRule N) (observed expected tolerance : N) (d : Deviation N)
        → IsWeighted rule
        → compared statement rule observed expected tolerance ≡ some d
        → IsOutside laws (as_torque d)
    unfolding compared
    compared-IsOutside rule observed expected tolerance d w e =
        let (weight, far) : (d.weight ≡ rule.weight) × (F.le d.tolerance_units unit ≡ false) =
          ground arith in
        record { weighed = rw weight w; outside = ground (arith, le_total unit d.tolerance_units) }

    deviation_of-IsOutside :
        (rule : DeviationRule N) (d : Deviation N)
        → IsWeighted rule
        → deviation_of statement found baseline rule ≡ some d
        → IsOutside laws (as_torque d)
    unfolding deviation_of
    deviation_of-IsOutside rule d w e = elim (Option-cases (lookup rule.feature found)) [
      | inl unmeasured ↦ absurd (ground arith)
      | inr (o, e1) ↦ elim (Option-cases (lookup rule.feature baseline.means)) [
        | inl unlearned ↦ absurd (ground arith)
        | inr (m, e2) ↦ elim (Option-cases (lookup rule.feature baseline.tolerances)) [
          | inl unlearned ↦ absurd (ground arith)
          | inr (t, e3) ↦ compared-IsOutside rule o m t d w (ground arith)
        ]
      ]
    ]

    AllOutside :
        (rules : List (DeviationRule N))
        → All IsWeighted rules
        → All IsFar (deviations_of statement found baseline rules)
    unfolding deviations_of
    AllOutside [] w = tt
    AllOutside (r ∷ rules) (w, ws) = elim (Option-cases (deviation_of statement found baseline r)) [
      | inl nothing ↦ rw (deviations_of, nothing) (AllOutside rules ws)
      | inr (d, e) ↦ rw (deviations_of, e) (deviation_of-IsOutside r d w e, AllOutside rules ws)
    ]

    alone :
        (d : Deviation N) (c : N)
        → c ≼ factor (as_torque d)
        → unit ⊖ complement unit (d ∷ []) ≼ unit ⊖ c
    unfolding complement strength factor torque_strength
    alone d c h = sub_mono unit unit _ _ (le_refl unit) (le_trans _ _ _ h (laws.one_mul _).1)

    more_from :
        (before after : List (DeviationRule N)) (rule : DeviationRule N) (c : N)
        → nought ≼ c
        → All IsWeighted before
        → IsWeighted rule
        → All IsWeighted after
        → complement c (deviations_of statement found baseline (before ++ rule ∷ after))
          ≼ complement c (deviations_of statement found baseline (before ++ after))
    unfolding complement deviations_of factor_of
    more_from [] after rule c h bs r ws =
        elim (Option-cases (deviation_of statement found baseline rule)) [
          | inl nothing ↦ rw (deviations_of, nothing) (le_refl _)
          | inr (d, e) ↦
              let (f0, f1) = factor_of-IsFraction d (deviation_of-IsOutside rule d r e) in
              rw (deviations_of, e)
                (complement-mono (c ⊗ factor_of d) c _ (mul-nonneg laws _ _ h f0)
                  (mul-le_left laws _ _ h f0 f1) (AllOutside after ws))
        ]
    more_from (b ∷ before) after rule c h (w, bs) r ws =
        elim (Option-cases (deviation_of statement found baseline b)) [
          | inl nothing ↦ rw (deviations_of, nothing) (more_from before after rule c h bs r ws)
          | inr (d, e) ↦
              let (f0, f1) = factor_of-IsFraction d (deviation_of-IsOutside b d w e) in
              rw (deviations_of, e)
                (more_from before after rule (c ⊗ factor_of d) (mul-nonneg laws _ _ h f0) bs r ws)
        ]

    module _ (limits : List (SpecLimit N)) (threshold : N) where
      abbrev score : List (DeviationRule N) → N
      score rules = (score_features statement found baseline rules limits threshold).score

      -- Where every weight is a fraction, the score lies between 0 and 1, whatever the features, the
      -- baseline and the limits, and it is at least what each deviation that was found scores alone.
      pub features_score_bounds :
          (rules : List (DeviationRule N))
          → All IsWeighted rules
          → (nought ≼ score rules)
            × (score rules ≼ unit)
            × All
                (λ d. unit ⊖ complement unit (d ∷ []) ≼ score rules)
                (deviations_of statement found baseline rules)
      unfolding score_features
      features_score_bounds rules w =
          let ds = deviations_of statement found baseline rules in
          let ts = map as_torque ds in
          let out = All-map (IsOutside laws) as_torque ds (AllOutside rules w) in
          let (l, u) = complement-le laws unit ts (nought-le-unit laws) out in
          let each = complement-le-factor laws unit ts (nought-le-unit laws) (le_refl unit) out in
          rw (same_complement unit ds) (
            sub-nonneg laws _ _ u,
            sub-le laws _ _ l,
            All-imp ds (λ d h. alone d _ h) (All-of_map _ as_torque ds each),
          )

      -- Another rule, wherever it stands, does not lower the score, where every weight is a fraction.
      pub more_rules_score_more :
          (before after : List (DeviationRule N)) (rule : DeviationRule N)
          → All IsWeighted before
          → IsWeighted rule
          → All IsWeighted after
          → score (before ++ after) ≼ score (before ++ rule ∷ after)
      unfolding score_features
      more_rules_score_more before after rule bs r ws =
          sub_mono _ _ _ _ (le_refl unit)
            (more_from before after rule unit (nought-le-unit laws) bs r ws)
