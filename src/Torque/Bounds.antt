-- ===== src/Torque/Bounds.antt =====
-- What the noisy-OR guarantees, for the deviations that the scoring makes.
use defect_sense.Prelude.{
  Option, none, refl, ℕ, ◌≤◌, ◌≡◌, true, false, some, List, [], ◌∷◌, arith, All, All-append,
  Bool-cases, inl, inr,
}
use defect_sense.Float.{◌⊖◌, ◌⊘◌, abs, max_of, is_zero, Float, IsOrdered, ◌⊗◌, ◌≼◌, nought, unit}
use defect_sense.Float.Laws.{
  mul-nonneg, sub-nonneg, sub-le, mul-le_left, mul-le_right, nought-le-unit, min-le_right, le-min,
  decimal_nonneg, percent-le-unit, decimal_pos, lt_of_lt_le, le_of_lt, le-max_right,
  positive_nonzero,
}
use defect_sense.Torque.{
  SignatureBaseline, SignatureFeatures, Feature, knee_angle, elastic_slope, residual_variance,
  reversals, rundown_torque, Deviation, SignatureVerdict,
}
use defect_sense.Torque.Returns.{Returns}
use defect_sense.Torque.Classify.{classify, contamination, threading}
use defect_sense.Torque.Score.{
  Side, above, below, wrong_side, deviation, to_list, flattening, deviations, strength, factor,
  complement, score_signature, at_least_micro,
}

module _ {N : Type 0} ⦃F : Float N⦄ (laws : IsOrdered N) where
  open laws use {le_refl, le_trans, le_total, lt-eq-not-le, mul_mono, sub_mono}

  -- A deviation counts with a weight in [0, 1], and lies outside its tolerance.
  pub record IsOutside (d : Deviation N) : Type 0 where
    pub weighed : (nought ≼ d.weight) × (d.weight ≼ unit)
    pub outside : unit ≼ d.tolerance_units

  abbrev pub IsFraction : N → Type 0
  IsFraction x = (nought ≼ x) × (x ≼ unit)

  strength-IsFraction : (d : Deviation N) → IsOutside d → IsFraction (strength d)
  unfolding strength
  strength-IsFraction d out = (
    le-min laws _ _ _
        (laws.div_nonneg _ _ (sub-nonneg laws _ _ out.outside)
          (decimal_pos laws 15 1 (omega arith) (omega arith) (omega arith)))
        (nought-le-unit laws),
    min-le_right laws _ _,
  )

  pub factor-IsFraction : (d : Deviation N) → IsOutside d → IsFraction (factor d)
  unfolding factor
  factor-IsFraction d out =
      let (s0, s1) = strength-IsFraction d out in
      let w = out.weighed in
      (
        sub-nonneg laws _ _ (le_trans _ _ _ (mul-le_left laws d.weight (strength d) w.0 s0 s1) w.1),
        sub-le laws _ _ (mul-nonneg laws _ _ w.0 s0),
      )

  -- The product falls with each deviation, and stays in [0, 1].
  pub complement-le :
      (c : N) (ds : List (Deviation N))
      → nought ≼ c
      → All IsOutside ds
      → (nought ≼ complement c ds) × (complement c ds ≼ c)
  unfolding complement
  complement-le c [] h out = (h, le_refl c)
  complement-le c (d ∷ ds) h (o, out) =
      let (f0, f1) = factor-IsFraction d o in
      let (l, u) = complement-le (c ⊗ factor d) ds (mul-nonneg laws _ _ h f0) out in
      (l, le_trans _ _ _ u (mul-le_left laws _ _ h f0 f1))

  micro_pos : (x : N) → F.lt nought (at_least_micro x) ≡ true
  micro_pos x =
      lt_of_lt_le laws _ _ _ (decimal_pos laws 1 6 (omega arith) (omega arith) (omega arith))
        (le-max_right laws x (F.decimal 1 6))

  IsOutside-of :
      (m : ℕ) (d : Deviation N)
      → m ≤ 100
      → d.weight ≡ F.decimal m 2
      → F.le d.tolerance_units unit ≡ false
      → IsOutside d
  IsOutside-of m d h w far = record {
    weighed = rw w (decimal_nonneg laws m 2, percent-le-unit laws m h);
    outside = ground (arith, le_total unit d.tolerance_units);
  }

  deviation-Returns :
      (m : ℕ) (feature : Feature) (observed expected tolerance : N) (side : Side)
      → m ≤ 100
      → (o : Option (Deviation N)) × (deviation feature observed expected tolerance
            (F.decimal m 2)
            side
          ≡ some o)
        × All IsOutside (to_list o)
  unfolding deviation
  deviation-Returns m feature observed expected tolerance side h =
      let delta = observed ⊖ expected in
      elim (Bool-cases (F.le tolerance nought)) [
        | inl unset ↦ rw unset (none, refl, tt)
        | inr set ↦ elim (Bool-cases (wrong_side side delta)) [
          | inl wrong ↦ rw (set, wrong) (none, refl, tt)
          | inr right ↦ elim (Bool-cases (F.le (abs delta ⊘ tolerance) unit)) [
            | inl near ↦ rw (set, right, near) (none, refl, tt)
            | inr far ↦ rw (set, right, far) (some _, refl, (IsOutside-of m _ h refl far, tt))
          ]
        ]
      ]

  micro_nonzero : (x : N) → is_zero (at_least_micro x) ≡ false
  micro_nonzero x = positive_nonzero laws (at_least_micro x) (micro_pos x)

  flattening-Returns :
      (f : SignatureFeatures N) (b : SignatureBaseline N)
      → (ds : List (Deviation N)) × (flattening f b ≡ some ds) × All IsOutside ds
  unfolding flattening
  flattening-Returns f b =
      elim (Bool-cases (F.lt f.late_to_early_slope_ratio b.yield_flattening_ratio)) [
        | inl low ↦
            rw (low, micro_nonzero b.yield_flattening_ratio)
              (
                _,
                refl,
                (
                  record {
                    weighed = (decimal_nonneg laws 45 2, percent-le-unit laws 45 (omega arith));
                    outside = le_trans _ _ _ (laws.add_zero unit).1 (
                        laws.add_mono _ _ _ _ (le_refl unit) (
                          laws.div_nonneg _ _ (sub-nonneg laws _ _ (le_of_lt laws _ _ low))
                            (micro_pos _)));
                  },
                  tt,
                ),
              )
        | inr high ↦ rw high ([], refl, tt)
      ]

  deviations-Returns :
      (f : SignatureFeatures N) (b : SignatureBaseline N)
      → (ds : List (Deviation N)) × (deviations f b ≡ some ds) × All IsOutside ds
  unfolding deviations
  deviations-Returns f b =
      let (o1, e1, h1) =
        deviation-Returns 35 knee_angle f.knee_angle_deg b.knee_angle_deg b.knee_angle_tolerance_deg
          above (omega arith) in
      let (o2, e2, h2) =
        deviation-Returns 40 elastic_slope f.elastic_slope_nm_per_deg b.elastic_slope_nm_per_deg
          b.elastic_slope_tolerance below (omega arith) in
      let (o3, e3, h3) =
        deviation-Returns 25 residual_variance f.elastic_residual_variance b.residual_variance_max
          (at_least_micro b.residual_variance_max) above (omega arith) in
      let (o4, e4, h4) =
        deviation-Returns 20 reversals (F.decimal f.reversal_count 0) b.reversal_count_max
          (max_of b.reversal_count_max unit) above (omega arith) in
      let (o5, e5, h5) =
        deviation-Returns 30 rundown_torque f.rundown_torque_mean_nm b.rundown_torque_max_nm
          (at_least_micro b.rundown_torque_max_nm) above (omega arith) in
      let (ds, e6, h6) = flattening-Returns f b in
      rw (e1, e2, e3, e4, e5, e6)
        (
          _,
          refl,
          All-append IsOutside _ _ h1 (
              All-append IsOutside _ _ h2 (
                All-append IsOutside _ _ h3
                  (All-append IsOutside _ _ h4 (All-append IsOutside _ _ h5 h6)))),
        )

  classify-Returns : (f : SignatureFeatures N) (b : SignatureBaseline N) → Returns (classify f b)
  unfolding classify contamination threading
  classify-Returns f b =
      rw
        (
          micro_nonzero b.knee_angle_tolerance_deg,
          micro_nonzero b.elastic_slope_tolerance,
          micro_nonzero b.residual_variance_max,
          micro_nonzero b.rundown_torque_max_nm,
        )
        (_, refl)

  -- Whatever the features and the baseline, the scoring divides by nothing that is 0, and its anomaly
  -- score lies between 0 and 1.
  pub score_bounds :
      (f : SignatureFeatures N) (b : SignatureBaseline N) (threshold : N)
      → (v : SignatureVerdict N) × (score_signature f b threshold ≡ some v)
        × (nought ≼ v.anomaly_score)
        × (v.anomaly_score ≼ unit)
  unfolding score_signature
  score_bounds f b threshold =
      let (ds, e, out) = deviations-Returns f b in
      let (classes, e') = classify-Returns f b in
      let (l, u) = complement-le unit ds (nought-le-unit laws) out in
      rw (e, e') (_, refl, sub-nonneg laws _ _ u, sub-le laws _ _ l)

  -- Every factor bounds the product.
  pub complement-le-factor :
      (c : N) (ds : List (Deviation N))
      → nought ≼ c
      → c ≼ unit
      → All IsOutside ds
      → All (λ d. complement c ds ≼ factor d) ds
  unfolding complement
  complement-le-factor c [] h k out = tt
  complement-le-factor c (d ∷ ds) h k (o, out) =
      let (f0, f1) = factor-IsFraction d o in
      let (l, u) = complement-le (c ⊗ factor d) ds (mul-nonneg laws _ _ h f0) out in
      (
        le_trans _ _ _ u (mul-le_right laws _ _ h k f0),
        complement-le-factor (c ⊗ factor d) ds (mul-nonneg laws _ _ h f0)
            (le_trans _ _ _ (mul-le_left laws _ _ h f0 f1) k) out,
      )
