-- ===== src/Torque/Learn.antt =====
-- `SignatureBaseline.from_clean_runs`, and its agreement with the learner of signals.py.
use defect_sense.Prelude.{
  ℕ, ◌-◌, ◌≡◌, refl, sym, ap, ◌∙◌, String, false, some, List, [], ◌∷◌, map, length, length-map, ltb,
  if◌then◌else◌, arith, Bool-cases, inl, inr,
}
use defect_sense.Dict.{lookup}
use defect_sense.Float.{Float, ◌⊕◌, ◌⊖◌, ◌⊗◌, ◌⊘◌, unit, max_of, abs}
use defect_sense.Torque.{SignatureBaseline, SignatureFeatures}
use defect_sense.Signals.{Library, FeatureBaseline}
use defect_sense.Signals.Learn.{values_of, tolerance_of, from_clean_runs as learn_features}
use defect_sense.Signals.Physics.{as_features}
use defect_sense.Signals.Baseline.{IsLearned, learns_exactly}

-- A baseline, the refusal of too few runs, or the ZeroDivisionError of a variance over one run or none.
pub data Learned (N : Type 0) : Type 0 where
  baseline : SignatureBaseline N → Learned N
  refused : ℕ → Learned N
  zero_division : Learned N

baseline_inj : {N : Type 0} {b c : SignatureBaseline N} → baseline b ≡ baseline c → b ≡ c
baseline_inj e = cc

module _ {N : Type 0} ⦃F : Float N⦄ ⦃L : Library N⦄ where
  -- The two results of `stats`; n is the number of all runs.
  abbrev pub mean_over : ℕ → List N → N
  mean_over n values = L.fsum values ⊘ F.decimal n 0

  abbrev pub deviation_over : ℕ → List N → N
  deviation_over n values =
      L.sqrt (L.fsum (map (λ v. L.pow (v ⊖ mean_over n values) 2) values) ⊘ F.decimal (n - 1) 0)

  abbrev pub tol : N → N → N → N
  tol sigma sd mean = max_of (max_of (sigma ⊗ sd) (abs mean ⊗ F.decimal 2 2)) (F.decimal 1 6)

  unfoldable pub from_clean_runs : List (SignatureFeatures N) → N → N → N → ℕ → Learned N
  from_clean_runs fs spec_lo spec_hi sigma min_runs =
      let n = length fs in
      let knees = map (λ f. f.knee_angle_deg) fs in
      let slopes = map (λ f. f.elastic_slope_nm_per_deg) fs in
      let residuals = map (λ f. f.elastic_residual_variance) fs in
      let rundowns = map (λ f. f.rundown_torque_mean_nm) fs in
      let reversals = map (λ f. F.decimal f.reversal_count 0) fs in
      if ltb n min_runs
      then refused n
      else if ltb n 2
      then zero_division
      else baseline (record {
        knee_angle_deg = mean_over n knees;
        knee_angle_tolerance_deg = tol sigma (deviation_over n knees) (mean_over n knees);
        elastic_slope_nm_per_deg = mean_over n slopes;
        elastic_slope_tolerance = tol sigma (deviation_over n slopes) (mean_over n slopes);
        residual_variance_max = mean_over n residuals ⊕ sigma ⊗ deviation_over n residuals;
        rundown_torque_max_nm = mean_over n rundowns ⊕ sigma ⊗ deviation_over n rundowns;
        spec_lo_nm = spec_lo;
        spec_hi_nm = spec_hi;
        yield_flattening_ratio = F.decimal 60 2;
        reversal_count_max =
            max_of (mean_over n reversals ⊕ sigma ⊗ deviation_over n reversals) unit;
        derived_from_runs = n;
        sigma_multiplier = sigma;
      })

  values-knee :
      (fs : List (SignatureFeatures N))
      → values_of "breakpoint_x" (map as_features fs) ≡ map (λ f. f.knee_angle_deg) fs
  unfolding values_of lookup
  values-knee [] = refl
  values-knee (f ∷ fs) = ap (◌∷◌ f.knee_angle_deg) (values-knee fs)

  values-slope :
      (fs : List (SignatureFeatures N))
      → values_of "slope_after" (map as_features fs) ≡ map (λ f. f.elastic_slope_nm_per_deg) fs
  unfolding values_of lookup
  values-slope [] = refl
  values-slope (f ∷ fs) = ap (◌∷◌ f.elastic_slope_nm_per_deg) (values-slope fs)

  -- The two baselines hold the same mean and the same tolerance for a feature.
  abbrev pub SameFeature : FeatureBaseline N → String → N → N → Type 0
  SameFeature g key mean tolerance =
      (lookup key g.means ≡ some mean) × (lookup key g.tolerances ≡ some tolerance)

  feature_agrees :
      (fs : List (SignatureFeatures N)) (sigma : N) (min_runs : ℕ) (g : FeatureBaseline N)
      (key : String) (f : SignatureFeatures N → N)
      → values_of key (map as_features fs) ≡ map f fs
      → ltb (length fs) 2 ≡ false
      → IsLearned (map as_features fs) sigma min_runs key (inr g)
      → let mean = mean_over (length fs) (map f fs) in
        SameFeature g key mean (tol sigma (deviation_over (length fs) (map f fs)) mean)
  unfolding tolerance_of
  feature_agrees fs sigma min_runs g key f vals several learned =
      let (_, mean, tolerance) = learned in
      (
        mean ∙ rw (vals, length-map f fs, several) refl,
        tolerance ∙ rw (tolerance_of, vals, length-map f fs, several) refl,
      )

  -- Where the torque module and the generic one both learn from the same clean runs of a fastener, they
  -- learn the same mean and the same tolerance for the knee and for the slope of the elastic segment.
  pub baselines_agree :
      (fs : List (SignatureFeatures N)) (spec_lo spec_hi sigma : N) (min_runs : ℕ)
      (b : SignatureBaseline N) (g : FeatureBaseline N)
      → from_clean_runs fs spec_lo spec_hi sigma min_runs ≡ baseline b
      → learn_features (map as_features fs) sigma min_runs ≡ inr g
      → SameFeature g "breakpoint_x" b.knee_angle_deg b.knee_angle_tolerance_deg
        × SameFeature g "slope_after" b.elastic_slope_nm_per_deg b.elastic_slope_tolerance
  unfolding from_clean_runs
  baselines_agree fs spec_lo spec_hi sigma min_runs b g e h =
      elim (Bool-cases (ltb (length fs) min_runs)) [
        | inl few ↦ absurd (ground arith)
        | inr enough ↦ elim (Bool-cases (ltb (length fs) 2)) [
          | inl single ↦ absurd (ground arith)
          | inr several ↦
              let same = baseline_inj (rw (from_clean_runs, enough, several) at e) in
              let agrees : (key : String) (f : SignatureFeatures N → N)
                  → values_of key (map as_features fs) ≡ map f fs
                  → SameFeature g key (mean_over (length fs) (map f fs)) (
                      tol sigma (deviation_over (length fs) (map f fs))
                        (mean_over (length fs) (map f fs))) =
                λ key f vals.
                  feature_agrees fs sigma min_runs g key f vals several
                    (rw h at (learns_exactly (map as_features fs) sigma min_runs key)) in
              rw (sym same) (
                agrees "breakpoint_x" (λ f. f.knee_angle_deg) (values-knee fs),
                agrees "slope_after" (λ f. f.elastic_slope_nm_per_deg) (values-slope fs),
              )
        ]
      ]
