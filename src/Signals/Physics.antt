-- ===== src/Signals/Physics.antt =====
-- The torque module and the generic one on the same sweep. The header of signals.py says which of its
-- features stands for which of a fastener's.
use defect_sense.Prelude.{
  ◌≡◌, refl, ap, Option, none, some, List, [], ◌∷◌, ◌>>=◌, map, length, get_elem?, last?,
  last?-cons, length-map,
}
use defect_sense.Dict.{Dict}
use defect_sense.Float.{Float, ◌⊗◌}
use defect_sense.Torque.{TorqueSample, TorqueAngleCurve, SignatureFeatures}
use defect_sense.Torque.Fit.{
  prefix_sums as torque_sums, angles, torques, fit, total_sum_squares, best_split, flattening_ratio,
  mean_before, determination, residual_variance, largest, extract_features,
}
use defect_sense.Signals.{Sample, SignalSeries}
use defect_sense.Signals.Extractors.{products, prefix_sums, piecewise_linear}

module _ {N : Type 0} where
  -- The torque over the angle.
  abbrev pub as_sample : TorqueSample N → Sample N
  as_sample s = record { x = s.angle_deg; y = s.torque_nm }

  abbrev pub as_features : SignatureFeatures N → Dict N
  as_features f =
      ("breakpoint_x", f.knee_angle_deg)
      ∷ ("breakpoint_y", f.knee_torque_nm)
      ∷ ("slope_before", f.rundown_slope_nm_per_deg)
      ∷ ("slope_after", f.elastic_slope_nm_per_deg)
      ∷ ("mean_before", f.rundown_torque_mean_nm)
      ∷ ("residual_variance", f.elastic_residual_variance)
      ∷ ("r2", f.elastic_r2)
      ∷ ("span_after", f.elastic_span_deg)
      ∷ ("late_early_slope_ratio", f.late_to_early_slope_ratio)
      ∷ []

-- Two computations whose continuations agree through h.
bind_through {ℓ κ μ} :
    {A : Type ℓ} {B : Type κ} {C : Type μ} (h : B → C) (f : A → Option B) (g : A → Option C)
    (o : Option A)
    → ((a : A) → g a ≡ (f a >>= λ b. some (h b)))
    → (o >>= g) ≡ (o >>= f >>= λ b. some (h b))
bind_through h f g none e = refl
bind_through h f g (some a) e = e a

module _ {N : Type 0} ⦃F : Float N⦄ where
  pub xs-as_sample : (ss : List (TorqueSample N)) → map (λ s. s.x) (map as_sample ss) ≡ angles ss
  xs-as_sample [] = refl
  xs-as_sample (s ∷ ss) = ap (◌∷◌ s.angle_deg) (xs-as_sample ss)

  pub ys-as_sample : (ss : List (TorqueSample N)) → map (λ s. s.y) (map as_sample ss) ≡ torques ss
  ys-as_sample [] = refl
  ys-as_sample (s ∷ ss) = ap (◌∷◌ s.torque_nm) (ys-as_sample ss)

  products-map :
      (f g : TorqueSample N → N) (ss : List (TorqueSample N))
      → products (map f ss) (map g ss) ≡ map (λ s. f s ⊗ g s) ss
  products-map f g [] = refl
  products-map f g (s ∷ ss) = ap (◌∷◌ (f s ⊗ g s)) (products-map f g ss)

  pub sums_agree :
      (ss : List (TorqueSample N)) → prefix_sums (angles ss) (torques ss) ≡ torque_sums ss
  unfolding prefix_sums torque_sums
  sums_agree ss =
      rw
        (
          length-map (λ (s : TorqueSample N). s.angle_deg) ss,
          products-map (λ s. s.angle_deg) (λ s. s.angle_deg) ss,
          products-map (λ s. s.angle_deg) (λ s. s.torque_nm) ss,
          products-map (λ s. s.torque_nm) (λ s. s.torque_nm) ss,
        )
        refl

  -- The peak and the last torque are values of a sweep that has a last angle.
  ends_through :
      (ss : List (TorqueSample N)) {B C : Type 0} (h : B → C) (f : N → N → N → B) (g : N → C)
      → ((p a t : N) → g a ≡ h (f p a t))
      → (last? (angles ss) >>= λ a. some (g a)) ≡ (
          (largest (torques ss) >>= λ p.
          last? (angles ss) >>= λ a. last? (torques ss) >>= λ t. some (f p a t))
          >>= λ b. some (h b))
  ends_through [] h f g e = refl
  ends_through (s ∷ ss) h f g e =
      let (a, at_angle) = last?-cons s.angle_deg (angles ss) in
      let (t, at_torque) = last?-cons s.torque_nm (torques ss) in
      rw (at_angle, at_torque) (ap some (e _ a t))

  -- On the sweep of a fastener, `piecewise_linear` gives under its own names what `extract_features`
  -- of the torque module gives, value for value, and has no result where that has none.
  pub piecewise_is_signature :
      (series : SignalSeries N) (curve : TorqueAngleCurve N)
      → series.samples ≡ map as_sample curve.samples
      → piecewise_linear series ≡ (extract_features curve >>= λ f. some (as_features f))
  unfolding piecewise_linear extract_features
  piecewise_is_signature series curve same =
      let ss = curve.samples in
      let pre = torque_sums ss in
      rw (same, xs-as_sample ss, ys-as_sample ss, sums_agree ss)
        (bind_through as_features _ _ (best_split pre (length (angles ss))) (λ k.
          bind_through as_features _ _ (fit pre 0 k) (λ before.
            bind_through as_features _ _ (fit pre k (length (angles ss))) (λ after.
              bind_through as_features _ _ (get_elem? (angles ss) k) (λ x.
                bind_through as_features _ _ (total_sum_squares pre k (length (angles ss))) (λ sst.
                  bind_through as_features _ _ (get_elem? pre.sy k) (λ sum.
                    bind_through as_features _ _ (flattening_ratio pre k (length (angles ss)))
                      (λ late. bind_through as_features _ _ (mean_before k sum) (λ mean.
                        bind_through as_features _ _ (determination after.sse sst) (λ r2.
                          bind_through as_features _ _ (residual_variance after)
                            (λ variance. ends_through ss as_features _ _ (λ p a t. refl))))))))))))
