-- ===== src/Torque/Knee.antt =====
-- The sweep over the breakpoints, and what `extract_features` returns for every admissible curve.
use defect_sense.Prelude.{
  ℕ, String, zero, suc, ◌+◌, ◌-◌, ◌≤◌, ◌<◌, ◌≡◌, refl, Bool, Option, none, some, List, length,
  get_elem?, get_elem?-lt, length-map, leb, Bool-cases, inl, inr, sym, ◌⊎◌, arith, take,
}
use defect_sense.Float.{Float, IsOrdered, ◌≼◌, nought}
use defect_sense.Float.Laws.{le_of_not_lt, le_of_lt}
use defect_sense.Torque.{TorqueSample, TorqueAngleCurve, SignatureFeatures}
use defect_sense.Torque.Curve.{post_init, makes_exactly_when}
use defect_sense.Torque.Fit.{
  prefix_sums, angles, torques, split_sse, sweep, best_split, min_segment_points, min_curve_points,
  extract_features,
}
use defect_sense.Torque.Returns.{
  Returns, sum_from, running-take, fit-Returns, total_sum_squares-Returns, split_sse-Returns,
  largest-Returns, last-Returns, mean_before-Returns, determination-Returns,
  residual_variance-Returns, flattening_ratio-Returns,
}

-- What a sweep over the costs of `count` candidates from k on finds: its cost is no greater than
-- that of the best before nor that of any candidate.
module _ {N : Type 0} ⦃F : Float N⦄ (laws : IsOrdered N) (cost : ℕ → Option N) where
  open laws use {le_refl, le_trans}

  pub record IsBest (k count r : ℕ) (s : N) : Type 0 where
    pub costs : cost r ≡ some s
    pub least : (j : ℕ) (t : N) → k ≤ j → j < k + count → cost j ≡ some t → s ≼ t

  pub Sweep : ℕ → ℕ → Type 0
  Sweep k count = (j : ℕ) → k ≤ j → j < k + count → Returns (cost j)

  extend-IsBest :
      (k count r : ℕ) (s c : N)
      → cost k ≡ some c
      → s ≼ c
      → IsBest (suc k) count r s
      → IsBest k (suc count) r s
  extend-IsBest k count r s c at_k le h = record {
    costs = h.costs;
    least = λ j t lo hi e. elim (Bool-cases (leb j k)) [
      | inl first ↦
          let here : j ≡ k = ground arith in
          let both : cost k ≡ some t = rw (sym here) e in ground (arith, at_k, both)
      | inr later ↦ h.least j t (ground arith) (omega arith) e
    ];
  }

  sweep-IsBest :
      (count k best : ℕ) (b : N)
      → Sweep k count
      → cost best ≡ some b
      → (r : ℕ) × (s : N) × (sweep cost count k best (some b) ≡ some r)
        × IsBest k count r s
        × (s ≼ b)
        × ((r ≡ best) ⊎ ((k ≤ r) × (r < k + count)))
  unfolding sweep Sweep
  sweep-IsBest zero k best b total e = (
    best,
    b,
    refl,
    record { costs = e; least = λ j t lo hi h. absurd (omega arith) },
    le_refl b,
    inl refl,
  )
  sweep-IsBest (suc count) k best b total e =
      let (c, at_k) = total k (omega arith) (omega arith) in
      let later : Sweep (suc k) count = λ j lo hi. total j (omega arith) (omega arith) in
      elim (Bool-cases (F.lt c b)) [
        | inl better ↦
            let (r, s, found, h, le, where_r) = sweep-IsBest count (suc k) k c later at_k in
            (
              r,
              s,
              rw (at_k, better) found,
              extend-IsBest k count r s c at_k le h,
              le_trans s c b le (le_of_lt laws c b better),
              widen where_r,
            )
        | inr worse ↦
            let (r, s, found, h, le, where_r) = sweep-IsBest count (suc k) best b later e in
            (
              r,
              s,
              rw (at_k, worse) found,
              extend-IsBest k count r s c at_k (le_trans s b c le (le_of_not_lt laws c b worse)) h,
              le,
              widen_later where_r,
            )
      ]
    where
      widen :
          {r : ℕ}
          → (r ≡ k) ⊎ ((suc k ≤ r) × (r < suc k + count))
          → (r ≡ best) ⊎ ((k ≤ r) × (r < k + suc count))
      widen (inl e) = inr (omega arith, omega arith)
      widen (inr (lo, hi)) = inr (omega arith, omega arith)

      widen_later :
          {r : ℕ}
          → (r ≡ best) ⊎ ((suc k ≤ r) × (r < suc k + count))
          → (r ≡ best) ⊎ ((k ≤ r) × (r < k + suc count))
      widen_later (inl e) = inl e
      widen_later (inr (lo, hi)) = inr (omega arith, omega arith)

-- The split that the sweep returns, among all that leave enough points on both sides.
pub record IsKnee {N : Type 0} ⦃F : Float N⦄ (samples : List (TorqueSample N)) (k : ℕ)
    : Type 0 where
  pub found : best_split (prefix_sums samples) (length samples) ≡ some k
  pub left : min_segment_points ≤ k
  pub right : k + min_segment_points ≤ length samples

module _ {N : Type 0} ⦃F : Float N⦄ (laws : IsOrdered N) (samples : List (TorqueSample N)) where
  -- With enough samples, the sweep returns a split with at least 5 points on either side, and no such
  -- split has a smaller sum of the two squared residuals.
  pub IsKnee-minimises :
      min_curve_points ≤ length samples
      → (k : ℕ) × (s : N) × IsKnee samples k
        × (split_sse (prefix_sums samples) (length samples) k ≡ some s)
        × ((j : ℕ) (t : N)
            → min_segment_points ≤ j
            → j + min_segment_points ≤ length samples
            → split_sse (prefix_sums samples) (length samples) j ≡ some t
            → s ≼ t)
  unfolding best_split sweep Sweep
  IsKnee-minimises enough =
      let n = length samples in
      let cost = split_sse (prefix_sums samples) n in
      let count = n - min_curve_points in
      let (c, at_first) = split_sse-Returns laws samples min_segment_points (omega arith) in
      let (k, s, found, h, le, where_k) =
        sweep-IsBest laws cost count (suc min_segment_points) min_segment_points c
          (λ j lo hi. split_sse-Returns laws samples j (omega arith)) at_first in
      let h' = extend-IsBest laws cost min_segment_points count k s c at_first le h in
      let size : n - min_segment_points + 1 - min_segment_points ≡ suc count = omega arith in
      let in_range : (min_segment_points ≤ k) × (k + min_segment_points ≤ n) =
        ground (arith, where_k) in
      (
        k,
        s,
        record { found = rw (size, at_first) found; left = in_range.0; right = in_range.1 },
        h.costs,
        λ j t lo hi e. h'.least j t lo (omega arith) e,
      )

  -- What a curve with enough samples has, whatever the angles.
  unfoldable pub Extracts : TorqueAngleCurve N → Type 0
  Extracts curve =
      (f : SignatureFeatures N) × (extract_features curve ≡ some f)
      × (f.sample_count ≡ length samples)
      × ((k : ℕ) × IsKnee samples k × (get_elem? (angles samples) k ≡ some f.knee_angle_deg))

  pub long-Extracts :
      (position : ℕ) (tool unit : String)
      → min_curve_points ≤ length samples
      → Extracts (record {
        fastener_position = position;
        samples = samples;
        tool_id = tool;
        unit_id = unit;
      })
  unfolding extract_features prefix_sums Extracts
  long-Extracts position tool unit enough =
      let (k, s, knee, costs, least) = IsKnee-minimises enough in
      let n = length samples in
      let same = length-map (λ s. s.angle_deg) samples in
      let same' = length-map (λ s. s.torque_nm) samples in
      let (rundown, e1) = fit-Returns laws samples 0 k (omega arith) (omega (arith, knee.right)) in
      let (elastic, e2) = fit-Returns laws samples k n (omega (arith, knee.right)) (omega arith) in
      let (knee_angle, e3) = get_elem?-lt (angles samples) k (omega (arith, knee.right, same)) in
      let (sst, e4) =
        total_sum_squares-Returns laws samples k n (omega (arith, knee.right)) (omega arith) in
      let e5 = running-take nought (torques samples) k (omega (arith, knee.right, same')) in
      let (late_ratio, e6) = flattening_ratio-Returns laws samples k (omega (arith, knee.right)) in
      let (peak, e7) = largest-Returns (torques samples) (omega (arith, enough, same')) in
      let (last_angle, e8) = last-Returns (angles samples) (omega (arith, enough, same)) in
      let (last_torque, e9) = last-Returns (torques samples) (omega (arith, enough, same')) in
      let (mean, e10) = mean_before-Returns laws k (sum_from nought (take k (torques samples))) in
      let (r2, e11) = determination-Returns laws elastic.sse sst in
      let (variance, e12) = residual_variance-Returns laws elastic in
      rw (same, knee.found, e1, e2, e3, e4, e5, e6, e10, e11, e12, e7, e8, e9)
        (_, refl, refl, (k, knee, e3))

  -- Every curve that `__post_init__` admits has features: no index is out of range, no list
  -- empty and no divisor 0. They count all samples, and the knee angle is that of the split that the sweep finds.
  pub extracts_every_curve :
      (is_finite : N → Bool) (position : ℕ) (tool unit : String)
      → post_init is_finite samples ≡ none
      → (f : SignatureFeatures N) × (extract_features (record {
        fastener_position = position;
        samples = samples;
        tool_id = tool;
        unit_id = unit;
      })
          ≡ some f)
        × (f.sample_count ≡ length samples)
        × ((k : ℕ) × IsKnee samples k × (get_elem? (angles samples) k ≡ some f.knee_angle_deg))
  unfolding Extracts
  extracts_every_curve is_finite position tool unit valid =
      long-Extracts position tool unit ((makes_exactly_when is_finite samples).0 valid).0
