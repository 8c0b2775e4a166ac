-- ===== src/Torque/Fit.antt =====
-- `_PrefixSums`, `_Fit` and `extract_features`: the two-segment fit of a curve, with prefix sums. An
-- IndexError and a ZeroDivisionError are `none`. The two lists that `_PrefixSums` is made from are the angles and the torques
-- of the same samples.
use defect_sense.Prelude.{
  ℕ, zero, suc, ◌+◌, ◌-◌, ◌*◌, ◌/◌, Bool, true, Option, none, some, List, [], ◌∷◌, ◌>>=◌, map,
  length, get_elem?, last?, leb, ltb, if◌then◌else◌,
}
use defect_sense.Prelude.Sort.{greatest}
use defect_sense.Float.{Float, ◌⊕◌, ◌⊖◌, ◌⊗◌, divide, nought, unit, max_of, abs}
use defect_sense.Torque.{TorqueSample, TorqueAngleCurve, SignatureFeatures}

-- MIN_SEGMENT_POINTS and MIN_CURVE_POINTS
abbrev pub min_segment_points : ℕ
min_segment_points = 5

abbrev pub min_curve_points : ℕ
min_curve_points = 2 * min_segment_points

module _ (N : Type 0) where
  pub record Fit : Type 0 where
    pub slope : N
    pub intercept : N
    pub sse : N
    pub n : ℕ

  pub record PrefixSums : Type 0 where
    pub n : ℕ
    pub sx : List N
    pub sy : List N
    pub sxx : List N
    pub sxy : List N
    pub syy : List N

module _ {N : Type 0} ⦃F : Float N⦄ where
  abbrev pub residual_variance : Fit N → Option N
  residual_variance f = if ltb 2 f.n then divide f.sse (F.decimal (f.n - 2) 0) else some nought

  -- s[0] = total, s[i + 1] = s[i] + x[i]
  unfoldable pub running : N → List N → List N
  running total [] = total ∷ []
  running total (x ∷ xs) = total ∷ running (total ⊕ x) xs

  abbrev pub angles : List (TorqueSample N) → List N
  angles samples = map (λ s. s.angle_deg) samples

  abbrev pub torques : List (TorqueSample N) → List N
  torques samples = map (λ s. s.torque_nm) samples

  unfoldable pub prefix_sums : List (TorqueSample N) → PrefixSums N
  prefix_sums samples = record {
    n = length samples;
    sx = running nought (angles samples);
    sy = running nought (torques samples);
    sxx = running nought (map (λ s. s.angle_deg ⊗ s.angle_deg) samples);
    sxy = running nought (map (λ s. s.angle_deg ⊗ s.torque_nm) samples);
    syy = running nought (map (λ s. s.torque_nm ⊗ s.torque_nm) samples);
  }

  -- s[hi] - s[lo]
  abbrev pub between : List N → ℕ → ℕ → Option N
  between s lo hi = do upper ← get_elem? s hi; lower ← get_elem? s lo; some (upper ⊖ lower)

  -- The least squares of n points with these sums; a zero-slope fit when x has no spread.
  unfoldable pub least_squares : ℕ → N → N → N → N → N → Option (Fit N)
  least_squares n sx sy sxx sxy syy =
      let count = F.decimal n 0 in
      let denom = count ⊗ sxx ⊖ sx ⊗ sx in
      if F.lt (abs denom) (F.decimal 1 12)
      then (do
        mean ← divide sy count
        some (record {
          slope = nought;
          intercept = mean;
          sse = max_of (syy ⊖ count ⊗ mean ⊗ mean) nought;
          n = n;
        }))
      else (do
        slope ← divide (count ⊗ sxy ⊖ sx ⊗ sy) denom
        intercept ← divide (sy ⊖ slope ⊗ sx) count
        some (record {
          slope = slope;
          intercept = intercept;
          sse = max_of (syy ⊖ intercept ⊗ sy ⊖ slope ⊗ sxy) nought;
          n = n;
        }))

  unfoldable pub fit : PrefixSums N → ℕ → ℕ → Option (Fit N)
  fit p lo hi =
      let n = hi - lo in
      if ltb n 2
      then some (record { slope = nought; intercept = nought; sse = nought; n = n })
      else do
        sx ← between p.sx lo hi
        sy ← between p.sy lo hi
        sxx ← between p.sxx lo hi
        sxy ← between p.sxy lo hi
        syy ← between p.syy lo hi
        least_squares n sx sy sxx sxy syy

  unfoldable pub total_sum_squares : PrefixSums N → ℕ → ℕ → Option N
  total_sum_squares p lo hi =
      let n = hi - lo in
      if ltb n 2 then some nought else do
        sy ← between p.sy lo hi
        syy ← between p.syy lo hi
        square ← divide (sy ⊗ sy) (F.decimal n 0)
        some (max_of (syy ⊖ square) nought)

  -- pre.fit(0, k).sse + pre.fit(k, n).sse
  unfoldable pub split_sse : PrefixSums N → ℕ → ℕ → Option N
  split_sse p n k = do left ← fit p 0 k; right ← fit p k n; some (left.sse ⊕ right.sse)

  -- `sse < best_sse`, where the best is infinite at first
  abbrev pub improves : N → Option N → Bool
  improves sse none = true
  improves sse (some best) = F.lt sse best

  -- `count` more candidates, from k on.
  unfoldable pub sweep : (ℕ → Option N) → ℕ → ℕ → ℕ → Option N → Option ℕ
  sweep cost zero k best_k best_sse = some best_k
  sweep cost (suc count) k best_k best_sse = do
    sse ← cost k
    let better = improves sse best_sse
    sweep cost count (suc k) (if better then k else best_k) (if better then some sse else best_sse)

  -- range(MIN_SEGMENT_POINTS, n - MIN_SEGMENT_POINTS + 1)
  unfoldable pub best_split : PrefixSums N → ℕ → Option ℕ
  best_split p n =
      sweep (split_sse p n) (n - min_segment_points + 1 - min_segment_points) min_segment_points
        min_segment_points none

  abbrev pub largest : List N → Option N
  largest [] = none
  largest (y ∷ ys) = some (greatest F.lt y ys)

  -- sum(1 for i in range(1, n) if ys[i - 1] - ys[i] > noise_floor)
  abbrev pub count_drops : N → List N → ℕ
  count_drops noise_floor [] = 0
  count_drops noise_floor (y ∷ []) = 0
  count_drops noise_floor (y ∷ z ∷ ys) =
      let rest = count_drops noise_floor (z ∷ ys) in
      if F.lt noise_floor (y ⊖ z) then suc rest else rest

  abbrev pub slope_ratio : N → N → Option N
  slope_ratio late early = if F.lt (F.decimal 1 9) (abs early) then divide late early else some unit

  unfoldable pub flattening_ratio : PrefixSums N → ℕ → ℕ → Option N
  flattening_ratio pre best_k n =
      let elastic_n = n - best_k in
      if leb (2 * min_segment_points) elastic_n
      then (do
        early ← fit pre best_k (best_k + elastic_n / 2)
        late ← fit pre (best_k + 3 * elastic_n / 4) n
        slope_ratio late.slope early.slope)
      else some unit

  -- The mean of the first k values, of which this is the sum.
  abbrev pub mean_before : ℕ → N → Option N
  mean_before k sum = if ltb 0 k then divide sum (F.decimal k 0) else some nought

  -- 1.0 - sse / sst if sst > 1e-12 else 1.0
  abbrev pub determination : N → N → Option N
  determination sse sst =
      if F.lt (F.decimal 1 12) sst
      then (do part ← divide sse sst; some (unit ⊖ part))
      else some unit

  unfoldable pub extract_features : TorqueAngleCurve N → Option (SignatureFeatures N)
  extract_features curve =
      let xs = angles curve.samples in
      let ys = torques curve.samples in
      let n = length xs in
      let pre = prefix_sums curve.samples in
      do
        best_k ← best_split pre n
        rundown ← fit pre 0 best_k
        elastic ← fit pre best_k n
        knee_angle ← get_elem? xs best_k
        sst ← total_sum_squares pre best_k n
        rundown_sum ← get_elem? pre.sy best_k
        late_ratio ← flattening_ratio pre best_k n
        rundown_mean ← mean_before best_k rundown_sum
        r2 ← determination elastic.sse sst
        variance ← residual_variance elastic
        peak ← largest ys
        last_angle ← last? xs
        last_torque ← last? ys
        some (record {
          knee_angle_deg = knee_angle;
          knee_torque_nm = elastic.slope ⊗ knee_angle ⊕ elastic.intercept;
          rundown_slope_nm_per_deg = rundown.slope;
          rundown_torque_mean_nm = rundown_mean;
          elastic_slope_nm_per_deg = elastic.slope;
          elastic_r2 = r2;
          elastic_residual_variance = variance;
          elastic_span_deg = last_angle ⊖ knee_angle;
          late_to_early_slope_ratio = late_ratio;
          final_torque_nm = last_torque;
          peak_torque_nm = peak;
          reversal_count = count_drops (max_of (F.decimal 1 2 ⊗ peak) (F.decimal 5 2)) ys;
          sample_count = n;
        })
