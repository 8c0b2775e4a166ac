-- ===== src/Torque/Returns.antt =====
-- What the steps of `extract_features` return: no index out of range, no empty list, no divisor 0.
use defect_sense.Prelude.{
  ℕ, zero, suc, ◌+◌, ◌-◌, ◌*◌, ◌/◌, ◌≤◌, ◌<◌, ◌≡◌, refl, false, Option, some, List, [], ◌∷◌, map,
  length, get_elem?, last?, last?-cons, length-map, leb, ltb, Bool-cases, inl, inr, arith, take,
}
use defect_sense.Float.{Float, IsOrdered, ◌⊕◌, ◌⊖◌, ◌⊗◌, ◌≼◌, nought, abs, is_zero}
use defect_sense.Float.Laws.{
  le_of_not_lt, le_of_lt, lt_of_lt_le, decimal_pos, positive_nonzero, sized_nonzero, count_pos,
}
use defect_sense.Torque.{TorqueSample}
use defect_sense.Torque.Fit.{
  Fit, running, prefix_sums, least_squares, residual_variance, slope_ratio, mean_before,
  determination, angles, torques, between, fit, total_sum_squares, split_sse, min_segment_points,
  largest, flattening_ratio,
}

-- A step that returns a value.
abbrev pub Returns {ℓ} : {A : Type ℓ} → Option A → Type ℓ
Returns {A = A} o = (a : A) × (o ≡ some a)

module _ {N : Type 0} ⦃F : Float N⦄ where
  -- The sum of the first elements, in the order in which the code adds them.
  unfoldable pub sum_from : N → List N → N
  sum_from total [] = total
  sum_from total (x ∷ xs) = sum_from (total ⊕ x) xs

  -- Every prefix sum that the fits read is the sum of the elements before its index.
  pub running-take :
      (total : N) (xs : List N) (i : ℕ)
      → i ≤ length xs
      → get_elem? (running total xs) i ≡ some (sum_from total (take i xs))
  unfolding running sum_from
  running-take total [] zero h = refl
  running-take total [] (suc i) h = absurd (omega arith)
  running-take total (x ∷ xs) zero h = refl
  running-take total (x ∷ xs) (suc i) h = running-take (total ⊕ x) xs i (omega arith)

  between-Returns :
      (xs : List N) (lo hi : ℕ)
      → lo ≤ hi
      → hi ≤ length xs
      → Returns (between (running nought xs) lo hi)
  between-Returns xs lo hi le bound =
      rw (running-take nought xs hi bound, running-take nought xs lo (omega arith)) (_, refl)

  module _ (laws : IsOrdered N) where
    -- A number whose size reaches a threshold of the code is not 0.
    reaches-nonzero : (x : N) (k : ℕ) → k ≤ 12 → F.decimal 1 k ≼ abs x → is_zero x ≡ false
    reaches-nonzero x k few h = sized_nonzero laws x (
        lt_of_lt_le laws nought (F.decimal 1 k) (abs x)
          (decimal_pos laws 1 k (omega arith) (omega arith) few) h)

    least_squares-Returns :
        (n : ℕ) (sx sy sxx sxy syy : N) → 0 < n → Returns (least_squares n sx sy sxx sxy syy)
    unfolding least_squares
    least_squares-Returns n sx sy sxx sxy syy some_points =
        let count = F.decimal n 0 in
        let denom = count ⊗ sxx ⊖ sx ⊗ sx in
        let counted = positive_nonzero laws count (count_pos laws n some_points) in
        elim (Bool-cases (F.lt (abs denom) (F.decimal 1 12))) [
          | inl flat ↦ rw (flat, counted) (_, refl)
          | inr spread ↦
              let apart = reaches-nonzero denom 12 (omega arith) (le_of_not_lt laws _ _ spread) in
              rw (spread, apart, counted) (_, refl)
        ]

  module _ (laws : IsOrdered N) (samples : List (TorqueSample N)) where
    pub fit-Returns :
        (lo hi : ℕ) → lo ≤ hi → hi ≤ length samples → Returns (fit (prefix_sums samples) lo hi)
    unfolding fit prefix_sums
    fit-Returns lo hi le bound =
        let (sx, e1) = sums (angles samples) (length-map (λ s. s.angle_deg) samples) in
        let (sy, e2) = sums (torques samples) (length-map (λ s. s.torque_nm) samples) in
        let (sxx, e3) =
          sums (map (λ s. s.angle_deg ⊗ s.angle_deg) samples) (length-map _ samples) in
        let (sxy, e4) =
          sums (map (λ s. s.angle_deg ⊗ s.torque_nm) samples) (length-map _ samples) in
        let (syy, e5) =
          sums (map (λ s. s.torque_nm ⊗ s.torque_nm) samples) (length-map _ samples) in
        elim (Bool-cases (ltb (hi - lo) 2)) [
          | inl few ↦ rw few (_, refl)
          | inr many ↦
              rw (many, e1, e2, e3, e4, e5)
                (least_squares-Returns laws (hi - lo) _ _ _ _ _ (ground (arith, many)))
        ]
      where
        sums :
            (xs : List N) → length xs ≡ length samples → Returns (between (running nought xs) lo hi)
        sums xs e = between-Returns xs lo hi le (omega (arith, bound, e))

    pub total_sum_squares-Returns :
        (lo hi : ℕ)
        → lo ≤ hi
        → hi ≤ length samples
        → Returns (total_sum_squares (prefix_sums samples) lo hi)
    unfolding total_sum_squares prefix_sums
    total_sum_squares-Returns lo hi le bound =
        let (sy, e1) =
          between-Returns (torques samples) lo hi le
            (omega (arith, bound, length-map (λ s. s.torque_nm) samples)) in
        let (syy, e2) =
          between-Returns (map (λ s. s.torque_nm ⊗ s.torque_nm) samples) lo hi le
            (omega (arith, bound, length-map (λ s. s.torque_nm ⊗ s.torque_nm) samples)) in
        elim (Bool-cases (ltb (hi - lo) 2)) [
          | inl few ↦ rw few (_, refl)
          | inr many ↦
              let counted =
                positive_nonzero laws (F.decimal (hi - lo) 0)
                  (count_pos laws (hi - lo) (ground (arith, many))) in
              rw (many, e1, e2, counted) (_, refl)
        ]

    pub split_sse-Returns :
        (k : ℕ) → k ≤ length samples → Returns (split_sse (prefix_sums samples) (length samples) k)
    unfolding split_sse
    split_sse-Returns k bound =
        let (left, e) = fit-Returns 0 k (omega arith) bound in
        let (right, f) = fit-Returns k (length samples) bound (omega arith) in rw (e, f) (_, refl)

-- A list that is not empty has a largest and a last element.
module _ {N : Type 0} ⦃F : Float N⦄ where
  pub largest-Returns : (xs : List N) → 0 < length xs → Returns (largest xs)
  largest-Returns [] h = absurd (omega arith)
  largest-Returns (x ∷ xs) h = (_, refl)

  pub last-Returns : (xs : List N) → 0 < length xs → Returns (last? xs)
  last-Returns [] h = absurd (omega arith)
  last-Returns (x ∷ xs) h = last?-cons x xs

module _ {N : Type 0} ⦃F : Float N⦄ (laws : IsOrdered N) where
  pub slope_ratio-Returns : (late early : N) → Returns (slope_ratio late early)
  slope_ratio-Returns late early = elim (Bool-cases (F.lt (F.decimal 1 9) (abs early))) [
    | inl steep ↦
        let sloped = reaches-nonzero laws early 9 (omega arith) (le_of_lt laws _ _ steep) in
        rw (steep, sloped) (_, refl)
    | inr flat ↦ rw flat (_, refl)
  ]

  pub mean_before-Returns : (k : ℕ) (sum : N) → Returns (mean_before k sum)
  mean_before-Returns k sum = elim (Bool-cases (ltb 0 k)) [
    | inl many ↦
        let counted =
          positive_nonzero laws (F.decimal k 0) (count_pos laws k (ground (arith, many))) in
        rw (many, counted) (_, refl)
    | inr nothing ↦ rw nothing (_, refl)
  ]

  pub determination-Returns : (sse sst : N) → Returns (determination sse sst)
  determination-Returns sse sst = elim (Bool-cases (F.lt (F.decimal 1 12) sst)) [
    | inl varied ↦
        let positive =
          lt_of_lt_le laws nought (F.decimal 1 12) sst
            (decimal_pos laws 1 12 (omega arith) (omega arith) (omega arith))
            (le_of_lt laws _ _ varied) in
        rw (varied, positive_nonzero laws sst positive) (_, refl)
    | inr level ↦ rw level (_, refl)
  ]

  pub residual_variance-Returns : (f : Fit N) → Returns (residual_variance f)
  residual_variance-Returns f = elim (Bool-cases (ltb 2 f.n)) [
    | inl many ↦
        let counted =
          positive_nonzero laws (F.decimal (f.n - 2) 0)
            (count_pos laws (f.n - 2) (ground (arith, many))) in
        rw (many, counted) (_, refl)
    | inr few ↦ rw few (_, refl)
  ]

  pub flattening_ratio-Returns :
      (samples : List (TorqueSample N)) (k : ℕ)
      → k ≤ length samples
      → Returns (flattening_ratio (prefix_sums samples) k (length samples))
  unfolding flattening_ratio
  flattening_ratio-Returns samples k h =
      let n = length samples in
      let (early, e1) = fit-Returns laws samples k (k + (n - k) / 2) (omega arith) (omega arith) in
      let (late, e2) =
        fit-Returns laws samples (k + 3 * (n - k) / 4) n (omega arith) (omega arith) in
      elim (Bool-cases (leb (2 * min_segment_points) (n - k))) [
        | inl long ↦ rw (long, e1, e2) (slope_ratio-Returns late.slope early.slope)
        | inr short ↦ rw short (_, refl)
      ]
