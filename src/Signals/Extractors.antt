-- ===== src/Signals/Extractors.antt =====
-- The extractors of a series but the spectral one. `_Fit` and `_PrefixSums.fit` have the text that
-- they have in src/forge/domain/torque.py, whose definitions in Torque.Fit stand for both.
-- An IndexError, or `max` of nothing, is `none`.
use defect_sense.Prelude.{
  ℕ, suc, ◌-◌, Option, none, some, List, [], ◌∷◌, ◌>>=◌, map, length, get_elem?, last?,
  if◌then◌else◌, min, max,
}
use defect_sense.Prelude.Sort.{greatest, sorted_by, keep}
use defect_sense.Dict.{Dict}
use defect_sense.Float.{Float, ◌⊕◌, ◌⊖◌, ◌⊗◌, divide, nought, max_of, abs}
use defect_sense.Torque.Fit.{
  PrefixSums, running, fit, total_sum_squares, best_split, flattening_ratio, residual_variance,
  mean_before, determination, largest, count_drops,
}
use defect_sense.Signals.{Library, SignalSeries, xs_of, ys_of}

module _ {N : Type 0} ⦃F : Float N⦄ where
  -- x[i] * y[i]
  abbrev pub products : List N → List N → List N
  products [] ys = []
  products (x ∷ xs) [] = []
  products (x ∷ xs) (y ∷ ys) = x ⊗ y ∷ products xs ys

  unfoldable pub prefix_sums : List N → List N → PrefixSums N
  prefix_sums xs ys = record {
    n = length xs;
    sx = running nought xs;
    sy = running nought ys;
    sxx = running nought (products xs xs);
    sxy = running nought (products xs ys);
    syy = running nought (products ys ys);
  }

  unfoldable pub piecewise_linear : SignalSeries N → Option (Dict N)
  piecewise_linear series =
      let xs = xs_of series in
      let ys = ys_of series in
      let n = length xs in
      let pre = prefix_sums xs ys in
      do
        best_k ← best_split pre n
        before ← fit pre 0 best_k
        after ← fit pre best_k n
        break_x ← get_elem? xs best_k
        sst ← total_sum_squares pre best_k n
        sum_before ← get_elem? pre.sy best_k
        late_early ← flattening_ratio pre best_k n
        mean ← mean_before best_k sum_before
        r2 ← determination after.sse sst
        variance ← residual_variance after
        last_x ← last? xs
        some (
            ("breakpoint_x", break_x)
            ∷ ("breakpoint_y", after.slope ⊗ break_x ⊕ after.intercept)
            ∷ ("slope_before", before.slope)
            ∷ ("slope_after", after.slope)
            ∷ ("mean_before", mean)
            ∷ ("residual_variance", variance)
            ∷ ("r2", r2)
            ∷ ("span_after", last_x ⊖ break_x)
            ∷ ("late_early_slope_ratio", late_early)
            ∷ [])

  -- min(ys)
  abbrev pub smallest : List N → Option N
  smallest [] = none
  smallest (y ∷ ys) = some (greatest (λ a b. F.lt b a) y ys)

  unfoldable pub endpoint : SignalSeries N → Option (Dict N)
  endpoint series =
      let xs = xs_of series in
      let ys = ys_of series in
      do
        final ← last? ys
        peak ← largest ys
        least ← smallest ys
        last_x ← last? xs
        first_x ← get_elem? xs 0
        some (
            ("final_y", final)
            ∷ ("peak_y", peak)
            ∷ ("min_y", least)
            ∷ ("span_x", last_x ⊖ first_x)
            ∷ [])

  -- sum(1 for i in range(1, n) if ys[i] >= ys[i - 1])
  abbrev pub count_rises : List N → ℕ
  count_rises [] = 0
  count_rises (y ∷ []) = 0
  count_rises (y ∷ z ∷ ys) = let rest = count_rises (z ∷ ys) in if F.le y z then suc rest else rest

  unfoldable pub stability : SignalSeries N → Option (Dict N)
  stability series =
      let ys = ys_of series in
      do
        peak ← largest (map abs ys)
        let noise_floor = max_of (F.decimal 1 2 ⊗ peak) (F.decimal 1 6)
        fraction ← divide (F.decimal (count_rises ys) 0) (F.decimal (max (length ys - 1) 1) 0)
        some (
            ("reversal_count", F.decimal (count_drops noise_floor ys) 0)
            ∷ ("monotonic_fraction", fraction)
            ∷ [])

  unfoldable pub trend : SignalSeries N → Option (Dict N)
  trend series =
      let xs = xs_of series in
      let pre = prefix_sums xs (ys_of series) in
      do
        line ← fit pre 0 (length xs)
        sst ← total_sum_squares pre 0 (length xs)
        last_x ← last? xs
        first_x ← get_elem? xs 0
        r2 ← determination line.sse sst
        variance ← residual_variance line
        some (
            ("slope", line.slope)
            ∷ ("r2", r2)
            ∷ ("drift", line.slope ⊗ (last_x ⊖ first_x))
            ∷ ("residual_variance", variance)
            ∷ [])

module _ {N : Type 0} ⦃F : Float N⦄ ⦃L : Library N⦄ where
  -- ordered[min(int(p * (n - 1)), n - 1)]
  abbrev pub percentile : N → ℕ → List N → Option N
  percentile p n ordered = get_elem? ordered (min (L.truncate (p ⊗ F.decimal (n - 1) 0)) (n - 1))

  unfoldable pub distribution : SignalSeries N → Option (Dict N)
  distribution series =
      let ys = ys_of series in
      let n = length ys in
      let count = F.decimal n 0 in
      let small = F.decimal 1 12 in
      do
        mean ← divide (L.fsum ys) count
        var ← divide (L.fsum (map (λ y. L.pow (y ⊖ mean) 2) ys)) (F.decimal (max (n - 1) 1) 0)
        high ← percentile (F.decimal 95 2) n (sorted_by F.lt ys)
        square ← divide (L.fsum (map (λ y. y ⊗ y) ys)) count
        peak ← largest (map abs ys)
        let sd = L.sqrt var
        let rms = L.sqrt square
        crest ← if F.lt small rms then divide peak rms else some nought
        kurtosis ←
            (if F.lt small var
              then divide (L.fsum (map (λ y. L.pow (y ⊖ mean) 4) ys)) (count ⊗ var ⊗ var)
              else some nought)
        some (
            ("mean", mean)
            ∷ ("std", sd)
            ∷ ("p95", high)
            ∷ ("rms", rms)
            ∷ ("peak", peak)
            ∷ ("crest_factor", crest)
            ∷ ("kurtosis", kurtosis)
            ∷ (
              "outlier_count",
              if F.lt nought sd
                  then F.decimal
                      (length (keep (λ y. F.lt (F.decimal 3 0 ⊗ sd) (abs (y ⊖ mean))) ys)) 0
                  else nought,
            )
            ∷ [])
