-- ===== src/Signals/Spectral.antt =====
-- `_goertzel` and `spectral`: the power at declared frequencies, and a scan for the dominant one.
use Prim.Native.String
use defect_sense.Prelude.{
  Option, some, ◌>>=◌, ℕ, zero, suc, ◌/◌, ◌-◌, String, List, [], ◌∷◌, map, length, if◌then◌else◌,
  min, max,
}
use defect_sense.Dict.{Dict, insert}
use defect_sense.Float.{Float, ◌⊕◌, ◌⊖◌, ◌⊗◌, divide, is_zero, nought, unit}
use defect_sense.Signals.{Library, SignalSeries, ys_of}

-- f"band_{i}_energy"
abbrev pub band_name : (ℕ → String) → ℕ → String
band_name digits i = String.◌++◌ "band_" (String.◌++◌ (digits i) "_energy")

module _ {N : Type 0} ⦃F : Float N⦄ ⦃L : Library N⦄ where
  -- for y in ys: s0 = y + coeff * s1 - s2; s2, s1 = s1, s0
  unfoldable pub resonate : N → N → N → List N → N
  resonate coeff s1 s2 [] = s1 ⊗ s1 ⊕ s2 ⊗ s2 ⊖ coeff ⊗ s1 ⊗ s2
  resonate coeff s1 s2 (y ∷ ys) = resonate coeff (y ⊕ coeff ⊗ s1 ⊖ s2) s1 ys

  unfoldable pub goertzel : List N → N → N
  unfolding resonate
  goertzel ys normalised_freq =
      let w = F.decimal 2 0 ⊗ L.pi ⊗ normalised_freq in
      resonate (F.decimal 2 0 ⊗ L.cos w) nought nought ys

  -- x or 1.0
  abbrev pub or_unit : N → N
  or_unit x = if is_zero x then unit else x

  -- `none` is ZeroDivisionError.
  unfoldable pub band_energies : List N → N → ℕ → List N → Dict N → Option (Dict N)
  band_energies ys total i [] out = some out
  band_energies ys total i (f ∷ fs) out = do
    energy ← divide (goertzel ys f) total
    band_energies ys total (suc i) fs (insert (band_name L.digits i) energy out)

  -- `count` more steps of the scan, from k on.
  unfoldable pub scan : List N → ℕ → ℕ → ℕ → N → N → Option (N × N)
  scan ys steps zero k best_f best_p = some (best_f, best_p)
  scan ys steps (suc count) k best_f best_p = do
    f ← divide (F.decimal k 0) (F.decimal 2 0 ⊗ F.decimal steps 0)
    let p = goertzel ys f
    let better = F.lt best_p p
    scan ys steps count (suc k) (if better then f else best_f) (if better then p else best_p)

  -- range(1, max(steps, 2))
  unfoldable pub spectral : List N → SignalSeries N → Option (Dict N)
  spectral bands series =
      let ys = ys_of series in
      let total = or_unit (L.fsum (map (λ y. y ⊗ y) ys)) in
      let steps = min (length ys / 2) 64 in
      do
        out ← band_energies ys total 0 bands []
        best ← scan ys steps (max steps 2 - 1) 1 nought (nought ⊖ unit)
        ratio ← divide best.1 total
        some (insert "dominant_energy_ratio" ratio (insert "dominant_freq" best.0 out))
