-- ===== src/Torque/Curve.antt =====
-- `TorqueAngleCurve.__post_init__`: which samples make a curve. `is_finite` is `math.isfinite`.
use defect_sense.Prelude.{
  ℕ, suc, ◌≤◌, ◌≡◌, ◌↔◌, refl, Bool, true, Option, none, some, List, [], ◌∷◌, ◌&&◌, length, ltb,
  if◌then◌else◌, All, arith, Bool-cases, Option-cases, inl, inr,
}
use defect_sense.Float.{Float}
use defect_sense.Torque.{TorqueSample}
use defect_sense.Torque.Fit.{min_curve_points}

module _ (N : Type 0) where
  pub data TorqueCurveError : Type 0 where
    too_few : ℕ → TorqueCurveError
    non_finite : ℕ → TorqueSample N → TorqueCurveError
    angle_falls : ℕ → N → N → TorqueCurveError

module _ {N : Type 0} ⦃F : Float N⦄ (is_finite : N → Bool) where
  -- s.angle_deg < prev, which is -inf at first
  abbrev pub falls : Option N → N → Option N
  falls none angle = none
  falls (some prev) angle = if F.lt angle prev then some prev else none

  unfoldable pub first_fault : ℕ → Option N → List (TorqueSample N) → Option (TorqueCurveError N)
  first_fault i prev [] = none
  first_fault i prev (s ∷ ss) =
      let rest = first_fault (suc i) (some s.angle_deg) ss in
      if is_finite s.angle_deg && is_finite s.torque_nm
      then elim (falls prev s.angle_deg) [
        | none ↦ rest
        | some p ↦ some (angle_falls i p s.angle_deg)
      ]
      else some (non_finite i s)

  -- The error that making a curve raises, if any.
  unfoldable pub post_init : List (TorqueSample N) → Option (TorqueCurveError N)
  unfolding first_fault
  post_init samples =
      if ltb (length samples) min_curve_points
      then some (too_few (length samples))
      else first_fault 0 none samples

  abbrev pub IsFinite : TorqueSample N → Type 0
  IsFinite s = (is_finite s.angle_deg ≡ true) × (is_finite s.torque_nm ≡ true)

  -- No angle is less than the one before it.
  abbrev pub Rising : Option N → List (TorqueSample N) → Type 0
  Rising prev [] = Unit
  Rising prev (s ∷ ss) = (falls prev s.angle_deg ≡ none) × Rising (some s.angle_deg) ss

  no_fault :
      (i : ℕ) (prev : Option N) (samples : List (TorqueSample N))
      → (first_fault i prev samples ≡ none) ↔ (All IsFinite samples × Rising prev samples)
  unfolding first_fault
  no_fault i prev [] = (λ e. (tt, tt), λ h. refl)
  no_fault i prev (s ∷ ss) =
      let (to, from) = no_fault (suc i) (some s.angle_deg) ss in
      (
        λ e.
            let (finite, level, rest) = clear_head e in
            let (all, rising) = to rest in ((finite, all), (level, rising)),
        λ h. rw (h.0.0.0, h.0.0.1, h.1.0) (from (h.0.1, h.1.1)),
      )
    where
      clear_head :
          first_fault i prev (s ∷ ss) ≡ none
          → IsFinite s
            × (falls prev s.angle_deg ≡ none)
            × (first_fault (suc i) (some s.angle_deg) ss ≡ none)
      clear_head e = elim (Option-cases (falls prev s.angle_deg)) [
        | inl level ↦ ((ground arith, ground arith), level, ground arith)
        | inr (p, down) ↦ absurd (ground arith)
      ]

  -- Samples make a curve exactly when there are enough of them, all are finite, and no angle is less
  -- than the one before it.
  pub makes_exactly_when :
      (samples : List (TorqueSample N))
      → (post_init samples ≡ none)
        ↔ ((min_curve_points ≤ length samples) × All IsFinite samples × Rising none samples)
  unfolding post_init
  makes_exactly_when samples =
      let (to, from) = no_fault 0 none samples in
      (
        λ e. let (all, rising) = to (ground arith) in (ground arith, all, rising),
        λ h. elim (Bool-cases (ltb (length samples) min_curve_points)) [
          | inl few ↦ absurd (ground arith)
          | inr enough ↦ rw enough (from (h.1, h.2))
        ],
      )
