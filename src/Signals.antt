-- ===== src/Signals.antt =====
-- The data of src/forge/domain/signals.py: series of any channel, learned baselines, the limits of the
-- engineers, and scores; and `SignalSeries.__post_init__`. What the code takes of the modules `math`
-- and `builtins` beyond the arithmetic is an interface.
pub mod Extractors
pub mod Spectral
pub mod Extract
pub mod Learn
pub mod Score
pub mod Physics
pub mod Keys
pub mod Namespace
pub mod Bounds
pub mod Baseline
mod Examples
use defect_sense.Prelude.{
  ℕ, suc, String, Bool, true, false, Option, none, some, List, [], ◌∷◌, ◌&&◌, map, length, ltb,
  if◌then◌else◌,
}
use defect_sense.Dict.{Dict}
use defect_sense.Float.{Float}
use defect_sense.Torque.Fit.{min_curve_points}

-- OverflowError is outside the model: `fsum` and `pow` stand for math.fsum and ** of values that are small
-- enough for both, which the constructor of a series does not ask for.
-- `truncate` is int() of a value that is not negative, `digits` is str() of a natural number.
pub record Library (N : Type 0) : Type 0 where
  pub sqrt : N → N
  pub cos : N → N
  pub pi : N
  pub fsum : List N → N
  pub pow : N → ℕ → N
  pub is_finite : N → Bool
  pub truncate : N → ℕ
  pub digits : ℕ → String

pub data SeriesKind : Type 0 where
  sweep timeseries scalar : SeriesKind

abbrev pub is_sweep : SeriesKind → Bool
is_sweep sweep = true
is_sweep timeseries = false
is_sweep scalar = false

-- `direction`: positive, negative or zero.
pub data Direction : Type 0 where
  above_only below_only either_side : Direction

module _ (N : Type 0) where
  pub record Sample : Type 0 where
    pub x : N
    pub y : N

  pub record SignalSeries : Type 0 where
    pub channel : String
    pub samples : List Sample
    pub kind : SeriesKind
    pub x_unit : String
    pub y_unit : String
    pub position : ℕ
    pub source_id : String
    pub unit_id : String

  pub data SignalError : Type 0 where
    too_few_samples : ℕ → SignalError
    non_finite : ℕ → SignalError
    goes_back : ℕ → N → N → SignalError
    unknown_extractor : String → SignalError
    too_few_runs : ℕ → SignalError

  pub record FeatureBaseline : Type 0 where
    pub means : Dict N
    pub tolerances : Dict N
    pub derived_from_runs : ℕ
    pub sigma : N

  pub record SpecLimit : Type 0 where
    pub feature : String
    pub lo : Option N
    pub hi : Option N
    pub label : String

  pub record Deviation : Type 0 where
    pub feature : String
    pub observed : N
    pub expected : N
    pub tolerance_units : N
    pub weight : N
    pub statement : String

  pub record DeviationRule : Type 0 where
    pub feature : String
    pub weight : N
    pub direction : Direction
    pub statement : String

  pub record AnomalyResult : Type 0 where
    pub score : N
    pub deviations : List Deviation
    pub in_spec : Bool
    pub anomalous : Bool

module _ {N : Type 0} where
  abbrev pub xs_of : SignalSeries N → List N
  xs_of series = map (λ s. s.x) series.samples

  abbrev pub ys_of : SignalSeries N → List N
  ys_of series = map (λ s. s.y) series.samples

  -- The limits hold and the shape is anomalous.
  abbrev pub fusion_only : AnomalyResult N → Bool
  fusion_only r = r.in_spec && r.anomalous

module _ {N : Type 0} ⦃F : Float N⦄ (is_finite : N → Bool) where
  -- s.x < prev, which is -inf at first
  abbrev pub goes_down : Option N → N → Option N
  goes_down none x = none
  goes_down (some prev) x = if F.lt x prev then some prev else none

  abbrev pub fallen : SeriesKind → Option N → N → Option N
  fallen kind prev x = if is_sweep kind then goes_down prev x else none

  unfoldable pub first_fault : SeriesKind → ℕ → Option N → List (Sample N) → Option (SignalError N)
  first_fault kind i prev [] = none
  first_fault kind i prev (s ∷ ss) =
      let rest = first_fault kind (suc i) (some s.x) ss in
      if is_finite s.x && is_finite s.y
      then elim (fallen kind prev s.x) [ none ↦ rest | some p ↦ some (goes_back i p s.x) ]
      else some (non_finite i)

  -- MIN_SERIES_POINTS is MIN_CURVE_POINTS of the torque module. The error that making a series raises.
  unfoldable pub post_init : SignalSeries N → Option (SignalError N)
  unfolding first_fault
  post_init series =
      if ltb (length series.samples) min_curve_points
      then some (too_few_samples (length series.samples))
      else first_fault series.kind 0 none series.samples
