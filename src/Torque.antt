-- ===== src/Torque.antt =====
-- The data of src/forge/domain/torque.py: curves, baselines, measured features, and verdicts on one
-- fastener. Texts that a record carries for display, all of them made from its other fields, are
-- left out. The functions are in the modules below.

pub mod Score
pub mod Classify
pub mod Bounds
pub mod Curve
pub mod Fit
pub mod Returns
pub mod Knee
pub mod Learn
pub mod Examples
use defect_sense.Prelude.{ℕ, String, Bool, true, false, List, ◌&&◌, if◌then◌else◌}
use defect_sense.Enums.{Severity, critical, major, minor}
use defect_sense.Float.{Float}

module _ (N : Type 0) where
  pub record TorqueSample : Type 0 where
    pub angle_deg : N
    pub torque_nm : N

  pub record TorqueAngleCurve : Type 0 where
    pub fastener_position : ℕ
    pub samples : List TorqueSample
    pub tool_id : String
    pub unit_id : String

  pub record SignatureBaseline : Type 0 where
    pub knee_angle_deg : N
    pub knee_angle_tolerance_deg : N
    pub elastic_slope_nm_per_deg : N
    pub elastic_slope_tolerance : N
    pub residual_variance_max : N
    pub rundown_torque_max_nm : N
    pub spec_lo_nm : N
    pub spec_hi_nm : N
    pub yield_flattening_ratio : N
    pub reversal_count_max : N
    pub derived_from_runs : ℕ
    pub sigma_multiplier : N

  pub record SignatureFeatures : Type 0 where
    pub knee_angle_deg : N
    pub knee_torque_nm : N
    pub rundown_slope_nm_per_deg : N
    pub rundown_torque_mean_nm : N
    pub elastic_slope_nm_per_deg : N
    pub elastic_r2 : N
    pub elastic_residual_variance : N
    pub elastic_span_deg : N
    pub late_to_early_slope_ratio : N
    pub final_torque_nm : N
    pub peak_torque_nm : N
    pub reversal_count : ℕ
    pub sample_count : ℕ

-- The names of the features that are scored, and of the classes that are ranked.
pub data Feature : Type 0 where
  knee_angle elastic_slope residual_variance reversals rundown_torque slope_ratio : Feature

pub data DefectClass : Type 0 where
  thread_contamination cross_threading over_torque under_torque : DefectClass

module _ (N : Type 0) where
  pub record Deviation : Type 0 where
    pub feature : Feature
    pub observed : N
    pub expected : N
    pub tolerance_units : N
    pub weight : N

  pub record SignatureVerdict : Type 0 where
    pub features : SignatureFeatures N
    pub anomaly_score : N
    pub deviations : List Deviation
    pub endpoint_in_spec : Bool
    pub signature_anomalous : Bool
    pub ranked_classes : List (DefectClass × N)

module _ {N : Type 0} where
  -- The endpoint passes and the shape does not.
  abbrev pub fusion_only : SignatureVerdict N → Bool
  fusion_only v = v.endpoint_in_spec && v.signature_anomalous

  unfoldable pub severity : ⦃F : Float N⦄ → SignatureVerdict N → Severity
  severity ⦃F⦄ v =
      if v.signature_anomalous
      then (if F.le (F.decimal 60 2) v.anomaly_score then critical else major)
      else minor
