-- ===== src/Store.antt =====
-- What the repositories of src/forge/infrastructure/persistence store and answer: the part of QCState
-- that they read, its projection, audit entries and documents. A time is a number of ticks, and what a
-- record holds besides is the type `R`.
pub mod Memory
pub mod Files
pub mod Bounded
pub mod Documents
pub mod Agreement
pub mod Alike
pub mod Logs
mod Examples
use text.Mathlib.Text.{◌==◌ as str_eq}
use defect_sense.Prelude.{
  ℕ, ◌+◌, String, Bool, true, false, Option, none, some, List, [], ◌∷◌, not, ◌&&◌, if◌then◌else◌,
}
use defect_sense.Dict.{Dict}

pub record Fused : Type 0 where
  pub verdict : String
  pub severity : String
  pub fusion_only : Bool

module _ (R : Type 0) where
  pub record Inspection : Type 0 where
    pub correlation_id : String
    pub unit_id : String
    pub pack_id : String
    pub status : String
    pub fusion : Option Fused
    pub durations : List ℕ
    pub created_at : ℕ
    pub is_synthetic : Bool
    pub rest : R

pub record InspectionSummary : Type 0 where
  pub correlation_id : String
  pub unit_id : String
  pub pack_id : String
  pub status : String
  pub verdict : Option String
  pub severity : Option String
  pub fusion_only : Bool
  pub created_at : ℕ
  pub latency_ms : ℕ
  pub is_synthetic : Bool

abbrev verdict_of : Option Fused → Option String
verdict_of none = none
verdict_of (some f) = some f.verdict

abbrev severity_of : Option Fused → Option String
severity_of none = none
severity_of (some f) = some f.severity

-- `QCState.fusion_only`
abbrev only_of : Option Fused → Bool
only_of none = false
only_of (some f) = f.fusion_only

-- `QCState.total_latency_ms`
abbrev total : List ℕ → ℕ
total [] = 0
total (n ∷ ns) = n + total ns

-- A filter that is not given lets all pass; `None != verdict` holds of every text.
abbrev text_passes : Option String → Option String → Bool
text_passes none actual = true
text_passes (some wanted) none = false
text_passes (some wanted) (some actual) = str_eq actual wanted

abbrev same_flag : Bool → Bool → Bool
same_flag true b = b
same_flag false b = not b

abbrev flag_passes : Option Bool → Bool → Bool
flag_passes none actual = true
flag_passes (some wanted) actual = same_flag wanted actual

module _ {R : Type 0} where
  -- `_matches`
  unfoldable pub matches : Option String → Option String → Option Bool → Inspection R → Bool
  matches pack_id verdict fusion_only s =
      text_passes pack_id (some s.pack_id)
      && (text_passes verdict (verdict_of s.fusion) && flag_passes fusion_only (only_of s.fusion))

  -- `_summarise`
  unfoldable pub summarise : Inspection R → InspectionSummary
  summarise s = record {
    correlation_id = s.correlation_id;
    unit_id = s.unit_id;
    pack_id = s.pack_id;
    status = s.status;
    verdict = verdict_of s.fusion;
    severity = severity_of s.fusion;
    fusion_only = only_of s.fusion;
    created_at = s.created_at;
    latency_ms = total s.durations;
    is_synthetic = s.is_synthetic;
  }

pub record AuditEntry : Type 0 where
  pub actor : String
  pub role : String
  pub action : String
  pub resource : String
  pub correlation_id : String
  pub at : ℕ
  pub details : List String

abbrev pub concerns : Option String → Option String → AuditEntry → Bool
concerns actor action e = text_passes actor (some e.actor) && text_passes action (some e.action)

-- A value of a document: a text, or another JSON value by its serialisation.
pub data Json : Type 0 where
  words : String → Json
  other : String → Json

abbrev pub Document : Type 0
Document = Dict Json
