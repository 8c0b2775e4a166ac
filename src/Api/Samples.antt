-- ===== src/Api/Samples.antt =====
-- A process with two units of two stations, in front of the repository in memory.
use defect_sense.Prelude.{ℕ, String, true, false, none, some, List, [], ◌∷◌}
use defect_sense.Prelude.Int.{ℤ}
use defect_sense.Enums.{Role, shop_floor_worker, qa, defect, critical, process}
use defect_sense.Float.Fixed.{fixed}
use defect_sense.Torque.{SignatureBaseline}
use defect_sense.Adjudication.{nominal}
use defect_sense.Graph.{fresh}
use defect_sense.Store.{Inspection}
use defect_sense.Store.Memory
use defect_sense.Store.Memory.{InMemoryInspectionRepository, new_repository, stored, evict}
use defect_sense.Auth.{RbacMatrix, RoleConfig}
use defect_sense.Auth.Gates.{User}
use defect_sense.Api.{InspectionState, Process}
use defect_sense.Api.History.{Request, listing, creating, narrating, assigning, served_all}
use defect_sense.Api.Repository.{in_memory}

abbrev pub dec : ℕ → ℤ
dec m = fixed.decimal m 0

-- Rounding to whole numbers is not needed here.
abbrev pub round : ℕ → ℤ → ℤ
round digits x = x

abbrev pub learnt : SignatureBaseline ℤ
learnt = record {
  knee_angle_deg = dec 5;
  knee_angle_tolerance_deg = dec 2;
  elastic_slope_nm_per_deg = dec 3;
  elastic_slope_tolerance = dec 1;
  residual_variance_max = dec 2;
  rundown_torque_max_nm = dec 12;
  spec_lo_nm = dec 15;
  spec_hi_nm = dec 20;
  yield_flattening_ratio = dec 1;
  reversal_count_max = dec 2;
  derived_from_runs = 120;
  sigma_multiplier = dec 3;
}

abbrev pub wheel : String → String → InspectionState ℤ
wheel k station = record {
  correlation_id = k;
  unit_id = "VIN-SYN-00001";
  pack_id = "wheel_assembly";
  station_id = station;
  is_synthetic = true;
  created_at = 7;
  total_latency_ms = dec 4;
  channels = record fresh {
    fusion = some (record {
      verdict = defect;
      confidence = dec 1;
      severity = critical;
      reasoning = nominal 1;
      primary_signal = process;
      fusion_only = false;
      escalation_reason = none;
    });
  };
}

abbrev pub form : InspectionState ℤ → Inspection (InspectionState ℤ)
form qc = record {
  correlation_id = qc.correlation_id;
  unit_id = qc.unit_id;
  pack_id = qc.pack_id;
  status = "complete";
  fusion = none;
  durations = 4 ∷ [];
  created_at = qc.created_at;
  is_synthetic = qc.is_synthetic;
  rest = qc;
}

abbrev pub Records : Type 0
Records = InMemoryInspectionRepository (InspectionState ℤ)

abbrev pub started : Process ℤ Records
started = record {
  baseline = learnt;
  recent = [];
  states = [];
  views = [];
  storage = some (new_repository 100);
  assignments = [];
  assignment_counter = 0;
  unit_counter = 0;
}

abbrev pub config_with : Role → List String → RoleConfig
config_with role permissions = record {
  role = role;
  persona = "";
  label = "";
  default_page = "/";
  explanation_depth = "brief";
  rate_limit_per_min = 60;
  description = "";
  permissions = permissions;
  tools = [];
}

abbrev pub matrix : RbacMatrix
matrix = record {
  roles =
      (qa, config_with qa ("inspection:read" ∷ "inspection:create" ∷ []))
      ∷ (
        shop_floor_worker,
        config_with shop_floor_worker ("inspection:read_own_station" ∷ "stream:read" ∷ []),
      )
      ∷ [];
  never_autonomous = [];
  audited_permissions = [];
}

abbrev pub priya : User
priya = record {
  username = "priya@ds.com";
  display_name = "Priya Patel";
  role = qa;
  password_hash = "";
}

abbrev pub ravi : User
ravi = record {
  username = "ravi@ds.com";
  display_name = "Ravi Verma";
  role = shop_floor_worker;
  password_hash = "";
}

abbrev pub shift : List (Request ℤ)
shift =
    creating 7 (wheel "insp-1" "WA-01")
    ∷ creating 8 (wheel "insp-2" "WA-02")
    ∷ narrating (wheel "insp-1" "WA-01") none
    ∷ listing shop_floor_worker 50
    ∷ assigning 9 priya (some ravi) "insp-1"
    ∷ []

abbrev pub later : Process ℤ Records
later = served_all round (in_memory form) matrix shift started

abbrev pub kept : Records
kept =
    Memory.save (form (wheel "insp-2" "WA-02"))
      (Memory.save (form (wheel "insp-1" "WA-01")) (new_repository 100))
