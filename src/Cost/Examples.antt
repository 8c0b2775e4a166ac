-- ===== src/Cost/Examples.antt =====
-- The triage with the figures of a wheel plant, and the theorems at them.
use mathlib.Core.List.{Perm}
use defect_sense.Prelude.{ℕ, ◌≡◌, ◌≢◌, refl, true, false, some, List, [], ◌∷◌, All}
use defect_sense.Prelude.Sort.{keep, sorted_by, Ascending}
use defect_sense.Prelude.Int.{ℤ}
use defect_sense.Enums.{accept, rework, halt_line, critical, major}
use defect_sense.Float.{nought}
use defect_sense.Float.Fixed.{fixed, fixed-IsOrdered}
use defect_sense.Cost.{
  CostModel, TriageContext, ActionCost, TriageDecision, triage, autonomous, cheaper, priced_rows,
  ranked_rows, wide_interval, action_costs, price, expected, reasons, rework_cost, scrap_cost,
  escape_cost, hold_cost,
}
use defect_sense.Cost.Choice.{recommends_cheapest_autonomous}
use defect_sense.Cost.Absent.{IsPlant}

abbrev dec : ℕ → ℕ → ℤ
dec m k = fixed.decimal m k

abbrev plant : CostModel ℤ
plant = record {
  unit_material_cost = dec 8500 0;
  rework_minutes = dec 12 0;
  labour_rate_per_hour = dec 600 0;
  rework_parts_cost = dec 400 0;
  line_rate_units_per_hour = dec 40 0;
  margin_per_unit = dec 1500 0;
  field_failure_rate = dec 2 2;
  warranty_cost_per_failure = dec 60_000 0;
  recall_exposure_per_unit = dec 400_000 0;
  inspection_cost_per_unit = dec 50 0;
  currency = "INR";
}

abbrev suspect : TriageContext ℤ
suspect = record {
  defect_probability = dec 99 2;
  probability_uncertainty = dec 1 2;
  severity = critical;
  containment_scope = 1;
  expected_halt_hours = dec 0 0;
  is_safety_critical = true;
}

abbrev unseen : TriageContext ℤ
unseen = record suspect {
  defect_probability = nought;
  probability_uncertainty = dec 6 2;
  severity = major;
  is_safety_critical = false;
}

abbrev reworked : TriageDecision ℤ
reworked = record {
  recommended = rework;
  ranked = ranked_rows plant suspect;
  context = suspect;
  model = plant;
  requires_human = false;
  human_reason = [];
}

abbrev ratio : ℤ
ratio = dec 10 2

abbrev threshold : ℤ
threshold = dec 50_000 0

suspect_is_reworked : triage plant suspect ratio threshold ≡ some reworked
unfolding triage ranked_rows priced_rows action_costs price expected rework_cost scrap_cost
    escape_cost hold_cost reasons keep sorted_by
suspect_is_reworked = refl

recommends_cheapest_autonomous_example :
    (best : ActionCost ℤ) × (rest : List (ActionCost ℤ)) × (keep autonomous reworked.ranked
      ≡ best ∷ rest)
    × (rework ≡ best.action)
    × (rework ≢ halt_line)
    × All (λ r. cheaper r best ≡ false) rest
    × Ascending cheaper reworked.ranked
    × Perm reworked.ranked (priced_rows plant suspect)
recommends_cheapest_autonomous_example =
    recommends_cheapest_autonomous fixed-IsOrdered plant suspect ratio threshold reworked
      suspect_is_reworked

abbrev shipped : TriageDecision ℤ
shipped = record {
  recommended = accept;
  ranked = ranked_rows plant unseen;
  context = unseen;
  model = plant;
  requires_human = true;
  human_reason = wide_interval nought (dec 552 0) ∷ [];
}

unseen_is_shipped : triage plant unseen ratio threshold ≡ some shipped
unfolding triage ranked_rows priced_rows action_costs price expected rework_cost scrap_cost
    escape_cost hold_cost reasons keep sorted_by
unseen_is_shipped = refl

plant-IsPlant : IsPlant fixed-IsOrdered plant
plant-IsPlant = record {
  material = refl;
  minutes = refl;
  labour = refl;
  parts = refl;
  line_rate = refl;
  margin = refl;
  inspection = refl;
}
