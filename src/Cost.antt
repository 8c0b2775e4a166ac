-- ===== src/Cost.antt =====
-- src/forge/domain/cost.py: the expected cost of each action, and the choice between them. The unit
-- count is a natural number: `max(containment_scope, 1)` is 1 for all below it. The texts made for
-- display (`rationale`, `_assumptions`) are left out, and a reason for asking a human is the choice
-- of its template with the values that are put into it.
pub mod Choice
pub mod Absent
mod Examples
use defect_sense.Prelude.{
  ℕ, max, String, Bool, true, false, Option, none, some, List, [], ◌∷◌, ◌++◌, ◌&&◌, ◌||◌, map,
  if◌then◌else◌,
}
use defect_sense.Prelude.Sort.{keep, sorted_by}
use defect_sense.Enums.{Disposition, accept, rework, quarantine, scrap, halt_line, Severity}
use defect_sense.Float.{Float, ◌⊕◌, ◌⊖◌, ◌⊗◌, ◌⊘◌, nought, unit, max_of, min_of}

module _ (N : Type 0) where
  pub record CostModel : Type 0 where
    pub unit_material_cost : N
    pub rework_minutes : N
    pub labour_rate_per_hour : N
    pub rework_parts_cost : N
    pub line_rate_units_per_hour : N
    pub margin_per_unit : N
    pub field_failure_rate : N
    pub warranty_cost_per_failure : N
    pub recall_exposure_per_unit : N
    pub inspection_cost_per_unit : N
    pub currency : String

  pub record TriageContext : Type 0 where
    pub defect_probability : N
    pub probability_uncertainty : N
    pub severity : Severity
    pub containment_scope : ℕ
    pub expected_halt_hours : N
    pub is_safety_critical : Bool

  pub record ActionCost : Type 0 where
    pub action : Disposition
    pub expected_cost : N
    pub cost_low : N
    pub cost_high : N
    pub cost_if_defective : N
    pub cost_if_fine : N

  pub data HumanReason : Type 0 where
    halt_cheapest : N → HumanReason
    above_threshold : N → N → HumanReason
    accepts_critical : HumanReason
    near_tie : Disposition → Disposition → N → HumanReason
    wide_interval : N → N → HumanReason

  pub record TriageDecision : Type 0 where
    pub recommended : Disposition
    pub ranked : List ActionCost
    pub context : TriageContext
    pub model : CostModel
    pub requires_human : Bool
    pub human_reason : List HumanReason

-- action in AUTONOMOUS_ACTIONS
abbrev pub is_autonomous : Disposition → Bool
is_autonomous halt_line = false
is_autonomous _ = true

abbrev pub is_halt : Disposition → Bool
is_halt halt_line = true
is_halt _ = false

abbrev pub is_accept : Disposition → Bool
is_accept accept = true
is_accept _ = false

abbrev pub when {ℓ} : {A : Type ℓ} → Bool → A → List A
when true a = a ∷ []
when false a = []

module _ {N : Type 0} ⦃F : Float N⦄ where
  unfoldable pub rework_cost : CostModel N → ℕ → N
  rework_cost m units =
      F.decimal units 0
      ⊗ (m.rework_minutes ⊘ F.decimal 60 0 ⊗ m.labour_rate_per_hour ⊕ m.rework_parts_cost)

  unfoldable pub scrap_cost : CostModel N → ℕ → N
  scrap_cost m units = F.decimal units 0 ⊗ (m.unit_material_cost ⊕ m.margin_per_unit)

  unfoldable pub escape_cost : CostModel N → ℕ → N
  escape_cost m units =
      F.decimal units 0
      ⊗ (m.field_failure_rate ⊗ (m.warranty_cost_per_failure ⊕ m.recall_exposure_per_unit))

  unfoldable pub halt_cost : CostModel N → N → N
  halt_cost m hours = hours ⊗ m.line_rate_units_per_hour ⊗ m.margin_per_unit

  unfoldable pub hold_cost : CostModel N → ℕ → N
  hold_cost m n =
      m.inspection_cost_per_unit ⊗ F.decimal n 0
      ⊕ F.decimal 25 2
        ⊗ (m.rework_minutes ⊘ F.decimal 60 0)
        ⊗ m.labour_rate_per_hour
        ⊗ F.decimal n 0

  abbrev pub row : Disposition → N → N → ActionCost N
  row action if_defective if_fine = record {
    action = action;
    expected_cost = nought;
    cost_low = nought;
    cost_high = nought;
    cost_if_defective = if_defective;
    cost_if_fine = if_fine;
  }

  abbrev pub halt_rows : CostModel N → TriageContext N → N → List (ActionCost N)
  halt_rows m ctx rework_all =
      let halt = halt_cost m ctx.expected_halt_hours in
      if F.lt nought ctx.expected_halt_hours
      then row halt_line (halt ⊕ rework_all) halt ∷ []
      else []

  unfoldable pub action_costs : CostModel N → TriageContext N → List (ActionCost N)
  action_costs m ctx =
      let n = max ctx.containment_scope 1 in
      let rework_all = rework_cost m n in
      let hold = hold_cost m n in
      row accept (escape_cost m n) nought
      ∷ row rework rework_all rework_all
      ∷ row quarantine (hold ⊕ rework_all) hold
      ∷ row scrap (scrap_cost m n) (scrap_cost m n)
      ∷ halt_rows m ctx rework_all

  unfoldable pub expected : ActionCost N → N → N
  expected r p = p ⊗ r.cost_if_defective ⊕ (unit ⊖ p) ⊗ r.cost_if_fine

  -- A row at the probability p, with its cost interval at p - u and p + u, both clamped to [0, 1].
  unfoldable pub price : N → N → ActionCost N → ActionCost N
  price p u base =
      let lo = expected base (max_of (p ⊖ u) nought) in
      let hi = expected base (min_of (p ⊕ u) unit) in
      record base {
        expected_cost = expected base p;
        cost_low = min_of lo hi;
        cost_high = max_of lo hi;
      }

  abbrev pub cheaper : ActionCost N → ActionCost N → Bool
  cheaper r s = F.lt r.expected_cost s.expected_cost

  -- max(best.expected_cost, 1.0)
  abbrev pub at_least_one : ActionCost N → N
  at_least_one r = max_of r.expected_cost unit

  -- The runner-up is too close; with one row only the margin is infinite.
  abbrev pub tie : N → ActionCost N → List (ActionCost N) → List (HumanReason N)
  tie ratio best [] = []
  tie ratio best (second ∷ rest) =
      let margin = second.expected_cost ⊖ best.expected_cost in
      when (F.lt margin (ratio ⊗ at_least_one best)) (near_tie best.action second.action margin)

  -- The reasons, in the order of the tests: what is cheapest of all, what is cheapest of the
  -- autonomous actions, and those behind it.
  unfoldable pub reasons :
      TriageContext N
      → N
      → N
      → ActionCost N
      → ActionCost N
      → List (ActionCost N)
      → List (HumanReason N)
  reasons ctx ratio threshold first best rest =
      when (is_halt first.action) (halt_cheapest first.expected_cost)
      ++ (when (F.lt threshold best.expected_cost) (above_threshold best.expected_cost threshold)
          ++ (when (ctx.is_safety_critical && is_accept best.action) accepts_critical
              ++ (tie ratio best rest
                  ++ when
                      (F.lt (F.decimal 5 1 ⊗ at_least_one best) (best.cost_high ⊖ best.cost_low))
                      (wide_interval best.cost_low best.cost_high))))

  -- `requires_human` is set where a reason is added.
  abbrev pub any_reason : List (HumanReason N) → Bool
  any_reason [] = false
  any_reason (r ∷ rs) = true

  -- `rows[0]` and `autonomous[0]`: `none` is an IndexError.
  abbrev pub decide :
      CostModel N
      → TriageContext N
      → N
      → N
      → List (ActionCost N)
      → List (ActionCost N)
      → Option (TriageDecision N)
  decide m ctx ratio threshold (first ∷ others) (best ∷ rest) =
      let found = reasons ctx ratio threshold first best rest in
      some (record {
        recommended = best.action;
        ranked = first ∷ others;
        context = ctx;
        model = m;
        requires_human = any_reason found;
        human_reason = found;
      })
  decide m ctx ratio threshold _ _ = none

  abbrev pub autonomous : ActionCost N → Bool
  autonomous r = is_autonomous r.action

  abbrev pub clamped : TriageContext N → N
  clamped ctx = min_of (max_of ctx.defect_probability nought) unit

  unfoldable pub priced_rows : CostModel N → TriageContext N → List (ActionCost N)
  priced_rows m ctx =
      map (price (clamped ctx) (max_of ctx.probability_uncertainty nought)) (action_costs m ctx)

  unfoldable pub ranked_rows : CostModel N → TriageContext N → List (ActionCost N)
  ranked_rows m ctx = sorted_by cheaper (priced_rows m ctx)

  unfoldable pub triage : CostModel N → TriageContext N → N → N → Option (TriageDecision N)
  triage m ctx indifference_ratio high_consequence_threshold =
      let rows = ranked_rows m ctx in
      decide m ctx indifference_ratio high_consequence_threshold rows (keep autonomous rows)

  abbrev pub default_triage : CostModel N → TriageContext N → Option (TriageDecision N)
  default_triage m ctx = triage m ctx (F.decimal 10 2) (F.decimal 50_000 0)
