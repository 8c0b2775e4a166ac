-- ===== src/Cost/Absent.antt =====
-- The triage at probability 0, which is what it is asked about a unit without signals.
use mathlib.Core.Path.{sym, ap, ◌∙◌}
use defect_sense.Prelude.{
  ℕ, max, ◌≡◌, refl, false, some, List, ◌∷◌, arith, All, All-imp, All-map, Bool-cases, inl, inr,
  map,
}
use defect_sense.Prelude.Sort.{keep, sorted_by, sorted_by-first}
use defect_sense.Enums.{accept, rework, quarantine, scrap}
use defect_sense.Float.{Float, IsOrdered, ◌≼◌, ◌⊕◌, ◌⊖◌, ◌⊘◌, nought, unit, max_of}
use defect_sense.Float.Laws.{
  le_of_lt, add-nonneg, mul-nonneg, decimal_nonneg, decimal_pos, sub-nonneg, nought-le-unit,
}
use defect_sense.Cost.{
  CostModel, TriageContext, ActionCost, TriageDecision, autonomous, cheaper, action_costs,
  priced_rows, ranked_rows, triage, price, expected, halt_rows, row, rework_cost, scrap_cost,
  escape_cost, hold_cost, halt_cost, clamped,
}
use defect_sense.Cost.Choice.{IsDecision-of}

cons_head : {A : Type 0} {x y : A} {xs ys : List A} → x ∷ xs ≡ y ∷ ys → x ≡ y
cons_head e = cc

module _ {N : Type 0} ⦃F : Float N⦄ (laws : IsOrdered N) where
  -- Plant figures are amounts, durations and rates.
  pub record IsPlant (m : CostModel N) : Type 0 where
    pub material : nought ≼ m.unit_material_cost
    pub minutes : nought ≼ m.rework_minutes
    pub labour : nought ≼ m.labour_rate_per_hour
    pub parts : nought ≼ m.rework_parts_cost
    pub line_rate : nought ≼ m.line_rate_units_per_hour
    pub margin : nought ≼ m.margin_per_unit
    pub inspection : nought ≼ m.inspection_cost_per_unit

  module _ (m : CostModel N) (plant : IsPlant m) where
    hours_nonneg : nought ≼ m.rework_minutes ⊘ F.decimal 60 0
    hours_nonneg =
        laws.div_nonneg _ _ plant.minutes
          (decimal_pos laws 60 0 (omega arith) (omega arith) (omega arith))

    rework_nonneg : (n : ℕ) → nought ≼ rework_cost m n
    unfolding rework_cost
    rework_nonneg n =
        mul-nonneg laws _ _ (decimal_nonneg laws n 0)
          (add-nonneg laws _ _ (mul-nonneg laws _ _ hours_nonneg plant.labour) plant.parts)

    scrap_nonneg : (n : ℕ) → nought ≼ scrap_cost m n
    unfolding scrap_cost
    scrap_nonneg n =
        mul-nonneg laws _ _ (decimal_nonneg laws n 0)
          (add-nonneg laws _ _ plant.material plant.margin)

    hold_nonneg : (n : ℕ) → nought ≼ hold_cost m n
    unfolding hold_cost
    hold_nonneg n =
        add-nonneg laws _ _ (mul-nonneg laws _ _ plant.inspection (decimal_nonneg laws n 0)) (
          mul-nonneg laws _ _
            (mul-nonneg laws _ _ (mul-nonneg laws _ _ (decimal_nonneg laws 25 2) hours_nonneg)
              plant.labour)
            (decimal_nonneg laws n 0))

    halt_nonneg : (hours : N) → nought ≼ hours → nought ≼ halt_cost m hours
    unfolding halt_cost
    halt_nonneg hours h = mul-nonneg laws _ _ (mul-nonneg laws _ _ h plant.line_rate) plant.margin

    -- A row whose two costs are at least 0.
    abbrev IsCostly : ActionCost N → Type 0
    IsCostly r = (nought ≼ r.cost_if_defective) × (nought ≼ r.cost_if_fine)

    expected_nonneg :
        (r : ActionCost N) (p : N) → nought ≼ p → p ≼ unit → IsCostly r → nought ≼ expected r p
    unfolding expected
    expected_nonneg r p h k c =
        add-nonneg laws _ _ (mul-nonneg laws _ _ h c.0)
          (mul-nonneg laws _ _ (sub-nonneg laws _ _ k) c.1)

    halt_rows-IsCostly :
        (ctx : TriageContext N) (rework_all : N)
        → nought ≼ rework_all
        → All IsCostly (halt_rows m ctx rework_all)
    halt_rows-IsCostly ctx rework_all h = elim (Bool-cases (F.lt nought ctx.expected_halt_hours)) [
      | inl halts ↦
          let cost = halt_nonneg ctx.expected_halt_hours (le_of_lt laws _ _ halts) in
          rw halts ((add-nonneg laws _ _ cost h, cost), tt)
      | inr runs ↦ rw runs tt
    ]

    clamped_zero : (ctx : TriageContext N) → ctx.defect_probability ≡ nought → clamped ctx ≡ nought
    clamped_zero ctx e = ground (
      arith,
      laws.lt-eq-not-le nought nought,
      laws.lt-eq-not-le unit nought,
      laws.le_refl nought,
      nought-le-unit laws,
    )

    shipping_free : (if_defective : N) → expected (row accept if_defective nought) nought ≼ nought
    unfolding expected
    shipping_free c =
        laws.le_trans _ _ _
          (laws.add_mono _ _ _ _ (laws.zero_mul c).0 (laws.mul_zero (unit ⊖ nought)).0)
          (laws.add_zero nought).0

    module _ (ctx : TriageContext N) (zero_probability : ctx.defect_probability ≡ nought) where
      abbrev uncertainty : N
      uncertainty = max_of ctx.probability_uncertainty nought

      abbrev scope : ℕ
      scope = max ctx.containment_scope 1

      abbrev shipped : ActionCost N
      shipped = price nought uncertainty (row accept (escape_cost m scope) nought)

      abbrev others : List (ActionCost N)
      others =
          row rework (rework_cost m scope) (rework_cost m scope)
          ∷ row quarantine (hold_cost m scope ⊕ rework_cost m scope) (hold_cost m scope)
          ∷ row scrap (scrap_cost m scope) (scrap_cost m scope)
          ∷ halt_rows m ctx (rework_cost m scope)

      others-IsCostly : All IsCostly others
      others-IsCostly =
          let r = rework_nonneg scope in
          let s = scrap_nonneg scope in
          let h = hold_nonneg scope in
          ((r, r), ((add-nonneg laws _ _ h r, h), ((s, s), halt_rows-IsCostly ctx _ r)))

      dearer :
          (r : ActionCost N) → IsCostly r → cheaper (price nought uncertainty r) shipped ≡ false
      unfolding price
      dearer r c = ground (
        arith,
        laws.lt-eq-not-le (expected r nought)
            (expected (row accept (escape_cost m scope) nought) nought),
        laws.le_trans (expected (row accept (escape_cost m scope) nought) nought) nought
            (expected r nought),
        shipping_free (escape_cost m scope),
        expected_nonneg r nought (laws.le_refl nought) (nought-le-unit laws) c,
      )

      priced_first : priced_rows m ctx ≡ shipped ∷ map (price nought uncertainty) others
      unfolding priced_rows action_costs
      priced_first =
          ap (λ p. map (price p uncertainty) (action_costs m ctx))
            (clamped_zero ctx zero_probability)

      ranked_first :
          ranked_rows m ctx ≡ shipped ∷ sorted_by cheaper (map (price nought uncertainty) others)
      unfolding ranked_rows
      ranked_first =
          ap (sorted_by cheaper) priced_first
          ∙ sorted_by-first cheaper shipped _ (
              All-map (λ r. cheaper r shipped ≡ false) (price nought uncertainty) others
                (All-imp others dearer others-IsCostly))

      -- With a defect probability of 0 the recommendation is to accept the unit, and accepting it
      -- is the first of the ranking, at a cost of at most 0.
      pub zero_accepts :
          (ratio threshold : N) (d : TriageDecision N)
          → triage m ctx ratio threshold ≡ some d
          → (d.recommended ≡ accept)
            × (best : ActionCost N) × (others : List (ActionCost N)) × (d.ranked ≡ best ∷ others)
            × (best.action ≡ accept)
            × (best.expected_cost ≼ nought)
      zero_accepts ratio threshold d e =
          let i = IsDecision-of m ctx ratio threshold d e in
          let top : ranked_rows m ctx
              ≡ shipped ∷ sorted_by cheaper (map (price nought uncertainty) others) =
            ranked_first in
          let head : i.best ∷ i.rest
              ≡ shipped
                ∷ keep autonomous (sorted_by cheaper (map (price nought uncertainty) others)) =
            sym i.ranks ∙ ap (keep autonomous) top ∙ unfold keep price in refl in
          (
            i.chosen ∙ ap (λ (r : ActionCost N). r.action) (cons_head head) ∙ unfold price in refl,
            shipped,
            sorted_by cheaper (map (price nought uncertainty) others),
            i.ranked_all ∙ top,
            unfold price in refl,
            unfold price in shipping_free (escape_cost m scope),
          )
