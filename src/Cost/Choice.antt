-- ===== src/Cost/Choice.antt =====
-- What the triage recommends, and when it asks a human.
use mathlib.Core.List.{Perm}
use mathlib.Core.Path.{subst, sym, ap, ◌∙◌}
use mathlib.Core.Option.{some-injective}
use defect_sense.Prelude.{
  ◌≡◌, ◌≢◌, inl, inr, refl, true, false, some, List, [], ◌∷◌, ◌&&◌, arith, All, List-cases, take,
}
use defect_sense.Prelude.Sort.{
  keep, sorted_by-perm, All-of_sorted_by, keep-nil, All-keep, Ascending, Ascending-keep,
  Ascending-sorted_by,
}
use defect_sense.Enums.{halt_line}
use defect_sense.Float.{Float, IsOrdered, ◌⊗◌, ◌⊖◌}
use defect_sense.Float.Laws.{le_of_lt}
use defect_sense.Cost.{
  CostModel, TriageContext, ActionCost, TriageDecision, is_autonomous, is_halt, is_accept,
  autonomous, cheaper, action_costs, priced_rows, ranked_rows, decide, reasons, triage, price,
  at_least_one, any_reason,
}

module _ {N : Type 0} ⦃F : Float N⦄ where
  -- Shipping is always among the rows, so a recommendation always exists.
  keep-ranked_rows :
      (m : CostModel N) (ctx : TriageContext N) → keep autonomous (ranked_rows m ctx) ≢ []
  unfolding ranked_rows
  keep-ranked_rows m ctx nothing =
      let none_left =
        All-of_sorted_by cheaper (λ r. autonomous r ≡ false) (priced_rows m ctx)
          ((keep-nil autonomous _).0 nothing) in
      shipping none_left
    where
      shipping : All (λ r. autonomous r ≡ false) (priced_rows m ctx) → ⊥
      shipping h = unfold priced_rows action_costs price in cc h.0

  -- What a decision is made of: the rows ranked, the best autonomous one and the others behind it.
  pub record IsDecision (m : CostModel N) (ctx : TriageContext N) (ratio threshold : N)
      (d : TriageDecision N) : Type 0 where
    pub first : ActionCost N
    pub others : List (ActionCost N)
    pub best : ActionCost N
    pub rest : List (ActionCost N)
    pub rows : ranked_rows m ctx ≡ first ∷ others
    pub ranks : keep autonomous (ranked_rows m ctx) ≡ best ∷ rest
    pub chosen : d.recommended ≡ best.action
    pub ranking : d.ranked ≡ first ∷ others
    pub ranked_all : d.ranked ≡ ranked_rows m ctx
    pub explained : d.human_reason ≡ reasons ctx ratio threshold first best rest
    pub asked : d.requires_human ≡ any_reason d.human_reason

  decide_lem :
      (m : CostModel N) (ctx : TriageContext N) (ratio threshold : N)
      → (d : TriageDecision N) × (triage m ctx ratio threshold ≡ some d)
        × IsDecision m ctx ratio threshold d
  unfolding triage
  decide_lem m ctx ratio threshold = elim (List-cases (ranked_rows m ctx)) [
    | inl nothing ↦ absurd (keep-ranked_rows m ctx (rw nothing (unfold keep in refl)))
    | inr (first, others, rows) ↦ elim (List-cases (keep autonomous (ranked_rows m ctx))) [
      | inl nothing ↦ absurd (keep-ranked_rows m ctx nothing)
      | inr (best, rest, ranks) ↦ (
        record {
          recommended = best.action;
          ranked = first ∷ others;
          context = ctx;
          model = m;
          requires_human = any_reason (reasons ctx ratio threshold first best rest);
          human_reason = reasons ctx ratio threshold first best rest;
        },
        rw (ranks, rows, decide),
        record {
          first = first;
          others = others;
          best = best;
          rest = rest;
          rows = rows;
          ranks = ranks;
          chosen = refl;
          ranking = refl;
          ranked_all = sym rows;
          explained = refl;
          asked = refl;
        },
      )
    ]
  ]

  -- The rows are never empty, so the engine decides on every input and raises nothing.
  pub triage_total :
      (m : CostModel N) (ctx : TriageContext N) (ratio threshold : N)
      → (d : TriageDecision N) × (triage m ctx ratio threshold ≡ some d)
  triage_total m ctx ratio threshold = let (d, e, _) = decide_lem m ctx ratio threshold in (d, e)

  pub IsDecision-of :
      (m : CostModel N) (ctx : TriageContext N) (ratio threshold : N) (d : TriageDecision N)
      → triage m ctx ratio threshold ≡ some d
      → IsDecision m ctx ratio threshold d
  IsDecision-of m ctx ratio threshold d e =
      let (d', e', i) = decide_lem m ctx ratio threshold in
      subst (IsDecision m ctx ratio threshold) (some-injective _ _ (sym e' ∙ e)) i

  -- A decision without a human: no reason was found.
  no_reason :
      (ctx : TriageContext N) (ratio threshold : N) (first best : ActionCost N)
      (rest : List (ActionCost N))
      → any_reason (reasons ctx ratio threshold first best rest) ≡ false
      → (is_halt first.action ≡ false)
        × (F.lt threshold best.expected_cost ≡ false)
        × ((ctx.is_safety_critical && is_accept best.action) ≡ false)
        × (F.lt (F.decimal 5 1 ⊗ at_least_one best) (best.cost_high ⊖ best.cost_low) ≡ false)
  unfolding reasons
  no_reason ctx ratio threshold first best [] h = ground arith
  no_reason ctx ratio threshold first best (second ∷ rest) h = ground arith

  no_tie :
      (ctx : TriageContext N) (ratio threshold : N) (first best second : ActionCost N)
      (rest : List (ActionCost N))
      → any_reason (reasons ctx ratio threshold first best (second ∷ rest)) ≡ false
      → F.lt (second.expected_cost ⊖ best.expected_cost) (ratio ⊗ at_least_one best) ≡ false
  unfolding reasons
  no_tie ctx ratio threshold first best second rest h = ground arith

  -- A decision that asks no human is decisive: halting the line is not the cheapest of all options,
  -- the recommended action costs at most the threshold, it does not accept a safety-critical unit,
  -- its cost interval is at most half its cost (or half of 1), and the runner-up, if there is one,
  -- costs more by at least `ratio` of its cost (or of 1).
  pub unattended_is_decisive :
      (m : CostModel N) (ctx : TriageContext N) (ratio threshold : N) (d : TriageDecision N)
      → triage m ctx ratio threshold ≡ some d
      → d.requires_human ≡ false
      → (first best : ActionCost N) × (others rest : List (ActionCost N)) × (d.ranked
          ≡ first ∷ others)
        × (keep autonomous d.ranked ≡ best ∷ rest)
        × (d.recommended ≡ best.action)
        × (first.action ≢ halt_line)
        × (F.lt threshold best.expected_cost ≡ false)
        × ((ctx.is_safety_critical && is_accept best.action) ≡ false)
        × (F.lt (F.decimal 5 1 ⊗ at_least_one best) (best.cost_high ⊖ best.cost_low) ≡ false)
        × All
            (λ second.
              F.lt (second.expected_cost ⊖ best.expected_cost) (ratio ⊗ at_least_one best) ≡ false)
            (take 1 rest)
  unattended_is_decisive m ctx ratio threshold d e h =
      let i = IsDecision-of m ctx ratio threshold d e in
      let quiet : any_reason (reasons ctx ratio threshold i.first i.best i.rest) ≡ false =
        rw (← i.explained, ← i.asked) h in
      let (a, b, c, w) = no_reason ctx ratio threshold i.first i.best i.rest quiet in
      (
        i.first,
        i.best,
        i.others,
        i.rest,
        i.ranking,
        ap (keep autonomous) i.ranked_all ∙ i.ranks,
        i.chosen,
        λ halts. cc,
        b,
        c,
        w,
        ties ctx ratio threshold i.first i.best i.rest quiet,
      )
    where
      ties :
          (ctx : TriageContext N) (ratio threshold : N) (first best : ActionCost N)
          (rest : List (ActionCost N))
          → any_reason (reasons ctx ratio threshold first best rest) ≡ false
          → All
              (λ second.
                F.lt (second.expected_cost ⊖ best.expected_cost) (ratio ⊗ at_least_one best)
                ≡ false)
              (take 1 rest)
      ties ctx ratio threshold first best [] h = tt
      ties ctx ratio threshold first best (second ∷ rest) h =
          (no_tie ctx ratio threshold first best second rest h, tt)

  module _ (laws : IsOrdered N) where
    cheaper_asym : (r s : ActionCost N) → cheaper r s ≡ true → cheaper s r ≡ false
    cheaper_asym r s h = ground (
      arith,
      laws.lt-eq-not-le s.expected_cost r.expected_cost,
      le_of_lt laws r.expected_cost s.expected_cost,
    )

    cheaper_ntrans :
        (r s t : ActionCost N) → cheaper s r ≡ false → cheaper t s ≡ false → cheaper t r ≡ false
    cheaper_ntrans r s t h k = ground (
      arith,
      laws.lt-eq-not-le s.expected_cost r.expected_cost,
      laws.lt-eq-not-le t.expected_cost s.expected_cost,
      laws.lt-eq-not-le t.expected_cost r.expected_cost,
      laws.le_trans r.expected_cost s.expected_cost t.expected_cost,
    )

    best_autonomous :
        (rows : List (ActionCost N)) {rest : List (ActionCost N)} {best : ActionCost N}
        → keep autonomous rows ≡ best ∷ rest
        → autonomous best ≡ true
    best_autonomous rows e =
        (subst (All (λ r. Unit {0} × (autonomous r ≡ true))) e
          (All-keep (λ r. Unit {0}) autonomous rows (everywhere rows))).0.1
      where
        everywhere : (xs : List (ActionCost N)) → All (λ r. Unit {0}) xs
        everywhere [] = tt
        everywhere (x ∷ xs) = (tt, everywhere xs)

    -- The recommendation is never to halt the line; it is the first of the autonomous rows, none of
    -- which costs less; and the ranking holds all the priced rows, in the order of their costs.
    pub recommends_cheapest_autonomous :
        (m : CostModel N) (ctx : TriageContext N) (ratio threshold : N) (d : TriageDecision N)
        → triage m ctx ratio threshold ≡ some d
        → (best : ActionCost N) × (rest : List (ActionCost N)) × (keep autonomous d.ranked
            ≡ best ∷ rest)
          × (d.recommended ≡ best.action)
          × (d.recommended ≢ halt_line)
          × All (λ r. cheaper r best ≡ false) rest
          × Ascending cheaper d.ranked
          × Perm d.ranked (priced_rows m ctx)
    recommends_cheapest_autonomous m ctx ratio threshold d e =
        let i = IsDecision-of m ctx ratio threshold d e in
        let asc : Ascending cheaper (ranked_rows m ctx) =
          unfold ranked_rows in
          Ascending-sorted_by cheaper cheaper_asym cheaper_ntrans (priced_rows m ctx) in
        let perm : Perm (ranked_rows m ctx) (priced_rows m ctx) =
          unfold ranked_rows in sorted_by-perm cheaper (priced_rows m ctx) in
        let front : Ascending cheaper (i.best ∷ i.rest) =
          subst (Ascending cheaper) i.ranks (Ascending-keep cheaper autonomous _ asc) in
        let own : is_autonomous i.best.action ≡ true = best_autonomous _ i.ranks in
        (
          i.best,
          i.rest,
          ap (keep autonomous) i.ranked_all ∙ i.ranks,
          i.chosen,
          λ halts. cc (own, i.chosen, halts),
          front.0,
          subst (Ascending cheaper) (sym i.ranked_all) asc,
          subst (λ rows. Perm rows (priced_rows m ctx)) (sym i.ranked_all) perm,
        )
