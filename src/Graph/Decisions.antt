-- ===== src/Graph/Decisions.antt =====
-- What the graph's decisions mean: when a unit ships, what absent evidence leads to, and which cost is
-- reported with a recommendation.
use mathlib.Core.Path.{subst}
use defect_sense.Prelude.{
  true, false, ◌≡◌, ◌≢◌, ◌↔◌, refl, sym, ap, ◌∙◌, some, List, [], ◌∷◌, arith, All, some_inj,
}
use defect_sense.Prelude.Sort.{keep, keep-head, sorted_by}
use defect_sense.Enums.{
  pass, escalate, Disposition, accept, rework, quarantine, scrap, halt_line, rejected,
}
use defect_sense.Float.{Float, IsOrdered, ◌≼◌, nought}
use defect_sense.Adjudication.{FastenerOutcome, Adjudication, adjudicate, absent, is_pass}
use defect_sense.Adjudication.Verdicts.{
  IsNominal, passes_exactly_when-IsNominal, escalates_exactly_when_absent,
}
use defect_sense.Cost.{ActionCost, is_halt, is_autonomous, ranked_rows, autonomous}
use defect_sense.Cost.Choice.{triage_total, IsDecision-of}
use defect_sense.Cost.Absent.{IsPlant, zero_accepts}
use defect_sense.Graph.{InspectionInputs, FusionVerdict, TriageResult, QcState, complete, apply}
use defect_sense.Graph.Nodes.{ingestion, long_enough, score_curves, by_position, verifier_detail}
use defect_sense.Graph.Run.{
  Arrival, fusion_of, priced, run_inspection, shipped, result_record, triage_context,
}
use defect_sense.Graph.Outcome.{judged, run-IsOutcome}

module _ {N : Type 0} ⦃F : Float N⦄ where
  fusion_of-verdict :
      (a : Adjudication N) (f : FusionVerdict N) → fusion_of a ≡ some f → f.verdict ≡ a.verdict
  fusion_of-verdict a f e = ground arith

  -- The first of the autonomous rows is the first of all unless that one halts the line.
  head_recommended :
      (first : ActionCost N) (others : List (ActionCost N)) (best : ActionCost N)
      (rest : List (ActionCost N)) {d : Disposition}
      → keep autonomous (first ∷ others) ≡ best ∷ rest
      → d ≡ best.action
      → (is_halt first.action ≡ false) ↔ (d ≡ first.action)
  unfolding keep
  head_recommended first others best rest ranks recommended = (
    λ moves. recommended ∙ ap (λ (q : ActionCost N). q.action) (head_of moves),
    λ same.
        rw (sym same, recommended)
          (never_halts best.action (keep-head autonomous (first ∷ others) best rest ranks)),
  )
    where
      moving : (d : Disposition) → is_halt d ≡ false → is_autonomous d ≡ true
      moving accept h = refl
      moving rework h = refl
      moving quarantine h = refl
      moving scrap h = refl
      moving halt_line h = absurd (ground arith)

      head_of : is_halt first.action ≡ false → best ≡ first
      head_of moves = ground (arith, moving first.action moves)

      never_halts : (d : Disposition) → is_autonomous d ≡ true → is_halt d ≡ false
      never_halts accept h = refl
      never_halts rework h = refl
      never_halts quarantine h = refl
      never_halts scrap h = refl
      never_halts halt_line h = absurd (ground arith)

  module _ (round3 : N → N) (a : Arrival) (s t : QcState N) (i : InspectionInputs N)
      (run : run_inspection round3 a s i ≡ some t) where
    -- A run that ends with the verdict `pass` has scored at least one curve, found each of them in
    -- spec and not anomalous, and had every verifier pass; it accepts the unit at no cost and is
    -- complete without a human.
    pub ships_only-IsNominal :
        (f : FusionVerdict N)
        → t.fusion ≡ some f
        → f.verdict ≡ pass
        → (i.verifiers_passed ≡ true)
          × ((os : List (FastenerOutcome N)) × (score_curves i.baseline
                  (sorted_by by_position (keep long_enough i.curves))
                ≡ some os)
              × (os ≢ [])
              × All IsNominal os)
          × (t.triage ≡ some (shipped i.cost_model))
          × (t.status ≡ complete)
    unfolding priced
    ships_only-IsNominal f fused passes =
        let o = run-IsOutcome round3 a s t i run in
        let same : f ≡ o.fusion = some_inj (sym fused ∙ o.fused) in
        let verdict : (judged i o.outcomes).verdict ≡ pass =
          sym (fusion_of-verdict (judged i o.outcomes) o.fusion o.fuses)
          ∙ ap (λ (g : FusionVerdict N). g.verdict) (sym same)
          ∙ passes in
        let (some_signal, verified, nominal) =
          (passes_exactly_when-IsNominal o.outcomes i.baseline i.verifiers_passed
              (verifier_detail i.verifier_results)).0
            verdict in
        let ships : shipped i.cost_model ≡ o.triage =
          some_inj (rw (verdict, is_pass) at o.prices) in
        (
          verified,
          (o.outcomes, o.scored, some_signal, nominal),
          o.triaged ∙ ap some (sym ships),
          o.status ∙ rw (sym ships) refl,
        )

    -- The cost that is reported with a verdict other than `pass` is that of the cheapest action of
    -- all. It is the cost of the recommended action unless the cheapest is to halt the line, which
    -- the triage never recommends.
    pub reported_cost :
        (f : FusionVerdict N) (r : TriageResult N)
        → t.fusion ≡ some f
        → t.triage ≡ some r
        → is_pass f.verdict ≡ false
        → (os : List (FastenerOutcome N)) × (score_curves i.baseline
              (sorted_by by_position (keep long_enough i.curves))
            ≡ some os)
          × (cheapest : ActionCost N) × (others : List (ActionCost N)) × (ranked_rows i.cost_model
                (triage_context i (judged i os))
              ≡ cheapest ∷ others)
          × (r.expected_cost ≡ cheapest.expected_cost)
          × ((is_halt cheapest.action ≡ false) ↔ (r.recommended ≡ cheapest.action))
    unfolding priced
    reported_cost f r fused triaged fails =
        let o = run-IsOutcome round3 a s t i run in
        let adj = judged i o.outcomes in
        let same : f ≡ o.fusion = some_inj (sym fused ∙ o.fused) in
        let same_result : o.triage ≡ r = some_inj (sym o.triaged ∙ triaged) in
        let failed : is_pass adj.verdict ≡ false =
          ap is_pass (
            sym (fusion_of-verdict adj o.fusion o.fuses)
            ∙ ap (λ (g : FusionVerdict N). g.verdict) (sym same))
          ∙ fails in
        let (d, e) =
          triage_total i.cost_model (triage_context i adj) (F.decimal 10 2) (F.decimal 50_000 0) in
        let decision =
          IsDecision-of i.cost_model (triage_context i adj) (F.decimal 10 2) (F.decimal 50_000 0) d
            e in
        let priced_as : o.triage ≡ result_record i.cost_model adj d decision.first decision.others =
          sym (some_inj (rw (failed, e, decision.ranking) at o.prices)) in
        (
          o.outcomes,
          o.scored,
          decision.first,
          decision.others,
          decision.rows,
          ap (λ (q : TriageResult N). q.expected_cost) (sym same_result ∙ priced_as),
          let recommended : r.recommended ≡ decision.best.action =
                ap (λ (q : TriageResult N). q.recommended) (sym same_result ∙ priced_as)
                ∙ decision.chosen in
              head_recommended decision.first decision.others decision.best decision.rest
                (ap (keep autonomous) (sym decision.rows) ∙ decision.ranks) recommended,
        )

module _ {N : Type 0} ⦃F : Float N⦄ (laws : IsOrdered N) (round3 : N → N) (a : Arrival)
    (s t : QcState N) (i : InspectionInputs N) (plant : IsPlant laws i.cost_model)
    (run : run_inspection round3 a s i ≡ some t) where
  -- Where no curve is long enough, a run that ends has rejected the data and escalates; with plant
  -- figures that are not negative its triage recommends to accept the unit all the same, at a cost of
  -- at most 0.
  pub rejected_data_accepts :
      keep long_enough i.curves ≡ []
      → (t.data_quality ≡ rejected)
        × ((f : FusionVerdict N) × (t.fusion ≡ some f) × (f.verdict ≡ escalate))
        × ((r : TriageResult N) × (t.triage ≡ some r)
            × (r.recommended ≡ accept)
            × (r.expected_cost ≼ nought))
  unfolding priced apply ingestion score_curves sorted_by adjudicate absent
  rejected_data_accepts nothing =
      let o = run-IsOutcome round3 a s t i run in
      let no_outcomes : [] ≡ o.outcomes = some_inj (rw nothing at o.scored) in
      let adj = judged i o.outcomes in
      let escalates =
        (escalates_exactly_when_absent o.outcomes i.baseline i.verifiers_passed
            (verifier_detail i.verifier_results)).1
          (sym no_outcomes) in
      let no_confidence : adj.confidence ≡ nought = rw (sym no_outcomes) refl in
      let (d, e) =
        triage_total i.cost_model (triage_context i adj) (F.decimal 10 2) (F.decimal 50_000 0) in
      let (accepts, best, others, ranking, ships, free) =
        zero_accepts laws i.cost_model plant (triage_context i adj) no_confidence (F.decimal 10 2)
          (F.decimal 50_000 0) d e in
      let priced_as : result_record i.cost_model adj d best others ≡ o.triage =
        some_inj (rw (escalates, is_pass, e, ranking) at o.prices) in
      (
        o.quality ∙ rw nothing refl,
        (o.fusion, o.fused, fusion_of-verdict adj o.fusion o.fuses ∙ escalates),
        (
          o.triage,
          o.triaged,
          ap (λ (q : TriageResult N). q.recommended) (sym priced_as) ∙ accepts,
          subst (λ (q : TriageResult N). q.expected_cost ≼ nought) priced_as free,
        ),
      )
