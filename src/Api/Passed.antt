-- ===== src/Api/Passed.antt =====
-- What apps/api/main.py shows of a unit that the verdict graph let pass.
use defect_sense.Prelude.{
  ℕ, ◌≡◌, ◌≢◌, refl, sym, ap, ◌∙◌, true, false, Option, some, List, [], All, Option-cases, inl, inr,
}
use defect_sense.Prelude.Sort.{keep, sorted_by}
use defect_sense.Enums.{Verdict, accept, pass, escalate}
use defect_sense.Float.{Float, nought}
use defect_sense.Adjudication.{FastenerOutcome}
use defect_sense.Adjudication.Verdicts.{IsNominal}
use defect_sense.Graph.{QcState, InspectionInputs, FusionVerdict}
use defect_sense.Graph.Nodes.{score_curves, by_position, long_enough}
use defect_sense.Graph.Run.{Arrival, run_inspection, shipped}
use defect_sense.Graph.Decisions.{ships_only-IsNominal}
use defect_sense.Api.{InspectionState, Process, InspectionRepository, view_from_state, shown}
use defect_sense.Api.Writes.{publish}

module _ {N H : Type 0} ⦃F : Float N⦄ (round : ℕ → N → N)
    (repository : InspectionRepository N H) where
  -- A new unit whose channels are those that a run of the graph ended with, and that a client is shown with
  -- the verdict `pass`: the run scored at least one curve, found each in spec and not anomalous, and had
  -- every verifier pass; the view accepts the unit at the rounded cost of nothing, and asks no human.
  pub shows_pass-IsNominal :
      (round3 : N → N) (a : Arrival) (s t : QcState N) (i : InspectionInputs N) (now : ℕ)
      (final : InspectionState N) (p : Process N H)
      → run_inspection round3 a s i ≡ some t
      → final.channels ≡ t
      → (publish round repository now final p).0.verdict ≡ pass
      → let view = (publish round repository now final p).0 in
        (i.verifiers_passed ≡ true)
        × ((os : List (FastenerOutcome N)) × (score_curves i.baseline
                (sorted_by by_position (keep long_enough i.curves))
              ≡ some os)
            × (os ≢ [])
            × All IsNominal os)
        × (view.disposition ≡ accept)
        × (view.expected_cost ≡ round 2 nought)
        × (view.requires_human ≡ false)
  unfolding publish view_from_state
  shows_pass-IsNominal round3 a s t i now final p run ends passes =
      elim (Option-cases final.channels.fusion) [
        | inl unjudged ↦ absurd (not_pass (sym (ap (λ o. verdict_in o) unjudged) ∙ passes))
        | inr (f, fused) ↦
            let (verified, nominal, ships, complete) =
              ships_only-IsNominal round3 a s t i run f (ap (λ q. q.fusion) (sym ends) ∙ fused)
                (sym (ap (λ o. verdict_in o) fused) ∙ passes) in
            let triaged : final.channels.triage ≡ some (shipped i.cost_model) =
              ap (λ q. q.triage) ends ∙ ships in
            (verified, nominal, rw triaged refl, rw triaged refl, rw triaged refl)
      ]
    where
      verdict_in : Option (FusionVerdict N) → Verdict
      verdict_in o = shown o (λ f. f.verdict) escalate

      not_pass : escalate ≡ pass → ⊥
      not_pass e = cc
