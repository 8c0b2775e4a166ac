-- ===== src/Graph/Outcome.antt =====
-- What a run that ends has decided, and what it reports.
use mathlib.Core.Path.{subst}
use defect_sense.Prelude.{
  ◌≡◌, refl, sym, ap, ◌∙◌, Option, none, some, List, [], ◌∷◌, Option-cases, inl, inr, some_inj,
  if◌then◌else◌,
}
use defect_sense.Prelude.Sort.{keep, sorted_by}
use defect_sense.Enums.{vision_inspector}
use defect_sense.Float.{Float}
use defect_sense.Torque.{TorqueAngleCurve}
use defect_sense.Adjudication.{FastenerOutcome, Adjudication, adjudicate}
use defect_sense.Graph.{
  VisionVerdict, InspectionInputs, ProcessVerdict, FusionVerdict, TriageResult, QcState, Update,
  no_update, apply, awaiting_human, complete,
}
use defect_sense.Graph.Nodes.{
  ingestion, long_enough, vision, vision_verdict, score_curves, process_verdict, process_update,
  process_sentinel, by_position, verifier_detail, span,
}
use defect_sense.Graph.Run.{
  Arrival, vision_process_context, in_order, context, fusion_of, adjudicator, priced, cost_triage,
  finish, run_inspection, fusion_update, triage_update,
}
use defect_sense.Graph.Order.{
  AgreeRun, order_independent, OnlyProcess, scores, process_update-OnlyProcess,
}

module _ {N : Type 0} ⦃F : Float N⦄ where
  abbrev pub judged : InspectionInputs N → List (FastenerOutcome N) → Adjudication N
  judged i os = adjudicate os i.baseline i.verifiers_passed (verifier_detail i.verifier_results)

  -- The verdict of the process node: none without a signal.
  abbrev pub process_of : List (FastenerOutcome N) → Option (ProcessVerdict N)
  process_of [] = none
  process_of (o ∷ os) = process_verdict o os

  -- The decisions of a run: what it scored, and how it judged, priced and closed it.
  pub record IsOutcome (s : QcState N) (i : InspectionInputs N) (t : QcState N) : Type 0 where
    pub outcomes : List (FastenerOutcome N)
    pub scored :
        score_curves i.baseline (sorted_by by_position (keep long_enough i.curves)) ≡ some outcomes
    pub fusion : FusionVerdict N
    pub fuses : fusion_of (judged i outcomes) ≡ some fusion
    pub fused : t.fusion ≡ some fusion
    pub triage : TriageResult N
    pub prices : priced i (judged i outcomes) ≡ some triage
    pub triaged : t.triage ≡ some triage
    pub status : t.status ≡ (if triage.requires_human then awaiting_human else complete)
    pub quality : t.data_quality ≡ (apply s (ingestion i).0).data_quality

  record IsFinished (m : InspectionInputs N) (s t : QcState N) : Type 0 where
    fusion : FusionVerdict N
    fuses : fusion_of (judged m m.outcomes) ≡ some fusion
    fused : t.fusion ≡ some fusion
    triage : TriageResult N
    prices : priced m (judged m m.outcomes) ≡ some triage
    triaged : t.triage ≡ some triage
    status : t.status ≡ (if triage.requires_human then awaiting_human else complete)
    quality : t.data_quality ≡ s.data_quality

  finish-IsFinished :
      (m : InspectionInputs N) (s t : QcState N) → finish m s ≡ some t → IsFinished m s t
  unfolding finish adjudicator cost_triage apply priced
  finish-IsFinished m s t e = elim (Option-cases (fusion_of (judged m m.outcomes))) [
    | inl failed ↦ absurd (none_some (rw failed at e))
    | inr (f, fuses) ↦ elim (Option-cases (priced m (judged m m.outcomes))) [
      | inl failed ↦ absurd (none_some (rw (fuses, failed) at e))
      | inr (r, prices) ↦ closed f r fuses prices (some_inj (rw (fuses, prices) at e))
    ]
  ]
    where
      none_some : {A : Type 0} {x : A} → none ≡ some x → ⊥
      none_some k = cc

      closed :
          (f : FusionVerdict N) (r : TriageResult N)
          → fusion_of (judged m m.outcomes) ≡ some f
          → priced m (judged m m.outcomes) ≡ some r
          → apply (apply s (fusion_update (judged m m.outcomes) f)) (triage_update r) ≡ t
          → IsFinished m s t
      closed f r fuses prices k = record {
        fusion = f;
        fuses = fuses;
        fused = ap (λ (u : QcState N). u.fusion) (sym k);
        triage = r;
        prices = prices;
        triaged = ap (λ (u : QcState N). u.triage) (sym k);
        status = ap (λ (u : QcState N). u.status) (sym k);
        quality = ap (λ (u : QcState N). u.data_quality) (sym k);
      }

  -- Every run that ends is an outcome, in the order of arrival that is listed first.
  first_order :
      (round3 : N → N) (s t : QcState N) (i : InspectionInputs N)
      → run_inspection round3 vision_process_context s i ≡ some t
      → IsOutcome s i t
  unfolding run_inspection process_sentinel ingestion vision apply priced
  first_order round3 s t i e = elim (Option-cases (vision_verdict valid)) [
    | inl failed ↦ absurd (none_some (rw failed at e))
    | inr (v, sees) ↦ elim (Option-cases (score_curves i.baseline curves)) [
      | inl failed ↦ absurd (none_some (rw (sees, failed) at e))
      | inr (os, scored) ↦ elim (Option-cases (process_update round3 curves os)) [
        | inl failed ↦ absurd (none_some (rw (sees, scored, failed) at e))
        | inr (u, updates) ↦
            ended os scored v u (process_update-OnlyProcess round3 curves os u updates)
              (rw (sees, scored, updates) at e)
      ]
    ]
  ]
    where
      valid : InspectionInputs N
      valid = record i { curves = keep long_enough i.curves }

      curves : List (TorqueAngleCurve N)
      curves = sorted_by by_position (keep long_enough i.curves)

      none_some : {A : Type 0} {x : A} → none ≡ some x → ⊥
      none_some k = cc

      ended :
          (os : List (FastenerOutcome N))
          → score_curves i.baseline curves ≡ some os
          → (v : VisionVerdict N) (u : Update N) → OnlyProcess u
          → finish
              (record valid { outcomes = os })
              (in_order vision_process_context
                (record no_update { vision = some v; trace = span vision_inspector ∷ [] })
                u
                context
                (apply s (ingestion i).0))
            ≡ some t
          → IsOutcome s i t
      ended os scored v _ (scores p g y) k =
          let f = finish-IsFinished _ _ t k in
          record {
            outcomes = os;
            scored = scored;
            fusion = f.fusion;
            fuses = f.fuses;
            fused = f.fused;
            triage = f.triage;
            prices = f.prices;
            triaged = f.triaged;
            status = f.status;
            quality = f.quality;
          }

  -- Every run that ends is an outcome, in any order of arrival.
  pub run-IsOutcome :
      (round3 : N → N) (a : Arrival) (s t : QcState N) (i : InspectionInputs N)
      → run_inspection round3 a s i ≡ some t
      → IsOutcome s i t
  run-IsOutcome round3 a s t i e =
      agreeing (run_inspection round3 vision_process_context s i) refl (
        subst (λ r. AgreeRun r (run_inspection round3 vision_process_context s i)) e
          (order_independent round3 a vision_process_context s i))
    where
      agreeing :
          (r : Option (QcState N))
          → run_inspection round3 vision_process_context s i ≡ r
          → AgreeRun (some t) r
          → IsOutcome s i t
      agreeing (some u) k h =
          let o = first_order round3 s u i k in
          record {
            outcomes = o.outcomes;
            scored = o.scored;
            fusion = o.fusion;
            fuses = o.fuses;
            fused = h.fusion ∙ o.fused;
            triage = o.triage;
            prices = o.prices;
            triaged = h.triage ∙ o.triaged;
            status = h.status ∙ o.status;
            quality = h.data_quality ∙ o.quality;
          }
      agreeing none k h = absurd h
