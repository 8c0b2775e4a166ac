-- ===== src/Graph/Total.antt =====
-- A run on admissible curves never fails: every call returns and every validator accepts.
use defect_sense.Prelude.{
  Bool, ◌≡◌, refl, none, some, List, [], ◌∷◌, Option-cases, Bool-cases, inl, inr, arith, All,
  All-imp,
}
use defect_sense.Prelude.Sort.{keep, sorted_by, greatest, All-keep, All-sorted_by, All-greatest}
use defect_sense.Float.{Float, IsOrdered, ◌≼◌, nought, unit}
use defect_sense.Float.Laws.{nought-le-unit, decimal_nonneg, percent-le-unit}
use defect_sense.Torque.{TorqueAngleCurve, SignatureBaseline}
use defect_sense.Torque.Curve.{post_init}
use defect_sense.Torque.Returns.{Returns}
use defect_sense.Torque.Knee.{extracts_every_curve}
use defect_sense.Torque.Bounds.{score_bounds}
use defect_sense.Adjudication.{FastenerOutcome, Adjudication, adjudicate, scores_less, is_pass}
use defect_sense.Adjudication.Confidence.{IsScored, confidence_bounds}
use defect_sense.Cost.Choice.{triage_total, IsDecision-of}
use defect_sense.Graph.{InspectionInputs, QcState}
use defect_sense.Graph.Nodes.{
  ingestion, long_enough, checked_score, own_vision, vision, score_curves, fastener_results,
  process_verdict, process_update, process_sentinel, by_position, verifier_detail,
}
use defect_sense.Graph.Run.{
  Arrival, adjudicator, triage_context, priced, cost_triage, finish, run_inspection,
}

module _ {N : Type 0} ⦃F : Float N⦄ (laws : IsOrdered N) (is_finite : N → Bool) where
  -- What the constructor of a curve accepts.
  abbrev pub IsAdmitted : TorqueAngleCurve N → Type 0
  IsAdmitted c = post_init is_finite c.samples ≡ none

  checked_score-some : (x : N) → nought ≼ x → x ≼ unit → checked_score x ≡ some x
  checked_score-some x l u = rw (l, u) refl

  pub score_curves-Returns :
      (b : SignatureBaseline N) (cs : List (TorqueAngleCurve N))
      → All IsAdmitted cs
      → (os : List (FastenerOutcome N)) × (score_curves b cs ≡ some os) × All (IsScored laws) os
  unfolding score_curves
  score_curves-Returns b [] h = ([], refl, tt)
  score_curves-Returns b (c ∷ cs) (h, hs) =
      let (f, e, counts, knee) =
        extracts_every_curve laws c.samples is_finite c.fastener_position c.tool_id c.unit_id h in
      let (v, ev, lower, upper) = score_bounds laws f b (F.decimal 45 2) in
      let (os, es, scored) = score_curves-Returns b cs hs in
      (
        record { position = c.fastener_position; signature = v } ∷ os,
        rw (e, ev, es) refl,
        ((lower, upper), scored),
      )

  fastener_results-Returns :
      (os : List (FastenerOutcome N)) → All (IsScored laws) os → Returns (fastener_results os)
  unfolding fastener_results
  fastener_results-Returns [] h = (_, refl)
  fastener_results-Returns (o ∷ os) (h, hs) =
      let (rs, e) = fastener_results-Returns os hs in
      rw (checked_score-some o.signature.anomaly_score h.0 h.1, e) (_, refl)

  process_verdict-Returns :
      (o : FastenerOutcome N) (os : List (FastenerOutcome N))
      → All (IsScored laws) (o ∷ os)
      → Returns (process_verdict o os)
  process_verdict-Returns o os (h, hs) =
      let (rs, e) = fastener_results-Returns (o ∷ os) (h, hs) in
      let worst = All-greatest scores_less (IsScored laws) o os h hs in
      rw
        (
          e,
          checked_score-some (greatest scores_less o os).signature.anomaly_score worst.0 worst.1,
          checked_score-some (F.decimal 95 2) (decimal_nonneg laws 95 2)
              (percent-le-unit laws 95 (omega arith)),
        )
        (_, refl)

  process_update-Returns :
      (round3 : N → N) (cs : List (TorqueAngleCurve N)) (os : List (FastenerOutcome N))
      → All (IsScored laws) os
      → Returns (process_update round3 cs os)
  process_update-Returns round3 cs [] h = (_, refl)
  process_update-Returns round3 cs (o ∷ os) h =
      let (v, e) = process_verdict-Returns o os h in rw e (_, refl)

  vision-Returns : (i : InspectionInputs N) → Returns (vision i)
  unfolding vision
  vision-Returns i = elim (Option-cases i.custom_vision_verdict) [
    | inr (given, e) ↦ rw e (_, refl)
    | inl own ↦
        rw
          (
            own,
            own_score,
            checked_score-some (F.decimal 99 2) (decimal_nonneg laws 99 2)
                (percent-le-unit laws 99 (omega arith)),
          )
          (_, refl)
  ]
    where
      own_score : checked_score (own_vision i).anomaly_score ≡ some (own_vision i).anomaly_score
      own_score = elim (Bool-cases i.verifiers_passed) [
        | inl passed ↦
            rw passed (checked_score-some nought (laws.le_refl nought) (nought-le-unit laws))
        | inr failed ↦ rw failed (checked_score-some unit (nought-le-unit laws) (laws.le_refl unit))
      ]

  priced-Returns : (i : InspectionInputs N) (a : Adjudication N) → Returns (priced i a)
  unfolding priced
  priced-Returns i a = elim (Bool-cases (is_pass a.verdict)) [
    | inl passes ↦ rw passes (_, refl)
    | inr fails ↦
        let (d, e) =
          triage_total i.cost_model (triage_context i a) (F.decimal 10 2) (F.decimal 50_000 0) in
        let decision =
          IsDecision-of i.cost_model (triage_context i a) (F.decimal 10 2) (F.decimal 50_000 0) d
            e in
        rw (fails, e, decision.ranking) (_, refl)
  ]

  finish-Returns :
      (i : InspectionInputs N) (s : QcState N)
      → All (IsScored laws) i.outcomes
      → Returns (finish i s)
  unfolding finish adjudicator cost_triage
  finish-Returns i s h =
      let result =
        adjudicate i.outcomes i.baseline i.verifiers_passed (verifier_detail i.verifier_results) in
      let c =
        confidence_bounds laws i.outcomes i.baseline i.verifiers_passed
          (verifier_detail i.verifier_results) h in
      let (r, e) = priced-Returns (record i { adjudication = some result }) result in
      rw (checked_score-some result.confidence c.0 c.1, e) (_, refl)

  pub run_total :
      (round3 : N → N) (a : Arrival) (s : QcState N) (i : InspectionInputs N)
      → All IsAdmitted i.curves
      → (t : QcState N) × (run_inspection round3 a s i ≡ some t)
  unfolding run_inspection process_sentinel ingestion
  run_total round3 a s i h =
      let valid = (ingestion i).1 in
      let curves = sorted_by by_position (keep long_enough i.curves) in
      let admitted : All IsAdmitted curves =
        All-sorted_by by_position IsAdmitted (keep long_enough i.curves) (
          All-imp (keep long_enough i.curves) (λ c k. k.0)
            (All-keep IsAdmitted long_enough i.curves h)) in
      let (seen, e1) = vision-Returns (record i { curves = keep long_enough i.curves }) in
      let (os, e2, scored) = score_curves-Returns i.baseline curves admitted in
      let (u, e3) = process_update-Returns round3 curves os scored in
      rw (e1, e2, e3) (finish-Returns _ _ scored)
