-- ===== src/Inspect/Agreement.antt =====
-- The two adjudications of the program, against each other.
use defect_sense.Prelude.{
  ℕ, ◌≡◌, refl, Bool, true, false, Option, none, some, List, [], ◌∷◌, arith, ◌≢◌, ◌∙◌, ap, All,
  Option-cases, length, Bool-cases, List-cases, inl, inr,
}
use defect_sense.Prelude.Sort.{keep, every, sorted_by, All-sorted_by, All-of_sorted_by}
use defect_sense.Float.{Float, IsOrdered}
use defect_sense.Torque.{SignatureBaseline, TorqueAngleCurve}
use defect_sense.Torque.Curve.{TorqueCurveError, post_init}
use defect_sense.Torque.Fit.{extract_features}
use defect_sense.Torque.Returns.{Returns}
use defect_sense.Torque.Score.{score_signature}
use defect_sense.Cost.{CostModel}
use defect_sense.Cost.Choice.{triage_total, IsDecision-of}
use defect_sense.Graph.Nodes.{score_curves, by_position}
use defect_sense.Graph.Total.{IsAdmitted, score_curves-Returns}
use defect_sense.Adjudication.{
  FastenerOutcome, Adjudication, adjudicate, outcome_fusion_only, anomalous, in_spec, out_of_band,
  fusion_branch, anomaly_branch, failed_verifier, fused, endpoint_bad, undecided, nominal_unit,
  is_pass,
}
use defect_sense.Inspect.{
  Ruling, ruling, worst_of, rule_anomalous, service_adjudicate, GateReason, InspectionResult, sift,
  gate_curves, service_context, conclude, after_gate, inspect,
}

module _ {N : Type 0} ⦃F : Float N⦄ where
  -- What an adjudication rules.
  abbrev pub ruling_of : Adjudication N → Ruling N
  ruling_of a = ruling a.verdict a.severity a.confidence a.primary_signal

  every-in_spec :
      (os : List (FastenerOutcome N))
      → (every in_spec os ≡ true → keep out_of_band os ≡ [])
        × (every in_spec os ≡ false
            → (o : FastenerOutcome N) × (rest : List (FastenerOutcome N)) × (keep out_of_band os
                ≡ o ∷ rest))
  unfolding every keep
  every-in_spec [] = (λ e. refl, λ e. absurd (ground arith))
  every-in_spec (o ∷ os) = elim (Bool-cases (in_spec o)) [
    | inl inside ↦ rw inside (every-in_spec os)
    | inr outside ↦ ((λ e. absurd (ground arith)), (λ e. (o, keep out_of_band os, ground arith)))
  ]

  -- On at least one outcome, and told whether all endpoints are in spec, the service rules as the
  -- adjudication of the graph does, in verdict, severity, confidence and primary signal.
  pub service_agrees :
      (o : FastenerOutcome N) (os : List (FastenerOutcome N)) (b : SignatureBaseline N)
      (verifiers_passed : Bool) (detail : List ℕ)
      → service_adjudicate (o ∷ os) verifiers_passed (every in_spec (o ∷ os))
        ≡ some (ruling_of (adjudicate (o ∷ os) b verifiers_passed detail))
  unfolding service_adjudicate adjudicate failed_verifier fused endpoint_bad undecided nominal_unit
  service_agrees o os b false detail = refl
  service_agrees o os b true detail = elim (List-cases (keep outcome_fusion_only (o ∷ os))) [
    | inr (w, ws, fusions) ↦ rw (fusions, fusion_branch) refl
    | inl none_fused ↦ elim (Bool-cases (every in_spec (o ∷ os))) [
      | inl inside ↦
          rw (none_fused, inside, (every-in_spec (o ∷ os)).0 inside)
            (by_anomaly (keep anomalous (o ∷ os)))
      | inr outside ↦
          let (bad, rest, found) = (every-in_spec (o ∷ os)).1 outside in
          rw (none_fused, outside, found) refl
    ]
  ]
    where
      by_anomaly :
          (xs : List (FastenerOutcome N))
          → some (rule_anomalous (worst_of xs))
            ≡ some (ruling_of (anomaly_branch xs (nominal_unit (length (o ∷ os)))))
      by_anomaly [] = refl
      by_anomaly (x ∷ xs) = refl

module _ {N : Type 0} ⦃F : Float N⦄ (laws : IsOrdered N) (is_finite : N → Bool) where
  sift-All :
      (c : TorqueAngleCurve N) (rest : List (TorqueAngleCurve N) × List (GateReason N))
      (o : Option (TorqueCurveError N))
      → post_init is_finite c.samples ≡ o
      → All (IsAdmitted laws is_finite) rest.0
      → All (IsAdmitted laws is_finite) (sift o c rest).0
  sift-All c rest none fine h = (fine, h)
  sift-All c rest (some e) bad h = h

  pub gate_curves-All :
      (cs : List (TorqueAngleCurve N))
      → All (IsAdmitted laws is_finite) (gate_curves is_finite cs).0
  unfolding gate_curves
  gate_curves-All [] = tt
  gate_curves-All (c ∷ cs) =
      sift-All c (gate_curves is_finite cs) (post_init is_finite c.samples) refl
        (gate_curves-All cs)

  pub score_curves-nil :
      (b : SignatureBaseline N) (cs : List (TorqueAngleCurve N))
      → score_curves b cs ≡ some []
      → cs ≡ []
  unfolding score_curves
  score_curves-nil b [] e = refl
  score_curves-nil b (c ∷ cs) e = elim (Option-cases (extract_features c)) [
    | inl failed ↦ absurd (ground arith)
    | inr (f, found) ↦ elim (Option-cases (score_signature f b (F.decimal 45 2))) [
      | inl unscored ↦ absurd (ground arith)
      | inr (v, signed) ↦ elim (Option-cases (score_curves b cs)) [
        | inl failed ↦ absurd (ground arith)
        | inr (os, scored) ↦ absurd (ground arith)
      ]
    ]
  ]

  pub sorted_by-cons :
      (c : TorqueAngleCurve N) (cs : List (TorqueAngleCurve N))
      → sorted_by by_position (c ∷ cs) ≢ []
  sorted_by-cons c cs e = (All-of_sorted_by by_position (λ _. ⊥) (c ∷ cs) (rw e tt)).0

  conclude-Returns :
      (m : CostModel N) (scope : ℕ) (hours : N) (v : Bool) (reasons : List (GateReason N))
      (os : List (FastenerOutcome N)) (r : Ruling N)
      → Returns (conclude m scope hours v reasons os r)
  unfolding conclude
  conclude-Returns m scope hours v reasons os r = elim (Bool-cases (is_pass r.verdict)) [
    | inl passes ↦ rw passes (_, refl)
    | inr fails ↦
        let (d, e) =
          triage_total m (service_context r scope hours) (F.decimal 10 2) (F.decimal 50_000 0) in
        let decision =
          IsDecision-of m (service_context r scope hours) (F.decimal 10 2) (F.decimal 50_000 0) d
            e in
        rw (fails, e, decision.ranking) (_, refl)
  ]

  after_gate-Returns :
      (b : SignatureBaseline N) (m : CostModel N) (scope : ℕ) (hours : N) (v : Bool)
      (valid : List (TorqueAngleCurve N)) (reasons : List (GateReason N))
      → All (IsAdmitted laws is_finite) valid
      → Returns (after_gate b m scope hours v valid reasons)
  after_gate-Returns b m scope hours v [] reasons h = (_, refl)
  after_gate-Returns b m scope hours v (c ∷ cs) reasons h =
      let curves = sorted_by by_position (c ∷ cs) in
      let (os, scored, bounds) =
        score_curves-Returns laws is_finite b curves
          (All-sorted_by by_position (IsAdmitted laws is_finite) (c ∷ cs) h) in
      elim (List-cases os) [
        | inl nothing ↦
            absurd (sorted_by-cons c cs (score_curves-nil b curves (scored ∙ ap some nothing)))
        | inr (x, xs, some_outcome) ↦
            rw (scored, some_outcome, service_agrees x xs b v [])
              (conclude-Returns m scope hours v reasons (x ∷ xs) _)
      ]

  -- Given the laws of floats, the service raises on no input: whatever the curves, even malformed ones,
  -- it returns a result.
  pub inspect_total :
      (b : SignatureBaseline N) (m : CostModel N) (scope : ℕ) (hours : N) (v : Bool)
      (curves : List (TorqueAngleCurve N))
      → (r : InspectionResult N) × (inspect is_finite b m scope hours v curves ≡ some r)
  unfolding inspect
  inspect_total b m scope hours v curves =
      after_gate-Returns b m scope hours v (gate_curves is_finite curves).0
        (gate_curves is_finite curves).1 (gate_curves-All curves)
