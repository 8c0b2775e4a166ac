-- ===== src/Inspect/Shipping.antt =====
-- What the inspection service ships.
use defect_sense.Prelude.{
  ℕ, ◌≡◌, ◌≢◌, refl, sym, ap, ◌∙◌, Bool, true, false, some, List, [], ◌∷◌, arith, All, Bool-cases,
  List-cases, inl, inr, some_inj,
}
use mathlib.Core.Path.{subst}
use defect_sense.Prelude.Sort.{sorted_by, All-sorted_by}
use defect_sense.Enums.{pass, accept}
use defect_sense.Float.{Float, IsOrdered, nought}
use defect_sense.Torque.{SignatureBaseline, TorqueAngleCurve}
use defect_sense.Cost.{CostModel}
use defect_sense.Cost.Choice.{triage_total, IsDecision-of}
use defect_sense.Adjudication.{FastenerOutcome, adjudicate, is_pass}
use defect_sense.Adjudication.Verdicts.{IsNominal, passes_exactly_when-IsNominal}
use defect_sense.Graph.Nodes.{by_position}
use defect_sense.Graph.Total.{IsAdmitted, score_curves-Returns}
use defect_sense.Inspect.{
  Ruling, GateReason, InspectionResult, gate_curves, service_context, conclude, after_gate, inspect,
}
use defect_sense.Inspect.Agreement.{
  ruling_of, service_agrees, gate_curves-All, score_curves-nil, sorted_by-cons,
}

module _ {N : Type 0} ⦃F : Float N⦄ where
  record IsConclusion (os : List (FastenerOutcome N)) (rl : Ruling N) (r : InspectionResult N)
      : Type 0 where
    rules : r.ruling ≡ rl
    outcomes : r.fasteners ≡ os
    accepts : is_pass rl.verdict ≡ true → r.disposition ≡ accept
    free : is_pass rl.verdict ≡ true → r.expected_cost ≡ nought
    unattended : is_pass rl.verdict ≡ true → r.requires_human ≡ false

  pub record IsShippable (v : Bool) (r : InspectionResult N) : Type 0 where
    pub some_signal : r.fasteners ≢ []
    pub verified : v ≡ true
    pub nominal : All IsNominal r.fasteners
    pub accepts : r.disposition ≡ accept
    pub free : r.expected_cost ≡ nought
    pub unattended : r.requires_human ≡ false

  conclude-IsConclusion :
      (m : CostModel N) (scope : ℕ) (hours : N) (v : Bool) (reasons : List (GateReason N))
      (os : List (FastenerOutcome N)) (rl : Ruling N)
      → (r : InspectionResult N) × (conclude m scope hours v reasons os rl ≡ some r)
        × IsConclusion os rl r
  unfolding conclude
  conclude-IsConclusion m scope hours v reasons os rl = elim (Bool-cases (is_pass rl.verdict)) [
    | inl passes ↦ rw passes (
      _,
      refl,
      record {
        rules = refl;
        outcomes = refl;
        accepts = λ k. refl;
        free = λ k. refl;
        unattended = λ k. refl;
      },
    )
    | inr fails ↦
        let (d, e) =
          triage_total m (service_context rl scope hours) (F.decimal 10 2) (F.decimal 50_000 0) in
        let decision =
          IsDecision-of m (service_context rl scope hours) (F.decimal 10 2) (F.decimal 50_000 0) d
            e in
        rw (fails, e, decision.ranking)
          (
            _,
            refl,
            record {
              rules = refl;
              outcomes = refl;
              accepts = λ k. absurd (ground arith);
              free = λ k. absurd (ground arith);
              unattended = λ k. absurd (ground arith);
            },
          )
  ]

  IsConclusion-IsShippable :
      (x : FastenerOutcome N) (xs : List (FastenerOutcome N)) (b : SignatureBaseline N) (v : Bool)
      (r : InspectionResult N)
      → IsConclusion (x ∷ xs) (ruling_of (adjudicate (x ∷ xs) b v [])) r
      → r.ruling.verdict ≡ pass
      → IsShippable v r
  IsConclusion-IsShippable x xs b v r c passes =
      let verdict : (adjudicate (x ∷ xs) b v []).verdict ≡ pass =
        ap (λ (rl : Ruling N). rl.verdict) (sym c.rules) ∙ passes in
      let (some_signal, verified, nominal) =
        (passes_exactly_when-IsNominal (x ∷ xs) b v []).0 verdict in
      let ships : is_pass (adjudicate (x ∷ xs) b v []).verdict ≡ true = ap is_pass verdict in
      record {
        some_signal = rw c.outcomes some_signal;
        verified = verified;
        nominal = rw c.outcomes nominal;
        accepts = c.accepts ships;
        free = c.free ships;
        unattended = c.unattended ships;
      }

module _ {N : Type 0} ⦃F : Float N⦄ (laws : IsOrdered N) (is_finite : N → Bool) where
  after_gate-IsShippable :
      (b : SignatureBaseline N) (m : CostModel N) (scope : ℕ) (hours : N) (v : Bool)
      (valid : List (TorqueAngleCurve N)) (reasons : List (GateReason N))
      → All (IsAdmitted laws is_finite) valid
      → (r : InspectionResult N) × (after_gate b m scope hours v valid reasons ≡ some r)
        × (r.ruling.verdict ≡ pass → IsShippable v r)
  after_gate-IsShippable b m scope hours v [] reasons h = (_, refl, λ k. absurd (ground arith))
  after_gate-IsShippable b m scope hours v (c ∷ cs) reasons h =
      let curves = sorted_by by_position (c ∷ cs) in
      let (os, scored, bounds) =
        score_curves-Returns laws is_finite b curves
          (All-sorted_by by_position (IsAdmitted laws is_finite) (c ∷ cs) h) in
      elim (List-cases os) [
        | inl nothing ↦ absurd (
            sorted_by-cons laws is_finite c cs
              (score_curves-nil laws is_finite b curves (scored ∙ ap some nothing)))
        | inr (x, xs, some_outcome) ↦
            let (r, e, c) =
              conclude-IsConclusion m scope hours v reasons (x ∷ xs)
                (ruling_of (adjudicate (x ∷ xs) b v [])) in
            (
              r,
              rw (scored, some_outcome, service_agrees x xs b v []) e,
              IsConclusion-IsShippable x xs b v r c,
            )
      ]

  -- Given the laws of floats, a result of the service with the verdict `pass` has at least one fastener,
  -- all of them in spec and not anomalous, and every verifier passed; it accepts the unit at no cost and
  -- asks no human.
  pub pass-IsShippable :
      (b : SignatureBaseline N) (m : CostModel N) (scope : ℕ) (hours : N) (v : Bool)
      (curves : List (TorqueAngleCurve N)) (r : InspectionResult N)
      → inspect is_finite b m scope hours v curves ≡ some r
      → r.ruling.verdict ≡ pass
      → IsShippable v r
  unfolding inspect
  pass-IsShippable b m scope hours v curves r run =
      let (s, e, ships) =
        after_gate-IsShippable b m scope hours v (gate_curves is_finite curves).0
          (gate_curves is_finite curves).1 (gate_curves-All laws is_finite curves) in
      subst (λ (t : InspectionResult N). t.ruling.verdict ≡ pass → IsShippable v t)
        (some_inj (sym e ∙ run)) ships
