-- ===== src/Graph/Order.antt =====
-- The order in which the updates of the three specialists arrive.
use mathlib.Core.List.{Perm, append_assoc, append-nil}
use mathlib.Core.List.Perm
use mathlib.Core.List.Permᴰ
use mathlib.Core.Path.{subst}
use defect_sense.Prelude.{
  ◌≡◌, refl, ap, ◌∙◌, Option, none, some, List, [], ◌∷◌, ◌++◌, ◌>>=◌, map, some_inj, arith,
}
use defect_sense.Prelude.Sort.{sorted_by}
use defect_sense.Enums.{
  vision_inspector, process_sentinel as process_agent, context as context_agent, stale_context,
}
use defect_sense.Float.{Float}
use defect_sense.Adjudication.{FastenerOutcome}
use defect_sense.Torque.{TorqueAngleCurve}
use defect_sense.Graph.{
  VisionVerdict, InspectionInputs, ProcessVerdict, SignalRecord, TraceSpan, QcState, Update,
  no_update, apply, or_else, or_keep,
}
use defect_sense.Graph.Nodes.{
  span, ingestion, vision, vision_verdict, process_verdict, process_sentinel, process_update,
  signal_of, remember, score_curves, by_position,
}
use defect_sense.Graph.Run.{
  Arrival, vision_process_context, vision_context_process, process_vision_context,
  process_context_vision, context_vision_process, context_process_vision, in_order, context,
  adjudicator, cost_triage, run_inspection, finish,
}

module _ {N : Type 0} where
  -- Two states that differ in the order of their trace at most.
  pub record Agree (s t : QcState N) : Type 0 where
    pub data_quality : s.data_quality ≡ t.data_quality
    pub data_quality_reasons : s.data_quality_reasons ≡ t.data_quality_reasons
    pub signals : s.signals ≡ t.signals
    pub vision : s.vision ≡ t.vision
    pub process : s.process ≡ t.process
    pub fusion : s.fusion ≡ t.fusion
    pub triage : s.triage ≡ t.triage
    pub degradations : s.degradations ≡ t.degradations
    pub adjudicator_retries : s.adjudicator_retries ≡ t.adjudicator_retries
    pub status : s.status ≡ t.status
    pub trace : Perm s.trace t.trace

  -- Both runs fail, or both end, in states that agree.
  abbrev pub AgreeRun : Option (QcState N) → Option (QcState N) → Type 0
  AgreeRun none none = Unit
  AgreeRun (some s) (some t) = Agree s t
  AgreeRun _ _ = ⊥

  Agree-apply : (s t : QcState N) (u : Update N) → Agree s t → Agree (apply s u) (apply t u)
  unfolding apply
  Agree-apply s t u h = record {
    data_quality = rw (h.data_quality, h.data_quality_reasons) refl;
    data_quality_reasons = rw (h.data_quality, h.data_quality_reasons) refl;
    signals = rw h.signals refl;
    vision = rw h.vision refl;
    process = rw h.process refl;
    fusion = rw h.fusion refl;
    triage = rw h.triage refl;
    degradations = rw h.degradations refl;
    adjudicator_retries = rw h.adjudicator_retries refl;
    status = rw h.status refl;
    trace = Perm.append_right u.trace h.trace;
  }

  -- What a specialist writes beside its part of the trace.
  data OnlyVision : Update N → Type 0 where
    sees :
        (v : Option (VisionVerdict N)) (t : List TraceSpan)
        → OnlyVision (record no_update { vision = v; trace = t })

  pub data OnlyProcess : Update N → Type 0 where
    scores :
        (p : Option (ProcessVerdict N)) (signals : Option (List (SignalRecord N)))
        (t : List TraceSpan)
        → OnlyProcess (record no_update { process = p; signals = signals; trace = t })

last_two : {A : Type 0} (s x y : List A) → Perm ((s ++ x) ++ y) ((s ++ y) ++ x)
last_two {A} s x y =
    rw (append_assoc s x y, append_assoc s y x) (Perm.append_left s ∣ Permᴰ.append_comm x y ∣₁)

-- The traces of the six orders.
abbrev traced :
    Arrival → List TraceSpan → List TraceSpan → List TraceSpan → List TraceSpan → List TraceSpan
traced vision_process_context t x y z = ((t ++ x) ++ y) ++ z
traced vision_context_process t x y z = ((t ++ x) ++ z) ++ y
traced process_vision_context t x y z = ((t ++ y) ++ x) ++ z
traced process_context_vision t x y z = ((t ++ y) ++ z) ++ x
traced context_vision_process t x y z = ((t ++ z) ++ x) ++ y
traced context_process_vision t x y z = ((t ++ z) ++ y) ++ x

traced-perm :
    (a : Arrival) (t x y z : List TraceSpan) → Perm (traced a t x y z) (((t ++ x) ++ y) ++ z)
traced-perm vision_process_context t x y z = Perm.refl _
traced-perm vision_context_process t x y z = last_two (t ++ x) z y
traced-perm process_vision_context t x y z = Perm.append_right z (last_two t y x)
traced-perm process_context_vision t x y z =
    Perm.trans (last_two (t ++ y) z x) (Perm.append_right z (last_two t y x))
traced-perm context_vision_process t x y z =
    Perm.trans (Perm.append_right y (last_two t z x)) (last_two (t ++ x) z y)
traced-perm context_process_vision t x y z =
    Perm.trans (last_two (t ++ z) y x)
      (Perm.trans (Perm.append_right y (last_two t z x)) (last_two (t ++ x) z y))

module _ {N : Type 0} ⦃F : Float N⦄ where
  -- The state after the three updates.
  converged :
      Arrival
      → QcState N
      → Option (VisionVerdict N)
      → List TraceSpan
      → Option (ProcessVerdict N)
      → Option (List (SignalRecord N))
      → List TraceSpan
      → QcState N
  converged a s v x p g y = record s {
    vision = or_keep v s.vision;
    process = or_keep p s.process;
    signals = or_else g s.signals;
    degradations = s.degradations ++ (stale_context ∷ []);
    trace = traced a s.trace x y (span context_agent ∷ []);
  }

  in_order-converged :
      (a : Arrival) (s : QcState N) (v : Option (VisionVerdict N)) (x : List TraceSpan)
      (p : Option (ProcessVerdict N)) (g : Option (List (SignalRecord N))) (y : List TraceSpan)
      → in_order a
          (record no_update { vision = v; trace = x })
          (record no_update { process = p; signals = g; trace = y })
          context
          s
        ≡ converged a s v x p g y
  unfolding apply converged
  in_order-converged vision_process_context s v x p g y = simp append-nil
  in_order-converged vision_context_process s v x p g y = simp append-nil
  in_order-converged process_vision_context s v x p g y = simp append-nil
  in_order-converged process_context_vision s v x p g y = simp append-nil
  in_order-converged context_vision_process s v x p g y = simp append-nil
  in_order-converged context_process_vision s v x p g y = simp append-nil

  converged-Agree :
      (a b : Arrival) (s : QcState N) (v : Option (VisionVerdict N)) (x : List TraceSpan)
      (p : Option (ProcessVerdict N)) (g : Option (List (SignalRecord N))) (y : List TraceSpan)
      → Agree (converged a s v x p g y) (converged b s v x p g y)
  unfolding converged
  converged-Agree a b s v x p g y = record {
    data_quality = refl;
    data_quality_reasons = refl;
    signals = refl;
    vision = refl;
    process = refl;
    fusion = refl;
    triage = refl;
    degradations = refl;
    adjudicator_retries = refl;
    status = refl;
    trace = Perm.trans (traced-perm a s.trace x y _) (Perm.symm (traced-perm b s.trace x y _));
  }

  settled :
      (a b : Arrival) (s : QcState N) (v p : Update N)
      → OnlyVision v
      → OnlyProcess p
      → Agree (in_order a v p context s) (in_order b v p context s)
  settled a b s v p (sees w x) (scores q g y) =
      rw (in_order-converged a s w x q g y, in_order-converged b s w x q g y)
        (converged-Agree a b s w x q g y)

  vision-OnlyVision : (i : InspectionInputs N) (u : Update N) → vision i ≡ some u → OnlyVision u
  unfolding vision
  vision-OnlyVision i u e = seen (vision_verdict i) e
    where
      seen :
          (o : Option (VisionVerdict N))
          → (o >>= λ v.
              some (record no_update { vision = some v; trace = span vision_inspector ∷ [] }))
            ≡ some u
          → OnlyVision u
      seen none e = absurd (ground arith)
      seen (some v) e = subst OnlyVision (some_inj e) (sees (some v) _)

  pub process_update-OnlyProcess :
      (round3 : N → N) (curves : List (TorqueAngleCurve N)) (os : List (FastenerOutcome N))
      (u : Update N)
      → process_update round3 curves os ≡ some u
      → OnlyProcess u
  process_update-OnlyProcess round3 curves [] u e =
      subst OnlyProcess (some_inj e) (scores none none _)
  process_update-OnlyProcess round3 curves (o ∷ os) u e = scored (process_verdict o os) e
    where
      scored :
          (p : Option (ProcessVerdict N))
          → (p >>= λ v. some (record no_update {
            process = some v;
            signals = some (map (signal_of round3) curves);
            trace = span process_agent ∷ [];
          }))
            ≡ some u
          → OnlyProcess u
      scored none e = absurd (ground arith)
      scored (some v) e = subst OnlyProcess (some_inj e) (scores (some v) _ _)

  process-OnlyProcess :
      (round3 : N → N) (i m : InspectionInputs N) (u : Update N)
      → process_sentinel round3 i ≡ some (u, m)
      → OnlyProcess u
  unfolding process_sentinel
  process-OnlyProcess round3 i m u e = by_outcomes (score_curves i.baseline curves) e
    where
      curves : List (TorqueAngleCurve N)
      curves = sorted_by by_position i.curves

      by_update :
          (os : List (FastenerOutcome N)) (o : Option (Update N))
          → process_update round3 curves os ≡ o
          → (o >>= λ w. remember round3 i os w) ≡ some (u, m)
          → OnlyProcess u
      by_update os none e k = absurd (ground arith)
      by_update os (some w) e k =
          process_update-OnlyProcess round3 curves os u (e ∙ ap some (ap (λ q. q.0) (some_inj k)))

      by_outcomes :
          (o : Option (List (FastenerOutcome N)))
          → (o >>= λ os. process_update round3 curves os >>= λ w. remember round3 i os w)
            ≡ some (u, m)
          → OnlyProcess u
      by_outcomes none e = absurd (ground arith)
      by_outcomes (some os) e = by_update os (process_update round3 curves os) refl e

  finish-AgreeRun :
      (m : InspectionInputs N) (s t : QcState N) → Agree s t → AgreeRun (finish m s) (finish m t)
  unfolding finish
  finish-AgreeRun m s t h = judged (adjudicator m)
    where
      priced :
          (u : Update N) (o : Option (Update N))
          → AgreeRun (o >>= λ p. some (apply (apply s u) p)) (o >>= λ p. some (apply (apply t u) p))
      priced u none = tt
      priced u (some p) = Agree-apply _ _ p (Agree-apply s t u h)

      judged :
          (o : Option (Update N × InspectionInputs N))
          → AgreeRun
              (o >>= λ (u, j). cost_triage j >>= λ p. some (apply (apply s u) p))
              (o >>= λ (u, j). cost_triage j >>= λ p. some (apply (apply t u) p))
      judged none = tt
      judged (some (u, j)) = priced u (cost_triage j)

  -- The order in which the updates of the three specialists arrive changes nothing but the order of
  -- their spans in the trace: both runs fail, or both end in states that agree.
  pub order_independent :
      (round3 : N → N) (a b : Arrival) (s : QcState N) (inputs : InspectionInputs N)
      → AgreeRun (run_inspection round3 a s inputs) (run_inspection round3 b s inputs)
  unfolding run_inspection
  order_independent round3 a b s inputs =
      by_specialists (vision valid) (process_sentinel round3 valid) (vision-OnlyVision valid)
        (λ u m. process-OnlyProcess round3 valid m u)
    where
      valid : InspectionInputs N
      valid = (ingestion inputs).1

      gated : QcState N
      gated = apply s (ingestion inputs).0

      after :
          Arrival → Option (Update N) → Option (Update N × InspectionInputs N) → Option (QcState N)
      after c v p = v >>= λ seen.
          p >>= λ (scored, measured). finish measured (in_order c seen scored context gated)

      by_specialists :
          (v : Option (Update N)) (p : Option (Update N × InspectionInputs N))
          → ((u : Update N) → v ≡ some u → OnlyVision u)
          → ((u : Update N) (m : InspectionInputs N) → p ≡ some (u, m) → OnlyProcess u)
          → AgreeRun (after a v p) (after b v p)
      by_specialists none p hv hp = tt
      by_specialists (some u) none hv hp = tt
      by_specialists (some u) (some (w, m)) hv hp =
          finish-AgreeRun m _ _ (settled a b gated u w (hv u refl) (hp w m refl))
