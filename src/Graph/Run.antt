-- ===== src/Graph/Run.antt =====
-- The adjudicator and the cost triage of src/forge/agents/graph.py, and a run of the whole graph.
use defect_sense.Prelude.{
  ℕ, Bool, true, false, Option, none, some, List, [], ◌∷◌, ◌>>=◌, map, if◌then◌else◌,
}
use defect_sense.Enums.{
  critical, Severity, Verdict, escalate, accept, context as context_agent,
  adjudicator as adjudicator_agent, cost_triage as triage_agent, stale_context,
}
use defect_sense.Float.{Float, nought}
use defect_sense.Adjudication.{Adjudication, adjudicate, needs_human, is_pass}
use defect_sense.Cost.{
  CostModel, ActionCost, TriageContext, TriageDecision, HumanReason, default_triage,
}
use defect_sense.Graph.{
  InspectionInputs, FusionVerdict, HumanText, triage_reasons, quotes, silent, TriageResult,
  no_adjudication, adjudicating, awaiting_human, complete, QcState, Update, no_update, apply,
}
use defect_sense.Graph.Nodes.{
  span, failed_span, verifier_detail, ingestion, vision, checked_score, process_sentinel,
}

abbrev pub is_escalate : Verdict → Bool
is_escalate escalate = true
is_escalate _ = false

abbrev pub is_critical : Severity → Bool
is_critical critical = true
is_critical _ = false

-- The three specialists run at once; the framework applies their updates in an order of its own.
pub data Arrival : Type 0 where
  vision_process_context vision_context_process process_vision_context : Arrival
  process_context_vision context_vision_process context_process_vision : Arrival

module _ {N : Type 0} ⦃F : Float N⦄ where
  abbrev pub context : Update N
  context = record no_update { trace = span context_agent ∷ []; degradations = stale_context ∷ [] }

  abbrev pub fusion_of : Adjudication N → Option (FusionVerdict N)
  fusion_of a = do
    confidence ← checked_score a.confidence
    some (record {
      verdict = a.verdict;
      confidence = confidence;
      severity = a.severity;
      reasoning = a.reasoning;
      primary_signal = a.primary_signal;
      fusion_only = a.fusion_only;
      escalation_reason = if is_escalate a.verdict then some a.reasoning else none;
    })

  abbrev pub retries_of : Adjudication N → ℕ
  retries_of a = if a.signals_conflict then 1 else 0

  abbrev pub fusion_update : Adjudication N → FusionVerdict N → Update N
  fusion_update a fusion = record no_update {
    fusion = some fusion;
    status = some adjudicating;
    retries = some (if a.signals_conflict then some 1 else none);
    trace = record (span adjudicator_agent) { retry_count = retries_of a } ∷ [];
  }

  unfoldable pub adjudicator : InspectionInputs N → Option (Update N × InspectionInputs N)
  adjudicator inputs = do
    let result =
        adjudicate inputs.outcomes inputs.baseline inputs.verifiers_passed
          (verifier_detail inputs.verifier_results)
    fusion ← fusion_of result
    some (fusion_update result fusion, record inputs { adjudication = some result })

  abbrev pub shipped : CostModel N → TriageResult N
  shipped m = record {
    recommended = accept;
    expected_cost = nought;
    cost_low = nought;
    cost_high = nought;
    currency = m.currency;
    alternatives = [];
    requires_human = false;
    human_reason = silent;
  }

  abbrev pub triage_context : InspectionInputs N → Adjudication N → TriageContext N
  triage_context inputs a = record {
    defect_probability = a.confidence;
    probability_uncertainty = F.decimal 6 2;
    severity = a.severity;
    containment_scope = inputs.containment_scope;
    expected_halt_hours = inputs.expected_halt_hours;
    is_safety_critical = is_critical a.severity;
  }

  -- `decision.human_reason or why`
  abbrev pub human_text : List (HumanReason N) → Option N → HumanText N
  human_text (r ∷ rs) why = triage_reasons (r ∷ rs)
  human_text [] (some confidence) = quotes confidence
  human_text [] none = silent

  -- `best` is `decision.ranked[0]`: the cheapest row of all, whatever is recommended.
  abbrev pub result_record :
      CostModel N
      → Adjudication N
      → TriageDecision N
      → ActionCost N
      → List (ActionCost N)
      → TriageResult N
  result_record m a decision best others =
      let (human, why) = needs_human a decision.requires_human in
      record {
        recommended = decision.recommended;
        expected_cost = best.expected_cost;
        cost_low = best.cost_low;
        cost_high = best.cost_high;
        currency = m.currency;
        alternatives = map (λ r. (r.action, r.expected_cost)) others;
        requires_human = human;
        human_reason = human_text decision.human_reason why;
      }

  abbrev pub result_of :
      CostModel N
      → Adjudication N
      → TriageDecision N
      → List (ActionCost N)
      → Option (TriageResult N)
  result_of m a decision [] = none
  result_of m a decision (best ∷ others) = some (result_record m a decision best others)

  unfoldable pub priced : InspectionInputs N → Adjudication N → Option (TriageResult N)
  priced inputs a = if is_pass a.verdict then some (shipped inputs.cost_model) else do
    decision ← default_triage inputs.cost_model (triage_context inputs a)
    result_of inputs.cost_model a decision decision.ranked

  abbrev pub triage_update : TriageResult N → Update N
  triage_update result = record no_update {
    triage = some result;
    status = some (if result.requires_human then awaiting_human else complete);
    trace = span triage_agent ∷ [];
  }

  unfoldable pub cost_triage : InspectionInputs N → Option (Update N)
  cost_triage inputs = elim inputs.adjudication [
    | none ↦ some (record no_update { trace = failed_span triage_agent no_adjudication ∷ [] })
    | some a ↦ (do result ← priced inputs a; some (triage_update result))
  ]

  abbrev pub in_order : Arrival → Update N → Update N → Update N → QcState N → QcState N
  in_order vision_process_context v p c s = apply (apply (apply s v) p) c
  in_order vision_context_process v p c s = apply (apply (apply s v) c) p
  in_order process_vision_context v p c s = apply (apply (apply s p) v) c
  in_order process_context_vision v p c s = apply (apply (apply s p) c) v
  in_order context_vision_process v p c s = apply (apply (apply s c) v) p
  in_order context_process_vision v p c s = apply (apply (apply s c) p) v

  -- The two nodes after the specialists.
  unfoldable pub finish : InspectionInputs N → QcState N → Option (QcState N)
  finish inputs s = do
    (fused, judged) ← adjudicator inputs
    priced ← cost_triage judged
    some (apply (apply s fused) priced)

  unfoldable pub run_inspection :
      (N → N) → Arrival → QcState N → InspectionInputs N → Option (QcState N)
  unfolding finish
  run_inspection round3 arrival s inputs = do
    let (ingested, valid) = ingestion inputs
    seen ← vision valid
    (scored, measured) ← process_sentinel round3 valid
    finish measured (in_order arrival seen scored context (apply s ingested))
