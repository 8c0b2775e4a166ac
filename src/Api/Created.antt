-- ===== src/Api/Created.antt =====
-- Which requests `create_inspection` of apps/api/main.py answers, and what it shows.
mod Examples
use defect_sense.Prelude.{
  ◌+◌, ℕ, ◌≡◌, ◌≢◌, ◌↔◌, ◌⊎◌, refl, sym, ap, ◌∙◌, Bool, true, false, Option, none, some, List, [],
  arith, All, not, ◌>>=◌, Bool-cases, Option-cases, inl, inr, if◌then◌else◌, String, All-imp, ◌==◌,
  some_inj,
}
use defect_sense.Prelude.Sort.{keep, sorted_by, All-keep}
use defect_sense.Enums.{Role, pass}
use defect_sense.Float.{Float, IsOrdered}
use defect_sense.Torque.{TorqueAngleCurve}
use defect_sense.Auth.{RbacMatrix, require}
use defect_sense.Provenance.{construct, require_honesty}
use defect_sense.Graph.{QcState, InspectionInputs, fresh}
use defect_sense.Graph.Run.{run_inspection}
use defect_sense.Graph.Nodes.{score_curves, by_position, long_enough}
use defect_sense.Adjudication.{FastenerOutcome}
use defect_sense.Adjudication.Verdicts.{IsNominal}
use defect_sense.Graph.Total.{IsAdmitted, run_total}
use defect_sense.Api.{InspectionState, InspectionView, Process, InspectionRepository}
use defect_sense.Api.Writes.{publish}
use defect_sense.Api.Creation.{
  Scenario, clean, thread_contamination, cross_threading, over_torque, under_torque,
  missing_fastener, inputs_with, CurveClass, InspectRequest, has_image, is_missing, Created, denied,
  internal_error, created, Circumstances, custom_vision, inputs_of, create_inspection, published,
  counted, label_of, labels_at, without, state_of, verifiers_of,
}
use defect_sense.Api.Passed.{shows_pass-IsNominal}

label_cases :
    {N : Type 0} ⦃F : Float N⦄ (s : Scenario)
    → ((s ≡ under_torque) × (label_of {N = N} s ≡ none))
      ⊎ ((s ≢ under_torque) × ((label : CurveClass × N) × (label_of s ≡ some label)))
label_cases under_torque = inl (refl, refl)
label_cases clean = inr (λ e. cc, (_, refl))
label_cases thread_contamination = inr (λ e. cc, (_, refl))
label_cases cross_threading = inr (λ e. cc, (_, refl))
label_cases over_torque = inr (λ e. cc, (_, refl))
label_cases missing_fastener = inr (λ e. cc, (_, refl))

module _ {N H : Type 0} ⦃F : Float N⦄ (round : ℕ → N → N) (repository : InspectionRepository N H)
    (generate_wheel : Option (ℕ × CurveClass × N) → List (TorqueAngleCurve N))
    (unit_id : ℕ → String) (request : InspectRequest) (p : Process N H) where
  -- The attribution of the verdict on an uploaded image names no tier.
  upload_fails :
      has_image request.image_data_uri ≡ true
      → inputs_of round repository generate_wheel unit_id request p ≡ none
  unfolding inputs_of custom_vision construct require_honesty
  upload_fails given = elim (Option-cases (label_of {N = N} request.scenario)) [
    | inl missing ↦ rw missing refl
    | inr (label, found) ↦ rw (found, given) refl
  ]

  scenario_fails :
      label_of {N = N} request.scenario ≡ none
      → inputs_of round repository generate_wheel unit_id request p ≡ none
  unfolding inputs_of
  scenario_fails missing = rw missing refl

  inputs_given :
      (label : CurveClass × N)
      → label_of request.scenario ≡ some label
      → has_image request.image_data_uri ≡ false
      → inputs_of round repository generate_wheel unit_id request p
        ≡ some (inputs_with round repository generate_wheel unit_id request p label none)
  unfolding inputs_of custom_vision
  inputs_given label found bare = rw (found, bare) refl

module _ {N H : Type 0} ⦃F : Float N⦄ (laws : IsOrdered N) (is_finite : N → Bool)
    (round : ℕ → N → N) (repository : InspectionRepository N H)
    (generate_wheel : Option (ℕ × CurveClass × N) → List (TorqueAngleCurve N))
    (unit_id : ℕ → String) where
  curves_given :
      (missing : Bool) (position : ℕ) (curves : List (TorqueAngleCurve N))
      → All (IsAdmitted laws is_finite) curves
      → All (IsAdmitted laws is_finite) (if missing then without position curves else curves)
  curves_given false position curves h = h
  curves_given true position curves h =
      All-imp (without position curves) (λ c k. k.0)
        (All-keep (IsAdmitted laws is_finite) (λ c. not (c.fastener_position == position)) curves h)

  -- A user who may create inspections gets one exactly where the scenario is not under_torque, for which
  -- there is no generator, and no image is uploaded, whose verdict cannot be attributed; every other
  -- request ends in an internal error. The curves are ones that their constructor admits.
  pub creates_exactly_when :
      (m : RbacMatrix) (role : Role) (world : Circumstances N) (request : InspectRequest)
      (p : Process N H)
      → ((labels : Option (ℕ × CurveClass × N))
          → All (IsAdmitted laws is_finite) (generate_wheel labels))
      → require m role "inspection:create" ≡ true
      → let outcome =
          (create_inspection round repository generate_wheel unit_id m role world request p).0 in
        (((view : InspectionView N) × (outcome ≡ created view))
          ↔ ((request.scenario ≢ under_torque) × (has_image request.image_data_uri ≡ false)))
        × ((outcome ≡ internal_error)
            ↔ ((request.scenario ≡ under_torque) ⊎ (has_image request.image_data_uri ≡ true)))
  unfolding create_inspection
  creates_exactly_when m role world request p drawn may =
      elim (Bool-cases (has_image request.image_data_uri)) [
        | inl given ↦
            rw (may, upload_fails round repository generate_wheel unit_id request p given)
              (
                (λ e. absurd (ground arith), λ h. absurd (ground (arith, h.1))),
                (λ e. inr given, λ h. refl),
              )
        | inr bare ↦ elim (label_cases {N = N} request.scenario) [
          | inl (same, missing) ↦
              rw (may, scenario_fails round repository generate_wheel unit_id request p missing)
                ((λ e. absurd (ground arith), λ h. absurd (h.0 same)), (λ e. inl same, λ h. refl))
          | inr (other, (label, found)) ↦
              let i = inputs_with round repository generate_wheel unit_id request p label none in
              let (t, ends) = run_total laws is_finite (round 3) world.arrival fresh i (
                curves_given (is_missing request.scenario) request.position
                  (generate_wheel (labels_at request.position label))
                  (drawn (labels_at request.position label))) in
              rw
                (
                  may,
                  inputs_given round repository generate_wheel unit_id request p label found bare,
                  ends,
                )
                (
                  (λ e. (other, bare), λ h. (_, refl)),
                  (λ e. absurd (ground arith), λ h. absurd (ground (arith, other))),
                )
        ]
      ]

module _ {N H : Type 0} ⦃F : Float N⦄ (round : ℕ → N → N) (repository : InspectionRepository N H)
    (generate_wheel : Option (ℕ × CurveClass × N) → List (TorqueAngleCurve N))
    (unit_id : ℕ → String) where
  -- What an answered request has run.
  created_by :
      (m : RbacMatrix) (role : Role) (world : Circumstances N) (request : InspectRequest)
      (p : Process N H) (view : InspectionView N)
      → (create_inspection round repository generate_wheel unit_id m role world request p).0
        ≡ created view
      → (label : CurveClass × N) × (t : QcState N) × (label_of request.scenario ≡ some label)
        × (run_inspection
              (round 3)
              world.arrival
              fresh
              (inputs_with round repository generate_wheel unit_id request p label none)
            ≡ some t)
        × ((publish round repository world.assigned_at
              (state_of round repository generate_wheel unit_id world (p.unit_counter + 1) t)
              (counted round repository generate_wheel unit_id p)).0
            ≡ view)
  unfolding create_inspection
  created_by m role world request p view e =
      elim (Bool-cases (require m role "inspection:create")) [
        | inr lacks ↦ absurd (not_denied (rw lacks at e))
        | inl may ↦ elim (Bool-cases (has_image request.image_data_uri)) [
          | inl given ↦ absurd (
              not_failed (
                rw (may, upload_fails round repository generate_wheel unit_id request p given) at
                  e))
          | inr bare ↦ elim (label_cases {N = N} request.scenario) [
            | inl (same, missing) ↦ absurd (
                not_failed (
                  rw (may, scenario_fails round repository generate_wheel unit_id request p missing)
                    at e))
            | inr (other, (label, found)) ↦
                let i = inputs_with round repository generate_wheel unit_id request p label none in
                let (t, ends, shows) =
                  published_view (run_inspection (round 3) world.arrival fresh i) (
                    rw
                      (
                        may,
                        inputs_given round repository generate_wheel unit_id request p label found
                            bare,
                      )
                      at e) in
                (label, t, found, ends, shows)
          ]
        ]
      ]
    where
      not_denied : denied ≡ created view → ⊥
      not_denied e = cc

      not_failed : internal_error ≡ created view → ⊥
      not_failed e = cc

      created_inj : {v w : InspectionView N} → created v ≡ created w → v ≡ w
      created_inj e = cc

      published_view :
          (o : Option (QcState N))
          → (published round repository generate_wheel unit_id world o
              (counted round repository generate_wheel unit_id p)).0
            ≡ created view
          → (t : QcState N) × (o ≡ some t)
            × ((publish round repository world.assigned_at
                  (state_of round repository generate_wheel unit_id world (p.unit_counter + 1) t)
                  (counted round repository generate_wheel unit_id p)).0
                ≡ view)
      published_view none h = absurd (not_failed h)
      published_view (some t) h = (t, refl, created_inj h)

  -- A unit that a client is shown as passed when it is created is one of a scenario with all fasteners, and
  -- at least one of the curves drawn for it was scored, and each of those was in spec and not anomalous.
  pub creates_pass-IsNominal :
      (m : RbacMatrix) (role : Role) (world : Circumstances N) (request : InspectRequest)
      (p : Process N H) (view : InspectionView N)
      → (create_inspection round repository generate_wheel unit_id m role world request p).0
        ≡ created view
      → view.verdict ≡ pass
      → (request.scenario ≢ missing_fastener)
        × ((label : CurveClass × N) × (os : List (FastenerOutcome N)) × (label_of request.scenario
              ≡ some label)
            × (score_curves p.baseline (
                  sorted_by by_position
                    (keep long_enough (generate_wheel (labels_at request.position label))))
                ≡ some os)
            × (os ≢ [])
            × All IsNominal os)
  creates_pass-IsNominal m role world request p view e passes =
      let (label, t, found, ends, shows) = created_by m role world request p view e in
      let (verified, (os, scored, some_signal, nominal), accepts, free, unasked) =
        shows_pass-IsNominal round repository (round 3) world.arrival fresh t
          (inputs_with round repository generate_wheel unit_id request p label none)
          world.assigned_at
          (state_of round repository generate_wheel unit_id world (p.unit_counter + 1) t)
          (counted round repository generate_wheel unit_id p) ends refl
          (ap (λ (v : InspectionView N). v.verdict) shows ∙ passes) in
      let complete : is_missing request.scenario ≡ false = ground (arith, verified) in
      (
        λ same. true_not_false (rw same at complete),
        (label, os, found, rw complete at scored, some_signal, nominal),
      )
    where
      true_not_false : true ≡ false → ⊥
      true_not_false h = cc
