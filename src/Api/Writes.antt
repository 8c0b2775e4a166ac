-- ===== src/Api/Writes.antt =====
-- Writing inspections in apps/api/main.py, and the custody of a unit in apps/api/routers/defects.py.
-- A message that is broadcast is named by its type, its unit and the unit's station. A store that
-- refuses a document changes nothing here.
use defect_sense.Prelude.{
  ℕ, ◌+◌, ◌%◌, String, Bool, true, false, Option, none, some, List, [], ◌∷◌, ◌++◌, take, ◌==◌,
  if◌then◌else◌,
}
use defect_sense.Dict.{lookup, insert, remove}
use defect_sense.Enums.{Verdict, pass}
use defect_sense.Float.{Float}
use defect_sense.Auth.{RbacMatrix}
use defect_sense.Auth.Gates.{User, require_any}
use defect_sense.Api.{
  InspectionState, InspectionView, SpanView, Process, InspectionRepository, Assignment, persist,
  cache_view, shown,
}
use defect_sense.Api.Views.{Reply, ok, forbidden, not_found, rendered, stored_state}

pub data Event : Type 0 where
  inspection narrative assignment : Event

-- What a handler does besides: a message with its unit and the station that it is narrowed to, a
-- document of the collection "assignments", a mail and a Slack post about a unit.
pub data Effect : Type 0 where
  broadcast : Event → String → String → Effect
  put_document email slack : String → Effect

abbrev pub assigners : List String
assigners = "inspection:create" ∷ "inspection:acknowledge" ∷ "inspection:read_own_station" ∷ []

-- SHOP_FLOOR_WORKERS[n % len(SHOP_FLOOR_WORKERS)]
abbrev pub worker_at : ℕ → String × String
worker_at n = if n % 2 == 0 then ("ravi", "Ravi Verma") else ("aarav", "Aarav Singh")

abbrev pub is_pass : Verdict → Bool
is_pass pass = true
is_pass _ = false

module _ {N H : Type 0} ⦃F : Float N⦄ (round : ℕ → N → N)
    (repository : InspectionRepository N H) where
  abbrev pub assigned : InspectionState N → Assignment → Process N H → Process N H
  assigned qc a p = record p { assignments = insert qc.correlation_id a p.assignments }

  abbrev pub auto_assigned : ℕ → InspectionState N → Bool → Process N H → Process N H
  auto_assigned now qc true p = p
  auto_assigned now qc false p =
      record (assigned qc
        (record {
          assigned_to_username = (worker_at p.assignment_counter).0;
          assigned_to_name = (worker_at p.assignment_counter).1;
          assigned_by_name = "System (Auto-assignment)";
          assigned_at = now;
        })
        p) { assignment_counter = p.assignment_counter + 1 }

  -- The part of `create_inspection` that follows the run of the verdict graph.
  unfoldable pub publish :
      ℕ → InspectionState N → Process N H → InspectionView N × (List Effect × Process N H)
  unfolding persist cache_view
  publish now final p =
      let p1 = persist repository final p in
      let p2 =
        auto_assigned now final (shown final.channels.fusion (λ f. is_pass f.verdict) true) p1 in
      let view = rendered round repository p2 final in
      let p3 = cache_view repository view p2 in
      (
        view,
        (
          broadcast inspection view.correlation_id view.station_id ∷ [],
          record p3 { recent = take 200 (view.correlation_id ∷ p3.recent) },
        ),
      )

  abbrev pub told : String → SpanView N → InspectionView N → InspectionView N
  told text span view = record view { narrative = some text; spans = view.spans ++ (span ∷ []) }

  -- `_narrate_and_publish`, with the answer of `narrate`: `none` where it raises.
  unfoldable pub narrate_and_publish :
      InspectionState N → Option (String × SpanView N) → Process N H → List Effect × Process N H
  narrate_and_publish qc none p = ([], p)
  narrate_and_publish qc (some (text, span)) p = (
    broadcast narrative qc.correlation_id qc.station_id ∷ [],
    record p {
      views =
          shown (lookup qc.correlation_id p.views)
            (λ view. insert qc.correlation_id (told text span view) p.views) p.views;
    },
  )

  -- state.states.get(k), or else the repository
  abbrev pub known_state : String → Process N H → Option (InspectionState N)
  known_state k p = elim (lookup k p.states) [
    | some qc ↦ some qc
    | none ↦ stored_state round repository k p
  ]

  abbrev pub assign_unit :
      ℕ
      → User
      → User
      → Process N H
      → Option (InspectionState N)
      → Reply Assignment × (List Effect × Process N H)
  assign_unit now user target p none = (not_found, ([], p))
  assign_unit now user target p (some qc) =
      let a : Assignment = record {
        assigned_to_username = target.username;
        assigned_to_name = target.display_name;
        assigned_by_name = user.display_name;
        assigned_at = now;
      } in
      (
        ok a,
        (
          shown p.storage (λ h. put_document qc.correlation_id ∷ []) []
              ++ (email qc.unit_id
                  ∷ slack qc.unit_id
                  ∷ broadcast assignment qc.correlation_id qc.station_id
                  ∷ []),
          record (assigned qc a p) { views = remove qc.correlation_id p.views },
        ),
      )

  abbrev pub assign_to :
      ℕ → User → Option User → String → Process N H → Reply Assignment × (List Effect × Process N H)
  assign_to now user none k p = (not_found, ([], p))
  assign_to now user (some target) k p = assign_unit now user target p (known_state k p)

  -- `assign_defect`, with what `user_store().get` answers for the name of the worker.
  unfoldable pub assign_defect :
      RbacMatrix
      → ℕ
      → User
      → Option User
      → String
      → Process N H
      → Reply Assignment × (List Effect × Process N H)
  assign_defect m now user target k p =
      if require_any m user.role assigners
      then assign_to now user target k p
      else (forbidden, ([], p))
