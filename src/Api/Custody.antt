-- ===== src/Api/Custody.antt =====
-- What a read answers directly after a write, in apps/api/main.py and apps/api/routers/defects.py.
use text.Mathlib.TextPositions.{eq_refl}
use defect_sense.Prelude.{ℕ, ◌≡◌, refl, ap, ◌∙◌, String, Bool, true, none, some, arith}
use defect_sense.Dict.{lookup, lookup-insert, lookup-remove}
use defect_sense.Enums.{Role}
use defect_sense.Float.{Float}
use defect_sense.Auth.{RbacMatrix}
use defect_sense.Auth.Gates.{User, station_scope, require_any}
use defect_sense.Api.{
  InspectionState, InspectionView, Process, InspectionRepository, Assignment, persist, cache_view,
  view_from_state, shown, default_station_id, view_cache_max, cached,
}
use defect_sense.Api.Caches.{lookup-cached_own}
use defect_sense.Api.Views.{
  ok, rendered, resolve_view, get_inspection, reading, detail, from_storage,
}
use defect_sense.Api.Writes.{
  publish, auto_assigned, is_pass, assign_defect, assign_unit, known_state, assigners,
}
use defect_sense.Api.Coherent.{resolve_view-some, resolve_view-none}

module _ {N H : Type 0} ⦃F : Float N⦄ (round : ℕ → N → N) (repository : InspectionRepository N H)
    (m : RbacMatrix) (role : Role) (may : require_any m role reading ≡ true) where
  get_inspection-resolve_view :
      (k : String) (p : Process N H)
      → (get_inspection round repository m role k p).0
        ≡ detail round repository
            (station_scope m role default_station_id)
            (resolve_view round repository k p).0
  unfolding get_inspection
  get_inspection-resolve_view k p = rw may refl

  own_view :
      (now : ℕ) (final : InspectionState N) (p : Process N H) (b : Bool)
      → let p2 = auto_assigned round repository now final b p in
        lookup final.correlation_id
          (cached view_cache_max final.correlation_id (rendered round repository p2 final) p2.views)
        ≡ some (rendered round repository p2 final)
  own_view now final p b =
      let p2 = auto_assigned round repository now final b p in
      lookup-cached_own view_cache_max final.correlation_id (rendered round repository p2 final)
        p2.views (omega arith)

  -- A caller who may read inspections gets the unit that was just created as the view that its creation
  -- answered with, if the station is one that the caller sees, and the refusal for another station if
  -- not; it is never missing, even where nothing is stored.
  pub publish_reads_back :
      (now : ℕ) (final : InspectionState N) (p : Process N H)
      → (get_inspection round repository m role final.correlation_id
          (publish round repository now final p).1.1).0
        ≡ detail round repository
            (station_scope m role default_station_id)
            (some (publish round repository now final p).0)
  unfolding publish cache_view view_from_state
  publish_reads_back now final p =
      let b = shown final.channels.fusion (λ f. is_pass f.verdict) true in
      let view = (publish round repository now final p).0 in
      let next = (publish round repository now final p).1.1 in
      get_inspection-resolve_view final.correlation_id next
      ∙ ap (λ o. detail round repository (station_scope m role default_station_id) o)
          (ap (λ x. x.0)
            (resolve_view-some round repository (λ h. Unit) final.correlation_id view next
              (own_view now final (persist repository final p) b)))

  -- After an assignment, by a caller who may assign and to a worker who is found, of a unit whose record
  -- the open store has under its identifier, a caller who may read inspections gets (for a station in
  -- scope) a view with the new custody, rendered anew: the narrative that the old view had is gone.
  pub assign_defect_reads_back :
      (now : ℕ) (user target : User) (k : String) (qc stored : InspectionState N) (h : H)
      (p : Process N H)
      → require_any m user.role assigners ≡ true
      → known_state round repository k p ≡ some qc
      → p.storage ≡ some h
      → repository.get qc.correlation_id h ≡ some stored
      → stored.correlation_id ≡ qc.correlation_id
      → let (reply, (effects, next)) =
          assign_defect round repository m now user (some target) k p in
        (a : Assignment) × (view : InspectionView N) × (reply ≡ ok a)
        × (a.assigned_to_username ≡ target.username)
        × ((get_inspection round repository m role qc.correlation_id next).0
            ≡ detail round repository (station_scope m role default_station_id) (some view))
        × (view.assigned ≡ some a)
        × (view.narrative ≡ none)
  unfolding assign_defect view_from_state
  assign_defect_reads_back now user target k qc stored h p assigns known open_ found named =
      let next = (assign_unit round repository now user target p (some qc)).1.1 in
      let a : Assignment = record {
        assigned_to_username = target.username;
        assigned_to_name = target.display_name;
        assigned_by_name = user.display_name;
        assigned_at = now;
      } in
      let popped : lookup qc.correlation_id next.views ≡ none =
        rw (lookup-remove qc.correlation_id qc.correlation_id p.views, eq_refl qc.correlation_id)
          refl in
      let custody : lookup stored.correlation_id next.assignments ≡ some a =
        rw
          (
            named,
            lookup-insert qc.correlation_id qc.correlation_id a p.assignments,
            eq_refl qc.correlation_id,
          )
          refl in
      let there : shown next.storage (repository.get qc.correlation_id) none ≡ some stored =
        ap (λ o. shown o (repository.get qc.correlation_id) none) open_ ∙ found in
      rw (assigns, known)
        (
          a,
          rendered round repository next stored,
          refl,
          refl,
          get_inspection-resolve_view qc.correlation_id next
              ∙ ap (λ o. detail round repository (station_scope m role default_station_id) o)
                  (ap (λ x. x.0)
                    (resolve_view-none round repository (λ h. Unit) qc.correlation_id next popped
                      ∙ ap (from_storage round repository next) there)),
          custody,
          refl,
        )
