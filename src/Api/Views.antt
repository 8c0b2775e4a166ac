-- ===== src/Api/Views.antt =====
-- Reading inspections in apps/api/main.py. The repository is an argument, as is the user's role, which
-- the token names.
use defect_sense.Prelude.{
  ℕ, ◌-◌, ◌*◌, ◌/◌, min, max, String, Bool, true, false, Option, none, some, List, [], ◌∷◌, ◌++◌,
  map, not, ◌&&◌, take, length, ltb, get_elem?, if◌then◌else◌,
}
use defect_sense.Prelude.Sort.{keep, sorted_by}
use defect_sense.Dict.{lookup}
use defect_sense.Enums.{Role, Verdict, defect}
use defect_sense.Float.{Float, ◌⊕◌, ◌⊖◌, ◌⊘◌, nought, unit}
use defect_sense.Auth.{RbacMatrix}
use defect_sense.Auth.Gates.{StationScope, permits, require_any, station_scope}
use defect_sense.Api.{
  InspectionState, InspectionView, Process, InspectionRepository, move_to_end, cache_view,
  view_from_state, shown, default_station_id,
}

-- HTTPException 403 of the permission, 404, and 403 of the station.
pub data Reply (A : Type 0) : Type 0 where
  forbidden not_found other_station : Reply A
  ok : A → Reply A

abbrev pub reading : List String
reading = "inspection:read" ∷ "inspection:read_own_station" ∷ []

abbrev pub scan_cap : ℕ
scan_cap = 1000

abbrev pub metrics_window : ℕ
metrics_window = 500

module _ (N : Type 0) where
  pub record VisiblePage : Type 0 where
    pub views : List (InspectionView N)
    pub total : ℕ
    pub scanned : ℕ
    pub stored : ℕ
    pub truncated : Bool

  -- The figures of `metrics`, of a window that is not empty.
  pub record Figures : Type 0 where
    pub inspected : ℕ
    pub defects : ℕ
    pub fusion_only : ℕ
    pub escalated : ℕ
    pub first_pass_yield : N
    pub p50_ms : Option N
    pub p95_ms : Option N
    pub cost_at_risk : N

  -- The answer of `metrics`: without views it has no figures, and with them `total_visible` too.
  pub record Dashboard : Type 0 where
    pub total_stored : ℕ
    pub aggregate : Option (Figures × ℕ)

abbrev pub is_defect : Verdict → Bool
is_defect defect = true
is_defect _ = false

module _ {N H : Type 0} ⦃F : Float N⦄ (round : ℕ → N → N)
    (repository : InspectionRepository N H) where
  abbrev pub rendered : Process N H → InspectionState N → InspectionView N
  rendered p qc = view_from_state round p.baseline p.assignments qc

  abbrev pub stored_state : String → Process N H → Option (InspectionState N)
  stored_state k p = shown p.storage (repository.get k) none

  abbrev pub from_storage :
      Process N H → Option (InspectionState N) → Option (InspectionView N) × Process N H
  from_storage p none = (none, p)
  from_storage p (some qc) = (some (rendered p qc), cache_view repository (rendered p qc) p)

  -- `_resolve_view`
  unfoldable pub resolve_view : String → Process N H → Option (InspectionView N) × Process N H
  resolve_view k p = elim (lookup k p.views) [
    | some view ↦ (some view, record p { views = move_to_end k p.views })
    | none ↦ from_storage p (stored_state k p)
  ]

  abbrev pub admitted : StationScope → Option (InspectionView N) → List (InspectionView N)
  admitted scope none = []
  admitted scope (some view) = if permits scope (some view.station_id) then view ∷ [] else []

  -- The loop of `_visible_views`.
  unfoldable pub gather :
      StationScope → List String → Process N H → List (InspectionView N) × Process N H
  gather scope [] p = ([], p)
  gather scope (k ∷ ks) p =
      let (view, next) = resolve_view k p in
      let (views, last) = gather scope ks next in (admitted scope view ++ views, last)

  abbrev pub page_of : ℕ → StationScope → ℕ → ℕ → List (InspectionView N) → VisiblePage N
  page_of limit scope scanned stored views = record {
    views = take limit views;
    total = if scope.all_stations then stored else length views;
    scanned = scanned;
    stored = stored;
    truncated = not scope.all_stations && ltb scanned stored;
  }

  abbrev pub page_from :
      ℕ → StationScope → Process N H → List String × ℕ → VisiblePage N × Process N H
  page_from limit scope p (ids, stored) =
      let (views, next) = gather scope ids p in
      (page_of limit scope (length ids) stored views, next)

  abbrev pub fetch_limit : ℕ → StationScope → ℕ
  fetch_limit limit scope = if scope.all_stations then limit else scan_cap

  unfoldable pub visible_views : ℕ → StationScope → Process N H → VisiblePage N × Process N H
  unfolding gather
  visible_views limit scope p = elim p.storage [
    | none ↦ (record { views = []; total = 0; scanned = 0; stored = 0; truncated = false }, p)
    | some h ↦ page_from limit scope p (repository.list (fetch_limit limit scope) h)
  ]

  -- `list_inspections`; a limit below 0 is read like 0.
  unfoldable pub list_inspections :
      RbacMatrix → Role → ℕ → Process N H → Reply (VisiblePage N) × Process N H
  unfolding visible_views
  list_inspections m r limit p =
      if require_any m r reading
      then (let (page, next) =
            visible_views (max 1 (min limit 200)) (station_scope m r default_station_id) p in
          (ok page, next))
      else (forbidden, p)

  abbrev pub detail : StationScope → Option (InspectionView N) → Reply (InspectionView N)
  detail scope none = not_found
  detail scope (some view) = if permits scope (some view.station_id) then ok view else other_station

  unfoldable pub get_inspection :
      RbacMatrix → Role → String → Process N H → Reply (InspectionView N) × Process N H
  unfolding resolve_view
  get_inspection m r k p =
      if require_any m r reading
      then (let (view, next) = resolve_view k p in
          (detail (station_scope m r default_station_id) view, next))
      else (forbidden, p)

  -- `sum`, adding from the left
  abbrev pub total_cost : N → List (InspectionView N) → N
  total_cost acc [] = acc
  total_cost acc (v ∷ vs) = total_cost (acc ⊕ v.expected_cost) vs

  -- int(n * 0.95) is n * 95 / 100 for all n of the window.
  unfoldable pub figures : List (InspectionView N) → Figures N
  figures views =
      let defects = keep (λ v. is_defect v.verdict) views in
      let latencies = sorted_by F.lt (map (λ v. v.total_ms) views) in
      record {
        inspected = length views;
        defects = length defects;
        fusion_only = length (keep (λ v. v.fusion_only) views);
        escalated = length (keep (λ v. v.requires_human) views);
        first_pass_yield =
            round 4 (unit ⊖ F.decimal (length defects) 0 ⊘ F.decimal (length views) 0);
        p50_ms = shown (get_elem? latencies (length latencies / 2)) (λ x. some (round 2 x)) none;
        p95_ms =
            shown (get_elem? latencies (min (length latencies * 95 / 100) (length latencies - 1)))
              (λ x. some (round 2 x)) none;
        cost_at_risk = round 2 (total_cost nought defects);
      }

  abbrev pub aggregate_of : ℕ → List (InspectionView N) → Option (Figures N × ℕ)
  aggregate_of total [] = none
  aggregate_of total (v ∷ vs) = some (figures (v ∷ vs), total)

  abbrev pub dashboard : VisiblePage N → Dashboard N
  dashboard page = record {
    total_stored = page.stored;
    aggregate = aggregate_of page.total page.views;
  }

  unfoldable pub metrics : RbacMatrix → Role → Process N H → Reply (Dashboard N) × Process N H
  unfolding visible_views
  metrics m r p =
      if require_any m r reading
      then (let (page, next) =
            visible_views metrics_window (station_scope m r default_station_id) p in
          (ok (dashboard page), next))
      else (forbidden, p)
