-- ===== src/Api/Scope.antt =====
-- Whom the routes of apps/api/main.py show which units.
use defect_sense.Prelude.{
  ℕ, suc, ◌≡◌, ◌⊎◌, String, true, false, Option, none, some, List, [], ◌∷◌, max, min, take, All,
  All-append, All-imp, Option-cases, some_inj, zero, if◌then◌else◌, Bool-cases, inl, inr,
}
use defect_sense.Enums.{Role}
use defect_sense.Float.{Float}
use defect_sense.Auth.{RbacMatrix, allows}
use defect_sense.Auth.Gates.{StationScope, permits, station_scope, require_any, scope_exact}
use defect_sense.Api.{InspectionView, Process, InspectionRepository, default_station_id}
use defect_sense.Api.Views.{
  VisiblePage, Reply, ok, other_station, resolve_view, gather, admitted, visible_views,
  list_inspections, get_inspection, reading, detail, fetch_limit,
}

module _ {N H : Type 0} ⦃F : Float N⦄ (round : ℕ → N → N)
    (repository : InspectionRepository N H) where
  -- What the role may see of a unit.
  abbrev pub Entitled : RbacMatrix → Role → InspectionView N → Type 0
  Entitled m role v =
      (allows m role "inspection:read" ≡ true)
      ⊎ ((allows m role "inspection:read_own_station" ≡ true) × (v.station_id ≡ default_station_id))

  admitted-All :
      (scope : StationScope) (o : Option (InspectionView N))
      → All (λ v. permits scope (some v.station_id) ≡ true) (admitted round repository scope o)
  admitted-All scope none = tt
  admitted-All scope (some v) = either (Bool-cases (permits scope (some v.station_id)))
    where
      either :
          (permits scope (some v.station_id) ≡ true) ⊎ (permits scope (some v.station_id) ≡ false)
          → All
              (λ w. permits scope (some w.station_id) ≡ true)
              (if permits scope (some v.station_id) then v ∷ [] else [])
      either (inl granted) = rw granted (granted, tt)
      either (inr hidden) = rw hidden tt

  gather-All :
      (scope : StationScope) (ks : List String) (p : Process N H)
      → All (λ v. permits scope (some v.station_id) ≡ true) (gather round repository scope ks p).0
  unfolding gather
  gather-All scope [] p = tt
  gather-All scope (k ∷ ks) p =
      All-append (λ v. permits scope (some v.station_id) ≡ true)
        (admitted round repository scope (resolve_view round repository k p).0)
        (gather round repository scope ks (resolve_view round repository k p).1).0
        (admitted-All scope (resolve_view round repository k p).0)
        (gather-All scope ks (resolve_view round repository k p).1)

  -- The units in an answer.
  abbrev pub listed : Reply (VisiblePage N) → List (InspectionView N)
  listed (ok page) = page.views
  listed _ = []

  abbrev pub detailed : Reply (InspectionView N) → List (InspectionView N)
  detailed (ok v) = v ∷ []
  detailed _ = []

  detailed-All :
      (scope : StationScope) (o : Option (InspectionView N))
      → All
          (λ v. permits scope (some v.station_id) ≡ true)
          (detailed (detail round repository scope o))
  detailed-All scope none = tt
  detailed-All scope (some v) = either (Bool-cases (permits scope (some v.station_id)))
    where
      either :
          (permits scope (some v.station_id) ≡ true) ⊎ (permits scope (some v.station_id) ≡ false)
          → All
              (λ w. permits scope (some w.station_id) ≡ true)
              (detailed (if permits scope (some v.station_id) then ok v else other_station))
      either (inl granted) = rw granted (granted, tt)
      either (inr hidden) = rw hidden tt

  All-take {ℓ} : {A : Type 0} (P : A → Type ℓ) (n : ℕ) (xs : List A) → All P xs → All P (take n xs)
  All-take P zero xs h = tt
  All-take P (suc n) [] h = tt
  All-take P (suc n) (x ∷ xs) (h, hs) = (h, All-take P n xs hs)

  visible_views-All :
      (limit : ℕ) (scope : StationScope) (p : Process N H)
      → All
          (λ v. permits scope (some v.station_id) ≡ true)
          (visible_views round repository limit scope p).0.views
  unfolding visible_views
  visible_views-All limit scope p = elim (Option-cases p.storage) [
    | inl closed ↦ rw (visible_views, closed) tt
    | inr (h, open_) ↦
        rw (visible_views, open_)
          (All-take (λ v. permits scope (some v.station_id) ≡ true) limit
            (gather round repository scope
              (repository.list (fetch_limit round repository limit scope) h).0 p).0
            (gather-All scope (repository.list (fetch_limit round repository limit scope) h).0 p))
  ]

  -- Neither the list nor the detail route shows a caller more than its role grants. Each unit that they
  -- answer with is one of the default station, where the role reads its own station, or else the role
  -- reads all inspections, whatever the caches and the store hold.
  pub shows_only-Entitled :
      (m : RbacMatrix) (role : Role) (limit : ℕ) (k : String) (p : Process N H)
      → All (Entitled m role) (listed (list_inspections round repository m role limit p).0)
        × All (Entitled m role) (detailed (get_inspection round repository m role k p).0)
  unfolding list_inspections get_inspection
  shows_only-Entitled m role limit k p = elim (Bool-cases (require_any m role reading)) [
    | inr lacks ↦ rw lacks (tt, tt)
    | inl may ↦ rw may (
      granted (visible_views round repository (max 1 (min limit 200)) scope p).0.views
          (visible_views-All (max 1 (min limit 200)) scope p),
      granted (detailed (detail round repository scope (resolve_view round repository k p).0))
          (detailed-All scope (resolve_view round repository k p).0),
    )
  ]
    where
      scope : StationScope
      scope = station_scope m role default_station_id

      granted :
          (vs : List (InspectionView N))
          → All (λ v. permits scope (some v.station_id) ≡ true) vs
          → All (Entitled m role) vs
      granted vs =
          All-imp vs
            (λ v h. either v ((scope_exact m role default_station_id (some v.station_id)).0 h))
        where
          either :
              (v : InspectionView N)
              → (allows m role "inspection:read" ≡ true)
                ⊎ ((allows m role "inspection:read_own_station" ≡ true)
                    × (some v.station_id ≡ some default_station_id))
              → Entitled m role v
          either v (inl all) = inl all
          either v (inr (own, same)) = inr (own, some_inj same)
