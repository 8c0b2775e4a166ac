-- ===== src/Api/Reads.antt =====
-- What the routes of apps/api/main.py that read inspections answer.
use defect_sense.Prelude.{
  ℕ, Option, ◌≡◌, refl, sym, ap, ◌∙◌, Bool, true, some, List, [], ◌∷◌, max, min, length, map,
  Bool-cases, inl, inr, length-map,
}
use defect_sense.Prelude.Sort.{keep}
use defect_sense.Enums.{Role}
use defect_sense.Float.{Float, ◌⊕◌, nought}
use defect_sense.Auth.{RbacMatrix}
use defect_sense.Auth.Gates.{StationScope, station_scope, require_any}
use defect_sense.Api.{InspectionView, Process, InspectionRepository, default_station_id}
use defect_sense.Api.Views.{
  VisiblePage, ok, visible_views, list_inspections, metrics, metrics_window, reading, figures,
  Figures, dashboard, aggregate_of, total_cost, is_defect, fetch_limit,
}
use defect_sense.Api.Coherent.{IsRepository, core, IsCoherent}
use defect_sense.Api.Page.{store_page, plain_page, Readable, visible_views-store_page}

module _ {ℓ κ} {A : Type ℓ} {B : Type κ} (f : A → B) (p : A → Bool) (q : B → Bool)
    (same : (x : A) → q (f x) ≡ p x) where
  keep-map : (xs : List A) → keep q (map f xs) ≡ map f (keep p xs)
  unfolding keep
  keep-map [] = refl
  keep-map (x ∷ xs) = elim (Bool-cases (p x)) [
    | inl holds ↦ rw (same x, holds, keep-map xs) refl
    | inr fails ↦ rw (same x, fails, keep-map xs) refl
  ]

  length-keep-map : (xs : List A) → length (keep q (map f xs)) ≡ length (keep p xs)
  length-keep-map xs = ap length (keep-map xs) ∙ length-map f (keep p xs)

module _ {N H : Type 0} ⦃F : Float N⦄ (round : ℕ → N → N) (repository : InspectionRepository N H)
    (Sound : H → Type 0) where
  abbrev plain : InspectionView N → InspectionView N
  plain = core round repository Sound

  latencies-plain :
      (vs : List (InspectionView N))
      → map (λ v. v.total_ms) (map plain vs) ≡ map (λ (v : InspectionView N). v.total_ms) vs
  latencies-plain [] = refl
  latencies-plain (v ∷ vs) = ap (λ xs. v.total_ms ∷ xs) (latencies-plain vs)

  total_cost-plain :
      (acc : N) (vs : List (InspectionView N))
      → total_cost round repository acc (map plain vs) ≡ total_cost round repository acc vs
  total_cost-plain acc [] = refl
  total_cost-plain acc (v ∷ vs) = total_cost-plain (acc ⊕ v.expected_cost) vs

  -- The aggregate reads nothing that the caches add.
  figures-plain :
      (vs : List (InspectionView N))
      → figures round repository (map plain vs) ≡ figures round repository vs
  unfolding figures
  figures-plain vs =
      rw
        (
          keep-map plain (λ v. is_defect v.verdict) (λ v. is_defect v.verdict) (λ v. refl) vs,
          length-map plain (keep (λ v. is_defect v.verdict) vs),
          length-keep-map plain (λ v. v.fusion_only) (λ v. v.fusion_only) (λ v. refl) vs,
          length-keep-map plain (λ v. v.requires_human) (λ v. v.requires_human) (λ v. refl) vs,
          length-map plain vs,
          latencies-plain vs,
          total_cost-plain nought (keep (λ v. is_defect v.verdict) vs),
        )
        refl

  aggregate_of-plain :
      (total : ℕ) (vs : List (InspectionView N))
      → aggregate_of round repository total (map plain vs) ≡ aggregate_of round repository total vs
  aggregate_of-plain total [] = refl
  aggregate_of-plain total (v ∷ vs) =
      ap (λ (f : Figures N). some (f, total)) (figures-plain (v ∷ vs))

  dashboard-plain :
      (r : IsRepository repository Sound) (page : VisiblePage N)
      → dashboard round repository (plain_page round repository Sound r page)
        ≡ dashboard round repository page
  dashboard-plain r page =
      ap {A = Option (Figures N × ℕ)} (λ a. record { total_stored = page.stored; aggregate = a })
        (aggregate_of-plain page.total page.views)

  module _ (m : RbacMatrix) (role : Role) (h : H) (p : Process N H) (limit : ℕ)
      (r : IsRepository repository Sound) (c : IsCoherent round repository Sound p)
      (open_ : p.storage ≡ some h) (may : require_any m role reading ≡ true) where
    abbrev scope_of_caller : StationScope
    scope_of_caller = station_scope m role default_station_id

    -- The list and the dashboard cannot disagree about what exists. For a caller who may read inspections, in
    -- a process whose caches are coherent, with storage open and the listed records readable, each answers
    -- what the store alone determines: the list (but for spans, narrative and custody), with its total and its
    -- mark that it is cut off, for its clamped limit, and the dashboard for its window, both narrowed to
    -- the caller's station.
    pub reads_agree :
        Readable round repository Sound r h
          (repository.list
            (fetch_limit round repository (max 1 (min limit 200)) scope_of_caller)
            h).0
        → Readable round repository Sound r h
            (repository.list (fetch_limit round repository metrics_window scope_of_caller) h).0
        → ((page : VisiblePage N) × ((list_inspections round repository m role limit p).0 ≡ ok page)
            × (plain_page round repository Sound r page
                ≡ store_page round repository Sound r
                    (max 1 (min limit 200))
                    scope_of_caller
                    p.baseline
                    h))
          × ((metrics round repository m role p).0
              ≡ ok (
                  dashboard round repository (
                    store_page round repository Sound r metrics_window scope_of_caller p.baseline
                      h)))
    unfolding list_inspections metrics
    reads_agree listed measured =
        let page = (visible_views round repository (max 1 (min limit 200)) scope_of_caller p).0 in
        let window = (visible_views round repository metrics_window scope_of_caller p).0 in
        rw may (
          (
            page,
            refl,
            visible_views-store_page round repository Sound r (max 1 (min limit 200))
                scope_of_caller h p c open_ listed,
          ),
          ap ok (
              sym (dashboard-plain r window)
              ∙ ap (dashboard round repository) (
                  visible_views-store_page round repository Sound r metrics_window scope_of_caller h
                    p c open_ measured)),
        )
