-- ===== src/Api/Page.antt =====
-- The list and the aggregate of apps/api/main.py against the repository: the caches in front of it
-- change neither.
use defect_sense.Prelude.{
  ℕ, zero, suc, ◌≡◌, refl, sym, ap, ◌∙◌, String, Bool, true, false, Option, none, some, List, [],
  ◌∷◌, ◌++◌, ◌⊎◌, length, take, map, All, if◌then◌else◌, Bool-cases, Option-cases, inl, inr,
  length-map,
}
use defect_sense.Prelude.Sort.{keep}
use defect_sense.Dict.{lookup}
use defect_sense.Float.{Float}
use defect_sense.Torque.{SignatureBaseline}
use defect_sense.Auth.Gates.{StationScope, permits}
use defect_sense.Api.{
  InspectionState, InspectionView, Process, InspectionRepository, cache_view, view_from_state,
  shown,
}
use defect_sense.Api.Views.{
  VisiblePage, stored_state, rendered, resolve_view, gather, admitted, visible_views, page_of,
  fetch_limit, from_storage,
}
use defect_sense.Api.Coherent.{
  IsRepository, core, IsCoherent, resolve_view-IsCoherent, resolve_view-some, resolve_view-none,
}

module _ {N H : Type 0} ⦃F : Float N⦄ (round : ℕ → N → N) (repository : InspectionRepository N H)
    (Sound : H → Type 0) (r : IsRepository repository Sound) where
  -- The records that are found under the names listed, in their order.
  unfoldable pub found_states : List String → H → List (InspectionState N)
  found_states [] h = []
  found_states (k ∷ ks) h =
      let rest = found_states ks h in
      elim (repository.get k h) [ none ↦ rest | some qc ↦ qc ∷ rest ]

  abbrev pub plain_view : SignatureBaseline N → InspectionState N → InspectionView N
  plain_view b qc = core round repository Sound (view_from_state round b [] qc)

  abbrev pub visible_to : StationScope → InspectionView N → Bool
  visible_to scope v = permits scope (some v.station_id)

  -- What a caller is to see of a store.
  unfoldable pub store_page : ℕ → StationScope → SignatureBaseline N → H → VisiblePage N
  unfolding found_states view_from_state
  store_page limit scope b h =
      let (ids, stored) = repository.list (fetch_limit round repository limit scope) h in
      page_of round repository limit scope (length ids) stored
        (keep (visible_to scope) (map (plain_view b) (found_states ids h)))

  abbrev pub plain_page : VisiblePage N → VisiblePage N
  plain_page page = record page { views = map (core round repository Sound) page.views }

  abbrev pub Readable : H → List String → Type 0
  Readable h = All (λ k. (qc : InspectionState N) × (repository.get k h ≡ some qc))

  -- What a resolution leaves as it is.
  kept-resolve_view :
      (k : String) (p : Process N H)
      → ((resolve_view round repository k p).1.storage ≡ p.storage)
        × ((resolve_view round repository k p).1.baseline ≡ p.baseline)
  unfolding cache_view
  kept-resolve_view k p = elim (Option-cases (lookup k p.views)) [
    | inr (v, found) ↦ rw (resolve_view-some round repository Sound k v p found) (refl, refl)
    | inl missing ↦
        rw (resolve_view-none round repository Sound k p missing)
          (stored (stored_state round repository k p))
  ]
    where
      stored :
          (o : Option (InspectionState N))
          → ((from_storage round repository p o).1.storage ≡ p.storage)
            × ((from_storage round repository p o).1.baseline ≡ p.baseline)
      stored none = (refl, refl)
      stored (some qc) = (refl, refl)

  -- A record that is stored is resolved, to its rendering.
  true-resolve_view :
      (k : String) (qc : InspectionState N) (p : Process N H)
      → IsCoherent round repository Sound p
      → stored_state round repository k p ≡ some qc
      → (v : InspectionView N) × ((resolve_view round repository k p).0 ≡ some v)
        × (core round repository Sound v ≡ plain_view p.baseline qc)
  unfolding view_from_state
  true-resolve_view k qc p c s = elim (Option-cases (lookup k p.views)) [
    | inr (v, found) ↦ (
      v,
      ap (λ x. x.0) (resolve_view-some round repository Sound k v p found),
      (c.views_true k v qc found s).0,
    )
    | inl missing ↦ (
      rendered round repository p qc,
      ap (λ x. x.0)
          (resolve_view-none round repository Sound k p missing
            ∙ ap (from_storage round repository p) s),
      refl,
    )
  ]

  keep-admitted :
      (scope : StationScope) (v w : InspectionView N) (vs ws : List (InspectionView N))
      → core round repository Sound v ≡ w
      → map (core round repository Sound) vs ≡ keep (visible_to scope) ws
      → map (core round repository Sound) (admitted round repository scope (some v) ++ vs)
        ≡ keep (visible_to scope) (w ∷ ws)
  unfolding keep
  keep-admitted scope v w vs ws same rest = rw (sym same) (either (Bool-cases (visible_to scope v)))
    where
      either :
          (visible_to scope v ≡ true) ⊎ (visible_to scope v ≡ false)
          → map (core round repository Sound) ((if visible_to scope v then v ∷ [] else []) ++ vs)
            ≡ (if visible_to scope v
                then core round repository Sound v ∷ keep (visible_to scope) ws
                else keep (visible_to scope) ws)
      either (inl may) = rw (may, rest) refl
      either (inr hidden) = rw (hidden, rest) refl

  found_states-cons :
      (k : String) (ks : List String) (qc : InspectionState N) (h : H)
      → repository.get k h ≡ some qc
      → found_states (k ∷ ks) h ≡ qc ∷ found_states ks h
  unfolding found_states
  found_states-cons k ks qc h e = rw (found_states, e) refl

  gather-keep :
      (scope : StationScope) (b : SignatureBaseline N) (h : H) (ks : List String) (p : Process N H)
      → IsCoherent round repository Sound p
      → p.storage ≡ some h
      → p.baseline ≡ b
      → Readable h ks
      → map (core round repository Sound) (gather round repository scope ks p).0
        ≡ keep (visible_to scope) (map (plain_view b) (found_states ks h))
  unfolding gather keep found_states
  gather-keep scope b h [] p c open_ base readable = refl
  gather-keep scope b h (k ∷ ks) p c open_ base ((qc, e), readable) =
      let next = (resolve_view round repository k p).1 in
      let (same_storage, same_baseline) = kept-resolve_view k p in
      let (v, resolved, same) =
        true-resolve_view k qc p c (ap (λ o. shown o (repository.get k) none) open_ ∙ e) in
      let rest =
        gather-keep scope b h ks next (resolve_view-IsCoherent round repository Sound r k p c)
          (same_storage ∙ open_) (same_baseline ∙ base) readable in
      rw (found_states-cons k ks qc h e, resolved)
        (keep-admitted scope v (plain_view b qc) (gather round repository scope ks next).0
          (map (plain_view b) (found_states ks h)) (same ∙ ap (λ x. plain_view x qc) base) rest)

  take-map :
      (n : ℕ) (vs : List (InspectionView N))
      → map (core round repository Sound) (take n vs)
        ≡ take n (map (core round repository Sound) vs)
  take-map zero vs = refl
  take-map (suc n) [] = refl
  take-map (suc n) (v ∷ vs) = ap (λ ws. core round repository Sound v ∷ ws) (take-map n vs)

  page_of-map :
      (limit scanned stored : ℕ) (scope : StationScope) (vs ws : List (InspectionView N))
      → map (core round repository Sound) vs ≡ ws
      → plain_page (page_of round repository limit scope scanned stored vs)
        ≡ page_of round repository limit scope scanned stored ws
  page_of-map limit scanned stored scope vs ws e =
      rw (take-map limit vs, sym (length-map (core round repository Sound) vs), e) refl

  -- With storage open and the listed records readable, the page that a caller gets is the one that the
  -- store alone determines, whatever the caches hold: its views but for spans, narrative and custody, its total,
  -- and whether it was cut off.
  pub visible_views-store_page :
      (limit : ℕ) (scope : StationScope) (h : H) (p : Process N H)
      → IsCoherent round repository Sound p
      → p.storage ≡ some h
      → Readable h (repository.list (fetch_limit round repository limit scope) h).0
      → plain_page (visible_views round repository limit scope p).0
        ≡ store_page limit scope p.baseline h
  unfolding visible_views store_page
  visible_views-store_page limit scope h p c open_ readable =
      let (ids, stored) = repository.list (fetch_limit round repository limit scope) h in
      rw (visible_views, open_)
        (page_of-map limit (length ids) stored scope (gather round repository scope ids p).0
          (keep (visible_to scope) (map (plain_view p.baseline) (found_states ids h)))
          (gather-keep scope p.baseline h ids p c open_ refl readable))
