-- ===== src/Api/Coherent.antt =====
-- What the caches of apps/api/main.py hold against what is stored, over the handlers that read, write
-- and use them.
use text.Mathlib.Text.{◌==◌ as str_eq}
use mathlib.Core.Path.{subst}
use mathlib.Core.List.{append-nil}
use defect_sense.Prelude.{
  ◌++◌, ℕ, ◌≤◌, ◌≡◌, refl, sym, ap, ◌∙◌, String, true, false, Option, none, some, List, [], ◌∷◌,
  ◌⊎◌, arith, length, if◌then◌else◌, Bool-cases, Option-cases, inl, inr, some_inj,
}
use defect_sense.Dict.{Dict, lookup, Unique, eq_iff}
use defect_sense.Float.{Float}
use defect_sense.Auth.Gates.{StationScope}
use defect_sense.Api.{
  InspectionState, InspectionView, SpanView, Process, InspectionRepository, move_to_end, cached,
  cache_view, view_from_state, shown, state_cache_max, view_cache_max,
}
use defect_sense.Api.Caches.{
  lookup-move_to_end, length-move_to_end, Unique-move_to_end, length-cached, Unique-cached,
  lookup-cached,
}
use defect_sense.Api.Views.{stored_state, rendered, resolve_view, gather, from_storage}

-- What the handlers rely on of a repository. A record that a save drops is allowed.
module _ {N H : Type 0} (repository : InspectionRepository N H) where
  pub record IsRepository (Sound : H → Type 0) : Type 0 where
    pub save-Sound : (qc : InspectionState N) (h : H) → Sound h → Sound (repository.save qc h)
    pub named :
        (k : String) (qc : InspectionState N) (h : H)
        → Sound h
        → repository.get k h ≡ some qc
        → qc.correlation_id ≡ k
    pub get-save :
        (k : String) (qc found : InspectionState N) (h : H)
        → Sound h
        → repository.get k (repository.save qc h) ≡ some found
        → (if str_eq qc.correlation_id k then some qc else repository.get k h) ≡ some found

module _ {N H : Type 0} ⦃F : Float N⦄ (round : ℕ → N → N) (repository : InspectionRepository N H)
    (Sound : H → Type 0) where
  -- A view without its spans, its narrative and the custody.
  abbrev pub core : InspectionView N → InspectionView N
  core v = record v { narrative = none; spans = []; assigned = none }

  -- A view of a rendering: its spans are those rendered, with others after them, and all else is as
  -- rendered but for the narrative and the custody.
  abbrev pub ViewOf : InspectionView N → InspectionView N → Type 0
  ViewOf v w = (core v ≡ core w) × ((added : List (SpanView N)) × (v.spans ≡ w.spans ++ added))

  pub ViewOf-refl : (v : InspectionView N) → ViewOf v v
  ViewOf-refl v = (refl, ([], sym (append-nil v.spans)))

  -- The caches are bounded, with one entry for a key, and each entry is that of its key. A view is one of
  -- the rendering of the record that is stored under its key.
  pub record IsCoherent (p : Process N H) : Type 0 where
    pub views_bounded : length p.views ≤ view_cache_max
    pub states_bounded : length p.states ≤ state_cache_max
    pub recent_bounded : length p.recent ≤ 200
    pub views_unique : Unique p.views
    pub states_unique : Unique p.states
    pub sound : (h : H) → p.storage ≡ some h → Sound h
    pub states_named :
        (k : String) (qc : InspectionState N) → lookup k p.states ≡ some qc → qc.correlation_id ≡ k
    pub views_named :
        (k : String) (v : InspectionView N) → lookup k p.views ≡ some v → v.correlation_id ≡ k
    pub views_true :
        (k : String) (v : InspectionView N) (qc : InspectionState N)
        → lookup k p.views ≡ some v
        → stored_state round repository k p ≡ some qc
        → ViewOf v (rendered round repository p qc)

  -- The same with other views, which are bounded, unique and true.
  pub with_views :
      (p : Process N H) (views : Dict (InspectionView N))
      → IsCoherent p
      → length views ≤ view_cache_max
      → Unique views
      → ((k : String) (v : InspectionView N) → lookup k views ≡ some v → v.correlation_id ≡ k)
      → ((k : String) (v : InspectionView N) (qc : InspectionState N)
          → lookup k views ≡ some v
          → stored_state round repository k p ≡ some qc
          → ViewOf v (rendered round repository p qc))
      → IsCoherent (record p { views = views })
  with_views p views c bounded unique named true_ones = record {
    views_bounded = bounded;
    states_bounded = c.states_bounded;
    recent_bounded = c.recent_bounded;
    views_unique = unique;
    states_unique = c.states_unique;
    sound = c.sound;
    states_named = c.states_named;
    views_named = named;
    views_true = true_ones;
  }

  used-IsCoherent :
      (k : String) (p : Process N H)
      → IsCoherent p
      → IsCoherent (record p { views = move_to_end k p.views })
  used-IsCoherent k p c =
      with_views p (move_to_end k p.views) c
        (omega (arith, length-move_to_end k p.views, c.views_bounded))
        (Unique-move_to_end k p.views c.views_unique)
        (λ j v e. c.views_named j v (sym (lookup-move_to_end j k p.views) ∙ e))
        (λ j v qc e s. c.views_true j v qc (sym (lookup-move_to_end j k p.views) ∙ e) s)

  -- A view that is true of what is stored may be cached.
  pub cache_view-IsCoherent :
      (view : InspectionView N) (p : Process N H)
      → IsCoherent p
      → ((qc : InspectionState N)
          → stored_state round repository view.correlation_id p ≡ some qc
          → ViewOf view (rendered round repository p qc))
      → IsCoherent (cache_view repository view p)
  unfolding cache_view
  cache_view-IsCoherent view p c h =
      with_views p (cached view_cache_max k view p.views) c
        (length-cached view_cache_max k view p.views)
        (Unique-cached view_cache_max k view p.views c.views_unique)
        (λ j v e.
          named j v (Bool-cases (str_eq k j))
            (lookup-cached view_cache_max k view p.views j v c.views_unique e))
        (λ j v qc e.
          true_of j v qc (Bool-cases (str_eq k j))
            (lookup-cached view_cache_max k view p.views j v c.views_unique e))
    where
      k : String
      k = view.correlation_id

      named :
          (j : String) (v : InspectionView N)
          → (str_eq k j ≡ true) ⊎ (str_eq k j ≡ false)
          → (if str_eq k j then some view else lookup j p.views) ≡ some v
          → v.correlation_id ≡ j
      named j v (inl same) e =
          ap (λ w. w.correlation_id) (sym (some_inj (rw same at e))) ∙ (eq_iff k j).0 same
      named j v (inr other) e = c.views_named j v (rw other at e)

      true_of :
          (j : String) (v : InspectionView N) (qc : InspectionState N)
          → (str_eq k j ≡ true) ⊎ (str_eq k j ≡ false)
          → (if str_eq k j then some view else lookup j p.views) ≡ some v
          → stored_state round repository j p ≡ some qc
          → ViewOf v (rendered round repository p qc)
      true_of j v qc (inl same) e s =
          subst (λ x. ViewOf x (rendered round repository p qc)) (some_inj (rw same at e))
            (h qc (rw ((eq_iff k j).0 same) s))
      true_of j v qc (inr other) e s = c.views_true j v qc (rw other at e) s

  stored_state-named :
      (k : String) (p : Process N H) (qc : InspectionState N)
      → IsRepository repository Sound
      → IsCoherent p
      → stored_state round repository k p ≡ some qc
      → qc.correlation_id ≡ k
  stored_state-named k p qc r c e = elim (Option-cases p.storage) [
    | inl closed ↦ absurd (no_entry (sym (ap (λ o. shown o (repository.get k) none) closed) ∙ e))
    | inr (h, open_) ↦
        r.named k qc h (c.sound h open_) (sym (ap (λ o. shown o (repository.get k) none) open_) ∙ e)
  ]
    where
      no_entry : none ≡ some qc → ⊥
      no_entry e = cc

  pub resolve_view-some :
      (k : String) (v : InspectionView N) (p : Process N H)
      → lookup k p.views ≡ some v
      → resolve_view round repository k p ≡ (some v, record p { views = move_to_end k p.views })
  unfolding resolve_view
  resolve_view-some k v p e = rw (resolve_view, e) refl

  pub resolve_view-none :
      (k : String) (p : Process N H)
      → lookup k p.views ≡ none
      → resolve_view round repository k p
        ≡ from_storage round repository p (stored_state round repository k p)
  unfolding resolve_view
  resolve_view-none k p e = rw (resolve_view, e) refl

  module _ (r : IsRepository repository Sound) where
    from_storage-IsCoherent :
        (k : String) (p : Process N H) (o : Option (InspectionState N))
        → IsCoherent p
        → stored_state round repository k p ≡ o
        → IsCoherent (from_storage round repository p o).1
    unfolding view_from_state
    from_storage-IsCoherent k p none c e = c
    from_storage-IsCoherent k p (some qc) c e =
        cache_view-IsCoherent (rendered round repository p qc) p c (λ found s.
          subst (λ x. ViewOf (rendered round repository p qc) (rendered round repository p x))
            (some_inj (
              sym e
              ∙ ap (λ j. stored_state round repository j p) (sym (stored_state-named k p qc r c e))
              ∙ s))
            (ViewOf-refl (rendered round repository p qc)))

    pub resolve_view-IsCoherent :
        (k : String) (p : Process N H)
        → IsCoherent p
        → IsCoherent (resolve_view round repository k p).1
    resolve_view-IsCoherent k p c = elim (Option-cases (lookup k p.views)) [
      | inl missing ↦
          rw (resolve_view-none k p missing)
            (from_storage-IsCoherent k p (stored_state round repository k p) c refl)
      | inr (v, found) ↦ rw (resolve_view-some k v p found) (used-IsCoherent k p c)
    ]

    pub gather-IsCoherent :
        (scope : StationScope) (ks : List String) (p : Process N H)
        → IsCoherent p
        → IsCoherent (gather round repository scope ks p).1
    unfolding gather
    gather-IsCoherent scope [] p c = c
    gather-IsCoherent scope (k ∷ ks) p c =
        gather-IsCoherent scope ks (resolve_view round repository k p).1
          (resolve_view-IsCoherent k p c)
