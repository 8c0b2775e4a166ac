-- ===== src/Api/History.antt =====
-- The handlers of apps/api/main.py and of apps/api/routers/defects.py that read or change what is kept
-- of inspections, in any order.
use text.Mathlib.Text.{◌==◌ as str_eq}
use mathlib.Core.Path.{subst}
use mathlib.Core.List.{append_assoc}
use defect_sense.Prelude.{
  ◌++◌, ℕ, ◌≡◌, refl, sym, ap, ◌∙◌, String, Bool, true, false, Option, none, some, List, [], ◌∷◌,
  ◌⊎◌, arith, min, max, if◌then◌else◌, Bool-cases, Option-cases, inl, inr, some_inj,
}
use defect_sense.Dict.{Dict, lookup, insert, Unique-insert, lookup-insert, lookup-remove, eq_iff}
use defect_sense.Enums.{Role}
use defect_sense.Float.{Float}
use defect_sense.Auth.{RbacMatrix}
use defect_sense.Auth.Gates.{StationScope, User, require_any, station_scope}
use defect_sense.Api.{
  InspectionState, InspectionView, SpanView, Process, InspectionRepository, Assignment,
  default_station_id, view_from_state, shown,
}
use defect_sense.Api.Caches.{Unique-remove, length-insert_old, length-remove}
use defect_sense.Api.Views.{
  stored_state, rendered, list_inspections, get_inspection, metrics, visible_views, fetch_limit,
  reading, metrics_window, Reply, VisiblePage, Dashboard,
}
use defect_sense.Api.Writes.{
  publish, narrate_and_publish, told, assign_defect, assign_unit, assign_to, known_state, assigners,
  Effect,
}
use defect_sense.Api.Publish.{publish-IsCoherent}
use defect_sense.Api.Coherent.{
  IsRepository, ViewOf, IsCoherent, with_views, resolve_view-IsCoherent, gather-IsCoherent,
}

-- Every request that reaches the records, with what the graph, the model or the clock answers for it.
pub data Request (N : Type 0) : Type 0 where
  listing : Role → ℕ → Request N
  reading_one : Role → String → Request N
  measuring : Role → Request N
  creating : ℕ → InspectionState N → Request N
  narrating : InspectionState N → Option (String × SpanView N) → Request N
  assigning : ℕ → User → Option User → String → Request N

module _ {N H : Type 0} ⦃F : Float N⦄ (round : ℕ → N → N) (repository : InspectionRepository N H)
    (m : RbacMatrix) where
  unfoldable pub served : Request N → Process N H → Process N H
  unfolding list_inspections get_inspection metrics publish narrate_and_publish assign_defect
  served (listing role limit) p = (list_inspections round repository m role limit p).1
  served (reading_one role k) p = (get_inspection round repository m role k p).1
  served (measuring role) p = (metrics round repository m role p).1
  served (creating now final) p = (publish round repository now final p).1.1
  served (narrating qc answer) p = (narrate_and_publish round repository qc answer p).1
  served (assigning now user target k) p =
      (assign_defect round repository m now user target k p).1.1

  unfoldable pub served_all : List (Request N) → Process N H → Process N H
  unfolding served
  served_all [] p = p
  served_all (request ∷ requests) p = served_all requests (served request p)

module _ {N H : Type 0} ⦃F : Float N⦄ (round : ℕ → N → N) (repository : InspectionRepository N H)
    (Sound : H → Type 0) (r : IsRepository repository Sound) where
  narrated :
      (qc : InspectionState N) (text : String) (span : SpanView N) (p : Process N H)
      → IsCoherent round repository Sound p
      → (o : Option (InspectionView N)) → lookup qc.correlation_id p.views ≡ o
      → IsCoherent round repository Sound (record p {
        views =
            shown o
              (λ view. insert qc.correlation_id (told round repository text span view) p.views)
              p.views;
      })
  narrated qc text span p c none e = c
  narrated qc text span p c (some view) e =
      with_views round repository Sound p views c
        (rw (length-insert_old k new view p.views e) c.views_bounded)
        (Unique-insert k new p.views c.views_unique)
        (λ j v found.
          named j v (Bool-cases (str_eq k j)) (sym (lookup-insert k j new p.views) ∙ found))
        (λ j v s found.
          true_of j v s (Bool-cases (str_eq k j)) (sym (lookup-insert k j new p.views) ∙ found))
    where
      k : String
      k = qc.correlation_id

      new : InspectionView N
      new = told round repository text span view

      views : Dict (InspectionView N)
      views = insert k new p.views

      named :
          (j : String) (v : InspectionView N)
          → (str_eq k j ≡ true) ⊎ (str_eq k j ≡ false)
          → (if str_eq k j then some new else lookup j p.views) ≡ some v
          → v.correlation_id ≡ j
      named j v (inl same) found =
          ap (λ w. w.correlation_id) (sym (some_inj (rw same at found)))
          ∙ c.views_named k view e
          ∙ (eq_iff k j).0 same
      named j v (inr other) found = c.views_named j v (rw other at found)

      true_of :
          (j : String) (v : InspectionView N) (s : InspectionState N)
          → (str_eq k j ≡ true) ⊎ (str_eq k j ≡ false)
          → (if str_eq k j then some new else lookup j p.views) ≡ some v
          → stored_state round repository j p ≡ some s
          → ViewOf round repository Sound v (rendered round repository p s)
      true_of j v s (inl same) found stored =
          let (alike, (added, spans)) = c.views_true k view s e (rw ((eq_iff k j).0 same) stored) in
          subst (λ x. ViewOf round repository Sound x (rendered round repository p s))
            (some_inj (rw same at found))
            (
              alike,
              (
                added ++ (span ∷ []),
                ap (λ xs. xs ++ (span ∷ [])) spans
                    ∙ append_assoc (rendered round repository p s).spans added (span ∷ []),
              ),
            )
      true_of j v s (inr other) found stored = c.views_true j v s (rw other at found) stored

  narrate_and_publish-IsCoherent :
      (qc : InspectionState N) (answer : Option (String × SpanView N)) (p : Process N H)
      → IsCoherent round repository Sound p
      → IsCoherent round repository Sound (narrate_and_publish round repository qc answer p).1
  unfolding narrate_and_publish
  narrate_and_publish-IsCoherent qc none p c = c
  narrate_and_publish-IsCoherent qc (some (text, span)) p c =
      narrated qc text span p c (lookup qc.correlation_id p.views) refl

  assign_unit-IsCoherent :
      (now : ℕ) (user target : User) (p : Process N H) (o : Option (InspectionState N))
      → IsCoherent round repository Sound p
      → IsCoherent round repository Sound (assign_unit round repository now user target p o).1.1
  unfolding view_from_state
  assign_unit-IsCoherent now user target p none c = c
  assign_unit-IsCoherent now user target p (some qc) c = record {
    views_bounded = omega (arith, length-remove k p.views, c.views_bounded);
    states_bounded = c.states_bounded;
    recent_bounded = c.recent_bounded;
    views_unique = Unique-remove k p.views c.views_unique;
    states_unique = c.states_unique;
    sound = c.sound;
    states_named = c.states_named;
    views_named = λ j v found.
        c.views_named j v
          (still j v (Bool-cases (str_eq k j)) (sym (lookup-remove k j p.views) ∙ found));
    views_true = λ j v s found.
        c.views_true j v s
          (still j v (Bool-cases (str_eq k j)) (sym (lookup-remove k j p.views) ∙ found));
  }
    where
      k : String
      k = qc.correlation_id

      still :
          (j : String) (v : InspectionView N)
          → (str_eq k j ≡ true) ⊎ (str_eq k j ≡ false)
          → (if str_eq k j then none else lookup j p.views) ≡ some v
          → lookup j p.views ≡ some v
      still j v (inl same) found = absurd (ground arith)
      still j v (inr other) found = rw other at found

  visible_views-IsCoherent :
      (limit : ℕ) (scope : StationScope) (p : Process N H)
      → IsCoherent round repository Sound p
      → IsCoherent round repository Sound (visible_views round repository limit scope p).1
  unfolding visible_views
  visible_views-IsCoherent limit scope p c = elim (Option-cases p.storage) [
    | inl closed ↦ rw (visible_views, closed) c
    | inr (h, open_) ↦
        rw (visible_views, open_)
          (gather-IsCoherent round repository Sound r scope
            (repository.list (fetch_limit round repository limit scope) h).0 p c)
  ]

  guarded {ℓ} :
      {A : Type ℓ} (of : A → Process N H) (b : Bool) (x y : A)
      → IsCoherent round repository Sound (of x)
      → IsCoherent round repository Sound (of y)
      → IsCoherent round repository Sound (of (if b then x else y))
  guarded of true x y c d = c
  guarded of false x y c d = d

  module _ (m : RbacMatrix) where
    served-IsCoherent :
        (request : Request N) (p : Process N H)
        → IsCoherent round repository Sound p
        → IsCoherent round repository Sound (served round repository m request p)
    unfolding served list_inspections get_inspection metrics assign_defect
    served-IsCoherent (listing role limit) p c =
        guarded {A = Reply (VisiblePage N) × Process N H} (λ x. x.1) (require_any m role reading) _
          _
          (visible_views-IsCoherent (max 1 (min limit 200))
            (station_scope m role default_station_id) p c)
          c
    served-IsCoherent (reading_one role k) p c =
        guarded {A = Reply (InspectionView N) × Process N H} (λ x. x.1) (require_any m role reading)
          _ _ (resolve_view-IsCoherent round repository Sound r k p c) c
    served-IsCoherent (measuring role) p c =
        guarded {A = Reply (Dashboard N) × Process N H} (λ x. x.1) (require_any m role reading) _ _
          (visible_views-IsCoherent metrics_window (station_scope m role default_station_id) p c) c
    served-IsCoherent (creating now final) p c =
        publish-IsCoherent round repository Sound r final p c now
    served-IsCoherent (narrating qc answer) p c = narrate_and_publish-IsCoherent qc answer p c
    served-IsCoherent (assigning now user target k) p c =
        guarded {A = Reply Assignment × (List Effect × Process N H)} (λ x. x.1.1)
          (require_any m user.role assigners) _ _ (assigned_by target) c
      where
        assigned_by :
            (o : Option User)
            → IsCoherent round repository Sound (assign_to round repository now user o k p).1.1
        assigned_by none = c
        assigned_by (some t) =
            assign_unit-IsCoherent now user t p (known_state round repository k p) c

    -- From coherent caches, in front of a repository that meets its laws, whatever requests are served, in
    -- any order and by callers of any role: the caches stay within their bounds, with one entry for a
    -- unit, each under its own identifier, and a cached view stays the rendering of the record that is
    -- stored, with its spans in their order and others only after them, but for the narrative and the
    -- custody that it shows. The repository may drop records.
    pub served_all-IsCoherent :
        (requests : List (Request N)) (p : Process N H)
        → IsCoherent round repository Sound p
        → IsCoherent round repository Sound (served_all round repository m requests p)
    unfolding served_all
    served_all-IsCoherent [] p c = c
    served_all-IsCoherent (request ∷ requests) p c =
        served_all-IsCoherent requests (served round repository m request p)
          (served-IsCoherent request p c)
