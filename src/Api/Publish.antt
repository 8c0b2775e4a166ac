-- ===== src/Api/Publish.antt =====
-- What `create_inspection` of apps/api/main.py leaves in the caches.
use text.Mathlib.Text.{◌==◌ as str_eq}
use mathlib.Core.Path.{subst}
use defect_sense.Prelude.{
  ℕ, ◌+◌, ◌≤◌, ◌≡◌, refl, sym, ap, ◌∙◌, String, Bool, true, false, Option, none, some, List, ◌∷◌,
  ◌⊎◌, arith, length, take, length-take, if◌then◌else◌, Bool-cases, inl, inr, some_inj,
}
use defect_sense.Dict.{Dict, lookup, eq_iff}
use defect_sense.Float.{Float}
use defect_sense.Api.{
  InspectionState, InspectionView, Process, InspectionRepository, Assignment, cached, persist,
  cache_view, view_from_state, shown, state_cache_max, view_cache_max,
}
use defect_sense.Api.Caches.{length-cached, Unique-cached, lookup-cached}
use defect_sense.Api.Views.{stored_state, rendered}
use defect_sense.Api.Writes.{publish, auto_assigned, is_pass}
use defect_sense.Api.Coherent.{IsRepository, ViewOf, ViewOf-refl, IsCoherent}

module _ {N H : Type 0} ⦃F : Float N⦄ (round : ℕ → N → N) (repository : InspectionRepository N H)
    (Sound : H → Type 0) (r : IsRepository repository Sound) where
  module _ (final : InspectionState N) (p : Process N H)
      (c : IsCoherent round repository Sound p) where
    sound_after :
        (o : Option H)
        → ((h : H) → o ≡ some h → Sound h)
        → (h : H) → shown o (λ g. some (repository.save final g)) none ≡ some h
        → Sound h
    sound_after none s h e = absurd (ground arith)
    sound_after (some g) s h e =
        let saved : repository.save final g ≡ h = some_inj e in
        rw (sym saved) (r.save-Sound final g (s g refl))

    stored_after :
        (o : Option H)
        → ((h : H) → o ≡ some h → Sound h)
        → (j : String) (qc : InspectionState N)
        → shown (shown o (λ g. some (repository.save final g)) none) (repository.get j) none
          ≡ some qc
        → (if str_eq final.correlation_id j then some final else shown o (repository.get j) none)
          ≡ some qc
    stored_after none s j qc e = absurd (ground arith)
    stored_after (some g) s j qc e = r.get-save j final qc g (s g refl) e

    -- A record is stored and its own view cached.
    shown-IsCoherent :
        (a : Dict Assignment) (n : ℕ) (recent : List String) (view : InspectionView N)
        → length recent ≤ 200
        → view.correlation_id ≡ final.correlation_id
        → ViewOf round repository Sound view (rendered round repository p final)
        → IsCoherent round repository Sound (record (persist repository final p) {
          assignments = a;
          assignment_counter = n;
          recent = recent;
          views = cached view_cache_max final.correlation_id view p.views;
        })
    unfolding persist view_from_state
    shown-IsCoherent a n recent view few own same = record {
      views_bounded = length-cached view_cache_max final.correlation_id view p.views;
      states_bounded = length-cached state_cache_max final.correlation_id final p.states;
      recent_bounded = few;
      views_unique = Unique-cached view_cache_max final.correlation_id view p.views c.views_unique;
      states_unique =
          Unique-cached state_cache_max final.correlation_id final p.states c.states_unique;
      sound = sound_after p.storage c.sound;
      states_named = λ j qc e. state_named j qc (Bool-cases (str_eq final.correlation_id j)) (
          lookup-cached state_cache_max final.correlation_id final p.states j qc c.states_unique e);
      views_named =
          λ j v e. view_named j v (Bool-cases (str_eq final.correlation_id j)) (found j v e);
      views_true = λ j v qc e s.
          view_true j v qc (Bool-cases (str_eq final.correlation_id j)) (found j v e)
            (stored_after p.storage c.sound j qc s);
    }
      where
        found :
            (j : String) (v : InspectionView N)
            → lookup j (cached view_cache_max final.correlation_id view p.views) ≡ some v
            → (if str_eq final.correlation_id j then some view else lookup j p.views) ≡ some v
        found j v e =
            lookup-cached view_cache_max final.correlation_id view p.views j v c.views_unique e

        state_named :
            (j : String) (qc : InspectionState N)
            → (str_eq final.correlation_id j ≡ true) ⊎ (str_eq final.correlation_id j ≡ false)
            → (if str_eq final.correlation_id j then some final else lookup j p.states) ≡ some qc
            → qc.correlation_id ≡ j
        state_named j qc (inl here) e =
            ap (λ x. x.correlation_id) (sym (some_inj (rw here at e)))
            ∙ (eq_iff final.correlation_id j).0 here
        state_named j qc (inr other) e = c.states_named j qc (rw other at e)

        view_named :
            (j : String) (v : InspectionView N)
            → (str_eq final.correlation_id j ≡ true) ⊎ (str_eq final.correlation_id j ≡ false)
            → (if str_eq final.correlation_id j then some view else lookup j p.views) ≡ some v
            → v.correlation_id ≡ j
        view_named j v (inl here) e =
            ap (λ x. x.correlation_id) (sym (some_inj (rw here at e)))
            ∙ own
            ∙ (eq_iff final.correlation_id j).0 here
        view_named j v (inr other) e = c.views_named j v (rw other at e)

        view_true :
            (j : String) (v : InspectionView N) (qc : InspectionState N)
            → (str_eq final.correlation_id j ≡ true) ⊎ (str_eq final.correlation_id j ≡ false)
            → (if str_eq final.correlation_id j then some view else lookup j p.views) ≡ some v
            → (if str_eq final.correlation_id j
                then some final
                else stored_state round repository j p)
              ≡ some qc
            → ViewOf round repository Sound v (rendered round repository p qc)
        view_true j v qc (inl here) e s =
            subst (λ x. ViewOf round repository Sound x (rendered round repository p qc))
              (some_inj (rw here at e))
              (subst (λ x. ViewOf round repository Sound view (rendered round repository p x))
                (some_inj (rw here at s)) same)
        view_true j v qc (inr other) e s = c.views_true j v qc (rw other at e) (rw other at s)

    published-IsCoherent :
        (now : ℕ) (b : Bool)
        → let p2 = auto_assigned round repository now final b (persist repository final p) in
          let view = rendered round repository p2 final in
          let p3 = cache_view repository view p2 in
          IsCoherent round repository Sound
            (record p3 { recent = take 200 (view.correlation_id ∷ p3.recent) })
    unfolding persist cache_view view_from_state
    published-IsCoherent now true =
        shown-IsCoherent p.assignments p.assignment_counter
          (take 200 (final.correlation_id ∷ p.recent)) (rendered round repository p final) few refl
          (ViewOf-refl round repository Sound (rendered round repository p final))
      where
        few : length (take 200 (final.correlation_id ∷ p.recent)) ≤ 200
        few = omega (arith, length-take 200 (final.correlation_id ∷ p.recent))
    published-IsCoherent now false =
        let p2 = auto_assigned round repository now final false (persist repository final p) in
        shown-IsCoherent p2.assignments (p.assignment_counter + 1)
          (take 200 (final.correlation_id ∷ p.recent)) (rendered round repository p2 final) few refl
          (ViewOf-refl round repository Sound (rendered round repository p2 final))
      where
        few : length (take 200 (final.correlation_id ∷ p.recent)) ≤ 200
        few = omega (arith, length-take 200 (final.correlation_id ∷ p.recent))

    pub publish-IsCoherent :
        (now : ℕ) → IsCoherent round repository Sound (publish round repository now final p).1.1
    unfolding publish
    publish-IsCoherent now =
        published-IsCoherent now (shown final.channels.fusion (λ f. is_pass f.verdict) true)
