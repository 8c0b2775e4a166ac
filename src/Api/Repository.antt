-- ===== src/Api/Repository.antt =====
-- The repository of src/forge/infrastructure/persistence/memory.py behind the routes of
-- apps/api/main.py. The form in which it keeps a record is an argument, with the record itself in it.
use text.Mathlib.Text.{◌==◌ as str_eq}
use defect_sense.Prelude.{
  ◌≡◌, refl, sym, ap, ◌∙◌, String, Bool, true, false, Option, none, some, map, arith, if◌then◌else◌,
  Bool-cases, inl, inr, some_inj,
}
use defect_sense.Dict.{eq_iff}
use defect_sense.Store.{Inspection, InspectionSummary}
use defect_sense.Store.Memory
use defect_sense.Store.Memory.{InMemoryInspectionRepository}
use defect_sense.Store.Bounded.{IsSound, member, save-IsSound, get-save}
use defect_sense.Api.{InspectionState, InspectionRepository, shown}
use defect_sense.Api.Coherent.{IsRepository}

module _ {N : Type 0} (kept_form : InspectionState N → Inspection (InspectionState N)) where
  unfoldable pub in_memory :
      InspectionRepository N (InMemoryInspectionRepository (InspectionState N))
  in_memory = record {
    save = λ qc r. Memory.save (kept_form qc) r;
    get = λ k r. shown (Memory.get k r) (λ s. some s.rest) none;
    list = λ limit r.
        let (summaries, total) = Memory.list_page none none none limit 0 r in
        (map (λ (s : InspectionSummary). s.correlation_id) summaries, total);
  }

  -- Sound, with each record under its own identifier.
  pub record IsNamed (r : InMemoryInspectionRepository (InspectionState N)) : Type 0 where
    pub sound : IsSound r
    pub own :
        (k : String) (s : Inspection (InspectionState N))
        → Memory.get k r ≡ some s
        → s.rest.correlation_id ≡ k

  module _ (same_id : (qc : InspectionState N) → (kept_form qc).correlation_id ≡ qc.correlation_id)
      (same_rest : (qc : InspectionState N) → (kept_form qc).rest ≡ qc) where
    -- What is found after a save.
    found_after :
        (k : String) (qc : InspectionState N) (r : InMemoryInspectionRepository (InspectionState N))
        (s : Inspection (InspectionState N))
        → IsNamed r
        → Memory.get k (Memory.save (kept_form qc) r) ≡ some s
        → (if str_eq qc.correlation_id k then some (kept_form qc) else Memory.get k r) ≡ some s
    found_after k qc r s n e =
        ap (λ id. if str_eq id k then some (kept_form qc) else Memory.get k r) (sym (same_id qc))
        ∙ inside (member k (Memory.save (kept_form qc) r).order)
            (sym (get-save (kept_form qc) r n.sound k) ∙ e)
      where
        inside :
            {o : Option (Inspection (InspectionState N))} (b : Bool)
            → (if b then o else none) ≡ some s
            → o ≡ some s
        inside true h = h
        inside false h = absurd (ground arith)

    own-save :
        (k : String) (qc : InspectionState N) (r : InMemoryInspectionRepository (InspectionState N))
        (s : Inspection (InspectionState N))
        → IsNamed r
        → Memory.get k (Memory.save (kept_form qc) r) ≡ some s
        → s.rest.correlation_id ≡ k
    own-save k qc r s n e = elim (Bool-cases (str_eq qc.correlation_id k)) [
      | inl here ↦
          ap (λ (t : Inspection (InspectionState N)). t.rest.correlation_id)
            (sym (some_inj (rw here at (found_after k qc r s n e))))
          ∙ ap (λ t. t.correlation_id) (same_rest qc)
          ∙ (eq_iff qc.correlation_id k).0 here
      | inr other ↦ n.own k s (rw other at (found_after k qc r s n e))
    ]

    -- The bounded repository is one that the routes can rely on.
    pub in_memory-IsRepository : IsRepository in_memory IsNamed
    unfolding in_memory
    in_memory-IsRepository = record {
      save-Sound = λ qc r n. record {
        sound = (save-IsSound (kept_form qc) r n.sound).0;
        own = λ k s e. own-save k qc r s n e;
      };
      named = λ k qc r n e. named_by k qc r n (Memory.get k r) refl e;
      get-save = λ k qc found r n e.
          saved_as k qc found r n (Memory.get k (Memory.save (kept_form qc) r)) refl e;
    }
      where
        named_by :
            (k : String) (qc : InspectionState N)
            (r : InMemoryInspectionRepository (InspectionState N))
            → IsNamed r
            → (o : Option (Inspection (InspectionState N))) → Memory.get k r ≡ o
            → shown o (λ s. some s.rest) none ≡ some qc
            → qc.correlation_id ≡ k
        named_by k qc r n none e h = absurd (ground arith)
        named_by k qc r n (some s) e h =
            ap (λ (t : InspectionState N). t.correlation_id) (sym (some_inj h)) ∙ n.own k s e

        saved_as :
            (k : String) (qc found : InspectionState N)
            (r : InMemoryInspectionRepository (InspectionState N))
            → IsNamed r
            → (o : Option (Inspection (InspectionState N)))
            → Memory.get k (Memory.save (kept_form qc) r) ≡ o
            → shown o (λ s. some s.rest) none ≡ some found
            → (if str_eq qc.correlation_id k
                then some qc
                else shown (Memory.get k r) (λ s. some s.rest) none)
              ≡ some found
        saved_as k qc found r n none e h = absurd (ground arith)
        saved_as k qc found r n (some s) e h = elim (Bool-cases (str_eq qc.correlation_id k)) [
          | inl here ↦ rw here (
              ap some (
                sym (same_rest qc)
                ∙ ap (λ (t : Inspection (InspectionState N)). t.rest)
                    (some_inj (rw here at (found_after k qc r s n e)))
                ∙ some_inj h))
          | inr other ↦ rw other (
              ap (λ o. shown o (λ (t : Inspection (InspectionState N)). some t.rest) none)
                (rw other at (found_after k qc r s n e))
              ∙ h)
        ]
