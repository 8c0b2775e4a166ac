-- ===== src/Api/Caches.antt =====
-- The bounded caches of apps/api/main.py: what an OrderedDict holds after a write or a use.
use text.Mathlib.Text.{◌==◌ as str_eq}
use text.Mathlib.TextPositions.{eq_refl}
use defect_sense.Prelude.{
  ℕ, ◌≤◌, ◌<◌, ◌≡◌, refl, sym, ◌∙◌, String, Bool, true, false, Option, none, some, [], ◌∷◌, ◌++◌,
  ◌⊎◌, arith, length, ltb, if◌then◌else◌, Bool-cases, Option-cases, inl, inr, length-append,
}
use defect_sense.Dict.{
  Dict, lookup, insert, remove, Unique, Unique-insert, lookup-insert, lookup-remove, eq_iff,
}
use defect_sense.Api.{move_to_end, trimmed, cached}

module _ {ℓ} {V : Type ℓ} where
  lookup-append :
      (j k : String) (v : V) (d : Dict V)
      → lookup k d ≡ none
      → lookup j (d ++ ((k, v) ∷ [])) ≡ (if str_eq k j then some v else lookup j d)
  unfolding lookup
  lookup-append j k v [] h = refl
  lookup-append j k v ((i, w) ∷ d) h =
      ground (arith, eq_iff i k, eq_iff i j, eq_iff k j, lookup-append j k v d)

  moved-none : (k : String) (d : Dict V) → lookup k d ≡ none → move_to_end k d ≡ d
  unfolding move_to_end
  moved-none k d e = rw (move_to_end, e) refl

  moved-some :
      (k : String) (v : V) (d : Dict V)
      → lookup k d ≡ some v
      → move_to_end k d ≡ remove k d ++ ((k, v) ∷ [])
  unfolding move_to_end
  moved-some k v d e = rw (move_to_end, e) refl

  -- A use of an entry changes no answer.
  pub lookup-move_to_end : (j k : String) (d : Dict V) → lookup j (move_to_end k d) ≡ lookup j d
  lookup-move_to_end j k d = elim (Option-cases (lookup k d)) [
    | inl missing ↦ rw (moved-none k d missing) refl
    | inr (v, found) ↦ rw (moved-some k v d found) (
        lookup-append j k v (remove k d) (rw (lookup-remove k k d, eq_refl k) refl)
        ∙ rw (lookup-remove k j d) (moved (Bool-cases (str_eq k j)) v found))
  ]
    where
      moved :
          (str_eq k j ≡ true) ⊎ (str_eq k j ≡ false)
          → (v : V) → lookup k d ≡ some v
          → (if str_eq k j then some v else if str_eq k j then none else lookup j d) ≡ lookup j d
      moved (inl same) v found = rw (same, sym ((eq_iff k j).0 same)) (sym found)
      moved (inr other) v found = rw other refl

  pub length-remove : (k : String) (d : Dict V) → length (remove k d) ≤ length d
  unfolding remove
  length-remove k [] = omega arith
  length-remove k ((j, v) ∷ d) = ground (arith, length-remove k d)

  pub length-insert_old :
      (k : String) (v w : V) (d : Dict V) → lookup k d ≡ some w → length (insert k v d) ≡ length d
  unfolding lookup insert
  length-insert_old k v w [] h = absurd (ground arith)
  length-insert_old k v w ((j, u) ∷ d) h = ground (arith, length-insert_old k v w d)

  length-remove_found :
      (k : String) (v : V) (d : Dict V) → lookup k d ≡ some v → length (remove k d) < length d
  unfolding lookup remove
  length-remove_found k v [] h = absurd (ground arith)
  length-remove_found k v ((j, w) ∷ d) h = elim (Bool-cases (str_eq j k)) [
    | inl same ↦ rw same (omega (arith, length-remove k d))
    | inr other ↦ rw other (omega (arith, length-remove_found k v d (rw other at h)))
  ]

  pub length-move_to_end : (k : String) (d : Dict V) → length (move_to_end k d) ≤ length d
  length-move_to_end k d = elim (Option-cases (lookup k d)) [
    | inl missing ↦ rw (moved-none k d missing) (omega arith)
    | inr (v, found) ↦ rw (moved-some k v d found) (
        rw (length-append (remove k d) ((k, v) ∷ []))
          (omega (arith, length-remove_found k v d found)))
  ]

  pub Unique-remove : (k : String) (d : Dict V) → Unique d → Unique (remove k d)
  unfolding lookup remove
  Unique-remove k [] h = tt
  Unique-remove k ((j, v) ∷ d) (h, hs) = elim (Bool-cases (str_eq j k)) [
    | inl same ↦ rw same (Unique-remove k d hs)
    | inr other ↦ rw other (rw (lookup-remove k j d, h) (either (str_eq k j)), Unique-remove k d hs)
  ]
    where
      either : (b : Bool) → ◌≡◌ {A = Option V} (if b then none else none) none
      either true = refl
      either false = refl

  Unique-append :
      (k : String) (v : V) (d : Dict V) → Unique d → lookup k d ≡ none → Unique (d ++ ((k, v) ∷ []))
  unfolding lookup
  Unique-append k v [] h e = (refl, tt)
  Unique-append k v ((j, w) ∷ d) (h, hs) e = elim (Bool-cases (str_eq j k)) [
    | inl same ↦ absurd (ground arith)
    | inr other ↦ (
      ground (arith, lookup-append j k v d, eq_iff j k, eq_iff k j),
      Unique-append k v d hs (ground arith),
    )
  ]

  pub Unique-move_to_end : (k : String) (d : Dict V) → Unique d → Unique (move_to_end k d)
  Unique-move_to_end k d h = elim (Option-cases (lookup k d)) [
    | inl missing ↦ rw (moved-none k d missing) h
    | inr (v, found) ↦ rw (moved-some k v d found) (
        Unique-append k v (remove k d) (Unique-remove k d h)
          (rw (lookup-remove k k d, eq_refl k) refl))
  ]

  length-trimmed : (limit : ℕ) (d : Dict V) → length (trimmed limit d) ≤ limit
  unfolding trimmed
  length-trimmed limit [] = omega arith
  length-trimmed limit (e ∷ d) = ground (arith, length-trimmed limit d)

  Unique-trimmed : (limit : ℕ) (d : Dict V) → Unique d → Unique (trimmed limit d)
  unfolding trimmed
  Unique-trimmed limit [] h = tt
  Unique-trimmed limit (e ∷ d) (h, hs) = elim (Bool-cases (ltb limit (length (e ∷ d)))) [
    | inl over ↦ rw over (Unique-trimmed limit d hs)
    | inr within ↦ rw within (h, hs)
  ]

  lookup-trimmed :
      (limit : ℕ) (j : String) (v : V) (d : Dict V)
      → Unique d
      → lookup j (trimmed limit d) ≡ some v
      → lookup j d ≡ some v
  unfolding lookup trimmed
  lookup-trimmed limit j v [] h e = e
  lookup-trimmed limit j v ((i, w) ∷ d) (h, hs) e =
      elim (Bool-cases (ltb limit (length ((i, w) ∷ d)))) [
        | inr within ↦ rw within at e
        | inl over ↦ kept (lookup-trimmed limit j v d hs (rw over at e)) (Bool-cases (str_eq i j))
      ]
    where
      kept :
          lookup j d ≡ some v
          → (str_eq i j ≡ true) ⊎ (str_eq i j ≡ false)
          → (if str_eq i j then some w else lookup j d) ≡ some v
      kept found (inl same) = absurd (ground (arith, eq_iff i j))
      kept found (inr other) = rw other found

  -- The entry at the end is never the one that is dropped.
  trimmed-append :
      (limit : ℕ) (k : String) (v : V) (d : Dict V)
      → lookup k d ≡ none
      → 0 < limit
      → lookup k (trimmed limit (d ++ ((k, v) ∷ []))) ≡ some v
  unfolding lookup trimmed
  trimmed-append limit k v [] h pos = ground (arith, eq_refl k)
  trimmed-append limit k v ((j, w) ∷ d) h pos =
      elim (Bool-cases (ltb limit (length ((j, w) ∷ (d ++ ((k, v) ∷ [])))))) [
        | inl over ↦ rw over (trimmed-append limit k v d (later (Bool-cases (str_eq j k)) h) pos)
        | inr within ↦ rw within (lookup-append k k v ((j, w) ∷ d) h ∙ rw (eq_refl k) refl)
      ]
    where
      later :
          (str_eq j k ≡ true) ⊎ (str_eq j k ≡ false)
          → (if str_eq j k then some w else lookup k d) ≡ none
          → lookup k d ≡ none
      later (inl same) e = absurd (ground arith)
      later (inr other) e = rw other at e

module _ {ℓ} {V : Type ℓ} (limit : ℕ) (k : String) (v : V) (d : Dict V) where
  pub length-cached : length (cached limit k v d) ≤ limit
  unfolding cached
  length-cached = length-trimmed limit (move_to_end k (insert k v d))

  pub Unique-cached : Unique d → Unique (cached limit k v d)
  unfolding cached
  Unique-cached h =
      Unique-trimmed limit (move_to_end k (insert k v d))
        (Unique-move_to_end k (insert k v d) (Unique-insert k v d h))

  -- What is found in the cache after a write is what was written, or else what was there before.
  pub lookup-cached :
      (j : String) (w : V)
      → Unique d
      → lookup j (cached limit k v d) ≡ some w
      → (if str_eq k j then some v else lookup j d) ≡ some w
  unfolding cached
  lookup-cached j w h e =
      sym (lookup-insert k j v d)
      ∙ sym (lookup-move_to_end j k (insert k v d))
      ∙ lookup-trimmed limit j w (move_to_end k (insert k v d))
          (Unique-move_to_end k (insert k v d) (Unique-insert k v d h)) e

  -- The entry that is written is there.
  pub lookup-cached_own : 0 < limit → lookup k (cached limit k v d) ≡ some v
  unfolding cached
  lookup-cached_own pos =
      let here : lookup k (insert k v d) ≡ some v = rw (lookup-insert k k v d, eq_refl k) refl in
      rw (moved-some k v (insert k v d) here) (
        trimmed-append limit k v (remove k (insert k v d))
          (rw (lookup-remove k k (insert k v d), eq_refl k) refl) pos)
