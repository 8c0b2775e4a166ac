-- ===== src/Dict.antt =====
-- Python's `dict` with text keys: an association list in insertion order. A write to a key that is
-- there keeps its place, a new key goes to the end.
use Prim.Native.String
use text.Mathlib.Text.{◌==◌ as str_eq, is_lt}
use text.Mathlib.TextEquality.{eq_iff}
use defect_sense.Prelude.{
  ◌+◌, ◌≡◌, refl, String, Bool, true, false, Option, none, some, List, [], ◌∷◌, arith, length, All,
  if◌then◌else◌, Bool-cases, Option-cases, inl, inr, ap, sym, ◌∙◌,
}
pub use text.Mathlib.TextEquality.{eq_iff}

-- s < t
abbrev pub str_lt : String → String → Bool
str_lt s t = is_lt (String.compare s t)

abbrev pub Dict {ℓ} : Type ℓ → Type ℓ
Dict V = List (String × V)

module _ {ℓ} {V : Type ℓ} where
  -- d.get(k)
  unfoldable pub lookup : String → Dict V → Option V
  lookup k [] = none
  lookup k ((j, v) ∷ d) = if str_eq j k then some v else lookup k d

  -- d[k] = v
  unfoldable pub insert : String → V → Dict V → Dict V
  insert k v [] = (k, v) ∷ []
  insert k v ((j, w) ∷ d) = if str_eq j k then (j, v) ∷ d else (j, w) ∷ insert k v d

  -- d.pop(k, None)
  unfoldable pub remove : String → Dict V → Dict V
  remove k [] = []
  remove k ((j, v) ∷ d) = let rest = remove k d in if str_eq j k then rest else (j, v) ∷ rest

  abbrev pub has : String → Dict V → Bool
  has k d = elim (lookup k d) [ none ↦ false | some _ ↦ true ]

  abbrev pub keys : Dict V → List String
  keys [] = []
  keys ((k, v) ∷ d) = k ∷ keys d

  abbrev pub values : Dict V → List V
  values [] = []
  values ((k, v) ∷ d) = v ∷ values d

  pub lookup-insert :
      (k j : String) (v : V) (d : Dict V)
      → lookup j (insert k v d) ≡ (if str_eq k j then some v else lookup j d)
  unfolding lookup insert
  lookup-insert k j v [] = refl
  lookup-insert k j v ((i, w) ∷ d) =
      ground (arith, eq_iff k j, eq_iff i k, eq_iff i j, lookup-insert k j v d)

  pub lookup-remove :
      (k j : String) (d : Dict V)
      → lookup j (remove k d) ≡ (if str_eq k j then none else lookup j d)
  unfolding lookup remove
  lookup-remove k j [] = ground arith
  lookup-remove k j ((i, w) ∷ d) =
      ground (arith, eq_iff k j, eq_iff i k, eq_iff i j, lookup-remove k j d)

  pub length-insert_new :
      (k : String) (v : V) (d : Dict V) → lookup k d ≡ none → length (insert k v d) ≡ length d + 1
  unfolding lookup insert
  length-insert_new k v [] h = refl
  length-insert_new k v ((j, w) ∷ d) h = ground (arith, length-insert_new k v d)

  pub keys-insert_old :
      (k : String) (v w : V) (d : Dict V) → lookup k d ≡ some w → keys (insert k v d) ≡ keys d
  unfolding lookup insert
  keys-insert_old k v w [] h = absurd (ground arith)
  keys-insert_old k v w ((j, u) ∷ d) h = ground (arith, keys-insert_old k v w d)

  -- No key stands twice.
  abbrev pub Unique : Dict V → Type ℓ
  Unique [] = Unit
  Unique ((k, v) ∷ d) = (lookup k d ≡ none) × Unique d

  pub Unique-insert : (k : String) (v : V) (d : Dict V) → Unique d → Unique (insert k v d)
  unfolding lookup insert
  Unique-insert k v [] h = (refl, tt)
  Unique-insert k v ((j, w) ∷ d) (h, hs) = elim (Bool-cases (str_eq j k)) [
    | inl same ↦ rw same (h, hs)
    | inr other ↦
        rw other
          (ground (arith, eq_iff j k, eq_iff k j, lookup-insert k j v d), Unique-insert k v d hs)
  ]

module _ {ℓ} {V : Type ℓ} where
  pub has-none : (k : String) (d : Dict V) → lookup k d ≡ none → has k d ≡ false
  has-none k d e = ap (λ (o : Option V). elim o as (λ _. Bool) [ none ↦ false | some _ ↦ true ]) e

  pub has-some : (k : String) (v : V) (d : Dict V) → lookup k d ≡ some v → has k d ≡ true
  has-some k v d e = ap (λ (o : Option V). elim o as (λ _. Bool) [ none ↦ false | some _ ↦ true ]) e

  pub lookup_of_has : (k : String) (d : Dict V) → has k d ≡ false → lookup k d ≡ none
  lookup_of_has k d e = elim (Option-cases (lookup k d)) [
    | inl nothing ↦ nothing
    | inr (v, found) ↦ absurd (true_false (sym (has-some k v d found) ∙ e))
  ]
    where
      true_false : true ≡ false → ⊥
      true_false k = cc

-- What holds of all entries holds of the one that is found.
module _ {ℓ κ} {V : Type ℓ} (P : String → V → Type κ) where
  pub All-lookup :
      (d : Dict V) → All (λ e. P e.0 e.1) d → (k : String) (v : V) → lookup k d ≡ some v → P k v
  unfolding lookup
  All-lookup [] h k v e = absurd (ground arith)
  All-lookup ((j, w) ∷ d) (h, hs) k v e = elim (Bool-cases (str_eq j k)) [
    | inl same ↦
        let name : j ≡ k = (eq_iff j k).0 same in
        let value : w ≡ v = ground arith in rw (sym name, sym value) h
    | inr other ↦ All-lookup d hs k v (ground arith)
  ]
