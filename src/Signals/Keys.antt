-- ===== src/Signals/Keys.antt =====
-- Names without a dot in front of keys, as `extract` joins them, and the dicts with such keys.
use Prim.Native.String
use Prim.Native.Char.{Char, code}
use text.Mathlib.Text.{◌==◌ as str_eq}
use text.Mathlib.TextLemmas.{
  append_cancel_left, nil-append, cons-append, head-eq_of_cons-eq, tail-eq_of_cons-eq,
}
use defect_sense.Prelude.{
  ◌≡◌, refl, sym, ap, ◌∙◌, String, Bool, true, false, ◌&&◌, not, ◌==◌, Option, none, some, List, [],
  ◌∷◌, ◌⊎◌, arith, if◌then◌else◌, Bool-cases, Option-cases, inl, inr,
}
use defect_sense.Prelude.Sort.{some_of}
use defect_sense.Auth.{member}
use defect_sense.Dict.{Dict, lookup, insert, lookup-insert, eq_iff, Unique, keys}
use defect_sense.Signals.Extract.{namespaced, put_all}

apart_as_values : true ≡ false → ⊥
apart_as_values e = cc

-- The first text has no dot.
abbrev pub plain : String → Bool
plain String.[] = true
plain (String.◌∷◌ c s) = not (code c == 46) && plain s

dotted :
    (c : Char) (s k j : String) → String.◌++◌ (String.◌∷◌ c s) k ≡ String.◌++◌ "." j → code c ≡ 46
dotted c s k j e = ap code (head-eq_of_cons-eq (sym (cons-append c s k) ∙ e ∙ cons-append "." "" j))

-- A name without a dot ends at the first dot.
namespaced_inj :
    (a b k j : String)
    → plain a ≡ true
    → plain b ≡ true
    → namespaced a k ≡ namespaced b j
    → (a ≡ b) × (k ≡ j)
namespaced_inj String.[] String.[] k j p q e =
    (refl, append_cancel_left "." k j (sym (nil-append _) ∙ e ∙ nil-append _))
namespaced_inj String.[] (String.◌∷◌ d t) k j p q e =
    let dot = dotted d t _ k (sym e ∙ nil-append _) in absurd (ground arith)
namespaced_inj (String.◌∷◌ c s) String.[] k j p q e =
    let dot = dotted c s _ j (e ∙ nil-append _) in absurd (ground arith)
namespaced_inj (String.◌∷◌ c s) (String.◌∷◌ d t) k j p q e =
    let conses = sym (cons-append c s _) ∙ e ∙ cons-append d t _ in
    let first : c ≡ d = head-eq_of_cons-eq conses in
    let (names, rest) =
      namespaced_inj s t k j (ground arith) (ground arith) (tail-eq_of_cons-eq conses) in
    (rw (first, names) refl, rest)

same_namespace :
    (a k j : String) → plain a ≡ true → str_eq (namespaced a k) (namespaced a j) ≡ str_eq k j
same_namespace a k j p = elim (Bool-cases (str_eq k j)) [
  | inl same ↦ rw same ((eq_iff _ _).1 (ap (namespaced a) ((eq_iff k j).0 same)))
  | inr other ↦ elim (Bool-cases (str_eq (namespaced a k) (namespaced a j))) [
    | inl alike ↦ absurd (
        apart_as_values
          (sym ((eq_iff k j).1 (namespaced_inj a a k j p p ((eq_iff _ _).0 alike)).1) ∙ other))
    | inr apart ↦ apart ∙ sym other
  ]
]

other_namespace :
    (a b k j : String)
    → plain a ≡ true
    → plain b ≡ true
    → str_eq a b ≡ false
    → str_eq (namespaced a k) (namespaced b j) ≡ false
other_namespace a b k j p q other = elim (Bool-cases (str_eq (namespaced a k) (namespaced b j))) [
  | inl alike ↦ absurd (
      apart_as_values
        (sym ((eq_iff a b).1 (namespaced_inj a b k j p q ((eq_iff _ _).0 alike)).0) ∙ other))
  | inr apart ↦ apart
]

module _ {N : Type 0} where
  pub put_all-other :
      (a b key : String) (found out : Dict N)
      → plain a ≡ true
      → plain b ≡ true
      → str_eq a b ≡ false
      → lookup (namespaced b key) (put_all a found out) ≡ lookup (namespaced b key) out
  unfolding put_all
  put_all-other a b key [] out p q other = refl
  put_all-other a b key ((k, v) ∷ found) out p q other =
      put_all-other a b key found (insert (namespaced a k) v out) p q other
      ∙ lookup-insert (namespaced a k) (namespaced b key) v out
      ∙ rw (other_namespace a b k key p q other) refl

  -- What a write of all features of `found` leaves under a key of that name.
  abbrev pub settled : String → String → Dict N → Dict N → Option N
  settled a key found out = elim (lookup key found) [
    | none ↦ lookup (namespaced a key) out
    | some v ↦ some v
  ]

  pub put_all-own :
      (a key : String) (found out : Dict N)
      → plain a ≡ true
      → Unique found
      → lookup (namespaced a key) (put_all a found out)
        ≡ (elim (lookup key found) [ none ↦ lookup (namespaced a key) out | some v ↦ some v ])
  unfolding put_all lookup
  put_all-own a key [] out p u = refl
  put_all-own a key ((k, v) ∷ found) out p (h, u) =
      put_all-own a key found (insert (namespaced a k) v out) p u
      ∙ settle (Option-cases (lookup key found))
    where
      written :
          lookup (namespaced a key) (insert (namespaced a k) v out)
          ≡ (if str_eq k key then some v else lookup (namespaced a key) out)
      written =
          rw (sym (same_namespace a k key p))
            (lookup-insert (namespaced a k) (namespaced a key) v out)

      settle :
          (lookup key found ≡ none) ⊎ ((w : N) × (lookup key found ≡ some w))
          → (elim (lookup key found) [
            | none ↦ lookup (namespaced a key) (insert (namespaced a k) v out)
            | some w ↦ some w
          ])
            ≡ (elim (if str_eq k key then some v else lookup key found) [
              | none ↦ lookup (namespaced a key) out
              | some w ↦ some w
            ])
      settle (inl missing) = ground (arith, written)
      settle (inr (w, here)) = ground (arith, eq_iff k key)

abbrev pub distinct : List String → Bool
distinct [] = true
distinct (k ∷ ks) = not (member k ks) && distinct ks

module _ {N : Type 0} where
  pub lookup_absent : (k : String) (d : Dict N) → member k (keys d) ≡ false → lookup k d ≡ none
  unfolding lookup some_of
  lookup_absent k [] h = refl
  lookup_absent k ((j, v) ∷ d) h = ground (arith, eq_iff j k, eq_iff k j, lookup_absent k d)

  pub Unique-distinct : (d : Dict N) → distinct (keys d) ≡ true → Unique d
  Unique-distinct [] h = tt
  Unique-distinct ((k, v) ∷ d) h =
      (lookup_absent k d (ground arith), Unique-distinct d (ground arith))
