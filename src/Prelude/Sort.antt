-- ===== src/Prelude/Sort.antt =====
-- Python's `sorted`, `max` and `filter` over lists. `sorted` is stable: of two elements neither of
-- which is less than the other, the first stays in front.
use mathlib.Core.Path.{◌≡◌, refl}
use mathlib.Core.Bool.{Bool, true, false}
use mathlib.Core.Logic.{◌↔◌, inl, inr}
use mathlib.Core.List.{List, [], ◌∷◌, Perm}
use mathlib.Core.List.Perm
use native.Mathlib.Omega.{arith}
use defect_sense.Prelude.Tests.{if◌then◌else◌, Bool-cases}
use defect_sense.Prelude.Lists.{All, All-imp}

module _ {ℓ} {A : Type ℓ} where
  -- [x for x in xs if p(x)]
  unfoldable pub keep : (A → Bool) → List A → List A
  keep p [] = []
  keep p (x ∷ xs) = let rest = keep p xs in if p x then x ∷ rest else rest

  -- any(p(x) for x in xs), all(p(x) for x in xs)
  unfoldable pub some_of : (A → Bool) → List A → Bool
  some_of p [] = false
  some_of p (x ∷ xs) = let rest = some_of p xs in if p x then true else rest

  unfoldable pub every : (A → Bool) → List A → Bool
  every p [] = true
  every p (x ∷ xs) = let rest = every p xs in if p x then rest else false

  pub keep-nil : (p : A → Bool) (xs : List A) → (keep p xs ≡ []) ↔ All (λ x. p x ≡ false) xs
  unfolding keep
  keep-nil p [] = (λ _. tt, λ _. refl)
  keep-nil p (x ∷ xs) = (
    λ e. elim (Bool-cases (p x)) [
      | inl t ↦ absurd (ground arith)
      | inr f ↦ (f, (keep-nil p xs).0 (ground arith))
    ],
    λ h. rw h.0 ((keep-nil p xs).1 h.1),
  )

  pub All-keep {κ} :
      (P : A → Type κ) (p : A → Bool) (xs : List A)
      → All P xs
      → All (λ x. P x × (p x ≡ true)) (keep p xs)
  unfolding keep
  All-keep P p [] h = tt
  All-keep P p (x ∷ xs) (h, hs) = elim (Bool-cases (p x)) [
    | inl t ↦ rw t ((h, t), All-keep P p xs hs)
    | inr f ↦ rw f (All-keep P p xs hs)
  ]

  pub keep-head :
      (p : A → Bool) (xs : List A) (y : A) (ys : List A) → keep p xs ≡ y ∷ ys → p y ≡ true
  unfolding keep
  keep-head p [] y ys e = absurd (ground arith)
  keep-head p (x ∷ xs) y ys e = elim (Bool-cases (p x)) [
    | inl t ↦ ground arith
    | inr f ↦ keep-head p xs y ys (ground arith)
  ]

  module _ (lt : A → A → Bool) where
    -- max(x, *xs): the first of the greatest
    unfoldable pub greatest : A → List A → A
    greatest x [] = x
    greatest x (y ∷ ys) = greatest (if lt x y then y else x) ys

    pub All-greatest {κ} :
        (P : A → Type κ) (x : A) (xs : List A) → P x → All P xs → P (greatest x xs)
    unfolding greatest
    All-greatest P x [] h hs = h
    All-greatest P x (y ∷ ys) h (k, ks) = elim (Bool-cases (lt x y)) [
      | inl less ↦ rw less (All-greatest P y ys k ks)
      | inr not_less ↦ rw not_less (All-greatest P x ys h ks)
    ]

    unfoldable pub insert_by : A → List A → List A
    insert_by x [] = x ∷ []
    insert_by x (y ∷ ys) = let rest = insert_by x ys in if lt y x then y ∷ rest else x ∷ y ∷ ys

    unfoldable pub sorted_by : List A → List A
    unfolding insert_by
    sorted_by [] = []
    sorted_by (x ∷ xs) = insert_by x (sorted_by xs)

    insert_by-perm : (x : A) (ys : List A) → Perm (insert_by x ys) (x ∷ ys)
    unfolding insert_by
    insert_by-perm x [] = Perm.refl _
    insert_by-perm x (y ∷ ys) = elim (Bool-cases (lt y x)) [
      | inl before ↦ rw before (Perm.trans (Perm.cons y (insert_by-perm x ys)) (Perm.swap x y ys))
      | inr after ↦ rw after (Perm.refl _)
    ]

    -- A sort loses and adds nothing.
    pub sorted_by-perm : (xs : List A) → Perm (sorted_by xs) xs
    unfolding sorted_by
    sorted_by-perm [] = Perm.refl _
    sorted_by-perm (x ∷ xs) =
        Perm.trans (insert_by-perm x (sorted_by xs)) (Perm.cons x (sorted_by-perm xs))

    All-insert_by {κ} :
        (P : A → Type κ) (x : A) (ys : List A) → P x → All P ys → All P (insert_by x ys)
    unfolding insert_by
    All-insert_by P x [] h hs = (h, tt)
    All-insert_by P x (y ∷ ys) h (k, ks) = elim (Bool-cases (lt y x)) [
      | inl before ↦ rw before (k, All-insert_by P x ys h ks)
      | inr after ↦ rw after (h, (k, ks))
    ]

    pub All-sorted_by {κ} : (P : A → Type κ) (xs : List A) → All P xs → All P (sorted_by xs)
    unfolding sorted_by
    All-sorted_by P [] h = tt
    All-sorted_by P (x ∷ xs) (h, hs) = All-insert_by P x (sorted_by xs) h (All-sorted_by P xs hs)

    All-of_insert_by {κ} :
        (P : A → Type κ) (x : A) (ys : List A) → All P (insert_by x ys) → P x × All P ys
    unfolding insert_by
    All-of_insert_by P x [] h = h
    All-of_insert_by P x (y ∷ ys) h = elim (Bool-cases (lt y x)) [
      | inl before ↦
          let (k, ks) = unfold_if before h in
          let (l, ls) = All-of_insert_by P x ys ks in (l, (k, ls))
      | inr after ↦ rw after at h
    ]
      where
        unfold_if : lt y x ≡ true → All P (insert_by x (y ∷ ys)) → P y × All P (insert_by x ys)
        unfold_if before k = rw before at k

    pub All-of_sorted_by {κ} : (P : A → Type κ) (xs : List A) → All P (sorted_by xs) → All P xs
    unfolding sorted_by
    All-of_sorted_by P [] h = tt
    All-of_sorted_by P (x ∷ xs) h =
        let (k, ks) = All-of_insert_by P x (sorted_by xs) h in (k, All-of_sorted_by P xs ks)

    -- No element is less than one that stands before it.
    abbrev pub Ascending : List A → Type 0
    Ascending [] = Unit
    Ascending (x ∷ xs) = All (λ y. lt y x ≡ false) xs × Ascending xs

    pub Ascending-keep : (p : A → Bool) (xs : List A) → Ascending xs → Ascending (keep p xs)
    unfolding keep
    Ascending-keep p [] h = tt
    Ascending-keep p (x ∷ xs) (h, hs) = elim (Bool-cases (p x)) [
      | inl t ↦ rw t (
        All-imp (keep p xs) (λ y k. k.0) (All-keep (λ y. lt y x ≡ false) p xs h),
        Ascending-keep p xs hs,
      )
      | inr f ↦ rw f (Ascending-keep p xs hs)
    ]

    -- The first element stays in front where nothing is less than it.
    pub sorted_by-first :
        (x : A) (xs : List A) → All (λ y. lt y x ≡ false) xs → sorted_by (x ∷ xs) ≡ x ∷ sorted_by xs
    unfolding sorted_by
    sorted_by-first x xs h = insert_first (sorted_by xs) (All-sorted_by (λ y. lt y x ≡ false) xs h)
      where
        insert_first : (ys : List A) → All (λ y. lt y x ≡ false) ys → insert_by x ys ≡ x ∷ ys
        insert_first [] h = refl
        insert_first (y ∷ ys) (h, hs) = rw h

    module _ (asym : (x y : A) → lt x y ≡ true → lt y x ≡ false)
        (ntrans : (x y z : A) → lt y x ≡ false → lt z y ≡ false → lt z x ≡ false) where
      Ascending-insert_by : (x : A) (ys : List A) → Ascending ys → Ascending (insert_by x ys)
      unfolding insert_by
      Ascending-insert_by x [] h = (tt, tt)
      Ascending-insert_by x (y ∷ ys) (h, hs) = elim (Bool-cases (lt y x)) [
        | inl before ↦ rw before (
          All-insert_by (λ z. lt z y ≡ false) x ys (asym y x before) h,
          Ascending-insert_by x ys hs,
        )
        | inr after ↦ rw after ((after, weaken ys h after), (h, hs))
      ]
        where
          weaken :
              (zs : List A)
              → All (λ z. lt z y ≡ false) zs
              → lt y x ≡ false
              → All (λ z. lt z x ≡ false) zs
          weaken [] h after = tt
          weaken (z ∷ zs) (h, hs) after = (ntrans x y z after h, weaken zs hs after)

      pub Ascending-sorted_by : (xs : List A) → Ascending (sorted_by xs)
      unfolding sorted_by
      Ascending-sorted_by [] = tt
      Ascending-sorted_by (x ∷ xs) = Ascending-insert_by x (sorted_by xs) (Ascending-sorted_by xs)
