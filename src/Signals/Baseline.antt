-- ===== src/Signals/Baseline.antt =====
-- What `from_clean_runs` learns, and that no rule over what it learned is left out for its tolerance.
use text.Mathlib.Text.{◌==◌ as str_eq}
use defect_sense.Prelude.{
  ℕ, ◌≤◌, ◌<◌, ◌≡◌, ◌⊎◌, ◌↔◌, refl, sym, ap, ◌∙◌, String, Bool, true, false, Option, none, some,
  List, [], ◌∷◌, length, ltb, if◌then◌else◌, arith, Bool-cases, Option-cases, inl, inr,
}
use defect_sense.Prelude.Sort.{sorted_by, insert_by, some_of}
use defect_sense.Auth.{member}
use defect_sense.Dict.{str_lt, Dict, lookup, keys, eq_iff}
use defect_sense.Float.{is_zero, Float, IsOrdered, ◌⊖◌, ◌⊘◌, nought, unit, abs}
use defect_sense.Float.Laws.{le-max_right, lt_of_lt_le, decimal_pos}
use defect_sense.Signals.{
  Library, SignalError, too_few_runs, FeatureBaseline, DeviationRule, Deviation,
}
use defect_sense.Signals.Keys.{lookup_absent}
use defect_sense.Signals.Learn.{
  add_new, key_set, values_of, mean_of, tolerance_of, learn, from_clean_runs,
}
use defect_sense.Signals.Score.{wrong_side, compared, deviation_of}

module _ (lt : String → String → Bool) (k : String) where
  member-insert_by :
      (x : String) (ys : List String) → member k (insert_by lt x ys) ≡ member k (x ∷ ys)
  unfolding insert_by some_of
  member-insert_by x [] = refl
  member-insert_by x (y ∷ ys) = ground (arith, member-insert_by x ys)

  member-sorted_by : (xs : List String) → member k (sorted_by lt xs) ≡ member k xs
  unfolding sorted_by some_of
  member-sorted_by [] = refl
  member-sorted_by (x ∷ xs) =
      ground (arith, member-insert_by x (sorted_by lt xs), member-sorted_by xs)

module _ (k : String) where
  member-add_new :
      (ks seen : List String)
      → member k (add_new ks seen) ≡ (if member k ks then true else member k seen)
  unfolding add_new some_of
  member-add_new [] seen = refl
  member-add_new (j ∷ ks) seen = elim (Bool-cases (str_eq k j)) [
    | inl same ↦
        let is : k ≡ j = (eq_iff k j).0 same in
        elim (Bool-cases (member j seen)) [
          | inl known ↦ ground (arith, member-add_new ks seen, ap (λ i. member i seen) is)
          | inr new ↦ ground (arith, member-add_new ks (j ∷ seen))
        ]
    | inr other ↦ ground (arith, member-add_new ks seen, member-add_new ks (j ∷ seen))
  ]

  module _ {N : Type 0} where
    keeps_seen :
        (runs : List (Dict N)) (seen : List String)
        → member k (key_set runs seen) ≡ false
        → member k seen ≡ false
    unfolding key_set
    keeps_seen [] seen h = h
    keeps_seen (r ∷ runs) seen h =
        let before = keeps_seen runs (add_new (keys r) seen) h in
        ground (arith, member-add_new (keys r) seen)

    -- A key outside of the set is in no run.
    values_absent :
        (runs : List (Dict N)) (seen : List String)
        → member k (key_set runs seen) ≡ false
        → values_of k runs ≡ []
    unfolding key_set values_of
    values_absent [] seen h = refl
    values_absent (r ∷ runs) seen h =
        let before = keeps_seen runs (add_new (keys r) seen) h in
        let absent = lookup_absent k r (ground (arith, member-add_new (keys r) seen)) in
        rw (values_of, absent) (values_absent runs (add_new (keys r) seen) h)

module _ {N : Type 0} ⦃F : Float N⦄ ⦃L : Library N⦄ where
  -- What is learned of one key from its values.
  abbrev pub entry_of : (List N → N) → List N → Option N
  entry_of entry values = if ltb (length values) 2 then none else some (entry values)

  lookup-learn :
      (entry : List N → N) (runs : List (Dict N)) (key : String) (ks : List String)
      → lookup key (learn entry runs ks)
        ≡ (if member key ks then entry_of entry (values_of key runs) else none)
  unfolding learn lookup some_of
  lookup-learn entry runs key [] = refl
  lookup-learn entry runs key (k ∷ ks) = elim (Bool-cases (str_eq k key)) [
    | inl same ↦
        let is : k ≡ key = (eq_iff k key).0 same in
        rw (sym is) (ground (arith, lookup-learn entry runs k ks, eq_iff k k))
    | inr other ↦ ground (arith, lookup-learn entry runs key ks, eq_iff k key, eq_iff key k)
  ]

  entry_of-nil : (entry : List N → N) → entry_of entry [] ≡ none
  entry_of-nil entry = refl

  lookup-learned :
      (entry : List N → N) (runs : List (Dict N)) (key : String)
      → lookup key (learn entry runs (sorted_by str_lt (key_set runs [])))
        ≡ entry_of entry (values_of key runs)
  lookup-learned entry runs key = elim (Bool-cases (member key (key_set runs []))) [
    | inl there ↦ ground (
      arith,
      lookup-learn entry runs key (sorted_by str_lt (key_set runs [])),
      member-sorted_by str_lt key (key_set runs []),
    )
    | inr absent ↦
        lookup-learn entry runs key (sorted_by str_lt (key_set runs []))
        ∙ rw
            (
              member-sorted_by str_lt key (key_set runs []),
              absent,
              values_absent key runs [] absent,
            )
            refl
  ]

  -- The outcome for a key: too few runs, or what its values give.
  abbrev pub IsLearned : List (Dict N) → N → ℕ → String → SignalError N ⊎ FeatureBaseline N → Type 0
  IsLearned runs sigma min_runs key (inl refused) =
      (refused ≡ too_few_runs (length runs)) × (length runs < min_runs)
  IsLearned runs sigma min_runs key (inr b) =
      (min_runs ≤ length runs)
      × (lookup key b.means ≡ entry_of mean_of (values_of key runs))
      × (lookup key b.tolerances ≡ entry_of (tolerance_of sigma) (values_of key runs))

  -- A baseline is refused exactly for too few runs; and what is learned has, for every feature that at
  -- least two runs report, the mean and the tolerance of the values that they report, and nothing for
  -- any other.
  pub learns_exactly :
      (runs : List (Dict N)) (sigma : N) (min_runs : ℕ) (key : String)
      → IsLearned runs sigma min_runs key (from_clean_runs runs sigma min_runs)
  unfolding from_clean_runs
  learns_exactly runs sigma min_runs key = elim (Bool-cases (ltb (length runs) min_runs)) [
    | inl few ↦ rw (from_clean_runs, few) (refl, ground arith)
    | inr enough ↦
        rw (from_clean_runs, enough)
          (
            ground arith,
            lookup-learned mean_of runs key,
            lookup-learned (tolerance_of sigma) runs key,
          )
  ]

  module _ (laws : IsOrdered N) where
    tolerance_of-pos : (sigma : N) (values : List N) → is_zero (tolerance_of sigma values) ≡ false
    unfolding tolerance_of
    tolerance_of-pos sigma values =
        let micro : F.lt nought (F.decimal 1 6) ≡ true =
          decimal_pos laws 1 6 (omega arith) (omega arith) (omega arith) in
        let above : F.lt nought (tolerance_of sigma values) ≡ true =
          lt_of_lt_le laws _ _ _ micro (le-max_right laws _ (F.decimal 1 6)) in
        ground (arith, above, laws.lt-eq-not-le nought (tolerance_of sigma values))

    -- The feature was measured at this value, at least two runs have it, and the value lies on the side
    -- that the rule looks at and more than a learned tolerance from the learned mean.
    abbrev pub IsBeyond : List (Dict N) → N → DeviationRule N → N → Type 0
    IsBeyond runs sigma rule observed =
        let values = values_of rule.feature runs in
        let delta = observed ⊖ mean_of values in
        (2 ≤ length values)
        × (wrong_side rule.direction delta ≡ false)
        × (F.le (abs delta ⊘ tolerance_of sigma values) unit ≡ false)

    compared_fires :
        (statement : DeviationRule N → N → N → N → String) (rule : DeviationRule N) (o m t : N)
        → is_zero t ≡ false
        → ((d : Deviation N) × (compared statement rule o m t ≡ some d))
          ↔ ((wrong_side rule.direction (o ⊖ m) ≡ false) × (F.le (abs (o ⊖ m) ⊘ t) unit ≡ false))
    unfolding compared
    compared_fires statement rule o m t safe = (
      λ fires. let (d, e) = fires in (ground arith, ground arith),
      λ h. rw (safe, h.0, h.1) (_, refl),
    )

    -- With a learned baseline, a rule finds a deviation exactly when its feature was measured and lies
    -- beyond what was learned: no tolerance is zero, so none is left out for that.
    pub fires_exactly_when-IsBeyond :
        (runs : List (Dict N)) (sigma : N) (min_runs : ℕ) (b : FeatureBaseline N)
        (statement : DeviationRule N → N → N → N → String) (found : Dict N) (rule : DeviationRule N)
        → from_clean_runs runs sigma min_runs ≡ inr b
        → ((d : Deviation N) × (deviation_of statement found b rule ≡ some d))
          ↔ ((o : N) × (lookup rule.feature found ≡ some o) × IsBeyond runs sigma rule o)
    unfolding deviation_of
    fires_exactly_when-IsBeyond runs sigma min_runs b statement found rule e =
        let learned : IsLearned runs sigma min_runs rule.feature (inr b) =
          rw e at (learns_exactly runs sigma min_runs rule.feature) in
        let values = values_of rule.feature runs in
        let safe = tolerance_of-pos sigma values in
        let (_, mean, tolerance) = learned in
        elim (Bool-cases (ltb (length values) 2)) [
          | inl few ↦
              let unlearned : lookup rule.feature b.means ≡ none = ground (arith, mean) in
              (λ fires. absurd (unlearned_rule unlearned fires.1), λ beyond. absurd (ground arith))
          | inr many ↦
              let at_mean : lookup rule.feature b.means ≡ some (mean_of values) =
                ground (arith, mean) in
              let at_tolerance : lookup rule.feature b.tolerances
                  ≡ some (tolerance_of sigma values) =
                ground (arith, tolerance) in
              (
                λ fires. elim (Option-cases (lookup rule.feature found)) [
                  | inl nothing ↦ absurd (unmeasured_rule nothing fires.1)
                  | inr (o, there) ↦
                      let (side, far) =
                        (compared_fires statement rule o _ _ safe).0
                          (fires.0, sym (reaches o there at_mean at_tolerance) ∙ fires.1) in
                      (o, there, (ground arith, side, far))
                ],
                λ beyond.
                    let (o, there, (two, side, far)) = beyond in
                    let (d, e) = (compared_fires statement rule o _ _ safe).1 (side, far) in
                    (d, reaches o there at_mean at_tolerance ∙ e),
              )
        ]
      where
        reaches :
            (o : N) {m t : N}
            → lookup rule.feature found ≡ some o
            → lookup rule.feature b.means ≡ some m
            → lookup rule.feature b.tolerances ≡ some t
            → deviation_of statement found b rule ≡ compared statement rule o m t
        reaches o e1 e2 e3 = rw (e1, e2, e3) refl

        unmeasured_rule :
            lookup rule.feature found ≡ none
            → {d : Deviation N} → deviation_of statement found b rule ≡ some d
            → ⊥
        unmeasured_rule missing {d} fires = ground arith

        unlearned_rule :
            lookup rule.feature b.means ≡ none
            → {d : Deviation N} → deviation_of statement found b rule ≡ some d
            → ⊥
        unlearned_rule missing {d} fires = elim (Option-cases (lookup rule.feature found)) [
          | inl nothing ↦ ground arith
          | inr (o, there) ↦ ground arith
        ]
