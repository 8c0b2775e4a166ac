-- ===== src/Signals/Learn.antt =====
-- `FeatureBaseline.from_clean_runs`: means and tolerances from known-good runs.
use defect_sense.Prelude.{
  ℕ, ◌-◌, String, none, some, List, [], ◌∷◌, ◌⊎◌, inl, inr, map, length, ltb, if◌then◌else◌,
}
use defect_sense.Prelude.Sort.{sorted_by}
use defect_sense.Dict.{str_lt, Dict, lookup, keys}
use defect_sense.Float.{Float, ◌⊖◌, ◌⊗◌, ◌⊘◌, max_of, abs}
use defect_sense.Auth.{member}
use defect_sense.Signals.{Library, SignalError, too_few_runs, FeatureBaseline}

-- A set as the list of its elements, each once.
unfoldable pub add_new : List String → List String → List String
add_new [] seen = seen
add_new (k ∷ ks) seen = add_new ks (if member k seen then seen else k ∷ seen)

module _ {N : Type 0} where
  -- {k for r in runs for k in r}
  unfoldable pub key_set : List (Dict N) → List String → List String
  unfolding add_new
  key_set [] seen = seen
  key_set (r ∷ runs) seen = key_set runs (add_new (keys r) seen)

  -- [r[key] for r in runs if key in r]
  unfoldable pub values_of : String → List (Dict N) → List N
  values_of key [] = []
  values_of key (r ∷ runs) =
      let rest = values_of key runs in elim (lookup key r) [ none ↦ rest | some v ↦ v ∷ rest ]

module _ {N : Type 0} ⦃F : Float N⦄ ⦃L : Library N⦄ where
  abbrev pub mean_of : List N → N
  mean_of values = L.fsum values ⊘ F.decimal (length values) 0

  unfoldable pub tolerance_of : N → List N → N
  tolerance_of sigma values =
      let mean = mean_of values in
      let var = L.fsum (map (λ v. L.pow (v ⊖ mean) 2) values) ⊘ F.decimal (length values - 1) 0 in
      max_of (max_of (sigma ⊗ L.sqrt var) (abs mean ⊗ F.decimal 2 2)) (F.decimal 1 6)

  -- The loop over the keys, for one of the two dicts that it fills.
  unfoldable pub learn : (List N → N) → List (Dict N) → List String → Dict N
  learn entry runs [] = []
  learn entry runs (key ∷ ks) =
      let rest = learn entry runs ks in
      let values = values_of key runs in
      if ltb (length values) 2 then rest else (key, entry values) ∷ rest

  unfoldable pub from_clean_runs : List (Dict N) → N → ℕ → SignalError N ⊎ FeatureBaseline N
  unfolding learn key_set tolerance_of
  from_clean_runs runs sigma min_runs =
      if ltb (length runs) min_runs
      then inl (too_few_runs (length runs))
      else (let ks = sorted_by str_lt (key_set runs []) in
          inr (record {
            means = learn mean_of runs ks;
            tolerances = learn (tolerance_of sigma) runs ks;
            derived_from_runs = length runs;
            sigma = sigma;
          }))
