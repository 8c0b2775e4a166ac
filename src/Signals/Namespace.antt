-- ===== src/Signals/Namespace.antt =====
-- The keys of `extract`: no two extractors share one.
use text.Mathlib.Text.{◌==◌ as str_eq}
use defect_sense.Prelude.{
  ◌≡◌, refl, sym, ap, ◌∙◌, String, true, Option, none, some, List, [], ◌∷◌, ◌>>=◌, some_inj, arith,
  if◌then◌else◌, Bool-cases, Option-cases, inl, inr,
}
use defect_sense.Prelude.Sort.{some_of}
use defect_sense.Auth.{member}
use defect_sense.Dict.{Dict, lookup, insert, eq_iff, Unique, All-lookup, keys}
use defect_sense.Float.{Float}
use defect_sense.Signals.{Library, SignalSeries}
use defect_sense.Signals.Keys.{
  plain, distinct, settled, put_all-other, put_all-own, Unique-distinct,
}
use defect_sense.Signals.Extractors.{piecewise_linear, endpoint, stability, trend, distribution}
use defect_sense.Signals.Spectral.{spectral, band_energies}
use defect_sense.Signals.Extract.{namespaced, put_all, extractors, extract_into, extract, features}

-- A computation whose last step gives values with P only.
bind_all {ℓ κ μ} :
    {A : Type ℓ} {B : Type κ} (P : B → Type μ) (f : A → Option B) (o : Option A) {b : B}
    → ((a : A) → f a ≡ some b → P b)
    → (o >>= f) ≡ some b
    → P b
bind_all P f none h e = absurd (ground arith)
bind_all P f (some a) h e = h a e

module _ {N : Type 0} ⦃F : Float N⦄ ⦃L : Library N⦄ where
  -- A plain name, and results with these keys, each once.
  record IsExtractor (name : String) (fn : SignalSeries N → Option (Dict N)) : Type 0 where
    dotless : plain name ≡ true
    names : List String
    apart : distinct names ≡ true
    spells :
        (series : SignalSeries N) (found : Dict N) → fn series ≡ some found → keys found ≡ names

  piecewise_linear-IsExtractor : IsExtractor "piecewise_linear" piecewise_linear
  unfolding piecewise_linear some_of
  piecewise_linear-IsExtractor = record {
    dotless = refl;
    names =
        "breakpoint_x" ∷ "breakpoint_y" ∷ "slope_before" ∷ "slope_after" ∷ "mean_before"
        ∷ "residual_variance" ∷ "r2" ∷ "span_after" ∷ "late_early_slope_ratio" ∷ [];
    apart = refl;
    spells = λ series found q. ground arith;
  }

  endpoint-IsExtractor : IsExtractor "endpoint" endpoint
  unfolding endpoint some_of
  endpoint-IsExtractor = record {
    dotless = refl;
    names = "final_y" ∷ "peak_y" ∷ "min_y" ∷ "span_x" ∷ [];
    apart = refl;
    spells = λ series found q. ground arith;
  }

  stability-IsExtractor : IsExtractor "stability" stability
  unfolding stability some_of
  stability-IsExtractor = record {
    dotless = refl;
    names = "reversal_count" ∷ "monotonic_fraction" ∷ [];
    apart = refl;
    spells = λ series found q. ground arith;
  }

  trend-IsExtractor : IsExtractor "trend" trend
  unfolding trend some_of
  trend-IsExtractor = record {
    dotless = refl;
    names = "slope" ∷ "r2" ∷ "drift" ∷ "residual_variance" ∷ [];
    apart = refl;
    spells = λ series found q. ground arith;
  }

  distribution-IsExtractor : IsExtractor "distribution" distribution
  unfolding distribution some_of
  distribution-IsExtractor = record {
    dotless = refl;
    names =
        "mean" ∷ "std" ∷ "p95" ∷ "rms" ∷ "peak" ∷ "crest_factor" ∷ "kurtosis" ∷ "outlier_count"
        ∷ [];
    apart = refl;
    spells = λ series found q. ground arith;
  }

  spectral-IsExtractor : IsExtractor "spectral" (spectral [])
  unfolding spectral band_energies insert some_of
  spectral-IsExtractor = record {
    dotless = refl;
    names = "dominant_freq" ∷ "dominant_energy_ratio" ∷ [];
    apart = refl;
    spells = λ series found q. ground arith;
  }

  extractors-AreExtractors :
      (name : String) (fn : SignalSeries N → Option (Dict N))
      → lookup name extractors ≡ some fn
      → IsExtractor name fn
  extractors-AreExtractors = All-lookup IsExtractor extractors (
    piecewise_linear-IsExtractor,
    (
      endpoint-IsExtractor,
      (
        stability-IsExtractor,
        (trend-IsExtractor, (distribution-IsExtractor, (spectral-IsExtractor, tt))),
      ),
    ),
  )

  went_on :
      (series : SignalSeries N) (n : String) (ns : List String) (out d : Dict N)
      → extract_into series (n ∷ ns) out ≡ features d
      → (g : SignalSeries N → Option (Dict N)) × (got : Dict N) × (lookup n extractors ≡ some g)
        × (g series ≡ some got)
        × (extract_into series ns (put_all n got out) ≡ features d)
  unfolding extract_into
  went_on series n ns out d e = elim (Option-cases (lookup n (extractors {N = N}))) [
    | inl missing ↦ absurd (ground arith)
    | inr (g, here) ↦ elim (Option-cases (g series)) [
      | inl fails ↦ absurd (ground arith)
      | inr (got, returns) ↦ (g, got, here, returns, ground arith)
    ]
  ]

  module _ (series : SignalSeries N) (name key : String) (fn : SignalSeries N → Option (Dict N))
      (found : Dict N) (known : lookup name extractors ≡ some fn)
      (gives : fn series ≡ some found) where
    own : IsExtractor name fn
    own = extractors-AreExtractors name fn known

    found-Unique : Unique found
    found-Unique = Unique-distinct found (ap distinct (own.spells series found gives) ∙ own.apart)

    same_result :
        (g : SignalSeries N → Option (Dict N)) (got : Dict N)
        → lookup name extractors ≡ some g
        → g series ≡ some got
        → got ≡ found
    same_result g got here returns = some_inj (
        sym returns
        ∙ ap (λ (h : SignalSeries N → Option (Dict N)). h series) (some_inj (sym here ∙ known))
        ∙ gives)

    keeps_from :
        (names : List String) (out d : Dict N)
        → extract_into series names out ≡ features d
        → lookup (namespaced name key) d ≡ (
            if member name names
            then settled name key found out
            else lookup (namespaced name key) out)
    unfolding extract_into some_of
    keeps_from [] out d e = ground arith
    keeps_from (n ∷ ns) out d e =
        let (g, got, here, returns, rest) = went_on series n ns out d e in
        let later = keeps_from ns (put_all n got out) d rest in
        let theirs = extractors-AreExtractors n g here in
        elim (Bool-cases (str_eq name n)) [
          | inl same ↦
              let name_is : name ≡ n = (eq_iff name n).0 same in
              let put : lookup (namespaced name key) (put_all n got out)
                  ≡ settled name key found out =
                rw (sym name_is, same_result g got (rw name_is here) returns)
                  (put_all-own name key found out own.dotless found-Unique) in
              elim (Option-cases (lookup key found)) [
                | inl missing ↦ ground (arith, later, put)
                | inr (v, there) ↦ ground (arith, later, put)
              ]
          | inr other ↦
              let put =
                put_all-other n name key got out theirs.dotless own.dotless
                  (ground (arith, eq_iff n name, eq_iff name n)) in
              elim (Option-cases (lookup key found)) [
                | inl missing ↦ ground (arith, later, put)
                | inr (v, there) ↦ ground (arith, later, put)
              ]
        ]

    -- Where `extract` returns, an extractor that was asked for has each of its features under its own
    -- name, whatever the others report and however often and in whatever order they were asked for;
    -- one that was not asked for has none.
    pub extract_keeps :
        (names : List String) (d : Dict N)
        → extract series names ≡ features d
        → lookup (namespaced name key) d ≡ (if member name names then lookup key found else none)
    unfolding extract lookup
    extract_keeps names d e = elim (Option-cases (lookup key found)) [
      | inl missing ↦ ground (arith, keeps_from names [] d e)
      | inr (v, there) ↦ ground (arith, keeps_from names [] d e)
    ]
