-- ===== src/Signals/Extract.antt =====
-- `EXTRACTORS` and `extract`: the features of a series, each under the name of its extractor.
use Prim.Native.String
use defect_sense.Prelude.{String, Option, none, some, List, [], ◌∷◌}
use defect_sense.Dict.{Dict, lookup, insert}
use defect_sense.Float.{Float}
use defect_sense.Signals.{Library, SignalSeries}
use defect_sense.Signals.Extractors.{piecewise_linear, endpoint, stability, trend, distribution}
use defect_sense.Signals.Spectral.{spectral}

-- What `extract` does: it returns, it meets a name that is no extractor's, or an extractor raises.
pub data Extracted (N : Type 0) : Type 0 where
  features : Dict N → Extracted N
  unknown : String → Extracted N
  raised : Extracted N

-- f"{name}.{key}"
abbrev pub namespaced : String → String → String
namespaced name key = String.◌++◌ name (String.◌++◌ "." key)

module _ {N : Type 0} where
  unfoldable pub put_all : String → Dict N → Dict N → Dict N
  put_all name [] out = out
  put_all name ((key, value) ∷ found) out =
      put_all name found (insert (namespaced name key) value out)

module _ {N : Type 0} ⦃F : Float N⦄ ⦃L : Library N⦄ where
  abbrev pub extractors : Dict (SignalSeries N → Option (Dict N))
  extractors =
      ("piecewise_linear", piecewise_linear)
      ∷ ("endpoint", endpoint)
      ∷ ("stability", stability)
      ∷ ("trend", trend)
      ∷ ("distribution", distribution)
      ∷ ("spectral", spectral [])
      ∷ []

  unfoldable pub extract_into : SignalSeries N → List String → Dict N → Extracted N
  extract_into series [] out = features out
  extract_into series (name ∷ names) out = elim (lookup name extractors) [
    | none ↦ unknown name
    | some fn ↦ elim (fn series) [
      | none ↦ raised
      | some found ↦ extract_into series names (put_all name found out)
    ]
  ]

  unfoldable pub extract : SignalSeries N → List String → Extracted N
  unfolding extract_into
  extract series names = extract_into series names []
