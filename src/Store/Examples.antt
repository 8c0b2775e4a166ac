-- ===== src/Store/Examples.antt =====
-- Two keys of one file name, a full repository and a log with a corrupt line.
use package.text.Mathlib.Text.{◌==◌ as str_eq}
use Prim.Native.Char.{Char}
use defect_sense.Prelude.{
  ◌-◌, ◌≡◌, ◌≢◌, refl, sym, ap, ◌∙◌, String, Bool, true, false, ◌||◌, some, List, [], ◌∷◌, arith,
  length, drop,
}
use defect_sense.Prelude.Sort.{some_of}
use defect_sense.Dict.{lookup}
use defect_sense.Store.{Inspection, AuditEntry, words, Document}
use defect_sense.Store.Memory.{InMemoryInspectionRepository, new_repository, save}
use defect_sense.Store.Files.{safe_name}
use defect_sense.Store.Bounded.{IsSound, queued, save-IsSound}
use defect_sense.Store.Documents.{Call, put, get, delete, in_memory, on_files, replies}
use defect_sense.Store.Agreement.{IsPlain}
use defect_sense.Store.Alike.{stores_agree}

abbrev letters : Char → Bool
letters c = str_eq (String.◌∷◌ c "") "a" || str_eq (String.◌∷◌ c "") "b"

abbrev file_name : String → String
file_name = safe_name letters

joined : file_name "a/b" ≡ file_name "a b"
unfolding safe_name
joined = refl

differ : ◌≢◌ {A = String} "a/b" "a b"
differ e = true_false (ap (λ k. str_eq k "a/b") e)
  where
    true_false : true ≡ false → ⊥
    true_false k = cc

abbrev wheel : Document
wheel = ("kind", words "wheel") ∷ []

-- Names that are kept as they are.
abbrev IsSafe : String → Type 0
IsSafe k = file_name k ≡ k

safe_apart : (x y : String) → IsSafe x → IsSafe y → file_name x ≡ file_name y → x ≡ y
safe_apart x y p q e = sym p ∙ e ∙ q

abbrev calls : List Call
calls = put "ab" "a" wheel ∷ get "ab" "a" ∷ delete "ab" "a" ∷ get "ab" "a" ∷ []

ab-IsSafe : IsSafe "ab"
unfolding safe_name
ab-IsSafe = refl

a-IsSafe : IsSafe "a"
unfolding safe_name
a-IsSafe = refl

wheel_plain : IsPlain wheel
unfolding lookup
wheel_plain = (filled, refl)
  where
    filled : wheel ≢ []
    filled e = cc

stores_agree_example : replies in_memory calls [] ≡ replies (on_files file_name) calls []
stores_agree_example = stores_agree file_name IsSafe safe_apart calls (
  (ab-IsSafe, a-IsSafe, wheel_plain),
  ((ab-IsSafe, a-IsSafe), ((ab-IsSafe, a-IsSafe), ((ab-IsSafe, a-IsSafe), tt))),
)

abbrev inspection : String → Inspection (Unit {0})
inspection k = record {
  correlation_id = k;
  unit_id = "U1";
  pack_id = "wheel";
  status = "complete";
  fusion = some (record { verdict = "pass"; severity = "minor"; fusion_only = false });
  durations = 3 ∷ 4 ∷ [];
  created_at = 1;
  is_synthetic = true;
  rest = tt;
}

abbrev full : InMemoryInspectionRepository (Unit {0})
full = save (inspection "b") (save (inspection "a") (new_repository 2))

empty-IsSound : IsSound {R = Unit {0}} (new_repository 2)
unfolding lookup some_of
empty-IsSound = record { bounded = omega arith; distinct = tt; same = λ k. refl }

full-IsSound : IsSound full
full-IsSound =
    (save-IsSound (inspection "b") (save (inspection "a") (new_repository 2))
      (save-IsSound (inspection "a") (new_repository 2) empty-IsSound).0).0

save-IsSound_example :
    IsSound (save (inspection "c") full)
    × ((save (inspection "c") full).order
        ≡ drop
            (length (queued (inspection "c") full) - full.max_records)
            (queued (inspection "c") full))
save-IsSound_example = save-IsSound (inspection "c") full full-IsSound

abbrev signed : AuditEntry
signed = record {
  actor = "ravi@ds.com";
  role = "QA";
  action = "decide";
  resource = "c";
  correlation_id = "c";
  at = 1;
  details = [];
}
