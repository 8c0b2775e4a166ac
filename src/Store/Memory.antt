-- ===== src/Store/Memory.antt =====
-- The repositories in memory, src/forge/infrastructure/persistence/memory.py. A deep copy is the value.
use text.Mathlib.Text.{◌==◌ as str_eq}
use mathlib.Core.List.{reverse}
use defect_sense.Prelude.{
  ℕ, String, Bool, true, false, Option, none, some, List, [], ◌∷◌, ◌++◌, map, length, take, drop,
  ltb, if◌then◌else◌,
}
use defect_sense.Prelude.Sort.{keep}
use defect_sense.Dict.{Dict, lookup, insert, remove, has, values}
use defect_sense.Store.{
  Inspection, InspectionSummary, matches, summarise, AuditEntry, concerns, Json, words, other,
  Document,
}

module _ (R : Type 0) where
  pub record InMemoryInspectionRepository : Type 0 where
    pub states : Dict (Inspection R)
    pub order : List String
    pub max_records : ℕ

abbrev pub order_with : String → Bool → List String → List String
order_with k true order = order
order_with k false order = order ++ (k ∷ [])

-- matched[offset : offset + limit]
abbrev pub page {ℓ} : {A : Type ℓ} → ℕ → ℕ → List A → List A
page offset limit xs = take limit (drop offset xs)

module _ {R : Type 0} where
  abbrev pub new_repository : ℕ → InMemoryInspectionRepository R
  new_repository max_records = record { states = []; order = []; max_records = max_records }

  -- while len(self._order) > self._max: self._states.pop(self._order.pop(0), None)
  unfoldable pub evict : ℕ → List String → Dict (Inspection R) → List String × Dict (Inspection R)
  evict limit [] states = ([], states)
  evict limit (k ∷ ks) states =
      let rest = evict limit ks (remove k states) in
      if ltb limit (length (k ∷ ks)) then rest else (k ∷ ks, states)

  unfoldable pub save :
      Inspection R → InMemoryInspectionRepository R → InMemoryInspectionRepository R
  save s r =
      let (order, states) =
        evict r.max_records (order_with s.correlation_id (has s.correlation_id r.states) r.order)
          (insert s.correlation_id s r.states) in
      record r { order = order; states = states }

  unfoldable pub get : String → InMemoryInspectionRepository R → Option (Inspection R)
  get k r = lookup k r.states

  -- [self._states[cid] for cid in ids if cid in self._states]
  unfoldable pub stored : List String → Dict (Inspection R) → List (Inspection R)
  stored [] states = []
  stored (k ∷ ks) states =
      let rest = stored ks states in elim (lookup k states) [ none ↦ rest | some s ↦ s ∷ rest ]

  unfoldable pub matched :
      Option String
      → Option String
      → Option Bool
      → InMemoryInspectionRepository R
      → List (Inspection R)
  unfolding stored
  matched pack_id verdict fusion_only r =
      keep (matches pack_id verdict fusion_only) (stored (reverse r.order) r.states)

  unfoldable pub list_page :
      Option String
      → Option String
      → Option Bool
      → ℕ
      → ℕ
      → InMemoryInspectionRepository R
      → List InspectionSummary × ℕ
  list_page pack_id verdict fusion_only limit offset r =
      let found = matched pack_id verdict fusion_only r in
      (map summarise (page offset limit found), length found)

-- `InMemoryAuditLog`
abbrev pub AuditLog : Type 0
AuditLog = List AuditEntry

unfoldable pub record_entry : AuditEntry → AuditLog → AuditLog
record_entry e log = log ++ (e ∷ [])

unfoldable pub query : Option String → Option String → ℕ → AuditLog → List AuditEntry
query actor action limit log = take limit (keep (concerns actor action) (reverse log))

-- `InMemoryDocumentStore`. A collection that is named is made.
abbrev pub Collections : Type 0
Collections = Dict (Dict Document)

abbrev given {ℓ} : {A : Type ℓ} → Option A → A → A
given none a = a
given (some b) a = b

abbrev pub collection : String → Collections → Dict Document
collection name s = given (lookup name s) []

-- `setdefault`
unfoldable pub opened : String → Collections → Collections
opened name s = elim (lookup name s) [ none ↦ insert name [] s | some d ↦ s ]

unfoldable pub put_document : String → String → Document → Collections → Collections
put_document name k d s = insert name (insert k d (collection name s)) s

-- `found if found else None`: an empty dict is false.
abbrev pub truthy : Option Document → Option Document
truthy none = none
truthy (some []) = none
truthy (some (e ∷ d)) = some (e ∷ d)

unfoldable pub get_document : String → String → Collections → Option Document × Collections
unfolding opened
get_document name k s = (truthy (lookup k (collection name s)), opened name s)

unfoldable pub all_documents : String → Collections → List Document × Collections
unfolding opened
all_documents name s = (values (collection name s), opened name s)

abbrev pub json_eq : Json → Json → Bool
json_eq (words a) (words b) = str_eq a b
json_eq (other a) (other b) = str_eq a b
json_eq _ _ = false

abbrev holds : Option Json → Json → Bool
holds none v = false
holds (some w) v = json_eq w v

-- all(d.get(k) == v for k, v in equals.items()), for values that are not None
unfoldable pub agrees : Dict Json → Document → Bool
agrees [] d = true
agrees ((k, v) ∷ equals) d =
    let rest = agrees equals d in if holds (lookup k d) v then rest else false

unfoldable pub find_documents : String → Dict Json → Collections → List Document × Collections
unfolding opened
find_documents name equals s = (keep (agrees equals) (values (collection name s)), opened name s)

unfoldable pub delete_document : String → String → Collections → Bool × Collections
delete_document name k s = (has k (collection name s), insert name (remove k (collection name s)) s)
