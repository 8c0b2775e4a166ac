-- ===== src/Store/Files.antt =====
-- The repositories on files, src/forge/infrastructure/persistence/filestore.py. A directory is the dict
-- of its files by name, in the order in which `glob` lists them; a file holds what `json.loads` reads
-- from it, and `none` where that fails. Calls are made one at a time, under the lock.
use package.text.Mathlib.Text.{◌==◌ as str_eq}
use Prim.Native.Char.{Char}
use mathlib.Core.List.{reverse}
use defect_sense.Prelude.{
  ℕ, zero, suc, String, Bool, true, false, Option, none, some, List, [], ◌∷◌, ◌++◌, map, length,
  take, ltb, if◌then◌else◌, ◌||◌,
}
use defect_sense.Prelude.Sort.{keep, sorted_by}
use defect_sense.Dict.{Dict, lookup, insert, remove, has, values}
use defect_sense.Store.{
  Inspection, InspectionSummary, matches, summarise, AuditEntry, concerns, Json, words, Document,
}
use defect_sense.Store.Memory.{page, agrees}

module _ (is_alnum : Char → Bool) where
  abbrev safe_char : Char → Char
  safe_char c =
      if is_alnum c
        || (str_eq (String.◌∷◌ c "") "-"
            || (str_eq (String.◌∷◌ c "") "_" || str_eq (String.◌∷◌ c "") "."))
      then c
      else "_"

  abbrev first_chars : ℕ → String → String
  first_chars zero s = ""
  first_chars (suc n) String.[] = ""
  first_chars (suc n) (String.◌∷◌ c s) = String.◌∷◌ c (first_chars n s)

  abbrev safe_chars : String → String
  safe_chars String.[] = ""
  safe_chars (String.◌∷◌ c s) = String.◌∷◌ (safe_char c) (safe_chars s)

  -- `_safe_name`
  unfoldable pub safe_name : String → String
  safe_name key = first_chars 120 (safe_chars key)

-- `FileDocumentStore`: the directories of the collections.
abbrev pub Folders : Type 0
Folders = Dict (Dict (Option Document))

-- `FileInspectionRepository`: a file is a record, or none.
abbrev pub Directory : Type 0 → Type 0
Directory R = Dict (Option (Inspection R))

module _ (safe_name : String → String) where
  module _ {R : Type 0} where
    unfoldable pub save_file : Inspection R → Directory R → Directory R
    save_file s d = insert (safe_name s.correlation_id) (some s) d

    -- What stands under the name of the file, and `none` for no file; a file that is no record is an
    -- exception, `some none`.
    unfoldable pub get_file : String → Directory R → Option (Option (Inspection R))
    get_file k d = lookup (safe_name k) d

    unfoldable pub readable : List (Option (Inspection R)) → List (Inspection R)
    readable [] = []
    readable (none ∷ files) = readable files
    readable (some s ∷ files) = s ∷ readable files

    -- states.sort(key=created_at, reverse=True)
    abbrev pub newer : Inspection R → Inspection R → Bool
    newer a b = ltb b.created_at a.created_at

    unfoldable pub load_all : Directory R → List (Inspection R)
    unfolding readable
    load_all d = sorted_by newer (readable (values d))

    unfoldable pub list_files :
        Option String
        → Option String
        → Option Bool
        → ℕ
        → ℕ
        → Directory R
        → List InspectionSummary × ℕ
    list_files pack_id verdict fusion_only limit offset d =
        let found = keep (matches pack_id verdict fusion_only) (load_all d) in
        (map summarise (page offset limit found), length found)

  abbrev none_of {ℓ} : {A : Type ℓ} → Option (List A) → List A
  none_of none = []
  none_of (some xs) = xs

  abbrev pub folder : String → Folders → Dict (Option Document)
  folder name s = none_of (lookup (safe_name name) s)

  -- {**document, "_key": key}
  unfoldable pub put_document : String → String → Document → Folders → Folders
  put_document name k d s =
      insert (safe_name name)
        (insert (safe_name k) (some (insert "_key" (words k) d)) (folder name s)) s

  abbrev pub key_of : Option Json → Option String
  key_of (some (words k)) = some k
  key_of _ = none

  abbrev pub is_key : String → Option String → Bool
  is_key k none = false
  is_key k (some j) = str_eq j k

  abbrev pub verified : String → Option (Option Document) → Option (Option Document)
  verified k none = some none
  verified k (some none) = none
  verified k (some (some d)) =
      some (if is_key k (key_of (lookup "_key" d)) then some (remove "_key" d) else none)

  -- A file that cannot be parsed is an exception, `none`; no file, or one of another key, is None.
  unfoldable pub get_document : String → String → Folders → Option (Option Document)
  get_document name k s = verified k (lookup (safe_name k) (folder name s))

  unfoldable pub parsed_documents : List (Option Document) → List Document
  parsed_documents [] = []
  parsed_documents (none ∷ files) = parsed_documents files
  parsed_documents (some d ∷ files) = remove "_key" d ∷ parsed_documents files

  unfoldable pub all_documents : String → Folders → List Document
  unfolding parsed_documents
  all_documents name s = parsed_documents (values (folder name s))

  unfoldable pub find_documents : String → Dict Json → Folders → List Document
  find_documents name equals s = keep (agrees equals) (all_documents name s)

  unfoldable pub delete_document : String → String → Folders → Bool × Folders
  delete_document name k s = (
    has (safe_name k) (folder name s),
    insert (safe_name name) (remove (safe_name k) (folder name s)) s,
  )

-- `FileAuditLog`: a line is an entry, blank, or no entry.
pub data Line : Type 0 where
  entry : AuditEntry → Line
  blank_line corrupt : Line

unfoldable pub append_line : AuditEntry → List Line → List Line
append_line e ls = ls ++ (entry e ∷ [])

unfoldable pub entries : List Line → List AuditEntry
entries [] = []
entries (entry e ∷ ls) = e ∷ entries ls
entries (blank_line ∷ ls) = entries ls
entries (corrupt ∷ ls) = entries ls

unfoldable pub query_lines : Option String → Option String → ℕ → List Line → List AuditEntry
query_lines actor action limit ls = take limit (keep (concerns actor action) (reverse (entries ls)))

-- `open_storage` of src/forge/infrastructure/persistence/__init__.py: which of the three it opens.
pub data Mode : Type 0 where
  mongo on_disk ephemeral : Mode

pub record Storage : Type 0 where
  pub mode : Mode
  pub durable : Bool
  pub degraded : Bool

-- Whether an address is set, whether the database answers, and whether files are allowed.
unfoldable pub open_storage : Bool → Bool → Bool → Storage
open_storage configured reachable allow_file =
    if configured
    then (if reachable
        then record { mode = mongo; durable = true; degraded = false }
        else if allow_file
        then record { mode = on_disk; durable = true; degraded = true }
        else record { mode = ephemeral; durable = false; degraded = true })
    else if allow_file
    then record { mode = on_disk; durable = true; degraded = false }
    else record { mode = ephemeral; durable = false; degraded = true }
