-- ===== src/Store/Documents.antt =====
-- The two document stores against each other.
use package.text.Mathlib.Text.{◌==◌ as str_eq}
use defect_sense.Prelude.{
  ◌≡◌, refl, String, Bool, Option, none, some, List, [], ◌∷◌, Bool-cases, Option-cases, inl, inr,
  if◌then◌else◌,
}
use defect_sense.Dict.{Dict, lookup, insert, remove, lookup-insert, eq_iff}
use defect_sense.Store.{words, Document}
use defect_sense.Store.Memory
use defect_sense.Store.Memory.{Collections, collection, opened, truthy}
use defect_sense.Store.Files
use defect_sense.Store.Files.{Folders, folder, verified}

pub data Call : Type 0 where
  put : String → String → Document → Call
  get delete : String → String → Call

-- What a call answers; `raised` is the exception of a file that cannot be parsed.
pub data Reply : Type 0 where
  done raised : Reply
  found : Option Document → Reply
  deleted : Bool → Reply

abbrev pub in_memory : Call → Collections → Reply × Collections
in_memory (put c k d) s = (done, Memory.put_document c k d s)
in_memory (get c k) s = let (answer, s') = Memory.get_document c k s in (found answer, s')
in_memory (delete c k) s = let (answer, s') = Memory.delete_document c k s in (deleted answer, s')

abbrev pub reply_of : Option (Option Document) → Reply
reply_of none = raised
reply_of (some answer) = found answer

abbrev pub replies {ℓ} : {S : Type ℓ} → (Call → S → Reply × S) → List Call → S → List Reply
replies step [] s = []
replies step (c ∷ cs) s = let (r, s') = step c s in r ∷ replies step cs s'

pub collection-put :
    (c k c' : String) (d : Document) (s : Collections)
    → collection c' (Memory.put_document c k d s)
      ≡ (if str_eq c c' then insert k d (collection c s) else collection c' s)
unfolding Memory.put_document
collection-put c k c' d s = elim (Bool-cases (str_eq c c')) [
  | inl same ↦ rw (lookup-insert c c' (insert k d (collection c s)) s, same) refl
  | inr apart ↦ rw (lookup-insert c c' (insert k d (collection c s)) s, apart) refl
]

pub collection-delete :
    (c k c' : String) (s : Collections)
    → collection c' (Memory.delete_document c k s).1
      ≡ (if str_eq c c' then remove k (collection c s) else collection c' s)
unfolding Memory.delete_document
collection-delete c k c' s = elim (Bool-cases (str_eq c c')) [
  | inl same ↦ rw (lookup-insert c c' (remove k (collection c s)) s, same) refl
  | inr apart ↦ rw (lookup-insert c c' (remove k (collection c s)) s, apart) refl
]

opened_new : (c : String) (s : Collections) → lookup c s ≡ none → opened c s ≡ insert c [] s
unfolding opened
opened_new c s h = rw (h, opened) refl

opened_old :
    (c : String) (d : Dict Document) (s : Collections) → lookup c s ≡ some d → opened c s ≡ s
unfolding opened
opened_old c d s h = rw (h, opened) refl

pub collection-opened :
    (c c' : String) (s : Collections) → collection c' (opened c s) ≡ collection c' s
collection-opened c c' s = elim (Option-cases (lookup c s)) [
  | inr (d, old) ↦ rw (opened_old c d s old) refl
  | inl new ↦ elim (Bool-cases (str_eq c c')) [
    | inl same ↦
        rw (opened_new c s new, lookup-insert c c' [] s, same, ← (eq_iff c c').0 same, new) refl
    | inr apart ↦ rw (opened_new c s new, lookup-insert c c' [] s, apart) refl
  ]
]

module _ (safe : String → String) where
  abbrev pub on_files : Call → Folders → Reply × Folders
  on_files (put c k d) s = (done, Files.put_document safe c k d s)
  on_files (get c k) s = (reply_of (Files.get_document safe c k s), s)
  on_files (delete c k) s =
      let (answer, s') = Files.delete_document safe c k s in (deleted answer, s')

  pub folder-put :
      (c k c' : String) (d : Document) (s : Folders)
      → folder safe c' (Files.put_document safe c k d s) ≡ (
          if str_eq (safe c) (safe c')
          then insert (safe k) (some (insert "_key" (words k) d)) (folder safe c s)
          else folder safe c' s)
  unfolding Files.put_document
  folder-put c k c' d s = elim (Bool-cases (str_eq (safe c) (safe c'))) [
    | inl same ↦
        rw
          (
            lookup-insert (safe c) (safe c')
                (insert (safe k) (some (insert "_key" (words k) d)) (folder safe c s)) s,
            same,
          )
          refl
    | inr apart ↦
        rw
          (
            lookup-insert (safe c) (safe c')
                (insert (safe k) (some (insert "_key" (words k) d)) (folder safe c s)) s,
            apart,
          )
          refl
  ]

  pub folder-delete :
      (c k c' : String) (s : Folders)
      → folder safe c' (Files.delete_document safe c k s).1 ≡ (
          if str_eq (safe c) (safe c') then remove (safe k) (folder safe c s) else folder safe c' s)
  unfolding Files.delete_document
  folder-delete c k c' s = elim (Bool-cases (str_eq (safe c) (safe c'))) [
    | inl same ↦
        rw (lookup-insert (safe c) (safe c') (remove (safe k) (folder safe c s)) s, same) refl
    | inr apart ↦
        rw (lookup-insert (safe c) (safe c') (remove (safe k) (folder safe c s)) s, apart) refl
  ]
