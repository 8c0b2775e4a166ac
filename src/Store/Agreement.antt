-- ===== src/Store/Agreement.antt =====
-- Where the two document stores answer alike, and where the one on files loses documents.
use package.text.Mathlib.Text.{◌==◌ as str_eq}
use mathlib.Core.Path.{subst}
use defect_sense.Prelude.{
  ◌≡◌, ◌≢◌, refl, sym, ◌∙◌, String, true, false, Option, none, some, [], ◌∷◌, arith, Bool-cases,
  ◌⊎◌, inl, inr, if◌then◌else◌, some_inj,
}
use defect_sense.Dict.{lookup, insert, remove, lookup-insert, lookup-remove, eq_iff}
use defect_sense.Store.{Json, words, Document}
use defect_sense.Store.Memory
use defect_sense.Store.Memory.{Collections, collection, opened, truthy}
use defect_sense.Store.Files
use defect_sense.Store.Files.{Folders, folder, verified}
use defect_sense.Store.Documents.{
  Call, put, get, delete, collection-put, collection-delete, collection-opened, folder-put,
  folder-delete,
}

remove_absent : (k : String) (d : Document) → lookup k d ≡ none → remove k d ≡ d
unfolding lookup remove
remove_absent k [] h = refl
remove_absent k ((j, v) ∷ d) h = ground (arith, remove_absent k d)

pub remove-insert_new :
    (k : String) (v : Json) (d : Document) → lookup k d ≡ none → remove k (insert k v d) ≡ d
unfolding lookup insert remove
remove-insert_new k v [] h = rw ((eq_iff k k).1 refl) refl
remove-insert_new k v ((j, w) ∷ d) h = ground (arith, remove-insert_new k v d, eq_iff j k)

-- A document that both stores can hold: not empty, and without the key that marks its file.
abbrev pub IsPlain : Document → Type 0
IsPlain d = (d ≢ []) × (lookup "_key" d ≡ none)

pub truthy_plain : (d : Document) → d ≢ [] → truthy (some d) ≡ some d
truthy_plain [] h = absurd (h refl)
truthy_plain (e ∷ d) h = refl

pub verified_own :
    (safe : String → String) (k : String) (d : Document)
    → lookup "_key" d ≡ none
    → verified safe k (some (some (insert "_key" (words k) d))) ≡ some (some d)
verified_own safe k d h =
    rw
      (
        lookup-insert "_key" "_key" (words k) d,
        (eq_iff k k).1 refl,
        remove-insert_new "_key" (words k) d h,
      )
      refl

module _ (safe : String → String) (Known : String → Type 0)
    (apart : (x y : String) → Known x → Known y → safe x ≡ safe y → x ≡ y) where
  safe_eq : (x y : String) → Known x → Known y → str_eq (safe x) (safe y) ≡ str_eq x y
  safe_eq x y p q = elim (Bool-cases (str_eq x y)) [
    | inl same ↦
        rw ((eq_iff x y).0 same, (eq_iff (safe y) (safe y)).1 refl, (eq_iff y y).1 refl) refl
    | inr differ ↦ elim (Bool-cases (str_eq (safe x) (safe y))) [
      | inr apart' ↦ apart' ∙ sym differ
      | inl joined ↦
          joined ∙ sym ((eq_iff x y).1 (apart x y p q ((eq_iff (safe x) (safe y)).0 joined)))
    ]
  ]

  abbrev pub kept : String → Option Document → Option (Option Document)
  kept k none = none
  kept k (some d) = some (some (insert "_key" (words k) d))

  pub record Agree (m : Collections) (f : Folders) : Type 0 where
    pub stored :
        (c k : String)
        → Known c
        → Known k
        → lookup (safe k) (folder safe c f) ≡ kept k (lookup k (collection c m))
    pub plain : (c k : String) (d : Document) → lookup k (collection c m) ≡ some d → IsPlain d

  -- A call with names that the files tell apart; a document that is put is plain.
  abbrev pub Fits : Call → Type 0
  Fits (put c k d) = Known c × Known k × IsPlain d
  Fits (get c k) = Known c × Known k
  Fits (delete c k) = Known c × Known k

  pub put-Agree :
      (c k : String) (d : Document) (m : Collections) (f : Folders)
      → Fits (put c k d)
      → Agree m f
      → Agree (Memory.put_document c k d m) (Files.put_document safe c k d f)
  put-Agree c k d m f (p, q, good) a = record {
    stored =
        λ c' k' p' q'. in_folder c' k' p' q' (Bool-cases (str_eq c c')) (Bool-cases (str_eq k k'));
    plain =
        λ c' k' d' h. still_plain c' k' d' h (Bool-cases (str_eq c c')) (Bool-cases (str_eq k k'));
  }
    where
      in_folder :
          (c' k' : String)
          → Known c'
          → Known k'
          → (str_eq c c' ≡ true) ⊎ (str_eq c c' ≡ false)
          → (str_eq k k' ≡ true) ⊎ (str_eq k k' ≡ false)
          → lookup (safe k') (folder safe c' (Files.put_document safe c k d f))
            ≡ kept k' (lookup k' (collection c' (Memory.put_document c k d m)))
      in_folder c' k' p' q' (inr differ) _ =
          rw (folder-put safe c k c' d f, safe_eq c c' p p', collection-put c k c' d m, differ)
            (a.stored c' k' p' q')
      in_folder c' k' p' q' (inl same) key =
          rw
            (
              folder-put safe c k c' d f,
              safe_eq c c' p p',
              collection-put c k c' d m,
              same,
              lookup-insert (safe k) (safe k') (some (insert "_key" (words k) d)) (folder safe c f),
              lookup-insert k k' d (collection c m),
              safe_eq k k' q q',
            )
            (at_key key)
        where
          at_key :
              (str_eq k k' ≡ true) ⊎ (str_eq k k' ≡ false)
              → (if str_eq k k'
                  then some (some (insert "_key" (words k) d))
                  else lookup (safe k') (folder safe c f))
                ≡ kept k' (if str_eq k k' then some d else lookup k' (collection c m))
          at_key (inl e) = rw (e, (eq_iff k k').0 e) refl
          at_key (inr e) = rw e (a.stored c k' p q')

      still_plain :
          (c' k' : String) (d' : Document)
          → lookup k' (collection c' (Memory.put_document c k d m)) ≡ some d'
          → (str_eq c c' ≡ true) ⊎ (str_eq c c' ≡ false)
          → (str_eq k k' ≡ true) ⊎ (str_eq k k' ≡ false)
          → IsPlain d'
      still_plain c' k' d' h (inr differ) _ =
          a.plain c' k' d' (rw (collection-put c k c' d m, differ) at h)
      still_plain c' k' d' h (inl same) (inl e) =
          subst IsPlain
            (some_inj
              (rw (collection-put c k c' d m, same, lookup-insert k k' d (collection c m), e) at h))
            good
      still_plain c' k' d' h (inl same) (inr e) =
          a.plain c k' d'
            (rw (collection-put c k c' d m, same, lookup-insert k k' d (collection c m), e) at h)

  pub delete-Agree :
      (c k : String) (m : Collections) (f : Folders)
      → Known c
      → Known k
      → Agree m f
      → Agree (Memory.delete_document c k m).1 (Files.delete_document safe c k f).1
  delete-Agree c k m f p q a = record {
    stored =
        λ c' k' p' q'. in_folder c' k' p' q' (Bool-cases (str_eq c c')) (Bool-cases (str_eq k k'));
    plain =
        λ c' k' d' h. still_plain c' k' d' h (Bool-cases (str_eq c c')) (Bool-cases (str_eq k k'));
  }
    where
      in_folder :
          (c' k' : String)
          → Known c'
          → Known k'
          → (str_eq c c' ≡ true) ⊎ (str_eq c c' ≡ false)
          → (str_eq k k' ≡ true) ⊎ (str_eq k k' ≡ false)
          → lookup (safe k') (folder safe c' (Files.delete_document safe c k f).1)
            ≡ kept k' (lookup k' (collection c' (Memory.delete_document c k m).1))
      in_folder c' k' p' q' (inr differ) _ =
          rw (folder-delete safe c k c' f, safe_eq c c' p p', collection-delete c k c' m, differ)
            (a.stored c' k' p' q')
      in_folder c' k' p' q' (inl same) (inl e) =
          rw
            (
              folder-delete safe c k c' f,
              safe_eq c c' p p',
              collection-delete c k c' m,
              same,
              lookup-remove (safe k) (safe k') (folder safe c f),
              lookup-remove k k' (collection c m),
              safe_eq k k' q q',
              e,
            )
            refl
      in_folder c' k' p' q' (inl same) (inr e) =
          rw
            (
              folder-delete safe c k c' f,
              safe_eq c c' p p',
              collection-delete c k c' m,
              same,
              lookup-remove (safe k) (safe k') (folder safe c f),
              lookup-remove k k' (collection c m),
              safe_eq k k' q q',
              e,
            )
            (a.stored c k' p q')

      still_plain :
          (c' k' : String) (d' : Document)
          → lookup k' (collection c' (Memory.delete_document c k m).1) ≡ some d'
          → (str_eq c c' ≡ true) ⊎ (str_eq c c' ≡ false)
          → (str_eq k k' ≡ true) ⊎ (str_eq k k' ≡ false)
          → IsPlain d'
      still_plain c' k' d' h (inr differ) _ =
          a.plain c' k' d' (rw (collection-delete c k c' m, differ) at h)
      still_plain c' k' d' h (inl same) (inl e) = absurd (
          none_some
            (rw (collection-delete c k c' m, same, lookup-remove k k' (collection c m), e) at h))
        where
          none_some : none ≡ some d' → ⊥
          none_some i = cc
      still_plain c' k' d' h (inl same) (inr e) =
          a.plain c k' d'
            (rw (collection-delete c k c' m, same, lookup-remove k k' (collection c m), e) at h)

  pub opened-Agree : (c : String) (m : Collections) (f : Folders) → Agree m f → Agree (opened c m) f
  opened-Agree c m f a = record {
    stored = λ c' k' p' q'. rw (collection-opened c c' m) (a.stored c' k' p' q');
    plain = λ c' k' d' h. a.plain c' k' d' (rw (collection-opened c c' m) at h);
  }
