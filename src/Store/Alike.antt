-- ===== src/Store/Alike.antt =====
-- The two document stores under calls, and what the one on files loses.
use package.text.Mathlib.Text.{◌==◌ as str_eq}
use defect_sense.Prelude.{
  ◌≡◌, ◌≢◌, refl, sym, ap, ◌∙◌, String, true, false, Option, none, some, List, [], ◌∷◌, arith, All,
  Bool-cases, inl, inr,
}
use defect_sense.Dict.{
  lookup, insert, has, lookup-insert, lookup-remove, has-none, has-some, eq_iff,
}
use defect_sense.Store.{words, Document}
use defect_sense.Store.Memory
use defect_sense.Store.Memory.{Collections, collection, opened, truthy}
use defect_sense.Store.Files
use defect_sense.Store.Files.{Folders, folder, verified}
use defect_sense.Store.Documents.{
  Call, put, get, delete, Reply, found, deleted, in_memory, on_files, replies, reply_of, folder-put,
  folder-delete,
}
use defect_sense.Store.Agreement.{
  Agree, Fits, kept, put-Agree, delete-Agree, opened-Agree, truthy_plain, verified_own,
}

module _ (safe : String → String) (Known : String → Type 0)
    (apart : (x y : String) → Known x → Known y → safe x ≡ safe y → x ≡ y) where
  -- One call: the replies are one, and the stores agree after it.
  record Alike (c : Call) (m : Collections) (f : Folders) : Type 0 where
    same : (in_memory c m).0 ≡ (on_files safe c f).0
    agree : Agree safe Known apart (in_memory c m).1 (on_files safe c f).1

  step-Alike :
      (c : Call) (m : Collections) (f : Folders)
      → Fits safe Known apart c
      → Agree safe Known apart m f
      → Alike c m f
  unfolding Memory.get_document Memory.delete_document Files.get_document Files.delete_document
  step-Alike (put c k d) m f fits a = record {
    same = refl;
    agree = put-Agree safe Known apart c k d m f fits a;
  }
  step-Alike (get c k) m f (p, q) a = record {
    same = fetched (lookup k (collection c m)) refl;
    agree = opened-Agree safe Known apart c m f a;
  }
    where
      fetched :
          (o : Option Document)
          → lookup k (collection c m) ≡ o
          → found (truthy (lookup k (collection c m)))
            ≡ reply_of (verified safe k (lookup (safe k) (folder safe c f)))
      fetched none e = rw (a.stored c k p q, e) refl
      fetched (some d) e =
          let (filled, unmarked) = a.plain c k d e in
          let held : lookup (safe k) (folder safe c f) ≡ some (some (insert "_key" (words k) d)) =
            a.stored c k p q ∙ ap (kept safe Known apart k) e in
          rw (held, e, truthy_plain d filled) (ap reply_of (sym (verified_own safe k d unmarked)))
  step-Alike (delete c k) m f (p, q) a = record {
    same = gone (lookup k (collection c m)) refl;
    agree = delete-Agree safe Known apart c k m f p q a;
  }
    where
      gone :
          (o : Option Document)
          → lookup k (collection c m) ≡ o
          → deleted (has k (collection c m)) ≡ deleted (has (safe k) (folder safe c f))
      gone none e =
          rw
            (
              has-none k (collection c m) e,
              has-none (safe k) (folder safe c f)
                  (a.stored c k p q ∙ ap (kept safe Known apart k) e),
            )
            refl
      gone (some d) e =
          rw
            (
              has-some k d (collection c m) e,
              has-some (safe k) _ (folder safe c f)
                  (a.stored c k p q ∙ ap (kept safe Known apart k) e),
            )
            refl

  replies-eq :
      (calls : List Call) (m : Collections) (f : Folders)
      → All (Fits safe Known apart) calls
      → Agree safe Known apart m f
      → replies in_memory calls m ≡ replies (on_files safe) calls f
  replies-eq [] m f h a = refl
  replies-eq (c ∷ cs) m f (fits, rest) a =
      let s = step-Alike c m f fits a in
      rw s.same (
        ap (λ (rs : List Reply). (on_files safe c f).0 ∷ rs)
          (replies-eq cs (in_memory c m).1 (on_files safe c f).1 rest s.agree))

  -- From empty stores, puts, gets and deletes with names that the files tell apart, and documents that are not empty and
  -- do not have the key `_key`, are answered by the store on files as by the one in memory, whatever was
  -- put, read and deleted before; none of them raises.
  pub stores_agree :
      (calls : List Call)
      → All (Fits safe Known apart) calls
      → replies in_memory calls [] ≡ replies (on_files safe) calls []
  unfolding lookup
  stores_agree calls fits =
      replies-eq calls [] [] fits
        (record { stored = λ c k p q. refl; plain = λ c k d h. absurd (ground arith) })

differ_false : (k j : String) → k ≢ j → str_eq k j ≡ false
differ_false k j h = elim (Bool-cases (str_eq k j)) [
  | inl same ↦ absurd (h ((eq_iff k j).0 same))
  | inr other ↦ other
]

-- The file under the name of a key, after a document is put under another key of that name.
lookup-put :
    (safe : String → String) (c k j : String) (d : Document) (s : Folders)
    → safe k ≡ safe j
    → lookup (safe j) (folder safe c (Files.put_document safe c k d s))
      ≡ some (some (insert "_key" (words k) d))
lookup-put safe c k j d s joined =
    rw
      (
        folder-put safe c k c d s,
        (eq_iff (safe c) (safe c)).1 refl,
        lookup-insert (safe k) (safe j) (some (insert "_key" (words k) d)) (folder safe c s),
        (eq_iff (safe k) (safe j)).1 joined,
      )
      refl

lookup-delete :
    (safe : String → String) (c k j : String) (s : Folders)
    → safe k ≡ safe j
    → lookup (safe j) (folder safe c (Files.delete_document safe c k s).1) ≡ none
lookup-delete safe c k j s joined =
    rw
      (
        folder-delete safe c k c s,
        (eq_iff (safe c) (safe c)).1 refl,
        lookup-remove (safe k) (safe j) (folder safe c s),
        (eq_iff (safe k) (safe j)).1 joined,
      )
      refl

-- Two keys of one file name do not share the store on files: a document that is put under one of them
-- is gone once a document is put under the other, and a call that deletes the other one reports that it
-- did and deletes it.
pub collision_loses :
    (safe : String → String) (c k j : String) (d e : Document) (s : Folders)
    → k ≢ j
    → safe k ≡ safe j
    → (Files.get_document safe c j (Files.put_document safe c k e (Files.put_document safe c j d s))
        ≡ some none)
      × ((Files.delete_document safe c k (Files.put_document safe c j d s)).0 ≡ true)
      × (Files.get_document safe c j
            (Files.delete_document safe c k (Files.put_document safe c j d s)).1
          ≡ some none)
unfolding Files.get_document Files.delete_document
collision_loses safe c k j d e s differ joined =
    let first = Files.put_document safe c j d s in
    (
      rw
          (
            lookup-put safe c k j e first joined,
            lookup-insert "_key" "_key" (words k) e,
            differ_false k j differ,
          )
          refl,
      has-some (safe k) _ (folder safe c first) (lookup-put safe c j k d s (sym joined)),
      rw (lookup-delete safe c k j first joined) refl,
    )
