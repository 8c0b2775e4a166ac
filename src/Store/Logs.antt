-- ===== src/Store/Logs.antt =====
-- The audit logs: what a query answers after a record.
use mathlib.Core.List.{reverse, reverse-append}
use defect_sense.Prelude.{
  ℕ, zero, suc, ◌≡◌, refl, sym, ap, ◌∙◌, String, Option, List, [], ◌∷◌, take, Bool-cases, inl, inr,
  if◌then◌else◌,
}
use defect_sense.Prelude.Sort.{keep}
use defect_sense.Store.{AuditEntry, concerns}
use defect_sense.Store.Memory.{AuditLog, record_entry, query}
use defect_sense.Store.Files.{Line, entry, blank_line, corrupt, append_line, entries, query_lines}

take_short {ℓ} : {A : Type ℓ} (n : ℕ) (xs : List A) → take n (take (suc n) xs) ≡ take n xs
take_short zero xs = refl
take_short (suc n) [] = refl
take_short (suc n) (x ∷ xs) = ap (◌∷◌ x) (take_short n xs)

-- The first n of a list with one more in front need the first n of the rest only.
take_cons {ℓ} :
    {A : Type ℓ} (n : ℕ) (x : A) (xs : List A) → take n (x ∷ take n xs) ≡ take n (x ∷ xs)
take_cons zero x xs = refl
take_cons (suc n) x xs = ap (◌∷◌ x) (take_short n xs)

query-record_entry :
    (actor action : Option String) (limit : ℕ) (e : AuditEntry) (log : AuditLog)
    → query actor action limit (record_entry e log) ≡ (
        if concerns actor action e
        then take limit (e ∷ query actor action limit log)
        else query actor action limit log)
unfolding query record_entry keep
query-record_entry actor action limit e log = elim (Bool-cases (concerns actor action e)) [
  | inl hit ↦
      rw (reverse-append log (e ∷ []), hit)
        (sym (take_cons limit e (keep (concerns actor action) (reverse log))))
  | inr miss ↦ rw (reverse-append log (e ∷ []), miss) refl
]

entries-append :
    (ls : List Line) (e : AuditEntry) → entries (append_line e ls) ≡ record_entry e (entries ls)
unfolding entries append_line record_entry
entries-append [] e = refl
entries-append (entry a ∷ ls) e = ap (◌∷◌ a) (entries-append ls e)
entries-append (blank_line ∷ ls) e = entries-append ls e
entries-append (corrupt ∷ ls) e = entries-append ls e

query_lines-eq :
    (actor action : Option String) (limit : ℕ) (ls : List Line)
    → query_lines actor action limit ls ≡ query actor action limit (entries ls)
unfolding query query_lines
query_lines-eq actor action limit ls = refl

-- After a record, on a file with lines that are blank or no entries among the others, a query puts the
-- new entry in front of what it answered before, where the entry is one that it asks for, keeps to its
-- limit, and loses nothing else; and it is what the log in memory with the same entries answers.
pub newest_first :
    (actor action : Option String) (limit : ℕ) (e : AuditEntry) (ls : List Line)
    → (query_lines actor action limit (append_line e ls) ≡ (
        if concerns actor action e
        then take limit (e ∷ query_lines actor action limit ls)
        else query_lines actor action limit ls))
      × (query_lines actor action limit (append_line e ls)
          ≡ query actor action limit (record_entry e (entries ls)))
newest_first actor action limit e ls =
    let appended : query_lines actor action limit (append_line e ls)
        ≡ query actor action limit (record_entry e (entries ls)) =
      query_lines-eq actor action limit (append_line e ls)
      ∙ ap (query actor action limit) (entries-append ls e) in
    (
      appended
          ∙ rw (query_lines-eq actor action limit ls)
              (query-record_entry actor action limit e (entries ls)),
      appended,
    )
