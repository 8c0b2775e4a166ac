-- ===== src/Store/Bounded.antt =====
-- The bounded repository in memory: which records it keeps.
use package.text.Mathlib.Text.{◌==◌ as str_eq}
use defect_sense.Prelude.{
  ℕ, zero, suc, ◌-◌, ◌≤◌, ◌≡◌, refl, sym, ap, ◌∙◌, String, Bool, true, false, none, some, List, [],
  ◌∷◌, ◌++◌, ◌||◌, arith, length, take, drop, ltb, Bool-cases, Option-cases, ◌⊎◌, inl, inr,
  if◌then◌else◌,
}
use defect_sense.Prelude.Sort.{some_of}
use defect_sense.Dict.{
  Dict, lookup, insert, remove, has, lookup-insert, lookup-remove, lookup_of_has, has-none,
  has-some, eq_iff,
}
use defect_sense.Store.{Inspection}
use defect_sense.Store.Memory.{InMemoryInspectionRepository, evict, order_with, save, get}

-- k in ks
abbrev pub member : String → List String → Bool
member k ks = some_of (str_eq k) ks

abbrev pub NoTwice : List String → Type 0
NoTwice [] = Unit
NoTwice (k ∷ ks) = (member k ks ≡ false) × NoTwice ks

member-append :
    (k : String) (xs ys : List String) → member k (xs ++ ys) ≡ (member k xs || member k ys)
unfolding some_of
member-append k [] ys = refl
member-append k (x ∷ xs) ys = ground (arith, member-append k xs ys)

member-take-drop :
    (k : String) (n : ℕ) (xs : List String)
    → member k xs ≡ (member k (take n xs) || member k (drop n xs))
unfolding some_of
member-take-drop k zero xs = refl
member-take-drop k (suc n) [] = refl
member-take-drop k (suc n) (x ∷ xs) = ground (arith, member-take-drop k n xs)

NoTwice-append :
    (xs : List String) (k : String) → NoTwice xs → member k xs ≡ false → NoTwice (xs ++ (k ∷ []))
unfolding some_of
NoTwice-append [] k h fresh = (refl, tt)
NoTwice-append (x ∷ xs) k (h, hs) fresh = (
  ground (arith, member-append x xs (k ∷ []), eq_iff x k, eq_iff k x),
  NoTwice-append xs k hs (ground arith),
)

NoTwice-drop : (n : ℕ) (xs : List String) → NoTwice xs → NoTwice (drop n xs)
NoTwice-drop zero xs h = h
NoTwice-drop (suc n) [] h = tt
NoTwice-drop (suc n) (x ∷ xs) h = NoTwice-drop n xs h.1

-- A key in front of a place does not stand behind it.
take-drop_apart :
    (k : String) (n : ℕ) (xs : List String)
    → NoTwice xs
    → member k (take n xs) ≡ true
    → member k (drop n xs) ≡ false
unfolding some_of
take-drop_apart k zero xs h m = absurd (ground arith)
take-drop_apart k (suc n) [] h m = absurd (ground arith)
take-drop_apart k (suc n) (x ∷ xs) (h, hs) m = elim (Bool-cases (str_eq k x)) [
  | inl same ↦ rw ((eq_iff k x).0 same) (ground (arith, member-take-drop x n xs))
  | inr other ↦ take-drop_apart k n xs hs (ground arith)
]

length-drop {ℓ} : {A : Type ℓ} (n : ℕ) (xs : List A) → length (drop n xs) ≡ length xs - n
length-drop zero xs = omega arith
length-drop (suc n) [] = omega arith
length-drop (suc n) (x ∷ xs) = omega (arith, length-drop n xs)

drop_nil {ℓ} : {A : Type ℓ} (n : ℕ) → drop {A = A} n [] ≡ []
drop_nil zero = refl
drop_nil (suc n) = refl

take_nil {ℓ} : {A : Type ℓ} (n : ℕ) → take {A = A} n [] ≡ []
take_nil zero = refl
take_nil (suc n) = refl

one_more : (limit n : ℕ) → ltb limit (suc n) ≡ true → suc n - limit ≡ suc (n - limit)
one_more limit n h = ground arith

none_left : (limit n : ℕ) → ltb limit (suc n) ≡ false → suc n - limit ≡ 0
none_left limit n h = ground arith

module _ {R : Type 0} where
  evict-order :
      (limit : ℕ) (ks : List String) (d : Dict (Inspection R))
      → (evict limit ks d).0 ≡ drop (length ks - limit) ks
  unfolding evict
  evict-order limit [] d = sym (drop_nil (0 - limit))
  evict-order limit (k ∷ ks) d = elim (Bool-cases (ltb limit (length (k ∷ ks)))) [
    | inl over ↦ rw over (rw (one_more limit (length ks) over) (evict-order limit ks (remove k d)))
    | inr within ↦ rw within (rw (none_left limit (length ks) within) refl)
  ]

  evict-lookup :
      (limit : ℕ) (ks : List String) (d : Dict (Inspection R)) (j : String)
      → lookup j (evict limit ks d).1
        ≡ (if member j (take (length ks - limit) ks) then none else lookup j d)
  unfolding evict some_of
  evict-lookup limit [] d j = rw (take_nil {A = String} (0 - limit)) refl
  evict-lookup limit (k ∷ ks) d j = elim (Bool-cases (ltb limit (length (k ∷ ks)))) [
    | inl over ↦ rw over (
        rw
          (
            one_more limit (length ks) over,
            evict-lookup limit ks (remove k d) j,
            lookup-remove k j d,
          )
          (either (member j (take (length ks - limit) ks))))
    | inr within ↦ rw within (rw (none_left limit (length ks) within) refl)
  ]
    where
      either :
          (b : Bool)
          → (if b then none else if str_eq k j then none else lookup j d)
            ≡ (if if str_eq j k then true else b then none else lookup j d)
      either b = ground (arith, eq_iff k j, eq_iff j k)

  -- At most `max_records` identifiers, each once, and exactly those of the records held.
  pub record IsSound (r : InMemoryInspectionRepository R) : Type 0 where
    pub bounded : length r.order ≤ r.max_records
    pub distinct : NoTwice r.order
    pub same : (k : String) → has k r.states ≡ member k r.order

  -- The order before the eviction.
  abbrev pub queued : Inspection R → InMemoryInspectionRepository R → List String
  queued s r = order_with s.correlation_id (has s.correlation_id r.states) r.order

  module _ (s : Inspection R) (r : InMemoryInspectionRepository R) (sound : IsSound r) where
    order_with-NoTwice :
        (b : Bool)
        → has s.correlation_id r.states ≡ b
        → NoTwice (order_with s.correlation_id b r.order)
    order_with-NoTwice true e = sound.distinct
    order_with-NoTwice false e =
        NoTwice-append r.order s.correlation_id sound.distinct
          (sym (sound.same s.correlation_id) ∙ e)

    member-order_with :
        (j : String) (b : Bool)
        → has s.correlation_id r.states ≡ b
        → member j (order_with s.correlation_id b r.order)
          ≡ (str_eq s.correlation_id j || member j r.order)
    unfolding some_of
    member-order_with j true e =
        known (sym (sound.same s.correlation_id) ∙ e) (Bool-cases (str_eq s.correlation_id j))
      where
        known :
            member s.correlation_id r.order ≡ true
            → (str_eq s.correlation_id j ≡ true) ⊎ (str_eq s.correlation_id j ≡ false)
            → member j r.order ≡ (str_eq s.correlation_id j || member j r.order)
        known m (inl same) = rw same (rw (← (eq_iff s.correlation_id j).0 same) m)
        known m (inr other) = rw other refl
    member-order_with j false e = ground (
      arith,
      member-append j r.order (s.correlation_id ∷ []),
      eq_iff s.correlation_id j,
      eq_iff j s.correlation_id,
    )

    save-order : (save s r).order ≡ drop (length (queued s r) - r.max_records) (queued s r)
    unfolding save
    save-order = evict-order r.max_records (queued s r) (insert s.correlation_id s r.states)

    lookup-save :
        (k : String)
        → lookup k (save s r).states ≡ (
            if member k (take (length (queued s r) - r.max_records) (queued s r))
            then none
            else if str_eq s.correlation_id k
            then some s
            else lookup k r.states)
    unfolding save
    lookup-save k =
        evict-lookup r.max_records (queued s r) (insert s.correlation_id s r.states) k
        ∙ rw (lookup-insert s.correlation_id k s r.states) refl

    queued_rest :
        (k : String) (b : Bool)
        → member k (take (length (queued s r) - r.max_records) (queued s r)) ≡ b
        → member k (drop (length (queued s r) - r.max_records) (queued s r))
          ≡ (if b then false else str_eq s.correlation_id k || member k r.order)
    queued_rest k true e =
        take-drop_apart k (length (queued s r) - r.max_records) (queued s r)
          (order_with-NoTwice (has s.correlation_id r.states) refl) e
    queued_rest k false e =
        sym (member-take-drop k (length (queued s r) - r.max_records) (queued s r) ∙ rw e refl)
        ∙ member-order_with k (has s.correlation_id r.states) refl

    -- A record is found after a save exactly where its identifier is among those kept: the record that
    -- was saved, or else what was found before.
    pub get-save :
        (k : String)
        → get k (save s r) ≡ (
            if member k (save s r).order
            then if str_eq s.correlation_id k then some s else get k r
            else none)
    unfolding get
    get-save k =
        elim (Bool-cases (member k (take (length (queued s r) - r.max_records) (queued s r)))) [
          | inl out ↦ rw (lookup-save k, save-order, out, queued_rest k true out) refl
          | inr kept ↦
              rw (lookup-save k, save-order, kept, queued_rest k false kept)
                (found (Bool-cases (str_eq s.correlation_id k)) (Bool-cases (member k r.order)))
        ]
      where
        found :
            (str_eq s.correlation_id k ≡ true) ⊎ (str_eq s.correlation_id k ≡ false)
            → (member k r.order ≡ true) ⊎ (member k r.order ≡ false)
            → (if str_eq s.correlation_id k then some s else lookup k r.states) ≡ (
                if str_eq s.correlation_id k || member k r.order
                then if str_eq s.correlation_id k then some s else lookup k r.states
                else none)
        found (inl same) _ = rw same refl
        found (inr other) (inl known) = rw (other, known) refl
        found (inr other) (inr unknown) =
            rw (other, unknown) (lookup_of_has k r.states (sound.same k ∙ unknown))

    still_known :
        (k : String)
        → member k (save s r).order ≡ true
        → str_eq s.correlation_id k ≡ false
        → member k r.order ≡ true
    still_known k here other =
        elim (Bool-cases (member k (take (length (queued s r) - r.max_records) (queued s r)))) [
          | inl out ↦
              absurd
                (false_true (sym (queued_rest k true out) ∙ sym (ap (member k) save-order) ∙ here))
          | inr kept ↦
              rw other at (sym (queued_rest k false kept) ∙ sym (ap (member k) save-order) ∙ here)
        ]
      where
        false_true : false ≡ true → ⊥
        false_true e = cc

    has-save : (k : String) → has k (save s r).states ≡ member k (save s r).order
    unfolding get
    has-save k = elim (Bool-cases (member k (save s r).order)) [
      | inr gone ↦ has-none k (save s r).states (get-save k ∙ rw gone refl) ∙ sym gone
      | inl here ↦ elim (Bool-cases (str_eq s.correlation_id k)) [
        | inl same ↦ has-some k s (save s r).states (get-save k ∙ rw (here, same) refl) ∙ sym here
        | inr other ↦ elim (Option-cases (lookup k r.states)) [
          | inl missing ↦ absurd (
              false_true
                (sym (has-none k r.states missing) ∙ sound.same k ∙ still_known k here other))
          | inr (t, old) ↦
              has-some k t (save s r).states (get-save k ∙ rw (here, other, old) refl) ∙ sym here
        ]
      ]
    ]
      where
        false_true : false ≡ true → ⊥
        false_true e = cc

    -- A save keeps the repository sound, and evicts from the front: what stays is the newest
    -- `max_records` of the identifiers in the order in which they were first saved.
    pub save-IsSound :
        IsSound (save s r)
        × ((save s r).order ≡ drop (length (queued s r) - r.max_records) (queued s r))
    unfolding save
    save-IsSound = (
      record {
        bounded =
            rw save-order
              (omega (arith, length-drop {0} (length (queued s r) - r.max_records) (queued s r)));
        distinct = rw save-order (
            NoTwice-drop (length (queued s r) - r.max_records) (queued s r)
              (order_with-NoTwice (has s.correlation_id r.states) refl));
        same = has-save;
      },
      save-order,
    )
