-- ===== src/RateLimit/History.antt =====
-- The deque of one subject through time: what it has forgotten, and that no window overflows.
use defect_sense.Prelude.{
  ℕ, ◌+◌, ◌≤◌, ◌≡◌, refl, ap, sym, ◌∙◌, String, Bool, false, none, some, List, [], ◌∷◌, ◌++◌, ◌&&◌,
  length, leb, ltb, if◌then◌else◌, Bool-cases, All, All-append, All-imp, length-append, ◌<◌, inl,
  inr, arith, Option,
}
use defect_sense.Prelude.Sort.{keep}
use defect_sense.RateLimit.{Decision, drop_expired, check_hits, refuse}
use mathlib.Core.List.{append_assoc, append-nil}

abbrev pub is_allowed : Option Decision → Bool
is_allowed none = false
is_allowed (some d) = d.allowed

-- t lies in the window [s, s + window)
abbrev pub within : ℕ → ℕ → ℕ → Bool
within window s t = leb s t && ltb t (s + window)

-- The times let through so far are those forgotten, which are out of the window, and the deque; and
-- no window has more than the limit.
pub record IsHistory (window limit last : ℕ) (forgotten hits : List ℕ) : Type 0 where
  pub gone : All (λ t. t + window ≤ last) forgotten
  pub few : length hits ≤ limit
  pub each : (s : ℕ) → length (keep (within window s) (forgotten ++ hits)) ≤ limit

-- What a deque loses is out of the window.
pub record Dropped (window now : ℕ) (hits kept : List ℕ) : Type 0 where
  pub lost : List ℕ
  pub parts : hits ≡ lost ++ kept
  pub old : All (λ t. t + window ≤ now) lost

module _ {ℓ} {A : Type ℓ} (p : A → Bool) where
  length-keep-append :
      (xs ys : List A) → length (keep p (xs ++ ys)) ≡ length (keep p xs) + length (keep p ys)
  unfolding keep
  length-keep-append [] ys = omega arith
  length-keep-append (x ∷ xs) ys = ground (arith, length-keep-append xs ys)

  length-keep-le : (xs : List A) → length (keep p xs) ≤ length xs
  unfolding keep
  length-keep-le [] = omega arith
  length-keep-le (x ∷ xs) = ground (arith, length-keep-le xs)

pub dropped :
    (window now : ℕ) (hits : List ℕ) → Dropped window now hits (drop_expired window now hits)
unfolding drop_expired
dropped window now [] = record { lost = []; parts = refl; old = tt }
dropped window now (t ∷ ts) = elim (Bool-cases (leb (t + window) now)) [
  | inl old ↦ rw old (
      let rest = dropped window now ts in
      record {
        lost = t ∷ rest.lost;
        parts = ap {B = List ℕ} (λ r. t ∷ r) rest.parts;
        old = (ground arith, rest.old);
      })
  | inr live ↦ rw live record { lost = []; parts = refl; old = tt }
]

gone-within :
    (window s now : ℕ) (ts : List ℕ)
    → now < s + window
    → All (λ t. t + window ≤ now) ts
    → length (keep (within window s) ts) ≡ 0
unfolding keep
gone-within window s now [] bound h = refl
gone-within window s now (t ∷ ts) bound (h, hs) =
    ground (arith, gone-within window s now ts bound hs)

refuse-is_allowed :
    (second window now : ℕ) (key role : String) (limit : ℕ) (live : List ℕ)
    → is_allowed (refuse second window now key role limit live) ≡ false
refuse-is_allowed second window now key role limit [] = refl
refuse-is_allowed second window now key role limit (t ∷ ts) = refl

module _ {window limit : ℕ} where
  -- Time passes, and the deque loses what is out of the window.
  pub advance :
      (last now : ℕ) (old hits kept : List ℕ)
      → last ≤ now
      → IsHistory window limit last old hits
      → Dropped window now hits kept
      → (forgotten : List ℕ) × IsHistory window limit now forgotten kept
        × (forgotten ++ kept ≡ old ++ hits)
  advance last now old hits kept later h d = (
    old ++ d.lost,
    record {
      gone =
          All-append (λ t. t + window ≤ now) old d.lost
            (All-imp old (λ t k. omega (arith, k, later)) h.gone) d.old;
      few = omega (arith, h.few, length-append d.lost kept, ap (length {A = ℕ}) d.parts);
      each = λ s. rw (append_assoc old d.lost kept, sym d.parts) (h.each s);
    },
    rw d.parts (append_assoc old d.lost kept),
  )

  -- A request is let through where the deque has room.
  grow :
      (now : ℕ) (old hits : List ℕ)
      → length hits < limit
      → IsHistory window limit now old hits
      → IsHistory window limit now old (hits ++ (now ∷ []))
  unfolding keep
  grow now old hits room h = record {
    gone = h.gone;
    few = omega (arith, length-append hits (now ∷ []));
    each = grow_window;
  }
    where
      grow_window : (s : ℕ) → length (keep (within window s) (old ++ (hits ++ (now ∷ [])))) ≤ limit
      grow_window s = elim (Bool-cases (within window s now)) [
        | inl inside ↦ ground (
          arith,
          length-keep-append (within window s) old (hits ++ (now ∷ [])),
          length-keep-append (within window s) hits (now ∷ []),
          gone-within window s now old (ground arith) h.gone,
          length-keep-le (within window s) hits,
        )
        | inr outside ↦ ground (
          arith,
          length-keep-append (within window s) old (hits ++ (now ∷ [])),
          length-keep-append (within window s) hits (now ∷ []),
          length-keep-append (within window s) old hits,
          h.each s,
        )
      ]

  -- One call of `check` on the deque.
  pub check_hits-IsHistory :
      (second last now : ℕ) (key role : String) (old hits : List ℕ)
      → last ≤ now
      → IsHistory window limit last old hits
      → let result = check_hits second window now key limit role hits in
        (forgotten : List ℕ) × IsHistory window limit now forgotten result.1
        × (forgotten ++ result.1 ≡ (old ++ hits) ++ (if is_allowed result.0 then now ∷ [] else []))
  unfolding check_hits
  check_hits-IsHistory second last now key role old hits later h =
      let live = drop_expired window now hits in
      let (forgotten, h', same) =
        advance last now old hits live later h (dropped window now hits) in
      elim (Bool-cases (leb limit (length live))) [
        | inl full ↦
            rw (full, refuse-is_allowed second window now key role limit live)
              (forgotten, h', same ∙ sym (append-nil (old ++ hits)))
        | inr room ↦ rw room (
          forgotten,
          grow now forgotten live (ground arith) h',
          sym (append_assoc forgotten live (now ∷ []))
              ∙ ap {B = List ℕ} (λ r. r ++ (now ∷ [])) same,
        )
      ]
