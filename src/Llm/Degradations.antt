-- ===== src/Llm/Degradations.antt =====
-- The degradations that a request gathers: which kinds are among them, and that the merge keeps each
-- kind, once.
use defect_sense.Prelude.{
  ℕ, ◌<◌, ◌≡◌, refl, Bool, true, false, List, [], ◌∷◌, ◌++◌, ◌||◌, arith, Bool-cases, inl, inr,
  if◌then◌else◌,
}
use defect_sense.Prelude.Sort.{some_of}
use defect_sense.Enums.{
  ModelTier, DegradationKind, llm_tier_downgrade, budget_exceeded, rule_engine_fallback,
}
use defect_sense.Llm.{Completion, was_truncated, ProviderKind, is_fake, tier_eq}
use defect_sense.Llm.Service.{among, kind_eq, from_keys, merged}
use defect_sense.Llm.Chain.{notes}

-- No kind stands twice.
abbrev pub Once : List DegradationKind → Type 0
Once [] = Unit
Once (d ∷ ds) = (among d ds ≡ false) × Once ds

pub among-append :
    (d : DegradationKind) (xs ys : List DegradationKind)
    → among d (xs ++ ys) ≡ (among d xs || among d ys)
unfolding some_of
among-append d [] ys = refl
among-append d (x ∷ xs) ys = ground (arith, among-append d xs ys)

kind_eq_self : (d : DegradationKind) → kind_eq d d ≡ true
kind_eq_self d = ground arith

kind_eq_comm : (d e : DegradationKind) → kind_eq d e ≡ kind_eq e d
kind_eq_comm d e = ground arith

kind_eq_sound : (d e : DegradationKind) → kind_eq d e ≡ true → d ≡ e
kind_eq_sound d e h = ground arith

pub among-from_keys_seen :
    (d : DegradationKind) (seen ds : List DegradationKind)
    → among d seen ≡ true
    → among d (from_keys seen ds) ≡ true
unfolding from_keys
among-from_keys_seen d seen [] h = h
among-from_keys_seen d seen (e ∷ ds) h = elim (Bool-cases (among e seen)) [
  | inl old ↦ rw old (among-from_keys_seen d seen ds h)
  | inr fresh ↦
      rw fresh
        (among-from_keys_seen d (seen ++ (e ∷ [])) ds (rw (among-append d seen (e ∷ []), h) refl))
]

pub among-from_keys :
    (d : DegradationKind) (ds seen : List DegradationKind)
    → among d ds ≡ true
    → among d (from_keys seen ds) ≡ true
unfolding from_keys some_of
among-from_keys d [] seen h = absurd (ground arith)
among-from_keys d (e ∷ ds) seen h = elim (Bool-cases (among d ds)) [
  | inl later ↦ among-from_keys d ds (if among e seen then seen else seen ++ (e ∷ [])) later
  | inr not_later ↦
      let same : d ≡ e = kind_eq_sound d e (ground arith) in
      among-from_keys_seen d (if among e seen then seen else seen ++ (e ∷ [])) ds
        (rw same (now_among e seen))
]
  where
    now_among :
        (k : DegradationKind) (xs : List DegradationKind)
        → among k (if among k xs then xs else xs ++ (k ∷ [])) ≡ true
    now_among k xs = elim (Bool-cases (among k xs)) [
      | inl old ↦ rw old old
      | inr fresh ↦ rw fresh (rw (among-append k xs (k ∷ []), fresh, kind_eq_self k) refl)
    ]

Once-grown :
    (e : DegradationKind) (xs : List DegradationKind)
    → Once xs
    → among e xs ≡ false
    → Once (xs ++ (e ∷ []))
unfolding some_of
Once-grown e [] h fresh = (refl, tt)
Once-grown e (x ∷ xs) (h, hs) fresh = (
  rw (among-append x xs (e ∷ []), h) (apart (kind_eq_comm x e)),
  Once-grown e xs hs (ground arith),
)
  where
    apart : kind_eq x e ≡ kind_eq e x → among x (e ∷ []) ≡ false
    apart k = ground arith

pub from_keys-Once : (ds seen : List DegradationKind) → Once seen → Once (from_keys seen ds)
unfolding from_keys
from_keys-Once [] seen h = h
from_keys-Once (e ∷ ds) seen h = elim (Bool-cases (among e seen)) [
  | inl old ↦ rw old (from_keys-Once ds seen h)
  | inr fresh ↦ rw fresh (from_keys-Once ds (seen ++ (e ∷ [])) (Once-grown e seen h fresh))
]

-- What each answer adds.
pub notes_truncated :
    (c : Completion) (asked t : ModelTier) (position : ℕ) (kind : ProviderKind)
    → was_truncated c ≡ true
    → among budget_exceeded (notes c asked t position kind) ≡ true
unfolding notes some_of
notes_truncated c asked t position kind h = rw h refl

pub notes_downgraded :
    (c : Completion) (asked t : ModelTier) (position : ℕ) (kind : ProviderKind)
    → tier_eq t asked ≡ false
    → among llm_tier_downgrade (notes c asked t position kind) ≡ true
unfolding notes some_of
notes_downgraded c asked t position kind h = ground arith

pub notes_fallback :
    (c : Completion) (asked t : ModelTier) (position : ℕ) (kind : ProviderKind)
    → 0 < position
    → among llm_tier_downgrade (notes c asked t position kind) ≡ true
unfolding notes some_of
notes_fallback c asked t position kind h = ground arith

pub notes_invented :
    (c : Completion) (asked t : ModelTier) (position : ℕ) (kind : ProviderKind)
    → is_fake kind ≡ true
    → among rule_engine_fallback (notes c asked t position kind) ≡ true
unfolding notes some_of
notes_invented c asked t position kind h = ground arith

pub among-merged :
    (d : DegradationKind) (c : Completion) (ds : List DegradationKind)
    → among d ds ≡ true
    → among d (merged c ds).degradations ≡ true
unfolding some_of
among-merged d c [] h = absurd (ground arith)
among-merged d c (e ∷ ds) h =
    among-from_keys d (c.degradations ++ (e ∷ ds)) []
      (rw (among-append d c.degradations (e ∷ ds), h) (either _))
  where
    either : (b : Bool) → (b || true) ≡ true
    either true = refl
    either false = refl

pub merged-Once :
    (c : Completion) (ds : List DegradationKind)
    → Once c.degradations
    → Once (merged c ds).degradations
merged-Once c [] h = h
merged-Once c (d ∷ ds) h = from_keys-Once (c.degradations ++ (d ∷ ds)) [] tt
