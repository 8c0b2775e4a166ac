-- ===== src/RateLimit/Timed.antt =====
-- The order of the timestamps in every deque, which `check` and `prune` of
-- apps/api/ratelimit.py keep, and what a pruned entry reads as.
use defect_sense.Prelude.{
  ℕ, ◌+◌, ◌≤◌, ◌≡◌, refl, sym, String, true, none, List, [], ◌∷◌, ◌++◌, length, leb, if◌then◌else◌,
  Bool-cases, All, All-append, inl, inr, arith,
}
use defect_sense.Dict.{Dict, lookup, insert, Unique, Unique-insert, eq_iff}
use defect_sense.RateLimit.{
  SlidingWindowLimiter, hits_of, or_empty, drop_expired, check_hits, check, idle, prune_hits, prune,
}
use text.Mathlib.Text.{◌==◌ as str_eq}

-- A deque in the order of time, none of it after `now`.
abbrev pub IsTimed : ℕ → List ℕ → Type 0
IsTimed now [] = Unit
IsTimed now (t ∷ ts) = (t ≤ now) × All (λ u. t ≤ u) ts × IsTimed now ts

abbrev pub AllTimed : ℕ → Dict (List ℕ) → Type 0
AllTimed now [] = Unit
AllTimed now ((k, ts) ∷ d) = IsTimed now ts × AllTimed now d

idle-expired :
    (window now : ℕ) (t : ℕ) (ts : List ℕ)
    → All (λ u. t ≤ u) ts
    → idle window now (t ∷ ts) ≡ true
    → t + window ≤ now
unfolding idle
idle-expired window now t [] h e = ground arith
idle-expired window now t (u ∷ []) (h, hs) e = ground arith
idle-expired window now t (u ∷ v ∷ ts) (h, hs) e = idle-expired window now t (v ∷ ts) hs e

idle_tail :
    (window now : ℕ) (t : ℕ) (ts : List ℕ)
    → idle window now (t ∷ ts) ≡ true
    → idle window now ts ≡ true
unfolding idle
idle_tail window now t [] e = refl
idle_tail window now t (u ∷ ts) e = e

pub idle-drop_expired :
    (window last now : ℕ) (ts : List ℕ)
    → IsTimed last ts
    → idle window now ts ≡ true
    → drop_expired window now ts ≡ []
unfolding drop_expired
idle-drop_expired window last now [] h e = refl
idle-drop_expired window last now (t ∷ ts) (h, hs, hss) e = ground (
  arith,
  idle-expired window now t ts hs e,
  idle-drop_expired window last now ts hss (idle_tail window now t ts e),
)

pub AllTimed-lookup :
    (last : ℕ) (key : String) (d : Dict (List ℕ))
    → AllTimed last d
    → IsTimed last (or_empty (lookup key d))
unfolding lookup
AllTimed-lookup last key [] h = tt
AllTimed-lookup last key ((j, ts) ∷ d) (h, hs) = elim (Bool-cases (str_eq j key)) [
  | inl same ↦ rw same h
  | inr other ↦ rw other (AllTimed-lookup last key d hs)
]

lookup-prune_none :
    (window now : ℕ) (key : String) (d : Dict (List ℕ))
    → lookup key d ≡ none
    → lookup key (prune_hits window now d) ≡ none
unfolding lookup prune_hits
lookup-prune_none window now key [] h = refl
lookup-prune_none window now key ((j, ts) ∷ d) h =
    ground (arith, lookup-prune_none window now key d)

pub lookup-prune :
    (window now : ℕ) (key : String) (d : Dict (List ℕ))
    → Unique d
    → or_empty (lookup key (prune_hits window now d))
      ≡ (if idle window now (or_empty (lookup key d)) then [] else or_empty (lookup key d))
unfolding lookup prune_hits idle
lookup-prune window now key [] h = refl
lookup-prune window now key ((j, ts) ∷ d) (h, hs) = elim (Bool-cases (str_eq j key)) [
  | inl same ↦ elim (Bool-cases (idle window now ts)) [
    | inl old ↦
        rw (same, old, lookup-prune_none window now key d (rw (sym ((eq_iff j key).0 same)) h)) refl
    | inr live ↦ rw (live, same, live) refl
  ]
  | inr other ↦ elim (Bool-cases (idle window now ts)) [
    | inl old ↦ rw (other, old) (lookup-prune window now key d hs)
    | inr live ↦ rw (live, other) (lookup-prune window now key d hs)
  ]
]

pub IsTimed-later : (last now : ℕ) (ts : List ℕ) → last ≤ now → IsTimed last ts → IsTimed now ts
IsTimed-later last now [] le h = tt
IsTimed-later last now (t ∷ ts) le (h, hs, hss) =
    (omega arith, hs, IsTimed-later last now ts le hss)

IsTimed-snoc : (now : ℕ) (ts : List ℕ) → IsTimed now ts → IsTimed now (ts ++ (now ∷ []))
IsTimed-snoc now [] h = (omega arith, tt, tt)
IsTimed-snoc now (t ∷ ts) (h, hs, hss) =
    (h, All-append (λ u. t ≤ u) ts (now ∷ []) hs (h, tt), IsTimed-snoc now ts hss)

IsTimed-drop_expired :
    (window last now : ℕ) (ts : List ℕ)
    → IsTimed last ts
    → IsTimed last (drop_expired window now ts)
unfolding drop_expired
IsTimed-drop_expired window last now [] h = tt
IsTimed-drop_expired window last now (t ∷ ts) (h, hs, hss) =
    elim (Bool-cases (leb (t + window) now)) [
      | inl old ↦ rw old (IsTimed-drop_expired window last now ts hss)
      | inr live ↦ rw live (h, hs, hss)
    ]

IsTimed-check_hits :
    (second window last now : ℕ) (key role : String) (limit : ℕ) (ts : List ℕ)
    → last ≤ now
    → IsTimed last ts
    → IsTimed now (check_hits second window now key limit role ts).1
unfolding check_hits
IsTimed-check_hits second window last now key role limit ts le h =
    let live = drop_expired window now ts in
    let timed = IsTimed-drop_expired window now now ts (IsTimed-later last now ts le h) in
    elim (Bool-cases (leb limit (length live))) [
      | inl full ↦ rw full timed
      | inr room ↦ rw room (IsTimed-snoc now live timed)
    ]

AllTimed-later : (last now : ℕ) (d : Dict (List ℕ)) → last ≤ now → AllTimed last d → AllTimed now d
AllTimed-later last now [] le h = tt
AllTimed-later last now ((j, ts) ∷ d) le (h, hs) =
    (IsTimed-later last now ts le h, AllTimed-later last now d le hs)

AllTimed-insert :
    (now : ℕ) (key : String) (ts : List ℕ) (d : Dict (List ℕ))
    → IsTimed now ts
    → AllTimed now d
    → AllTimed now (insert key ts d)
unfolding insert
AllTimed-insert now key ts [] k h = (k, tt)
AllTimed-insert now key ts ((j, us) ∷ d) k (h, hs) = elim (Bool-cases (str_eq j key)) [
  | inl same ↦ rw same (k, hs)
  | inr other ↦ rw other (h, AllTimed-insert now key ts d k hs)
]

AllTimed-prune :
    (window now last : ℕ) (d : Dict (List ℕ))
    → AllTimed last d
    → AllTimed last (prune_hits window now d)
unfolding prune_hits
AllTimed-prune window now last [] h = tt
AllTimed-prune window now last ((j, ts) ∷ d) (h, hs) = elim (Bool-cases (idle window now ts)) [
  | inl old ↦ rw old (AllTimed-prune window now last d hs)
  | inr live ↦ rw live (h, AllTimed-prune window now last d hs)
]

Unique-prune : (window now : ℕ) (d : Dict (List ℕ)) → Unique d → Unique (prune_hits window now d)
unfolding prune_hits
Unique-prune window now [] h = tt
Unique-prune window now ((j, ts) ∷ d) (h, hs) = elim (Bool-cases (idle window now ts)) [
  | inl old ↦ rw old (Unique-prune window now d hs)
  | inr live ↦ rw live (lookup-prune_none window now j d h, Unique-prune window now d hs)
]

-- The limiter's own invariant at the time of its last step.
pub record IsKept (last : ℕ) (l : SlidingWindowLimiter) : Type 0 where
  pub unique : Unique l.hits
  pub timed : AllTimed last l.hits

pub IsKept-later :
    (last now : ℕ) (l : SlidingWindowLimiter) → last ≤ now → IsKept last l → IsKept now l
IsKept-later last now l le h = record {
  unique = h.unique;
  timed = AllTimed-later last now l.hits le h.timed;
}

pub check-IsKept :
    (second last now : ℕ) (key role : String) (limit : ℕ) (l : SlidingWindowLimiter)
    → last ≤ now
    → IsKept last l
    → IsKept now (check second now key limit role l).1
unfolding check
check-IsKept second last now key role limit l le h = record {
  unique =
      Unique-insert key (check_hits second l.window now key limit role (hits_of key l)).1 l.hits
        h.unique;
  timed =
      AllTimed-insert now key (check_hits second l.window now key limit role (hits_of key l)).1
        l.hits
        (IsTimed-check_hits second l.window last now key role limit (hits_of key l) le
          (AllTimed-lookup last key l.hits h.timed))
        (AllTimed-later last now l.hits le h.timed);
}

pub prune-IsKept :
    (last now : ℕ) (l : SlidingWindowLimiter)
    → last ≤ now
    → IsKept last l
    → IsKept now (prune now l)
unfolding prune
prune-IsKept last now l le h = record {
  unique = Unique-prune l.window now l.hits h.unique;
  timed = AllTimed-prune l.window now now l.hits (AllTimed-later last now l.hits le h.timed);
}
