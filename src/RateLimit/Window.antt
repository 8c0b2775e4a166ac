-- ===== src/RateLimit/Window.antt =====
-- Runs of the limiter on one clock: how many requests of a subject a window can hold.
use defect_sense.Prelude.{
  ℕ, ◌≤◌, ◌≡◌, refl, sym, ◌∙◌, String, Bool, true, false, List, [], ◌∷◌, ◌++◌, ◌&&◌, length,
  if◌then◌else◌, Bool-cases, inl, inr, arith,
}
use defect_sense.Prelude.Sort.{keep}
use defect_sense.Dict.{lookup, lookup-insert, eq_iff}
use defect_sense.RateLimit.{SlidingWindowLimiter, hits_of, check_hits, check}
use mathlib.Core.List.{append_assoc, append-nil}
use text.Mathlib.TextPositions.{eq_refl}
use text.Mathlib.Text.{◌==◌ as str_eq}
use defect_sense.RateLimit.History.{is_allowed, within, IsHistory, advance, check_hits-IsHistory}

module _ (second : ℕ) (limit_of : String → ℕ) where
  -- The times at which the requests of `key` were let through, among those of all subjects.
  unfoldable pub let_through : String → List (ℕ × String) → SlidingWindowLimiter → List ℕ
  let_through key [] l = []
  let_through key ((now, subject) ∷ requests) l =
      let (answer, next) = check second now subject (limit_of subject) "" l in
      let rest = let_through key requests next in
      if str_eq subject key && is_allowed answer then now ∷ rest else rest

-- The times do not fall behind `start`, nor behind one another.
abbrev pub Forward {ℓ} : {A : Type ℓ} → ℕ → List (ℕ × A) → Type 0
Forward start [] = Unit
Forward start ((now, a) ∷ requests) = (start ≤ now) × Forward now requests

pub hits_of-check :
    (second now : ℕ) (subject key role : String) (limit : ℕ) (l : SlidingWindowLimiter)
    → hits_of key (check second now subject limit role l).1 ≡ (
        if str_eq subject key
        then (check_hits second l.window now subject limit role (hits_of subject l)).1
        else hits_of key l)
unfolding check
hits_of-check second now subject key role limit l = elim (Bool-cases (str_eq subject key)) [
  | inl mine ↦
      rw
        (
          lookup-insert subject key
              (check_hits second l.window now subject limit role (hits_of subject l)).1 l.hits,
          mine,
        )
        refl
  | inr other ↦
      rw
        (
          lookup-insert subject key
              (check_hits second l.window now subject limit role (hits_of subject l)).1 l.hits,
          other,
        )
        refl
]

pub append-if {ℓ} :
    {A : Type ℓ} (b : Bool) (xs : List A) (x : A) (rest : List A)
    → xs ++ (if b then x ∷ rest else rest) ≡ (xs ++ (if b then x ∷ [] else [])) ++ rest
append-if true xs x rest = sym (append_assoc xs (x ∷ []) rest)
append-if {A = A} false xs x rest = rw (append-nil xs)

pub answer-check :
    (second now : ℕ) (subject role : String) (limit : ℕ) (l : SlidingWindowLimiter)
    → (check second now subject limit role l).0
      ≡ (check_hits second l.window now subject limit role (hits_of subject l)).0
unfolding check
answer-check second now subject role limit l = refl

pub window-check :
    (second now : ℕ) (subject role : String) (limit : ℕ) (l : SlidingWindowLimiter)
    → (check second now subject limit role l).1.window ≡ l.window
unfolding check
window-check second now subject role limit l = refl

module _ (second : ℕ) (limit_of : String → ℕ) (key : String) (window : ℕ) where
  -- What has been let through and what will be.
  history_bound :
      (requests : List (ℕ × String)) (l : SlidingWindowLimiter) (last : ℕ) (old : List ℕ)
      → l.window ≡ window
      → Forward last requests
      → IsHistory window (limit_of key) last old (hits_of key l)
      → (s : ℕ)
      → length (
          keep
            (within window s)
            ((old ++ hits_of key l) ++ let_through second limit_of key requests l))
        ≤ limit_of key
  unfolding let_through
  history_bound [] l last old w forward h s = rw (append-nil (old ++ hits_of key l)) (h.each s)
  history_bound ((now, subject) ∷ requests) l last old w (later, forward) h s =
      elim (Bool-cases (str_eq subject key)) [
        | inl mine ↦
            let kept = check_hits second window now key (limit_of key) "" (hits_of key l) in
            let next = (check second now key (limit_of key) "" l).1 in
            let (old', h', same) =
              check_hits-IsHistory second last now key "" old (hits_of key l) later h in
            let next-hits : hits_of key next ≡ kept.1 =
              rw (hits_of-check second now key key "" (limit_of key) l, eq_refl key, w) refl in
            let bound =
              history_bound requests next now old'
                (window-check second now key "" (limit_of key) l ∙ w) forward (rw next-hits h') s in
            let answered : (check second now key (limit_of key) "" l).0 ≡ kept.0 =
              rw (answer-check second now key "" (limit_of key) l, w) refl in
            rw
              (
                (eq_iff subject key).0 mine,
                eq_refl key,
                answered,
                append-if (is_allowed kept.0) (old ++ hits_of key l) now
                    (let_through second limit_of key requests next),
                sym same,
                sym next-hits,
              )
              bound
        | inr other ↦
            let next = (check second now subject (limit_of subject) "" l).1 in
            let next-hits : hits_of key next ≡ hits_of key l =
              rw (hits_of-check second now subject key "" (limit_of subject) l, other) refl in
            let (old', h', same) =
              advance last now old (hits_of key l) (hits_of key l) later h
                record { lost = []; parts = refl; old = tt } in
            rw (other, sym same, sym next-hits)
              (history_bound requests next now old'
                (window-check second now subject "" (limit_of subject) l ∙ w) forward
                (rw next-hits h') s)
      ]

  -- On a clock that does not run backwards, every window of the limiter's length holds at most
  -- `limit_of key` of the requests of a subject that a new limiter lets through, among any requests
  -- of other subjects.
  pub window_bound :
      (requests : List (ℕ × String)) (start s : ℕ)
      → Forward start requests
      → length (
          keep
            (within window s)
            (let_through second limit_of key requests (record { window = window; hits = [] })))
        ≤ limit_of key
  unfolding keep lookup
  window_bound requests start s forward =
      history_bound requests (record { window = window; hits = [] }) start [] refl forward
        (record { gone = tt; few = omega arith; each = λ s. omega arith }) s
