-- ===== src/RateLimit/Moves.antt =====
-- How far the limiter of apps/api/ratelimit.py moves in a check or a pruning, seen from one subject.
use text.Mathlib.Text.{◌==◌ as str_eq}
use text.Mathlib.TextPositions.{eq_refl}
use mathlib.Core.Path.{subst}
use defect_sense.Prelude.{
  ℕ, ◌+◌, ◌%◌, ◌≤◌, ◌≡◌, ◌⊎◌, refl, sym, ◌∙◌, String, true, false, Option, none, some, List, [],
  ◌∷◌, ◌++◌, ◌==◌, if◌then◌else◌, Bool-cases, inl, inr,
}
use defect_sense.RateLimit.{Decision, SlidingWindowLimiter, hits_of, check_hits, check, idle, prune}
use defect_sense.RateLimit.History.{
  is_allowed, IsHistory, Dropped, dropped, advance, check_hits-IsHistory,
}
use defect_sense.RateLimit.Timed.{
  IsKept, IsKept-later, check-IsKept, prune-IsKept, lookup-prune, idle-drop_expired,
  AllTimed-lookup,
}
use defect_sense.RateLimit.Window.{hits_of-check, answer-check, window-check}
use defect_sense.RateLimit.Middleware.{settled_limiter, prune_every}

-- Where the limiter stands for one subject.
pub record IsBounded (window limit last : ℕ) (key : String) (old : List ℕ)
    (l : SlidingWindowLimiter) : Type 0 where
  pub window_same : l.window ≡ window
  pub kept : IsKept last l
  pub history : IsHistory window limit last old (hits_of key l)

-- A limiter stands at a later time, with the same times let through.
abbrev pub Moves : ℕ → ℕ → ℕ → String → List ℕ → SlidingWindowLimiter → Type 0
Moves window limit now key times l =
    (old : List ℕ) × IsBounded window limit now key old l × (old ++ hits_of key l ≡ times)

module _ (window limit : ℕ) (key : String) where
  pub later-Moves :
      (last now : ℕ) (old : List ℕ) (l : SlidingWindowLimiter)
      → last ≤ now
      → IsBounded window limit last key old l
      → Moves window limit now key (old ++ hits_of key l) l
  later-Moves last now old l le b =
      let (old', h, same) =
        advance last now old (hits_of key l) (hits_of key l) le b.history
          record { lost = []; parts = refl; old = tt } in
      (
        old',
        record {
          window_same = b.window_same;
          kept = IsKept-later last now l le b.kept;
          history = h;
        },
        same,
      )

  -- What a pruning takes from a deque is out of the window.
  pruned-Dropped :
      (last now : ℕ) (old : List ℕ) (l : SlidingWindowLimiter)
      → IsBounded window limit last key old l
      → Dropped window now (hits_of key l) (hits_of key (prune now l))
  unfolding prune
  pruned-Dropped last now old l b =
      subst (λ (ts : List ℕ). Dropped window now (hits_of key l) ts)
        (sym (lookup-prune l.window now key l.hits b.kept.unique ∙ rw b.window_same refl))
        (either (Bool-cases (idle window now (hits_of key l))))
    where
      either :
          (idle window now (hits_of key l) ≡ true) ⊎ (idle window now (hits_of key l) ≡ false)
          → Dropped window now
              (hits_of key l)
              (if idle window now (hits_of key l) then [] else hits_of key l)
      either (inl all_old) = rw all_old (
          subst (λ (ts : List ℕ). Dropped window now (hits_of key l) ts)
            (idle-drop_expired window last now (hits_of key l)
              (AllTimed-lookup last key l.hits b.kept.timed) all_old)
            (dropped window now (hits_of key l)))
      either (inr live) = rw live record { lost = []; parts = refl; old = tt }

  pruned-Moves :
      (last now : ℕ) (old : List ℕ) (l : SlidingWindowLimiter)
      → last ≤ now
      → IsBounded window limit last key old l
      → Moves window limit now key (old ++ hits_of key l) (prune now l)
  unfolding prune
  pruned-Moves last now old l le b =
      let (old', h, same) =
        advance last now old (hits_of key l) (hits_of key (prune now l)) le b.history
          (pruned-Dropped last now old l b) in
      (
        old',
        record {
          window_same = b.window_same;
          kept = prune-IsKept last now l le b.kept;
          history = h;
        },
        same,
      )

  -- After the check the middleware may prune, at a second reading of the clock.
  pub settled-Moves :
      (now later seen : ℕ) (old : List ℕ) (answer : Option Decision) (l : SlidingWindowLimiter)
      → now ≤ later
      → IsBounded window limit now key old l
      → Moves window limit later key (old ++ hits_of key l) (settled_limiter later answer l seen)
  settled-Moves now later seen old none l le b = later-Moves now later old l le b
  settled-Moves now later seen old (some d) l le b =
      elim (Bool-cases ((seen + 1) % prune_every == 0)) [
        | inl due ↦ rw due (pruned-Moves now later old l le b)
        | inr not_due ↦ rw not_due (later-Moves now later old l le b)
      ]

  pub check-Moves :
      (second last now : ℕ) (old : List ℕ) (role : String) (l : SlidingWindowLimiter)
      → last ≤ now
      → IsBounded window limit last key old l
      → let (answer, next) = check second now key limit role l in
        Moves window limit now key
          ((old ++ hits_of key l) ++ (if is_allowed answer then now ∷ [] else []))
          next
  check-Moves second last now old role l le b =
      let hits = check_hits second window now key limit role (hits_of key l) in
      let (old', h', same) =
        check_hits-IsHistory second last now key role old (hits_of key l) le b.history in
      let next-hits : hits_of key (check second now key limit role l).1 ≡ hits.1 =
        rw (hits_of-check second now key key role limit l, eq_refl key, b.window_same) refl in
      let answer : (check second now key limit role l).0 ≡ hits.0 =
        rw (answer-check second now key role limit l, b.window_same) refl in
      (
        old',
        record {
          window_same = window-check second now key role limit l ∙ b.window_same;
          kept = check-IsKept second last now key role limit l le b.kept;
          history = rw next-hits h';
        },
        rw (next-hits, answer) same,
      )

  pub check_other-Moves :
      (second last now n : ℕ) (old : List ℕ) (subject role : String) (l : SlidingWindowLimiter)
      → last ≤ now
      → str_eq subject key ≡ false
      → IsBounded window limit last key old l
      → Moves window limit now key (old ++ hits_of key l) (check second now subject n role l).1
  check_other-Moves second last now n old subject role l le other b =
      let (old', moved, same) = later-Moves last now old l le b in
      let next-hits : hits_of key (check second now subject n role l).1 ≡ hits_of key l =
        rw (hits_of-check second now subject key role n l, other) refl in
      (
        old',
        record {
          window_same = window-check second now subject role n l ∙ b.window_same;
          kept = check-IsKept second last now subject role n l le b.kept;
          history = rw next-hits moved.history;
        },
        rw next-hits same,
      )
