-- ===== src/RateLimit/Pruning.antt =====
-- `prune` forgets only what no later request reads.
use defect_sense.Prelude.{
  ℕ, ◌≤◌, ◌≡◌, refl, sym, ap, ◌∙◌, String, List, [], ◌∷◌, Bool-cases, inl, inr, Option,
}
use defect_sense.RateLimit.{
  Decision, SlidingWindowLimiter, hits_of, drop_expired, check_hits, check, idle, prune,
}
use defect_sense.RateLimit.Window.{hits_of-check, answer-check, window-check}
use defect_sense.RateLimit.Waiting.{drop_expired-drop_expired, check_hits-drop_expired}
use text.Mathlib.Text.{◌==◌ as str_eq}
use defect_sense.RateLimit.Timed.{
  IsKept, AllTimed-lookup, idle-drop_expired, lookup-prune, check-IsKept, prune-IsKept,
}

-- Every step of the limiter: a request, or a pruning.
pub data Step : Type 0 where
  request : ℕ → String → ℕ → String → Step
  pruning : ℕ → Step

abbrev pub time_of : Step → ℕ
time_of (request now key limit role) = now
time_of (pruning now) = now

abbrev pub Ordered : ℕ → List Step → Type 0
Ordered start [] = Unit
Ordered start (s ∷ steps) = (start ≤ time_of s) × Ordered (time_of s) steps

module _ (second : ℕ) where
  unfoldable pub answers : List Step → SlidingWindowLimiter → List (Option Decision)
  answers [] l = []
  answers (request now key limit role ∷ steps) l =
      let (answer, next) = check second now key limit role l in answer ∷ answers steps next
  answers (pruning now ∷ steps) l = answers steps (prune now l)

unfoldable pub requests_of : List Step → List Step
requests_of [] = []
requests_of (request now key limit role ∷ steps) = request now key limit role ∷ requests_of steps
requests_of (pruning now ∷ steps) = requests_of steps

-- Two limiters that no request from `now` on can tell apart.
Alike : ℕ → SlidingWindowLimiter → SlidingWindowLimiter → Type 0
Alike now l m =
    (l.window ≡ m.window)
    × ((key : String)
        → drop_expired l.window now (hits_of key l) ≡ drop_expired l.window now (hits_of key m))

drop_expired-later :
    (window last now : ℕ) (ts us : List ℕ)
    → last ≤ now
    → drop_expired window last ts ≡ drop_expired window last us
    → drop_expired window now ts ≡ drop_expired window now us
drop_expired-later window last now ts us le e =
    sym (drop_expired-drop_expired window last now ts le)
    ∙ ap (drop_expired window now) e
    ∙ drop_expired-drop_expired window last now us le

Alike-prune :
    (last now : ℕ) (l m : SlidingWindowLimiter)
    → last ≤ now
    → IsKept last l
    → Alike last l m
    → Alike now (prune now l) m
unfolding Alike prune drop_expired
Alike-prune last now l m le h (w, same) = (w, still)
  where
    still :
        (key : String)
        → drop_expired l.window now (hits_of key (prune now l))
          ≡ drop_expired l.window now (hits_of key m)
    still key =
        let later =
          drop_expired-later l.window last now (hits_of key l) (hits_of key m) le (same key) in
        elim (Bool-cases (idle l.window now (hits_of key l))) [
          | inl old ↦
              rw (lookup-prune l.window now key l.hits h.unique, old)
                (sym (
                    idle-drop_expired l.window last now (hits_of key l)
                      (AllTimed-lookup last key l.hits h.timed) old)
                  ∙ later)
          | inr live ↦ rw (lookup-prune l.window now key l.hits h.unique, live) later
        ]

Alike-check :
    (second last now : ℕ) (key role : String) (limit : ℕ) (l m : SlidingWindowLimiter)
    → last ≤ now
    → Alike last l m
    → ((check second now key limit role l).0 ≡ (check second now key limit role m).0)
      × Alike now (check second now key limit role l).1 (check second now key limit role m).1
unfolding Alike
Alike-check second last now key role limit l m le (w, same) =
    let on_hits : check_hits second l.window now key limit role (hits_of key l)
        ≡ check_hits second l.window now key limit role (hits_of key m) =
      sym (check_hits-drop_expired second l.window last now key role limit (hits_of key l) le)
      ∙ ap (check_hits second l.window now key limit role) (same key)
      ∙ check_hits-drop_expired second l.window last now key role limit (hits_of key m) le in
    (
      rw
          (
            answer-check second now key role limit l,
            answer-check second now key role limit m,
            sym w,
            on_hits,
          )
          refl,
      (
        window-check second now key role limit l
            ∙ w
            ∙ sym (window-check second now key role limit m),
        λ other. elim (Bool-cases (str_eq key other)) [
          | inl mine ↦
              rw
                (
                  window-check second now key role limit l,
                  hits_of-check second now key other role limit l,
                  hits_of-check second now key other role limit m,
                  mine,
                  sym w,
                  on_hits,
                )
                refl
          | inr not_mine ↦
              rw
                (
                  window-check second now key role limit l,
                  hits_of-check second now key other role limit l,
                  hits_of-check second now key other role limit m,
                  not_mine,
                )
                (drop_expired-later l.window last now (hits_of other l) (hits_of other m) le
                  (same other))
        ],
      ),
    )

module _ (second : ℕ) where
  answers-Alike :
      (steps : List Step) (last : ℕ) (l m : SlidingWindowLimiter)
      → Ordered last steps
      → IsKept last l
      → Alike last l m
      → answers second steps l ≡ answers second (requests_of steps) m
  unfolding answers requests_of
  answers-Alike [] last l m ordered h alike = refl
  answers-Alike (request now key limit role ∷ steps) last l m (le, ordered) h alike =
      let (answer, next) = Alike-check second last now key role limit l m le alike in
      rw
        (
          answer,
          answers-Alike steps now (check second now key limit role l).1
              (check second now key limit role m).1 ordered
              (check-IsKept second last now key role limit l le h) next,
        )
        refl
  answers-Alike (pruning now ∷ steps) last l m (le, ordered) h alike =
      answers-Alike steps now (prune now l) m ordered (prune-IsKept last now l le h)
        (Alike-prune last now l m le h alike)

  -- On a clock that does not run backwards, and from a limiter with one deque for a subject, each in
  -- the order of time up to the start (as `check` and `prune` keep it), the prunings of a run change
  -- none of its answers, whatever their number and their places.
  pub prune_changes_nothing :
      (steps : List Step) (last : ℕ) (l : SlidingWindowLimiter)
      → Ordered last steps
      → IsKept last l
      → answers second steps l ≡ answers second (requests_of steps) l
  unfolding Alike
  prune_changes_nothing steps last l ordered h =
      answers-Alike steps last l l ordered h (refl, λ key. refl)
