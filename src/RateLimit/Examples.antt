-- ===== src/RateLimit/Examples.antt =====
-- A window of 60 seconds with 10 ticks in a second, and a limit of 2.
use defect_sense.Prelude.{ℕ, ◌≡◌, refl, String, false, some, List, [], ◌∷◌, arith}
use defect_sense.Dict.{lookup, insert}
use defect_sense.RateLimit.{Decision, SlidingWindowLimiter, drop_expired, check_hits, check}
use defect_sense.RateLimit.History.{is_allowed}
use defect_sense.RateLimit.Window.{let_through}
use defect_sense.RateLimit.Pruning.{
  request, pruning, Step, answers, requests_of, prune_changes_nothing,
}

abbrev two : String → ℕ
two subject = 2

abbrev traffic : List (ℕ × String)
traffic = (100, "ravi") ∷ (150, "ravi") ∷ (160, "priya") ∷ (200, "ravi") ∷ (700, "ravi") ∷ []

abbrev busy : SlidingWindowLimiter
busy = record { window = 600; hits = ("ravi", 100 ∷ 150 ∷ []) ∷ [] }

traffic_run :
    let_through 10 two "ravi" traffic (record { window = 600; hits = [] }) ≡ 100 ∷ 150 ∷ 700 ∷ []
unfolding let_through check check_hits drop_expired lookup insert
traffic_run = refl

busy_refuses : is_allowed (check 10 200 "ravi" 2 "QA" busy).0 ≡ false
unfolding check check_hits drop_expired lookup
busy_refuses = refl

abbrev refusal : Decision
refusal = record {
  allowed = false;
  limit = 2;
  remaining = 0;
  retry_after = 50;
  reset_in = 50;
  subject = "ravi";
  role = "QA";
}

busy_refusal : (check_hits 10 600 200 "ravi" 2 "QA" (100 ∷ 150 ∷ [])).0 ≡ some refusal
unfolding check_hits drop_expired
busy_refusal = refl

abbrev steps : List Step
steps =
    request 200 "ravi" 2 "QA"
    ∷ pruning 690
    ∷ request 700 "ravi" 2 "QA"
    ∷ pruning 2000
    ∷ request 2000 "priya" 2 "QA"
    ∷ []

prune_changes_nothing_example : answers 10 steps busy ≡ answers 10 (requests_of steps) busy
unfolding lookup
prune_changes_nothing_example =
    prune_changes_nothing 10 steps 150 busy
      (omega arith, (omega arith, (omega arith, (omega arith, (omega arith, tt)))))
      (record {
        unique = (refl, tt);
        timed = ((omega arith, (omega arith, tt), (omega arith, tt, tt)), tt);
      })
