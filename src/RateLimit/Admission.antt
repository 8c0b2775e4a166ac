-- ===== src/RateLimit/Admission.antt =====
-- How many requests of a subject the middleware of apps/api/ratelimit.py lets through, among all others
-- and with the prunings that come in between.
mod Examples
use text.Mathlib.Text.{◌==◌ as str_eq}
use text.Mathlib.TextPositions.{eq_refl}
use mathlib.Core.List.{append-nil}
use defect_sense.Prelude.{
  ℕ, ◌≤◌, ◌≡◌, refl, sym, ◌∙◌, String, Bool, true, false, Option, none, some, List, [], ◌∷◌, ◌++◌,
  ◌&&◌, arith, length, All, if◌then◌else◌, Bool-cases, inl, inr,
}
use defect_sense.Prelude.Sort.{keep}
use defect_sense.Dict.{lookup, eq_iff}
use defect_sense.Auth.{RbacMatrix}
use defect_sense.Auth.Gates.{User}
use defect_sense.RateLimit.{Decision, SlidingWindowLimiter, hits_of, check}
use defect_sense.RateLimit.History.{is_allowed, within}
use defect_sense.RateLimit.Window.{append-if}
use defect_sense.RateLimit.Middleware.{
  HttpRequest, LimitSettings, Handled, passes, RoleRateLimitMiddleware, Bucket, bucket_of, env_flag,
  answered, settled_limiter, decided, dispatch,
}
use defect_sense.RateLimit.Moves.{
  IsBounded, Moves, later-Moves, settled-Moves, check-Moves, check_other-Moves,
}

-- The clock readings of the requests do not fall behind `start`, nor behind one another.
abbrev pub Clocked : ℕ → List (ℕ × ℕ × HttpRequest) → Type 0
Clocked start [] = Unit
Clocked start ((now, later, request) ∷ requests) =
    (start ≤ now) × (now ≤ later) × Clocked later requests

abbrev pub went_on : Handled → Bool
went_on (passes d) = true
went_on _ = false

-- Whether a request is of a bucket.
abbrev pub is_of : String → Option Bucket → Bool
is_of key none = false
is_of key (some b) = str_eq b.subject key

abbrev pub LimitIs : String → ℕ → Option Bucket → Type 0
LimitIs key limit none = Unit
LimitIs key limit (some b) = b.subject ≡ key → b.limit ≡ limit

went_on-answered :
    (path : String) (answer : Option Decision) → went_on (answered path answer) ≡ is_allowed answer
went_on-answered path none = refl
went_on-answered path (some d) = ground arith

module _ (window limit : ℕ) (key : String) (second last now later seen : ℕ) (path : String)
    (le : last ≤ now) (le' : now ≤ later) (old : List ℕ) (l : SlidingWindowLimiter)
    (b : IsBounded window limit last key old l) where
  bucket-Moves :
      (subject role : String) (n : ℕ)
      → (subject ≡ key → n ≡ limit)
      → let (answer, next) = check second now subject n role l in
        Moves window limit later key
          ((old ++ hits_of key l)
            ++ (if str_eq subject key && went_on (answered path answer) then now ∷ [] else []))
          (settled_limiter later answer next seen)
  bucket-Moves subject role n limited = elim (Bool-cases (str_eq subject key)) [
    | inl mine ↦
        let same = (eq_iff subject key).0 mine in
        let (answer, next) = check second now key limit role l in
        let (old', checked, times) = check-Moves window limit key second last now old role l le b in
        let (old'', settled, times') =
          settled-Moves window limit key now later seen old' answer next le' checked in
        rw (same, limited same, eq_refl key, went_on-answered path answer)
          (old'', settled, times' ∙ times)
    | inr other ↦
        let (answer, next) = check second now subject n role l in
        let (old', checked, times) =
          check_other-Moves window limit key second last now n old subject role l le other b in
        let (old'', settled, times') =
          settled-Moves window limit key now later seen old' answer next le' checked in
        rw (other, append-nil (old ++ hits_of key l)) (old'', settled, times' ∙ times)
  ]

  decided-Moves :
      (o : Option Bucket)
      → LimitIs key limit o
      → let (reply, next) = decided second now later path o (record { limiter = l; seen = seen }) in
        Moves window limit later key
          ((old ++ hits_of key l) ++ (if is_of key o && went_on reply then now ∷ [] else []))
          next.limiter
  decided-Moves none limited =
      rw (append-nil (old ++ hits_of key l))
        (later-Moves window limit key last later old l (omega arith) b)
  decided-Moves (some bucket) limited = bucket-Moves bucket.subject bucket.role bucket.limit limited

module _ (second : ℕ) (strip lower : String → String) (int : String → Option ℕ)
    (user_from_token : String → Option User) (m : RbacMatrix) (settings : LimitSettings)
    (key : String) where
  -- The times at which the requests of a bucket were let through.
  unfoldable pub let_on : List (ℕ × ℕ × HttpRequest) → RoleRateLimitMiddleware → List ℕ
  let_on [] w = []
  let_on ((now, later, request) ∷ requests) w =
      let (reply, next) =
        dispatch strip lower int user_from_token m settings second now later request w in
      let rest = let_on requests next in
      if is_of key (bucket_of strip lower int user_from_token m settings request) && went_on reply
      then now ∷ rest
      else rest

  module _ (window limit : ℕ) (on : env_flag strip lower int settings.enabled true ≡ true) where
    admitted_bound :
        (requests : List (ℕ × ℕ × HttpRequest)) (w : RoleRateLimitMiddleware) (last : ℕ)
        (old : List ℕ)
        → Clocked last requests
        → All
            (λ r. LimitIs key limit (bucket_of strip lower int user_from_token m settings r.2))
            requests
        → IsBounded window limit last key old w.limiter
        → (s : ℕ)
        → length (keep (within window s) ((old ++ hits_of key w.limiter) ++ let_on requests w))
          ≤ limit
    unfolding let_on dispatch
    admitted_bound [] w last old clocked limited b s =
        rw (append-nil (old ++ hits_of key w.limiter)) (b.history.each s)
    admitted_bound ((now, later, request) ∷ requests) w last old (le, le', clocked) (h, hs) b s =
        let o = bucket_of strip lower int user_from_token m settings request in
        let (reply, next) = decided second now later request.path o w in
        let (old', moved, times) =
          decided-Moves window limit key second last now later w.seen request.path le le' old
            w.limiter b o h in
        let bound = admitted_bound requests next later old' clocked hs moved s in
        rw
          (
            on,
            append-if (is_of key o && went_on reply) (old ++ hits_of key w.limiter) now
                (let_on requests next),
            sym times,
          )
          bound

    -- With the limiter switched on, on a clock that does not run backwards, from a middleware with no
    -- requests behind it: if all requests of one bucket have one limit, then every window of the limiter's
    -- length holds at most that many of the requests of the bucket that are let through, among any
    -- others, and with all the prunings that come in between.
    pub admits_within_limit :
        (requests : List (ℕ × ℕ × HttpRequest)) (start seen s : ℕ)
        → Clocked start requests
        → All
            (λ r. LimitIs key limit (bucket_of strip lower int user_from_token m settings r.2))
            requests
        → length (
            keep (within window s) (
              let_on requests
                (record { limiter = record { window = window; hits = [] }; seen = seen })))
          ≤ limit
    unfolding lookup keep
    admits_within_limit requests start seen s clocked limited =
        admitted_bound requests
          (record { limiter = record { window = window; hits = [] }; seen = seen }) start [] clocked
          limited
          (record {
            window_same = refl;
            kept = record { unique = tt; timed = tt };
            history = record { gone = tt; few = omega arith; each = λ s. omega arith };
          })
          s
