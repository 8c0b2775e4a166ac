-- ===== src/RateLimit/Middleware.antt =====
-- The middleware of apps/api/ratelimit.py around the limiter. `user_from_token` is an argument, with
-- `none` for its AuthError, as are Python's `str.strip`, `str.lower` and `int` of a text (`none` is a
-- ValueError, and a negative number reads as 0). The clock is read for the check and for a pruning.
use Prim.Native.String
use text.Mathlib.Text.{◌==◌ as str_eq}
use defect_sense.Prelude.{
  ℕ, ◌+◌, ◌%◌, max, String, Bool, true, false, Option, none, some, List, [], ◌∷◌, ltb, ◌==◌,
  if◌then◌else◌,
}
use defect_sense.Prelude.Sort.{some_of}
use defect_sense.Enums.{Role, shop_floor_worker, qa, admin}
use defect_sense.Auth.{RbacMatrix, RoleConfig, config}
use defect_sense.Auth.Gates.{User}
use defect_sense.RateLimit.{Decision, SlidingWindowLimiter, check, prune}

pub record HttpRequest : Type 0 where
  pub path : String
  pub authorization : String
  pub client : Option String

-- FORGE_RATE_LIMIT_ENABLED and FORGE_ANON_RATE_LIMIT_PER_MIN
pub record LimitSettings : Type 0 where
  pub enabled : Option String
  pub anon_rate : Option String

pub record Problem : Type 0 where
  pub status : ℕ
  pub role : String
  pub limit : ℕ
  pub retry_after : ℕ
  pub reset_in : ℕ
  pub instance_path : String

-- The request goes on, and its response has the headers of a decision if there is one; 429; or the
-- IndexError of `check`.
pub data Handled : Type 0 where
  passes : Option Decision → Handled
  refused : Problem → Handled
  raised : Handled

pub record RoleRateLimitMiddleware : Type 0 where
  pub limiter : SlidingWindowLimiter
  pub seen : ℕ

-- A bucket: its key, its limit and the role.
pub record Bucket : Type 0 where
  pub subject : String
  pub limit : ℕ
  pub role : String

abbrev pub prune_every : ℕ
prune_every = 500

abbrev pub among : List String → String → Bool
among names s = some_of (str_eq s) names

abbrev pub exempt_paths : List String
exempt_paths = "/health" ∷ "/docs" ∷ "/redoc" ∷ "/openapi.json" ∷ "/docs/oauth2-redirect" ∷ []

abbrev pub starts_with : String → String → Bool
starts_with s t =
    if ltb (String.len s) (String.len t) then false else str_eq (String.slice s 0 (String.len t)) t

abbrev pub role_value : Role → String
role_value shop_floor_worker = "SHOP_FLOOR_WORKER"
role_value qa = "QA"
role_value admin = "ADMIN"

-- A decision is counted, and the 500th prunes.
abbrev pub settled_limiter : ℕ → Option Decision → SlidingWindowLimiter → ℕ → SlidingWindowLimiter
settled_limiter later none l seen = l
settled_limiter later (some d) l seen = if (seen + 1) % prune_every == 0 then prune later l else l

abbrev pub counted_in : Option Decision → ℕ → ℕ
counted_in none seen = seen
counted_in (some d) seen = seen + 1

-- `_problem`
abbrev pub problem_of : String → Decision → Problem
problem_of path d = record {
  status = 429;
  role = d.role;
  limit = d.limit;
  retry_after = d.retry_after;
  reset_in = d.reset_in;
  instance_path = path;
}

abbrev pub answered : String → Option Decision → Handled
answered path none = raised
answered path (some d) = if d.allowed then passes (some d) else refused (problem_of path d)

-- What follows the choice of a bucket, with the two readings of the clock.
abbrev pub decided :
    ℕ → ℕ → ℕ → String → Option Bucket → RoleRateLimitMiddleware → Handled × RoleRateLimitMiddleware
decided second now later path none w = (passes none, w)
decided second now later path (some b) w =
    let (answer, l) = check second now b.subject b.limit b.role w.limiter in
    (
      answered path answer,
      record { limiter = settled_limiter later answer l w.seen; seen = counted_in answer w.seen },
    )

module _ (strip lower : String → String) (int : String → Option ℕ) where
  unfoldable pub env_flag : Option String → Bool → Bool
  env_flag none default = default
  env_flag (some raw) default =
      if str_eq (strip raw) ""
      then default
      else among ("1" ∷ "true" ∷ "yes" ∷ "on" ∷ []) (lower (strip raw))

  abbrev pub at_least_one : Option ℕ → ℕ
  at_least_one none = 60
  at_least_one (some n) = max 1 n

  -- int of the text, which is "60" where the variable is not set
  unfoldable pub anon_limit : Option String → ℕ
  anon_limit none = 60
  anon_limit (some raw) = at_least_one (int raw)

  module _ (user_from_token : String → Option User) (m : RbacMatrix)
      (settings : LimitSettings) where
    abbrev pub limit_of_role : Option RoleConfig → ℕ
    limit_of_role none = anon_limit settings.anon_rate
    limit_of_role (some c) = c.rate_limit_per_min

    -- An invalid token has no bucket.
    abbrev pub user_bucket : Option User → Option Bucket
    user_bucket none = none
    user_bucket (some user) = some (record {
      subject = String.◌++◌ "user:" user.username;
      limit = limit_of_role (config m user.role);
      role = role_value user.role;
    })

    abbrev pub client_name : Option String → String
    client_name none = "unknown"
    client_name (some host) = host

    abbrev pub token_of : String → String
    token_of header = strip (String.slice header 7 (String.len header))

    -- The bucket that `_decide` finds for a request.
    unfoldable pub bucket_of : HttpRequest → Option Bucket
    unfolding anon_limit
    bucket_of request =
        if among exempt_paths request.path
        then none
        else if starts_with request.authorization "Bearer "
        then user_bucket (user_from_token (token_of request.authorization))
        else if some_of (starts_with request.path)
            ("/api/v1/auth/login" ∷ "/api/v1/auth/refresh" ∷ [])
        then some (record {
          subject = String.◌++◌ "ip:" (client_name request.client);
          limit = anon_limit settings.anon_rate;
          role = "anonymous";
        })
        else none

    -- The request, with the two readings of the clock.
    unfoldable pub dispatch :
        ℕ → ℕ → ℕ → HttpRequest → RoleRateLimitMiddleware → Handled × RoleRateLimitMiddleware
    unfolding bucket_of env_flag
    dispatch second now later request w =
        if env_flag settings.enabled true
        then decided second now later request.path (bucket_of request) w
        else (passes none, w)
