-- ===== src/RateLimit/Admission/Examples.antt =====
-- Six requests that reach the middleware of apps/api/ratelimit.py, with a limit of 2 in 60 seconds.
use defect_sense.Prelude.{
  ℕ, ◌≤◌, ◌≡◌, refl, String, Option, none, some, List, [], ◌∷◌, length, arith, if◌then◌else◌,
}
use defect_sense.Prelude.Sort.{keep, some_of}
use text.Mathlib.Text.{◌==◌ as str_eq}
use defect_sense.Dict.{lookup, insert, eq_iff}
use defect_sense.Enums.{qa}
use defect_sense.Auth.{RbacMatrix, config_of}
use defect_sense.Auth.Gates.{User}
use defect_sense.RateLimit.{check, check_hits, drop_expired, prune}
use defect_sense.RateLimit.History.{within}
use defect_sense.RateLimit.Middleware.{
  HttpRequest, LimitSettings, bucket_of, env_flag, anon_limit, dispatch,
}
use defect_sense.RateLimit.Admission.{let_on, admits_within_limit}

abbrev inspector : User
inspector = record { username = "priya"; display_name = "Priya"; role = qa; password_hash = "h" }

abbrev bearer : String → Option User
bearer token = if str_eq token "t" then some inspector else none

abbrev matrix : RbacMatrix
matrix = record {
  roles =
      (
        qa,
        record {
          role = qa;
          persona = "priya";
          label = "QA";
          default_page = "/";
          explanation_depth = "full";
          rate_limit_per_min = 2;
          description = "";
          permissions = [];
          tools = [];
        },
      )
      ∷ [];
  never_autonomous = [];
  audited_permissions = [];
}

abbrev unset : LimitSettings
unset = record { enabled = none; anon_rate = none }

abbrev sent : String → String → HttpRequest
sent path authorization = record {
  path = path;
  authorization = authorization;
  client = some "10.0.0.7";
}

abbrev requests : List (ℕ × ℕ × HttpRequest)
requests =
    (100, 100, sent "/api/v1/inspections" "Bearer t")
    ∷ (110, 111, sent "/api/v1/auth/login" "")
    ∷ (150, 150, sent "/api/v1/inspections" "Bearer t")
    ∷ (160, 160, sent "/health" "Bearer t")
    ∷ (200, 201, sent "/api/v1/inspections" "Bearer t")
    ∷ (701, 702, sent "/api/v1/inspections" "Bearer t")
    ∷ []

admits_within_limit_example :
    length (
      keep (within 600 100) (
        let_on 10
          (λ s. s)
          (λ s. s)
          (λ s. none)
          bearer
          matrix
          unset
          "user:priya"
          requests
          (record { limiter = record { window = 600; hits = [] }; seen = 0 })))
    ≤ 2
unfolding env_flag bucket_of anon_limit some_of config_of
admits_within_limit_example =
    admits_within_limit 10 (λ s. s) (λ s. s) (λ s. none) bearer matrix unset "user:priya" 600 2 refl
      requests 0 0 100
      (
        omega arith,
        omega arith,
        (
          omega arith,
          omega arith,
          (
            omega arith,
            omega arith,
            (omega arith, omega arith, (omega arith, omega arith, (omega arith, omega arith, tt))),
          ),
        ),
      )
      (
        λ e. refl,
        (
          λ e. ground (arith, (eq_iff "ip:10.0.0.7" "user:priya").1 e),
          (λ e. refl, (tt, (λ e. refl, (λ e. refl, tt)))),
        ),
      )

admitted_times :
    let_on 10
      (λ s. s)
      (λ s. s)
      (λ s. none)
      bearer
      matrix
      unset
      "user:priya"
      requests
      (record { limiter = record { window = 600; hits = [] }; seen = 0 })
    ≡ 100 ∷ 150 ∷ 701 ∷ []
unfolding let_on dispatch check check_hits drop_expired lookup insert prune some_of config_of
admitted_times = refl
