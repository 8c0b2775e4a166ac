-- ===== src/Auth/Routes.antt =====
-- The routes of apps/api/routers/auth.py that issue tokens. What the document store does with a new
-- user is an argument of `register`.
use defect_sense.Prelude.{
  ℕ, inl, inr, String, Bool, true, false, Option, none, some, List, ◌>>=◌, if◌then◌else◌,
}
use defect_sense.Prelude.Sort.{sorted_by}
use defect_sense.Dict.{Dict, str_lt, lookup}
use defect_sense.Enums.{Role, shop_floor_worker, qa, admin}
use defect_sense.Auth.{RbacMatrix, config, role_named}
use defect_sense.Auth.Gates.{User}
use defect_sense.Auth.Accounts.{Crypto, user_store, register_user, cache_user, authenticate}
use defect_sense.Auth.Tokens.{Jwt, Settings, issue_access_token, issue_refresh_token, decode_token}

pub record Identity : Type 0 where
  pub username : String
  pub display_name : String
  pub role : Role
  pub label : String
  pub persona : String
  pub default_page : String
  pub explanation_depth : String
  pub permissions : List String

-- 401, 400, 409, 503, an exception that no handler catches, and the access token with the seconds it
-- lives, the refresh cookie and the identity.
pub data TokenReply (Token : Type 0) : Type 0 where
  unauthorized bad_request conflict unavailable server_error : TokenReply Token
  tokens : Token → ℕ → Token → Identity → TokenReply Token

-- The user is new there and was put, is there already, or the store failed or has not started.
pub data Persisted : Type 0 where
  saved taken failed : Persisted

abbrev pub identity : RbacMatrix → User → Option Identity
identity matrix u = do
  cfg ← config matrix u.role
  some (record {
    username = u.username;
    display_name = u.display_name;
    role = u.role;
    label = cfg.label;
    persona = cfg.persona;
    default_page = cfg.default_page;
    explanation_depth = cfg.explanation_depth;
    permissions = sorted_by str_lt cfg.permissions;
  })

module _ {Token : Type 0} (crypto : Crypto) (jwt : Jwt Token) (settings : Settings)
    (matrix : RbacMatrix) where
  -- Both tokens, the second in the cookie.
  unfoldable pub issue : ℕ → User → TokenReply Token
  issue now u =
      elim (do
        (access, expires_in) ← issue_access_token crypto jwt settings now u none
        cookie ← issue_refresh_token crypto jwt settings now u
        who ← identity matrix u
        some (tokens access expires_in cookie who)) [ none ↦ server_error | some reply ↦ reply ]

  unfoldable pub login : ℕ → String → String → Dict User → TokenReply Token × Dict User
  unfolding issue
  login now username password users =
      let (found, store) = authenticate crypto settings.demo_password username password users in
      (elim found [ none ↦ unauthorized | some u ↦ issue now u ], store)

  -- An empty cookie is none.
  unfoldable pub refresh : ℕ → Token → Dict User → TokenReply Token × Dict User
  unfolding issue
  refresh now cookie users =
      if jwt.is_empty cookie
      then (unauthorized, users)
      else elim (decode_token crypto jwt settings now cookie "refresh") [
        | inl _ ↦ (unauthorized, users)
        | inr p ↦
            let store = user_store crypto settings.demo_password users in
            (elim (lookup p.sub store) [ none ↦ unauthorized | some u ↦ issue now u ], store)
      ]

  abbrev pub may_register : Role → Bool
  may_register shop_floor_worker = true
  may_register qa = true
  may_register admin = false

  abbrev pub persisted : ℕ → User → Persisted → Dict User → TokenReply Token × Dict User
  persisted now u taken store = (conflict, store)
  persisted now u failed store = (unavailable, store)
  persisted now u saved store = (issue now u, cache_user crypto settings.demo_password u store)

  module _ (upper : String → String) (persist : User → Persisted) where
    unfoldable pub register :
        ℕ → String → String → String → String → Dict User → TokenReply Token × Dict User
    unfolding issue
    register now username display_name role password users =
        elim (role_named (upper (crypto.strip role))) [
          | none ↦ (bad_request, users)
          | some target ↦
              if may_register target
              then (let (made, store) =
                    register_user crypto settings.demo_password username display_name target
                      password users in
                  elim made [
                    | inl _ ↦ (bad_request, store)
                    | inr u ↦ persisted now u (persist u) store
                  ])
              else (bad_request, users)
        ]
