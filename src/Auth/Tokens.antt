-- ===== src/Auth/Tokens.antt =====
-- The tokens of src/forge/infrastructure/auth.py. The library jwt is an argument; times are seconds.
use text.Mathlib.Text.{◌==◌ as str_eq}
use defect_sense.Prelude.{
  ℕ, ◌+◌, ◌*◌, ◌⊎◌, inl, inr, String, Bool, Option, none, some, ◌==◌, if◌then◌else◌,
}
use defect_sense.Dict.{Dict, lookup}
use defect_sense.Enums.{Role}
use defect_sense.Auth.Gates.{User}
use defect_sense.Auth.Accounts.{Crypto, user_store}

-- A refresh token has no name and no role.
pub record Payload : Type 0 where
  pub sub : String
  pub name : Option String
  pub role : Option Role
  pub iat : ℕ
  pub exp : ℕ
  pub typ : String

pub data Decoded : Type 0 where
  valid : Payload → Decoded
  signature_expired invalid : Decoded

-- jwt.encode(payload, secret), and jwt.decode(token, secret) at a time. A token is a text that nothing
-- but jwt looks into; the routes ask whether it is empty.
pub record Jwt (Token : Type 0) : Type 0 where
  pub encode : Payload → String → Token
  pub decode : ℕ → Token → String → Decoded
  pub is_empty : Token → Bool

-- What the module reads of the environment.
pub record Settings : Type 0 where
  pub jwt_secret : String
  pub production : Bool
  pub access_ttl_minutes : ℕ
  pub refresh_ttl_days : ℕ
  pub demo_password : String

pub data AuthError : Type 0 where
  no_secret token_expired invalid_token unknown_subject : AuthError
  expected : String → AuthError

module _ {Token : Type 0} (crypto : Crypto) (jwt : Jwt Token) (settings : Settings) where
  unfoldable pub secret : Option String
  secret =
      let given_secret = crypto.strip settings.jwt_secret in
      if str_eq given_secret ""
      then (if settings.production then none else some "dev-only-insecure-secret-change-me")
      else some given_secret

  abbrev pub ttl_of : Option ℕ → ℕ
  ttl_of none = settings.access_ttl_minutes
  ttl_of (some minutes) = if minutes == 0 then settings.access_ttl_minutes else minutes

  abbrev pub access_payload : ℕ → User → ℕ → Payload
  access_payload now u ttl = record {
    sub = u.username;
    name = some u.display_name;
    role = some u.role;
    iat = now;
    exp = now + ttl * 60;
    typ = "access";
  }

  -- `none` is the AuthError of `_secret`.
  unfoldable pub issue_access_token : ℕ → User → Option ℕ → Option (Token × ℕ)
  unfolding secret
  issue_access_token now u minutes =
      let ttl = ttl_of minutes in
      elim secret [
        | none ↦ none
        | some s ↦ some (jwt.encode (access_payload now u ttl) s, ttl * 60)
      ]

  abbrev pub refresh_payload : ℕ → User → Payload
  refresh_payload now u = record {
    sub = u.username;
    name = none;
    role = none;
    iat = now;
    exp = now + settings.refresh_ttl_days * 86_400;
    typ = "refresh";
  }

  unfoldable pub issue_refresh_token : ℕ → User → Option Token
  unfolding secret
  issue_refresh_token now u = elim secret [
    | none ↦ none
    | some s ↦ some (jwt.encode (refresh_payload now u) s)
  ]

  abbrev pub kind_checked : String → Decoded → AuthError ⊎ Payload
  kind_checked expect signature_expired = inl token_expired
  kind_checked expect invalid = inl invalid_token
  kind_checked expect (valid p) = if str_eq p.typ expect then inr p else inl (expected expect)

  unfoldable pub decode_token : ℕ → Token → String → AuthError ⊎ Payload
  unfolding secret
  decode_token now token expect = elim secret [
    | none ↦ inl no_secret
    | some s ↦ kind_checked expect (jwt.decode now token s)
  ]

  abbrev pub known_user : Option User → AuthError ⊎ User
  known_user none = inl unknown_subject
  known_user (some u) = inr u

  unfoldable pub user_from_token : ℕ → Token → Dict User → (AuthError ⊎ User) × Dict User
  unfolding decode_token
  user_from_token now token users = elim (decode_token now token "access") [
    | inl e ↦ (inl e, users)
    | inr p ↦
        let store = user_store crypto settings.demo_password users in
        (known_user (lookup p.sub store), store)
  ]
