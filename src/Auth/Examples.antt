-- ===== src/Auth/Examples.antt =====
-- A small matrix file, and the gates over what it loads.
use Prim.Native.String
use text.Mathlib.Text.{◌==◌ as str_eq}
use defect_sense.Prelude.{
  ◌≡◌, refl, String, true, false, none, some, [], ◌∷◌, All, leb, ltb, ap, inl, inr, arith,
  if◌then◌else◌,
}
use defect_sense.Prelude.Sort.{keep, some_of}
use defect_sense.Dict.{Dict, lookup, eq_iff}
use defect_sense.Enums.{qa}
use defect_sense.Auth.{
  RbacMatrix, Raw, RoleSpec, config_of, given, load_roles, verify_separation_of_duties, load_rbac,
}
use defect_sense.Auth.Matrix.{Separated, load_rbac-Separated}
use defect_sense.Auth.Gates.{User}
use defect_sense.Auth.Accounts.{
  Crypto, normalize_username, verify_password, register_user, cache_user, authenticate,
}
use defect_sense.Auth.Tokens.{
  Jwt, Payload, valid, signature_expired, invalid, Settings, expected, secret, access_payload,
  refresh_payload, issue_access_token, issue_refresh_token, decode_token, user_from_token,
  known_user,
}
use defect_sense.Auth.Routes.{issue, refresh}
use defect_sense.Auth.Login.{IsJwt, registered_logs_in, tokens_exact, refresh_replays}

abbrev plain : RoleSpec
plain = record {
  persona = "";
  label = none;
  default_page = "/";
  explanation_depth = "brief";
  rate_limit_per_min = some 240;
  description = "";
}

abbrev file : Raw
file = record {
  permissions =
      ("QA", "inspection:read" ∷ "inspection:feedback" ∷ []) ∷ ("ADMIN", "admin:users" ∷ []) ∷ [];
  tool_access = [];
  roles = ("QA", plain) ∷ ("ADMIN", plain) ∷ [];
  never_autonomous = "line.halt" ∷ [];
  audited_permissions = [];
  separation_of_duties = ("ADMIN", "inspection:feedback" ∷ []) ∷ ("QA", "admin:users" ∷ []) ∷ [];
}

abbrev empty : RbacMatrix
empty = record { roles = []; never_autonomous = []; audited_permissions = [] }

abbrev matrix : RbacMatrix
matrix = given (load_rbac file) empty

file_loads : load_rbac file ≡ some matrix
unfolding load_rbac load_roles verify_separation_of_duties config_of lookup keep some_of
file_loads = refl

load_rbac-Separated_example : All (Separated matrix) file.separation_of_duties
load_rbac-Separated_example = load_rbac-Separated file matrix file_loads

abbrev as_is : String → String
as_is s = s

abbrev priya : User
priya = record {
  username = "priya@ds.com";
  display_name = "Priya Patel";
  role = qa;
  password_hash = "";
}

abbrev kept : Dict User
kept = ("priya@ds.com", priya) ∷ []

-- A hasher without salt, that verifies its own hashes.
abbrev crypto : Crypto
crypto = record {
  strip = as_is;
  lower = as_is;
  hash = λ p. String.◌++◌ "h:" p;
  verify = λ h p. some (str_eq h (String.◌++◌ "h:" p));
}

abbrev meena : User
meena = record {
  username = "meena@ds.com";
  display_name = "Meena";
  role = qa;
  password_hash = "h:secret";
}

meena_registers : register_user crypto "demo" "meena" "Meena" qa "secret" kept ≡ (inr meena, kept)
unfolding register_user normalize_username lookup
meena_registers = refl

registered_logs_in_example :
    ((authenticate crypto "demo" "meena" "secret" (cache_user crypto "demo" meena kept)).0
      ≡ some meena)
    × ((authenticate crypto "demo" "meena" "wrong" (cache_user crypto "demo" meena kept)).0
        ≡ (if verify_password crypto "wrong" "h:secret" then some meena else none))
registered_logs_in_example =
    registered_logs_in crypto "demo" (λ p. ap some ((eq_iff _ _).1 refl)) "meena" "Meena" "secret"
      "wrong" qa kept kept meena meena_registers

-- A token that shows its payload and the secret that it was made with.
abbrev open_jwt : Jwt (Payload × String)
open_jwt = record {
  encode = λ p s. (p, s);
  decode = λ now token s.
      if str_eq token.1 s
      then (if ltb now token.0.iat
          then invalid
          else if leb token.0.exp now
          then signature_expired
          else valid token.0)
      else invalid;
  is_empty = λ token. false;
}

open_jwt-IsJwt : IsJwt open_jwt
open_jwt-IsJwt = record {
  reads = λ p s now since.
      let issued : ltb now p.iat ≡ false = ground arith in rw ((eq_iff s s).1 refl, issued) refl;
}

abbrev settings : Settings
settings = record {
  jwt_secret = "k";
  production = true;
  access_ttl_minutes = 15;
  refresh_ttl_days = 7;
  demo_password = "demo";
}

abbrev access : Payload × String
access = (access_payload crypto open_jwt settings 1_000 priya 15, "k")

abbrev cookie : Payload × String
cookie = (refresh_payload crypto open_jwt settings 1_000 priya, "k")

access_issued : issue_access_token crypto open_jwt settings 1_000 priya none ≡ some (access, 900)
unfolding issue_access_token secret
access_issued = refl

cookie_issued : issue_refresh_token crypto open_jwt settings 1_000 priya ≡ some cookie
unfolding issue_refresh_token secret
cookie_issued = refl

tokens_exact_example :
    ((user_from_token crypto open_jwt settings 1_500 access kept).0
      ≡ known_user crypto open_jwt settings (lookup "priya@ds.com" kept))
    × ((user_from_token crypto open_jwt settings 1_500 cookie kept).0 ≡ inl (expected "access"))
    × (decode_token crypto open_jwt settings 1_500 access "refresh" ≡ inl (expected "refresh"))
tokens_exact_example =
    tokens_exact crypto open_jwt settings open_jwt-IsJwt 1_000 1_500 priya none kept access cookie
      900 access_issued cookie_issued (omega arith)

priya_kept : lookup "priya@ds.com" kept ≡ some priya
unfolding lookup
priya_kept = refl

refresh_replays_example :
    ((refresh crypto open_jwt settings matrix 2_000 cookie kept).0
      ≡ issue crypto open_jwt settings matrix 2_000 priya)
    × ((refresh crypto open_jwt settings matrix 3_000 cookie
          (refresh crypto open_jwt settings matrix 2_000 cookie kept).1).0
        ≡ issue crypto open_jwt settings matrix 3_000 priya)
refresh_replays_example =
    refresh_replays crypto open_jwt settings open_jwt-IsJwt matrix 1_000 2_000 3_000 priya priya
      kept cookie cookie_issued refl priya_kept (omega arith) (omega arith) (omega arith)
      (omega arith)
