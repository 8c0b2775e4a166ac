-- ===== src/Auth/Accounts.antt =====
-- The user accounts of src/forge/infrastructure/auth.py, kept in the dict `_DYNAMIC_USERS`, which a
-- function that reads or writes it takes and returns. argon2 and `str.strip`, `str.lower` are arguments.
use Prim.Native.String
use text.Mathlib.Text.{◌==◌ as str_eq, find?}
use defect_sense.Prelude.{
  ◌-◌, ◌⊎◌, inl, inr, String, Bool, true, false, Option, none, some, List, [], ◌∷◌, ltb,
  if◌then◌else◌,
}
use defect_sense.Dict.{Dict, lookup, insert, has}
use defect_sense.Enums.{Role, shop_floor_worker, qa, admin}
use defect_sense.Auth.Gates.{User}

-- `hash` is what the hasher returns; `verify` is its answer, or `none` where it raises.
pub record Crypto : Type 0 where
  pub strip : String → String
  pub lower : String → String
  pub hash : String → String
  pub verify : String → String → Option Bool

pub data AccountError : Type 0 where
  empty_username other_domain : AccountError
  already_exists : String → AccountError

abbrev pub username_domain : String
username_domain = "@ds.com"

abbrev pub contains : String → String → Bool
contains s t = elim (find? s t) [ none ↦ false | some _ ↦ true ]

abbrev pub ends_with : String → String → Bool
ends_with s t =
    if ltb (String.len s) (String.len t)
    then false
    else str_eq (String.slice s (String.len s - String.len t) (String.len s)) t

-- _DEMO_USERS
abbrev pub demo_users : List (String × String × Role)
demo_users =
    ("ravi@ds.com", "Ravi Verma", shop_floor_worker)
    ∷ ("aarav@ds.com", "Aarav Singh", shop_floor_worker)
    ∷ ("priya@ds.com", "Priya Patel", qa)
    ∷ ("sam@ds.com", "Rajesh Sharma", admin)
    ∷ []

module _ (crypto : Crypto) where
  unfoldable pub verify_password : String → String → Bool
  verify_password password password_hash = elim (crypto.verify password_hash password) [
    | none ↦ false
    | some ok ↦ ok
  ]

  unfoldable pub normalize_username : String → AccountError ⊎ String
  normalize_username value =
      let username = crypto.lower (crypto.strip value) in
      if str_eq username ""
      then inl empty_username
      else if contains username "@"
      then (if ends_with username username_domain then inr username else inl other_domain)
      else inr (String.◌++◌ username username_domain)

  abbrev pub seeded : String → List (String × String × Role) → Dict User → Dict User
  seeded demo_password [] users = users
  seeded demo_password ((username, display, role) ∷ rest) users = seeded demo_password rest (
      insert username
        (record {
          username = username;
          display_name = display;
          role = role;
          password_hash = crypto.hash demo_password;
        })
        users)

  -- The demo accounts, where there is no account yet.
  abbrev pub user_store : String → Dict User → Dict User
  user_store demo_password [] = seeded demo_password demo_users []
  user_store demo_password (u ∷ users) = u ∷ users

  abbrev pub given_or : String → String → String
  given_or s t = if str_eq s "" then t else s

  unfoldable pub register_user :
      String → String → String → Role → String → Dict User → (AccountError ⊎ User) × Dict User
  unfolding normalize_username
  register_user demo_password username display_name role password users =
      elim (normalize_username username) [
        | inl e ↦ (inl e, users)
        | inr clean ↦
            let store = user_store demo_password users in
            if has clean store then (inl (already_exists clean), store) else (
              inr (record {
                username = clean;
                display_name = given_or (crypto.strip display_name) clean;
                role = role;
                password_hash = crypto.hash password;
              }),
              store,
            )
      ]

  abbrev pub cache_user : String → User → Dict User → Dict User
  cache_user demo_password u users = insert u.username u (user_store demo_password users)

  -- `none` is AuthError.
  abbrev pub password_checked : String → Option User → Option User
  password_checked password none = none
  password_checked password (some u) =
      if verify_password password u.password_hash then some u else none

  unfoldable pub authenticate : String → String → String → Dict User → Option User × Dict User
  unfolding normalize_username verify_password
  authenticate demo_password username password users = elim (normalize_username username) [
    | inl _ ↦ (none, users)
    | inr clean ↦
        let store = user_store demo_password users in
        (password_checked password (lookup clean store), store)
  ]
