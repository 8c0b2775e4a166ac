-- ===== src/Auth/Login.antt =====
-- Accounts and tokens from the function that makes them to the check that accepts them.
use text.Mathlib.Text.{◌==◌ as str_eq}
use defect_sense.Prelude.{
  ◌≤◌, ℕ, ◌+◌, ◌*◌, ◌<◌, ◌≡◌, ◌⊎◌, refl, sym, ap, ◌∙◌, String, Bool, true, false, Option, none,
  some, [], ◌∷◌, leb, inl, inr, if◌then◌else◌, arith, Bool-cases, Option-cases, some_inj,
}
use defect_sense.Dict.{Dict, lookup, insert, has, lookup-insert, eq_iff}
use defect_sense.Enums.{Role}
use defect_sense.Auth.{RbacMatrix}
use defect_sense.Auth.Gates.{User}
use defect_sense.Auth.Accounts.{
  Crypto, already_exists, user_store, normalize_username, verify_password, register_user,
  cache_user, authenticate,
}
use defect_sense.Auth.Tokens.{
  Jwt, Payload, valid, signature_expired, Settings, AuthError, token_expired, expected, secret,
  ttl_of, access_payload, refresh_payload, kind_checked, issue_access_token, issue_refresh_token,
  decode_token, user_from_token, known_user,
}
use defect_sense.Auth.Routes.{issue, refresh}

inr_inj {ℓ κ} : {A : Type ℓ} {B : Type κ} {b c : B} → ◌≡◌ {A = A ⊎ B} (inr b) (inr c) → b ≡ c
inr_inj e = cc

sum_cases {ℓ κ} :
    {A : Type ℓ} {B : Type κ} (s : A ⊎ B) → ((a : A) × (s ≡ inl a)) ⊎ ((b : B) × (s ≡ inr b))
sum_cases (inl a) = inl (a, refl)
sum_cases (inr b) = inr (b, refl)

module _ (crypto : Crypto) (demo_password : String) where
  user_store-insert :
      (k : String) (u : User) (users : Dict User)
      → user_store crypto demo_password (insert k u users) ≡ insert k u users
  unfolding insert
  user_store-insert k u [] = refl
  user_store-insert k u ((j, v) ∷ users) = elim (Bool-cases (str_eq j k)) [
    | inl same ↦ rw same refl
    | inr other ↦ rw other refl
  ]

  user_store-known_user :
      (k : String) (v : User) (users : Dict User)
      → lookup k users ≡ some v
      → user_store crypto demo_password users ≡ users
  unfolding lookup
  user_store-known_user k v [] h = absurd (ground arith)
  user_store-known_user k v (u ∷ users) h = refl

  register_names :
      (typed display_name password : String) (role : Role) (users store : Dict User) (u : User)
      → register_user crypto demo_password typed display_name role password users ≡ (inr u, store)
      → (normalize_username crypto typed ≡ inr u.username)
        × (u.password_hash ≡ crypto.hash password)
  unfolding register_user
  register_names typed display_name password role users store u e =
      elim (sum_cases (normalize_username crypto typed)) [
        | inl (fault, bad) ↦
            let failed : inl fault ≡ inr u = ap (λ r. r.0) (rw (register_user, bad) at e) in
            absurd (ground arith)
        | inr (clean, good) ↦
            elim (Bool-cases (has clean (user_store crypto demo_password users))) [
              | inl there ↦
                  let failed : inl (already_exists clean) ≡ inr u =
                    ap (λ r. r.0) (rw (register_user, good, there) at e) in
                  absurd (ground arith)
              | inr free ↦
                  let made = ap (λ r. r.0) (rw (register_user, good, free) at e) in
                  let same = inr_inj made in
                  (
                    good ∙ ap (λ (w : User). inr w.username) same,
                    sym (ap (λ (w : User). w.password_hash) same),
                  )
            ]
      ]

  authenticate_kept :
      (typed password : String) (users : Dict User) (u : User)
      → normalize_username crypto typed ≡ inr u.username
      → (authenticate crypto demo_password typed password
          (cache_user crypto demo_password u users)).0
        ≡ (if verify_password crypto password u.password_hash then some u else none)
  unfolding authenticate
  authenticate_kept typed password users u named =
      rw
        (
          authenticate,
          named,
          user_store-insert u.username u (user_store crypto demo_password users),
          lookup-insert u.username u.username u (user_store crypto demo_password users),
          (eq_iff u.username u.username).1 refl,
        )
        refl

  -- An account that was registered and kept is that of the name as it was typed: with it, the password
  -- of the registration logs in, where the hasher verifies its own hashes, and another password does
  -- exactly where it verifies too.
  pub registered_logs_in :
      ((p : String) → crypto.verify (crypto.hash p) p ≡ some true)
      → (typed display_name password other : String) (role : Role) (users store : Dict User)
        (u : User)
      → register_user crypto demo_password typed display_name role password users ≡ (inr u, store)
      → let kept = cache_user crypto demo_password u store in
        ((authenticate crypto demo_password typed password kept).0 ≡ some u)
        × ((authenticate crypto demo_password typed other kept).0
            ≡ (if verify_password crypto other u.password_hash then some u else none))
  unfolding verify_password
  registered_logs_in verifies typed display_name password other role users store u e =
      let (named, hashed) = register_names typed display_name password role users store u e in
      let verified : verify_password crypto password (crypto.hash password) ≡ true =
        rw (verify_password, verifies password) refl in
      (
        authenticate_kept typed password store u named
            ∙ rw (ap (verify_password crypto password) hashed ∙ verified) refl,
        authenticate_kept typed other store u named,
      )

-- What PyJWT documents: a token reads back with the secret that it was made with, from the time of its
-- issue until it expires.
pub record IsJwt {Token : Type 0} (jwt : Jwt Token) : Type 0 where
  pub reads :
      (p : Payload) (s : String) (now : ℕ)
      → p.iat ≤ now
      → jwt.decode now (jwt.encode p s) s ≡ (if leb p.exp now then signature_expired else valid p)

module _ {Token : Type 0} (crypto : Crypto) (jwt : Jwt Token) (settings : Settings)
    (documented : IsJwt jwt) where
  issued :
      (now : ℕ) (u : User) (minutes : Option ℕ) (token : Token) (lives : ℕ)
      → issue_access_token crypto jwt settings now u minutes ≡ some (token, lives)
      → (s : String) × (p : Payload) × (secret crypto jwt settings ≡ some s)
        × (token ≡ jwt.encode p s)
        × (p.exp ≡ now + lives)
        × (p.iat ≡ now)
        × (p.typ ≡ "access")
        × (p.sub ≡ u.username)
  unfolding issue_access_token
  issued now u minutes token lives e = elim (Option-cases (secret crypto jwt settings)) [
    | inl nothing ↦ absurd (ground arith)
    | inr (s, known_secret) ↦
        let pair = some_inj (rw (issue_access_token, known_secret) at e) in
        let ttl = ttl_of crypto jwt settings minutes in
        (
          s,
          access_payload crypto jwt settings now u ttl,
          known_secret,
          ap (λ r. r.0) (sym pair),
          ap (λ r. now + r.1) pair,
          refl,
          refl,
          refl,
        )
  ]

  renewable :
      (now : ℕ) (u : User) (cookie : Token)
      → issue_refresh_token crypto jwt settings now u ≡ some cookie
      → (s : String) × (secret crypto jwt settings ≡ some s)
        × (cookie ≡ jwt.encode (refresh_payload crypto jwt settings now u) s)
  unfolding issue_refresh_token
  renewable now u cookie e = elim (Option-cases (secret crypto jwt settings)) [
    | inl nothing ↦ absurd (ground arith)
    | inr (s, known_secret) ↦
        (s, known_secret, some_inj (sym (rw (issue_refresh_token, known_secret) at e)))
  ]

  -- A token of a payload is read as far as its time and its kind allow.
  decode-encode :
      (p : Payload) (s : String) (token : Token) (expect : String) (later : ℕ)
      → secret crypto jwt settings ≡ some s
      → token ≡ jwt.encode p s
      → p.iat ≤ later
      → decode_token crypto jwt settings later token expect ≡ (
          if leb p.exp later
          then inl token_expired
          else if str_eq p.typ expect
          then inr p
          else inl (expected expect))
  unfolding decode_token
  decode-encode p s token expect later known_secret is since =
      rw (decode_token, known_secret, is, documented.reads p s later since)
        (settle (leb p.exp later))
    where
      settle :
          (b : Bool)
          → kind_checked crypto jwt settings expect (if b then signature_expired else valid p) ≡ (
              if b
              then inl token_expired
              else if str_eq p.typ expect
              then inr p
              else inl (expected expect))
      settle true = refl
      settle false = refl

  user_inl :
      (later : ℕ) (token : Token) (users : Dict User) (x : AuthError)
      → decode_token crypto jwt settings later token "access" ≡ inl x
      → (user_from_token crypto jwt settings later token users).0 ≡ inl x
  unfolding user_from_token
  user_inl later token users x e = rw (user_from_token, e) refl

  user_inr :
      (later : ℕ) (token : Token) (users : Dict User) (p : Payload)
      → decode_token crypto jwt settings later token "access" ≡ inr p
      → (user_from_token crypto jwt settings later token users).0
        ≡ known_user crypto jwt settings
            (lookup p.sub (user_store crypto settings.demo_password users))
  unfolding user_from_token
  user_inr later token users p e = rw (user_from_token, e) refl

  either :
      (x y : AuthError) (b : Bool)
      → ◌≡◌ {A = AuthError ⊎ Payload} (if b then inl x else inl y) (inl (if b then x else y))
  either x y true = refl
  either x y false = refl

  -- An access token stands for the account with its name, whoever has it then, from its issue until it has
  -- lived its seconds, and a refresh token never does; and an access token is never taken for a refresh token.
  pub tokens_exact :
      (now later : ℕ) (u : User) (minutes : Option ℕ) (users : Dict User) (token cookie : Token)
      (lives : ℕ)
      → issue_access_token crypto jwt settings now u minutes ≡ some (token, lives)
      → issue_refresh_token crypto jwt settings now u ≡ some cookie
      → now ≤ later
      → let expired = leb (now + settings.refresh_ttl_days * 86_400) later in
        ((user_from_token crypto jwt settings later token users).0 ≡ (
          if leb (now + lives) later
          then inl token_expired
          else known_user crypto jwt settings
              (lookup u.username (user_store crypto settings.demo_password users))))
        × ((user_from_token crypto jwt settings later cookie users).0
            ≡ inl (if expired then token_expired else expected "access"))
        × (decode_token crypto jwt settings later token "refresh"
            ≡ inl (if leb (now + lives) later then token_expired else expected "refresh"))
  unfolding issue_access_token issue_refresh_token user_from_token decode_token
  tokens_exact now later u minutes users token cookie lives e f since =
      let (s, p, hidden, is, ends, starts, kind, owner) = issued now u minutes token lives e in
      let (s', hidden', is') = renewable now u cookie f in
      let q = refresh_payload crypto jwt settings now u in
      let begun : p.iat ≤ later = omega (arith, starts, since) in
      let read = decode-encode p s token "access" later hidden is begun in
      let crossed = decode-encode q s' cookie "access" later hidden' is' since in
      elim (Bool-cases (leb (now + lives) later)) [
        | inl over ↦ rw over (
          user_inl later token users token_expired (read ∙ rw (ends, over) refl),
          user_inl later cookie users _ (crossed ∙ either _ _ (leb q.exp later)),
          decode-encode p s token "refresh" later hidden is begun ∙ rw (ends, over) refl,
        )
        | inr live ↦ rw live (
          user_inr later token users p (read ∙ rw (ends, live, kind) refl) ∙ rw owner refl,
          user_inl later cookie users _ (crossed ∙ either _ _ (leb q.exp later)),
          decode-encode p s token "refresh" later hidden is begun ∙ rw (ends, live, kind) refl,
        )
      ]

  refresh_once :
      (matrix : RbacMatrix) (now later : ℕ) (u v : User) (users : Dict User) (cookie : Token)
      → issue_refresh_token crypto jwt settings now u ≡ some cookie
      → jwt.is_empty cookie ≡ false
      → lookup u.username users ≡ some v
      → now ≤ later
      → later < now + settings.refresh_ttl_days * 86_400
      → refresh crypto jwt settings matrix later cookie users
        ≡ (issue crypto jwt settings matrix later v, users)
  unfolding refresh
  refresh_once matrix now later u v users cookie e present kept since in_time =
      let (s, hidden, is) = renewable now u cookie e in
      let q = refresh_payload crypto jwt settings now u in
      let live : leb q.exp later ≡ false = ground arith in
      let read : decode_token crypto jwt settings later cookie "refresh" ≡ inr q =
        rw (decode-encode q s cookie "refresh" later hidden is since, live) refl in
      rw
        (
          refresh,
          present,
          read,
          user_store-known_user crypto settings.demo_password _ v users kept,
          kept,
        )
        refl

  -- A refresh cookie is not used up: from its issue until it expires, it gives new tokens each time, though every
  -- answer sets a new cookie.
  pub refresh_replays :
      (matrix : RbacMatrix) (now first later : ℕ) (u v : User) (users : Dict User) (cookie : Token)
      → issue_refresh_token crypto jwt settings now u ≡ some cookie
      → jwt.is_empty cookie ≡ false
      → lookup u.username users ≡ some v
      → now ≤ first
      → now ≤ later
      → first < now + settings.refresh_ttl_days * 86_400
      → later < now + settings.refresh_ttl_days * 86_400
      → let answer = refresh crypto jwt settings matrix first cookie users in
        (answer.0 ≡ issue crypto jwt settings matrix first v)
        × ((refresh crypto jwt settings matrix later cookie answer.1).0
            ≡ issue crypto jwt settings matrix later v)
  unfolding refresh
  refresh_replays matrix now first later u v users cookie e present kept begun since early late =
      let answered = refresh_once matrix now first u v users cookie e present kept begun early in
      (
        ap (λ r. r.0) answered,
        ap (λ us. (refresh crypto jwt settings matrix later cookie us).0) (ap (λ r. r.1) answered)
            ∙ ap (λ r. r.0)
                (refresh_once matrix now later u v users cookie e present kept since late),
      )
