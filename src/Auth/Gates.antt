-- ===== src/Auth/Gates.antt =====
-- The gates of apps/api/security.py: permissions of a route, the stations of a caller, and the
-- handshake of a websocket. `user_from_token` and Python's `str.strip` are arguments; `none` is an
-- AuthError of the former.
use text.Mathlib.Text.{◌==◌ as str_eq}
use defect_sense.Prelude.{
  ◌≡◌, ◌↔◌, ◌⊎◌, refl, ap, String, Bool, true, false, Option, none, some, List, arith, Bool-cases,
  Option-cases, some_inj, inl, inr, if◌then◌else◌,
}
use defect_sense.Prelude.Sort.{some_of}
use defect_sense.Dict.{eq_iff}
use defect_sense.Enums.{Role}
use defect_sense.Auth.{RbacMatrix, allows}

-- `require_any`
abbrev pub require_any : RbacMatrix → Role → List String → Bool
require_any m r permissions = some_of (allows m r) permissions

pub record StationScope : Type 0 where
  pub all_stations : Bool
  pub station : Option String

abbrev pub same_station : Option String → Option String → Bool
same_station none s = false
same_station (some id) none = false
same_station (some id) (some s) = str_eq id s

abbrev pub permits : StationScope → Option String → Bool
permits scope station_id =
    if scope.all_stations then true else same_station station_id scope.station

unfoldable pub station_scope : RbacMatrix → Role → String → StationScope
station_scope m r default_station =
    if allows m r "inspection:read"
    then record { all_stations = true; station = none }
    else if allows m r "inspection:read_own_station"
    then record { all_stations = false; station = some default_station }
    else record { all_stations = false; station = none }

-- A caller sees a record exactly when the role reads all inspections, or reads those of its own
-- station and the record names that station: a record without a station is hidden from the latter.
pub scope_exact :
    (m : RbacMatrix) (r : Role) (default_station : String) (station_id : Option String)
    → (permits (station_scope m r default_station) station_id ≡ true) ↔ (
        (allows m r "inspection:read" ≡ true)
        ⊎ ((allows m r "inspection:read_own_station" ≡ true) × (station_id ≡ some default_station)))
unfolding station_scope
scope_exact m r default_station station_id = elim (Bool-cases (allows m r "inspection:read")) [
  | inl all ↦ rw all (λ e. inl refl, λ h. refl)
  | inr limited ↦ elim (Bool-cases (allows m r "inspection:read_own_station")) [
    | inl own ↦ rw (limited, own) (owns station_id)
    | inr neither ↦ rw (limited, neither) (none_owned station_id)
  ]
]
  where
    owns :
        (id : Option String)
        → (same_station id (some default_station) ≡ true)
          ↔ (◌≡◌ {A = Bool} false true ⊎ (◌≡◌ {A = Bool} true true × (id ≡ some default_station)))
    owns none = (λ e. cc, λ h. absurd (ground arith))
    owns (some id) = (
      λ e. inr (refl, ap some ((eq_iff id default_station).0 e)),
      λ h. ground (arith, eq_iff id default_station),
    )

    none_owned :
        (id : Option String)
        → (same_station id none ≡ true)
          ↔ (◌≡◌ {A = Bool} false true ⊎ (◌≡◌ {A = Bool} false true × (id ≡ some default_station)))
    none_owned none = (λ e. cc, λ h. absurd (ground arith))
    none_owned (some id) = (λ e. cc, λ h. absurd (ground arith))

-- The first frame of a socket: nothing in time or a peer that left, no JSON object, an object of
-- another type or without a token, and an authentication.
pub data FirstFrame : Type 0 where
  silent garbled other_type : FirstFrame
  auth : String → FirstFrame

pub record User : Type 0 where
  pub username : String
  pub display_name : String
  pub role : Role
  pub password_hash : String

pub record WsIdentity : Type 0 where
  pub user : Option User
  pub degraded : Bool

-- WS_CLOSE_FORBIDDEN, with the identity of an accepted socket.
pub data Handshake : Type 0 where
  accepted : WsIdentity → Handshake
  closed_forbidden : Handshake

abbrev pub anonymous : Handshake
anonymous = accepted (record { user = none; degraded = true })

module _ (strip : String → String) (user_from_token : String → Option User) where
  abbrev pub first_message_token : FirstFrame → String
  first_message_token (auth token) = strip token
  first_message_token _ = ""

  -- The token of the query parameter, or else that of the first frame; "" is none.
  abbrev pub socket_token : Option String → FirstFrame → String
  socket_token none frame = first_message_token frame
  socket_token (some q) frame = if str_eq (strip q) "" then first_message_token frame else strip q

  abbrev pub authorized : RbacMatrix → String → Option User → Handshake
  authorized m permission none = anonymous
  authorized m permission (some user) =
      if allows m user.role permission
      then accepted (record { user = some user; degraded = false })
      else closed_forbidden

  unfoldable pub authenticate_websocket :
      RbacMatrix → String → Option String → FirstFrame → Handshake
  authenticate_websocket m permission query frame =
      let token = socket_token query frame in
      if str_eq token "" then anonymous else authorized m permission (user_from_token token)

  -- A socket is closed exactly when its token is that of a user whose role lacks the permission. With
  -- no token, or one that names no user, it is accepted without an identity.
  pub closes_exactly_when :
      (m : RbacMatrix) (permission : String) (query : Option String) (frame : FirstFrame)
      → let token = socket_token query frame in
        ((authenticate_websocket m permission query frame ≡ closed_forbidden) ↔ (
          (str_eq token "" ≡ false)
          × ((user : User) × (user_from_token token ≡ some user)
              × (allows m user.role permission ≡ false))))
        × ((authenticate_websocket m permission query frame ≡ anonymous)
            ↔ ((str_eq token "" ≡ true) ⊎ (user_from_token token ≡ none)))
  unfolding authenticate_websocket
  closes_exactly_when m permission query frame = elim (Bool-cases (str_eq token "")) [
    | inl blank ↦ rw blank ((λ e. cc, λ h. cc h.0), (λ e. inl refl, λ h. refl))
    | inr present ↦ rw present (elim (Option-cases (user_from_token token)) [
      | inl unknown ↦ rw unknown ((λ e. cc, λ h. cc h.1.1), (λ e. inr refl, λ h. refl))
      | inr (user, known) ↦ rw known (elim (Bool-cases (allows m user.role permission)) [
        | inl may ↦
            rw may (
              (λ e. cc, λ h. absurd (lacks_not user may h.1)),
              (λ e. cc, λ h. absurd (ground arith)),
            )
        | inr lacks ↦
            rw lacks
              ((λ e. (refl, (user, refl, lacks)), λ h. refl), (λ e. cc, λ h. absurd (ground arith)))
      ])
    ])
  ]
    where
      token : String
      token = socket_token query frame

      lacks_not :
          (user : User)
          → allows m user.role permission ≡ true
          → ((found : User) × (some user ≡ some found) × (allows m found.role permission ≡ false))
          → ⊥
      lacks_not user may (found, same, lacks) =
          let equal : user ≡ found = some_inj same in
          let lacking : allows m user.role permission ≡ false = rw equal lacks in ground arith
