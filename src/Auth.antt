-- ===== src/Auth.antt =====
-- Authorization: the matrix of src/forge/infrastructure/auth.py. A dict keyed by roles is an
-- association list, a frozenset the list of its elements.
pub mod Matrix
pub mod Gates
pub mod Accounts
pub mod Tokens
pub mod Routes
pub mod Login
mod Examples
use text.Mathlib.Text.{◌==◌ as str_eq}
use defect_sense.Prelude.{
  ℕ, String, Bool, true, false, Option, none, some, List, [], ◌∷◌, ◌++◌, ◌>>=◌, if◌then◌else◌,
}
use defect_sense.Prelude.Sort.{keep, some_of}
use defect_sense.Dict.{Dict, lookup}
use defect_sense.Enums.{Role, shop_floor_worker, qa, admin}

pub record RoleConfig : Type 0 where
  pub role : Role
  pub persona : String
  pub label : String
  pub default_page : String
  pub explanation_depth : String
  pub rate_limit_per_min : ℕ
  pub description : String
  pub permissions : List String
  pub tools : List String

pub record RbacMatrix : Type 0 where
  pub roles : List (Role × RoleConfig)
  pub never_autonomous : List String
  pub audited_permissions : List String

abbrev pub role_eq : Role → Role → Bool
role_eq shop_floor_worker shop_floor_worker = true
role_eq qa qa = true
role_eq admin admin = true
role_eq _ _ = false

-- p in ps
abbrev pub member : String → List String → Bool
member p ps = some_of (str_eq p) ps

unfoldable pub config_of : Role → List (Role × RoleConfig) → Option RoleConfig
config_of r [] = none
config_of r ((s, c) ∷ cs) = if role_eq s r then some c else config_of r cs

-- `config`: `none` is PermissionDeniedError.
abbrev pub config : RbacMatrix → Role → Option RoleConfig
config m r = config_of r m.roles

abbrev pub holds : Option RoleConfig → String → Bool
holds none permission = false
holds (some c) permission = member permission c.permissions

unfoldable pub allows : RbacMatrix → Role → String → Bool
allows m r permission = holds (config m r) permission

-- `false` is PermissionDeniedError.
abbrev pub require : RbacMatrix → Role → String → Bool
require = allows

-- What `yaml.safe_load` reads: an entry that the file leaves out has its
-- default, and a description has its spaces joined.
pub record RoleSpec : Type 0 where
  pub persona : String
  pub label : Option String
  pub default_page : String
  pub explanation_depth : String
  pub rate_limit_per_min : Option ℕ
  pub description : String

pub record Raw : Type 0 where
  pub permissions : Dict (List String)
  pub tool_access : Dict (List String)
  pub roles : Dict RoleSpec
  pub never_autonomous : List String
  pub audited_permissions : List String
  pub separation_of_duties : List (String × List String)

-- Role(name)
abbrev pub role_named : String → Option Role
role_named name =
    if str_eq name "SHOP_FLOOR_WORKER"
    then some shop_floor_worker
    else if str_eq name "QA"
    then some qa
    else if str_eq name "ADMIN"
    then some admin
    else none

abbrev pub given {ℓ} : {A : Type ℓ} → Option A → A → A
given none a = a
given (some b) a = b

abbrev pub role_config : Raw → Role → String → RoleSpec → RoleConfig
role_config raw role name spec = record {
  role = role;
  persona = spec.persona;
  label = given spec.label name;
  default_page = spec.default_page;
  explanation_depth = spec.explanation_depth;
  rate_limit_per_min = given spec.rate_limit_per_min 60;
  description = spec.description;
  permissions = given (lookup name raw.permissions) [];
  tools = given (lookup "_all_roles" raw.tool_access) [] ++ given (lookup name raw.tool_access) [];
}

unfoldable pub load_roles : Raw → Dict RoleSpec → Option (List (Role × RoleConfig))
load_roles raw [] = some []
load_roles raw ((name, spec) ∷ specs) = do
  role ← role_named name
  rest ← load_roles raw specs
  some ((role, role_config raw role name spec) ∷ rest)

-- forbidden & permissions
abbrev pub held : List String → RoleConfig → List String
held forbidden c = keep (λ p. member p c.permissions) forbidden

abbrev pub nothing_held : List String → Bool
nothing_held [] = true
nothing_held (p ∷ ps) = false

-- A name that is no role, a role without an entry and a permission that is held are ValueError,
-- KeyError and ValueError.
unfoldable pub verify_separation_of_duties : RbacMatrix → List (String × List String) → Bool
verify_separation_of_duties m [] = true
verify_separation_of_duties m ((name, forbidden) ∷ rules) =
    let rest = verify_separation_of_duties m rules in
    elim (role_named name >>= λ r. config_of r m.roles) [
      | none ↦ false
      | some c ↦ if nothing_held (held forbidden c) then rest else false
    ]

unfoldable pub load_rbac : Raw → Option RbacMatrix
load_rbac raw = do
  roles ← load_roles raw raw.roles
  let matrix : RbacMatrix = record {
    roles = roles;
    never_autonomous = raw.never_autonomous;
    audited_permissions = raw.audited_permissions;
  }
  if verify_separation_of_duties matrix raw.separation_of_duties then some matrix else none
