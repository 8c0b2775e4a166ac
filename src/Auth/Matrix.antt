-- ===== src/Auth/Matrix.antt =====
-- What a loaded matrix grants.
use text.Mathlib.Text.{◌==◌ as str_eq}
use defect_sense.Prelude.{
  ◌≡◌, refl, sym, ap, ◌∙◌, String, Bool, true, false, none, some, List, [], ◌∷◌, ◌&&◌, arith, All,
  All-imp, Bool-cases, Option-cases, inl, inr, some_inj, if◌then◌else◌,
}
use defect_sense.Prelude.Sort.{keep}
use defect_sense.Dict.{Dict, lookup, has, eq_iff}
use defect_sense.Enums.{Role}
use defect_sense.Auth.{
  RoleConfig, RbacMatrix, Raw, RoleSpec, role_eq, member, config_of, holds, allows, role_named,
  role_config, given, load_roles, held, nothing_held, verify_separation_of_duties, load_rbac,
}

role_of-eq :
    (n name : String) (s r : Role)
    → role_named n ≡ some s
    → role_named name ≡ some r
    → role_eq s r ≡ str_eq n name
role_of-eq n name s r e f = ground (
  arith,
  eq_iff n name,
  eq_iff n "SHOP_FLOOR_WORKER",
  eq_iff n "QA",
  eq_iff n "ADMIN",
  eq_iff name "SHOP_FLOOR_WORKER",
  eq_iff name "QA",
  eq_iff name "ADMIN",
)

-- A permission that is held is found among those forbidden.
nothing_held-All :
    (forbidden : List String) (c : RoleConfig)
    → nothing_held (held forbidden c) ≡ true
    → All (λ p. member p c.permissions ≡ false) forbidden
unfolding keep
nothing_held-All [] c h = tt
nothing_held-All (p ∷ ps) c h = elim (Bool-cases (member p c.permissions)) [
  | inl kept ↦ absurd (ground arith)
  | inr free ↦ (free, nothing_held-All ps c (ground arith))
]

-- A rule of the file, and that the matrix keeps it.
abbrev pub Separated : RbacMatrix → String × List String → Type 0
Separated m rule =
    (r : Role) × (role_named rule.0 ≡ some r) × All (λ p. allows m r p ≡ false) rule.1

verify-All :
    (m : RbacMatrix) (rules : List (String × List String))
    → verify_separation_of_duties m rules ≡ true
    → All (Separated m) rules
unfolding verify_separation_of_duties allows
verify-All m [] h = tt
verify-All m ((name, forbidden) ∷ rules) h = elim (Option-cases (role_named name)) [
  | inl unknown ↦ absurd (ground arith)
  | inr (r, known) ↦ elim (Option-cases (config_of r m.roles)) [
    | inl missing ↦ absurd (ground arith)
    | inr (c, found) ↦ (
      (
        r,
        known,
        All-imp forbidden (λ p k. rw found k) (nothing_held-All forbidden c (ground arith)),
      ),
      verify-All m rules (ground arith),
    )
  ]
]

has-cons :
    (n name : String) (spec : RoleSpec) (specs : Dict RoleSpec)
    → has name ((n, spec) ∷ specs) ≡ (if str_eq n name then true else has name specs)
unfolding lookup
has-cons n name spec specs = by_test (str_eq n name)
  where
    by_test :
        (b : Bool)
        → ◌≡◌ {A = Bool}
            (elim (if b then some spec else lookup name specs) [ none ↦ false | some _ ↦ true ])
            (if b then true else has name specs)
    by_test true = refl
    by_test false = refl

-- A matrix that loads has the roles of the file.
load_roles-config_of :
    (raw : Raw) (specs : Dict RoleSpec) (cs : List (Role × RoleConfig)) (name : String) (r : Role)
    → load_roles raw specs ≡ some cs
    → role_named name ≡ some r
    → (p : String)
    → holds (config_of r cs) p
      ≡ (has name specs && member p (given (lookup name raw.permissions) []))
unfolding load_roles config_of lookup
load_roles-config_of raw [] cs name r e known p = rw (sym (some_inj e)) refl
load_roles-config_of raw ((n, spec) ∷ specs) cs name r e known p =
    elim (Option-cases (role_named n)) [
      | inl unknown ↦ absurd (ground arith)
      | inr (s, named) ↦ elim (Option-cases (load_roles raw specs)) [
        | inl failed ↦ absurd (ground arith)
        | inr (rest, loaded) ↦
            let shape : (s, role_config raw s n spec) ∷ rest ≡ cs =
              some_inj (rw (named, loaded) at e) in
            let later = load_roles-config_of raw specs rest name r loaded known p in
            elim (Bool-cases (str_eq n name)) [
              | inl same ↦
                  rw
                    (
                      sym shape,
                      role_of-eq n name s r named known,
                      has-cons n name spec specs,
                      same,
                      (eq_iff n name).0 same,
                    )
                    refl
              | inr other ↦
                  rw
                    (
                      sym shape,
                      role_of-eq n name s r named known,
                      has-cons n name spec specs,
                      other,
                    )
                    later
            ]
      ]
    ]

load_rbac-parts :
    (raw : Raw) (m : RbacMatrix)
    → load_rbac raw ≡ some m
    → (load_roles raw raw.roles ≡ some m.roles)
      × (verify_separation_of_duties m raw.separation_of_duties ≡ true)
unfolding load_rbac
load_rbac-parts raw m e = elim (Option-cases (load_roles raw raw.roles)) [
  | inl failed ↦ absurd (ground arith)
  | inr (cs, loaded) ↦ checked cs loaded (rw loaded at e)
]
  where
    matrix : List (Role × RoleConfig) → RbacMatrix
    matrix cs = record {
      roles = cs;
      never_autonomous = raw.never_autonomous;
      audited_permissions = raw.audited_permissions;
    }

    checked :
        (cs : List (Role × RoleConfig))
        → load_roles raw raw.roles ≡ some cs
        → (if verify_separation_of_duties (matrix cs) raw.separation_of_duties
            then some (matrix cs)
            else none)
          ≡ some m
        → (load_roles raw raw.roles ≡ some m.roles)
          × (verify_separation_of_duties m raw.separation_of_duties ≡ true)
    checked cs loaded k =
        elim (Bool-cases (verify_separation_of_duties (matrix cs) raw.separation_of_duties)) [
          | inl kept ↦
              let same : matrix cs ≡ m = some_inj (rw kept at k) in
              (loaded ∙ ap (λ (q : RbacMatrix). some q.roles) same, rw (sym same) kept)
          | inr broken ↦ absurd (ground arith)
        ]

-- A file that loads yields a matrix that keeps each of its rules on the separation of duties: the
-- role exists, and the matrix allows it none of the permissions that it must not have.
pub load_rbac-Separated :
    (raw : Raw) (m : RbacMatrix)
    → load_rbac raw ≡ some m
    → All (Separated m) raw.separation_of_duties
load_rbac-Separated raw m e = verify-All m raw.separation_of_duties (load_rbac-parts raw m e).1

-- A file that loads yields a matrix that allows a role exactly the permissions that the file lists
-- under its name, and a role that the file has no entry for, none.
pub grants_as_listed :
    (raw : Raw) (m : RbacMatrix) (name : String) (r : Role) (p : String)
    → load_rbac raw ≡ some m
    → role_named name ≡ some r
    → allows m r p ≡ (has name raw.roles && member p (given (lookup name raw.permissions) []))
unfolding allows
grants_as_listed raw m name r p e known =
    load_roles-config_of raw raw.roles m.roles name r (load_rbac-parts raw m e).0 known p
