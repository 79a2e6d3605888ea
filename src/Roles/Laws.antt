-- ===== src/Roles/Laws.antt =====
-- What the roles of a user permit, against the assignment of roles and the grants of permissions.
use awesome_go_auth.Base.{
  String, ◌≡◌, refl, sym, subst, ◌↔◌, ◌⊎◌, inl, inr, true, some, List, [], ◌∷◌, ◌++◌, eq_iff, arith,
  if◌then◌else◌, In, In-sort_by, Bool-cases,
}
use awesome_go_auth.Base.Dict.{get}
use awesome_go_auth.Base.Dict.Entries.{keys, In-keys}
use awesome_go_auth.Roles.{
  StringSet, MemoryRolesPermissionsStore, inner, contains, by_name, get_roles_for_user,
  get_permissions_for_role, collect, collect_roles, get_permissions_for_user, user_has_permission,
}

module _ (s : MemoryRolesPermissionsStore) where
  -- The assignment of a role, and the grant of a permission, as the store's maps have them.
  abbrev pub Holds : String → String → String → Type 0
  Holds user_id tenant_id role = get (inner (inner s.user_roles user_id) tenant_id) role ≡ some tt

  abbrev pub Grants : String → String → Type 0
  Grants role permission = get (inner s.role_permissions role) permission ≡ some tt

pub In-append : (x : String) (xs ys : List String) → In x (xs ++ ys) ↔ (In x xs ⊎ In x ys)
In-append x [] ys = (λ h. inr h, λ h. ground arith)
In-append x (y ∷ xs) ys =
    (λ h. ground (arith, (In-append x xs ys).0), λ h. ground (arith, (In-append x xs ys).1))

pub contains_iff : (x : String) (xs : List String) → (contains x xs ≡ true) ↔ In x xs
unfolding contains
contains_iff x [] = (λ h. ground arith, λ h. elim h [ ])
contains_iff x (y ∷ ys) = (
  λ h. ground (arith, (contains_iff x ys).0, eq_iff y x),
  λ h. ground (arith, (contains_iff x ys).1, eq_iff y x),
)

In-set : (set : StringSet) (x : String) → In x (keys set) ↔ (get set x ≡ some tt)
In-set set x = (λ i. ((In-keys set x).0 i).1, λ e. (In-keys set x).1 (tt, e))

collect_one :
    (x p : String) (out : List String)
    → In x (if contains p out then out else out ++ p ∷ []) ↔ ((x ≡ p) ⊎ In x out)
collect_one x p out = elim (Bool-cases (contains p out)) [
  | inl seen ↦ rw seen (
    λ h. inr h,
    λ h. elim h [ inl e ↦ subst (λ y. In y out) (sym e) ((contains_iff p out).0 seen) | inr i ↦ i ],
  )
  | inr new ↦ rw new (
    λ h. ground (arith, (In-append x out (p ∷ [])).0),
    λ h. ground (arith, (In-append x out (p ∷ [])).1),
  )
]

In-collect : (x : String) (ps out : List String) → In x (collect ps out) ↔ (In x ps ⊎ In x out)
unfolding collect
In-collect x [] out = (λ h. inr h, λ h. ground arith)
In-collect x (p ∷ ps) out = (
  λ h. ground (arith, (In-collect x ps _).0 h, (collect_one x p out).0),
  λ h. ground (
    arith,
    (In-collect x ps (if contains p out then out else out ++ p ∷ [])).1,
    (collect_one x p out).1,
  ),
)

module _ (s : MemoryRolesPermissionsStore) where
  pub In-get_roles_for_user :
      (user_id tenant_id role : String)
      → In role (get_roles_for_user user_id tenant_id s) ↔ Holds s user_id tenant_id role
  unfolding get_roles_for_user
  In-get_roles_for_user user_id tenant_id role =
      let set = inner (inner s.user_roles user_id) tenant_id in
      (
        λ i. (In-set set role).0 ((In-sort_by role by_name (keys set)).0 i),
        λ e. (In-sort_by role by_name (keys set)).1 ((In-set set role).1 e),
      )

  pub In-get_permissions_for_role :
      (role p : String) → In p (get_permissions_for_role role s) ↔ Grants s role p
  unfolding get_permissions_for_role
  In-get_permissions_for_role role p =
      let set = inner s.role_permissions role in
      (
        λ i. (In-set set p).0 ((In-sort_by p by_name (keys set)).0 i),
        λ e. (In-sort_by p by_name (keys set)).1 ((In-set set p).1 e),
      )

  In-collect_roles :
      (p : String) (rs out : List String)
      → In p (collect_roles s rs out) ↔ (((r : String) × In r rs × Grants s r p) ⊎ In p out)
  unfolding collect_roles
  In-collect_roles p [] out = (λ h. inr h, λ h. elim h [ inl (r, i, g) ↦ absurd i | inr i ↦ i ])
  In-collect_roles p (r ∷ rs) out =
      let ps = get_permissions_for_role r s in
      (
        λ h. elim ((In-collect_roles p rs (collect ps out)).0 h) [
          | inl (q, i, g) ↦ inl (q, inr i, g)
          | inr j ↦ elim ((In-collect p ps out).0 j) [
            | inl k ↦ inl (r, inl refl, (In-get_permissions_for_role r p).0 k)
            | inr k ↦ inr k
          ]
        ],
        λ h. (In-collect_roles p rs (collect ps out)).1 (elim h [
          | inl (q, inl e, g) ↦ inr (
              (In-collect p ps out).1
                (inl ((In-get_permissions_for_role r p).1 (subst (λ x. Grants s x p) e g))))
          | inl (q, inr i, g) ↦ inl (q, i, g)
          | inr i ↦ inr ((In-collect p ps out).1 (inr i))
        ]),
      )

  -- A user has a permission in a tenant exactly if he holds a role there that grants it.
  pub user_has_permission_iff :
      (user_id permission tenant_id : String)
      → (user_has_permission user_id permission tenant_id s ≡ true)
        ↔ ((role : String) × Holds s user_id tenant_id role × Grants s role permission)
  unfolding user_has_permission get_permissions_for_user
  user_has_permission_iff user_id permission tenant_id =
      let roles = get_roles_for_user user_id tenant_id s in
      let found = collect_roles s roles [] in
      (
        λ e.
            let i = (In-sort_by permission by_name found).0 ((contains_iff permission _).0 e) in
            elim ((In-collect_roles permission roles []).0 i) [
              | inl (r, j, g) ↦ (r, (In-get_roles_for_user user_id tenant_id r).0 j, g)
              | inr j ↦ absurd j
            ],
        λ (r, held, g). (contains_iff permission _).1 (
            (In-sort_by permission by_name found).1 (
              (In-collect_roles permission roles []).1
                (inl (r, (In-get_roles_for_user user_id tenant_id r).1 held, g)))),
      )
