-- ===== src/Roles/Deletion.antt =====
-- DeleteRole against the assignments and the grants, and the invariant that whoever holds a role
-- holds one that is defined.
use awesome_go_auth.Base.{
  String, ◌≡◌, ◌≢◌, ◌↔◌, true, none, List, [], ◌∷◌, ◌==◌, eq_iff, arith, if◌then◌else◌,
  Option-cases, is_some, inl, inr,
}
use awesome_go_auth.Base.Dict.{Dict, empty, get, put, remove, get-empty, get-put, get-remove}
use awesome_go_auth.Base.Dict.Entries.{map_values, get-map_values}
use awesome_go_auth.Roles.{
  StringSet, MemoryRolesPermissionsStore, new_memory_roles_permissions_store, inner, delete_role,
  add_role_to_user, remove_role_from_user, create_role, add_permission_to_role,
  remove_permission_from_role, user_has_permission, to_set,
}
use awesome_go_auth.Roles.Calls.{
  Call, add_role, remove_role, create, delete, add_permission, remove_permission, run, run_all,
  assigned,
}
use awesome_go_auth.Roles.Laws.{Holds, Grants, user_has_permission_iff}

module _ (role : String) where
  roles-take :
      (tenant_id r : String) (scoped : Dict StringSet)
      → get (inner (map_values (λ roles. remove roles role) scoped) tenant_id) r
        ≡ (if role == r then none else get (inner scoped tenant_id) r)
  roles-take tenant_id r scoped =
      let mapped = get-map_values (λ roles. remove roles role) scoped tenant_id in
      elim (Option-cases (get scoped tenant_id)) [
        | inl missing ↦ ground (arith, missing, mapped, get-empty {V = Unit {0}} r)
        | inr (roles, found) ↦ ground (arith, found, mapped, get-remove roles role r)
      ]

  -- the assignments that are left when the role is deleted
  pub user_roles-delete_role :
      (s : MemoryRolesPermissionsStore) (user_id tenant_id r : String)
      → get (inner (inner (delete_role role s).1.user_roles user_id) tenant_id) r
        ≡ (if role == r then none else get (inner (inner s.user_roles user_id) tenant_id) r)
  unfolding delete_role
  user_roles-delete_role s user_id tenant_id r =
      let take =
        λ (scoped : Dict StringSet). map_values (λ (roles : StringSet). remove roles role) scoped in
      let mapped = get-map_values take s.user_roles user_id in
      elim (Option-cases (get s.user_roles user_id)) [
        | inl missing ↦ ground (
          arith,
          missing,
          mapped,
          get-empty {V = StringSet} tenant_id,
          get-empty {V = Unit {0}} r,
        )
        | inr (scoped, found) ↦ ground (arith, found, mapped, roles-take tenant_id r scoped)
      ]

  -- Deleting a role takes it from every user in every tenant, and takes no other role from anybody.
  pub Holds-delete_role :
      (s : MemoryRolesPermissionsStore) (user_id tenant_id r : String)
      → Holds (delete_role role s).1 user_id tenant_id r
        ↔ (Holds s user_id tenant_id r × (r ≢ role))
  Holds-delete_role s user_id tenant_id r =
      let left = user_roles-delete_role s user_id tenant_id r in
      (λ h. ground (arith, left, eq_iff role r), λ h. ground (arith, left, eq_iff role r))

  Grants-delete_role :
      (s : MemoryRolesPermissionsStore) (r p : String)
      → r ≢ role
      → Grants (delete_role role s).1 r p ↔ Grants s r p
  unfolding delete_role
  Grants-delete_role s r p ne =
      let left = get-remove s.role_permissions role r in
      (λ h. ground (arith, left, eq_iff role r), λ h. ground (arith, left, eq_iff role r))

  -- After a role is deleted a user has just the permissions that his other roles grant.
  pub user_has_permission-delete_role :
      (s : MemoryRolesPermissionsStore) (user_id permission tenant_id : String)
      → (user_has_permission user_id permission tenant_id (delete_role role s).1 ≡ true)
        ↔ ((r : String) × Holds s user_id tenant_id r × Grants s r permission × (r ≢ role))
  user_has_permission-delete_role s user_id permission tenant_id =
      let iff = user_has_permission_iff (delete_role role s).1 user_id permission tenant_id in
      (
        λ e.
            let (r, held, g) = iff.0 e in
            let (before, ne) = (Holds-delete_role s user_id tenant_id r).0 held in
            (r, before, (Grants-delete_role s r permission ne).0 g, ne),
        λ (r, held, g, ne). iff.1 (
          r,
          (Holds-delete_role s user_id tenant_id r).1 (held, ne),
          (Grants-delete_role s r permission ne).1 g,
        ),
      )

-- Whoever holds a role holds one that the store defines.
abbrev pub IsDefined : MemoryRolesPermissionsStore → Type 0
IsDefined s =
    (user_id tenant_id role : String)
    → Holds s user_id tenant_id role
    → is_some (get s.role_permissions role) ≡ true

module _ (s : MemoryRolesPermissionsStore) (d : IsDefined s) (u t r : String) where
  add-defined :
      (user role tenant : String)
      → Holds (add_role_to_user user role tenant s).1 u t r
      → is_some (get (add_role_to_user user role tenant s).1.role_permissions r) ≡ true
  unfolding add_role_to_user
  add-defined user role tenant h =
      let old = inner (inner s.user_roles user) tenant in
      ground (
        arith,
        d u t r,
        assigned s.user_roles user tenant (put old role tt) u t r,
        get-put old role r tt,
        eq_iff user u,
        eq_iff tenant t,
        eq_iff role r,
      )

  remove-defined :
      (user role tenant : String)
      → Holds (remove_role_from_user user role tenant s).1 u t r
      → is_some (get (remove_role_from_user user role tenant s).1.role_permissions r) ≡ true
  unfolding remove_role_from_user
  remove-defined user role tenant h =
      let old = inner (inner s.user_roles user) tenant in
      ground (
        arith,
        d u t r,
        assigned s.user_roles user tenant (remove old role) u t r,
        get-remove old role r,
        eq_iff user u,
        eq_iff tenant t,
      )

  delete-defined :
      (role : String)
      → Holds (delete_role role s).1 u t r
      → is_some (get (delete_role role s).1.role_permissions r) ≡ true
  delete-defined role h =
      let (held, ne) = (Holds-delete_role role s u t r).0 h in
      unfold delete_role in
      ground (arith, get-remove s.role_permissions role r, eq_iff role r, d u t r held)

run-IsDefined : (c : Call) (s : MemoryRolesPermissionsStore) → IsDefined s → IsDefined (run c s)
unfolding run create_role add_permission_to_role remove_permission_from_role
run-IsDefined (add_role user role tenant) s d u t r h = add-defined s d u t r user role tenant h
run-IsDefined (remove_role user role tenant) s d u t r h =
    remove-defined s d u t r user role tenant h
run-IsDefined (create role ps) s d u t r h =
    ground (arith, d u t r h, get-put s.role_permissions role r (to_set ps empty), eq_iff role r)
run-IsDefined (delete role) s d u t r h = delete-defined s d u t r role h
run-IsDefined (add_permission role p) s d u t r h = ground (
  arith,
  d u t r h,
  get-put s.role_permissions role r (put (inner s.role_permissions role) p tt),
  eq_iff role r,
)
run-IsDefined (remove_permission role p) s d u t r h =
    elim (Option-cases (get s.role_permissions role)) [
      | inl missing ↦ ground (arith, missing, d u t r)
      | inr (ps, found) ↦
          ground
            (arith, found, d u t r, get-put s.role_permissions role r (remove ps p), eq_iff role r)
    ]

run_all-keeps :
    (cs : List Call) (s : MemoryRolesPermissionsStore) → IsDefined s → IsDefined (run_all cs s)
unfolding run_all
run_all-keeps [] s d = d
run_all-keeps (c ∷ cs) s d = run_all-keeps cs (run c s) (run-IsDefined c s d)

-- Whatever the calls, from an empty store: whoever holds a role holds one that is defined.
pub run_all-IsDefined : (cs : List Call) → IsDefined (run_all cs new_memory_roles_permissions_store)
unfolding new_memory_roles_permissions_store
run_all-IsDefined cs = run_all-keeps cs new_memory_roles_permissions_store (λ u t r h. ground (
  arith,
  get-empty {V = Dict StringSet} u,
  get-empty {V = StringSet} t,
  get-empty {V = Unit {0}} r,
))
