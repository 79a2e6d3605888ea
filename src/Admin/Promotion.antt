-- ===== src/Admin/Promotion.antt =====
-- admin_promote.go: what a promotion by role leaves in the roles store.
use awesome_go_auth.Base.{String, ◌≡◌, ◌≢◌, some, none, ◌==◌, eq_iff, eq_refl, arith, if◌then◌else◌}
use awesome_go_auth.Base.Dict.{empty, get, put, get-put, get-empty}
use awesome_go_auth.Errors.{ok}
use awesome_go_auth.Roles.{
  MemoryRolesPermissionsStore, inner, create_role, add_role_to_user, to_set,
}
use awesome_go_auth.Roles.Laws.{Holds}
use awesome_go_auth.Service.{Config, World, publish}
use awesome_go_auth.Admin.{
  admin_promote_user, promote_by_role, promoted, with_rbac, or_internal, on_rbac,
}

-- With a roles store, a promotion without a method, or with one that is not the flag, succeeds: the
-- user holds the role admin outside every tenant, the role has no permission any more, whatever it
-- had, and the permissions of the other roles are as before.
pub admin_promote_user-by_role :
    (c : Config) (id method role permission : String) (s : MemoryRolesPermissionsStore) (w : World)
    → w.rbac ≡ some s
    → method ≢ "flag"
    → (t : MemoryRolesPermissionsStore) × ((admin_promote_user c (some method) id w).0
        ≡ ok (promoted method))
      × ((admin_promote_user c (some method) id w).1.rbac ≡ some t)
      × Holds t id "" "admin"
      × (get (inner t.role_permissions "admin") permission ≡ none)
      × (get t.role_permissions role
          ≡ (if "admin" == role then some empty else get s.role_permissions role))
unfolding admin_promote_user promote_by_role with_rbac or_internal on_rbac create_role
    add_role_to_user to_set publish
admin_promote_user-by_role c id method role permission s w has other =
    let scoped = inner s.user_roles id in
    let roles = put (inner scoped "") "admin" tt in
    let made : MemoryRolesPermissionsStore = record {
      role_permissions = put s.role_permissions "admin" empty;
      user_roles = put s.user_roles id (put scoped "" roles);
    } in
    let wrote = λ (r : String). get-put s.role_permissions "admin" r (empty {V = Unit {0}}) in
    (
      made,
      ground (arith, has, eq_iff method "flag", wrote "admin", eq_refl "admin"),
      ground (arith, has, eq_iff method "flag", wrote "admin", eq_refl "admin"),
      ground (
        arith,
        get-put s.user_roles id id (put scoped "" roles),
        get-put scoped "" "" roles,
        get-put (inner scoped "") "admin" "admin" tt,
        eq_refl id,
      ),
      ground (arith, wrote "admin", get-empty {V = Unit {0}} permission, eq_refl "admin"),
      wrote role,
    )
