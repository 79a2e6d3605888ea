-- ===== src/Roles/Calls.antt =====
-- The calls that write to the roles store, and sequences of them.
use awesome_go_auth.Base.{String, ◌≡◌, ◌&&◌, List, [], ◌∷◌, ◌==◌, eq_iff, arith, if◌then◌else◌}
use awesome_go_auth.Base.Dict.{Dict, get, put, get-put}
use awesome_go_auth.Roles.{
  StringSet, MemoryRolesPermissionsStore, inner, delete_role, add_role_to_user,
  remove_role_from_user, create_role, add_permission_to_role, remove_permission_from_role,
}

-- The methods that write.
pub data Call : Type 0 where
  add_role remove_role : String → String → String → Call
  create : String → List String → Call
  delete : String → Call
  add_permission remove_permission : String → String → Call

unfoldable pub run : Call → MemoryRolesPermissionsStore → MemoryRolesPermissionsStore
run (add_role user_id role tenant_id) s = (add_role_to_user user_id role tenant_id s).1
run (remove_role user_id role tenant_id) s = (remove_role_from_user user_id role tenant_id s).1
run (create role permissions) s = (create_role role permissions s).1
run (delete role) s = (delete_role role s).1
run (add_permission role permission) s = (add_permission_to_role role permission s).1
run (remove_permission role permission) s = (remove_permission_from_role role permission s).1

unfoldable pub run_all : List Call → MemoryRolesPermissionsStore → MemoryRolesPermissionsStore
run_all [] s = s
run_all (c ∷ cs) s = run_all cs (run c s)

-- what a write to one user's roles in one tenant leaves of the assignments
pub assigned :
    (d : Dict (Dict StringSet)) (user tenant : String) (new : StringSet) (u t r : String)
    → get (inner (inner (put d user (put (inner d user) tenant new)) u) t) r
      ≡ (if (user == u) && (tenant == t) then get new r else get (inner (inner d u) t) r)
assigned d user tenant new u t r = ground (
  arith,
  get-put d user u (put (inner d user) tenant new),
  get-put (inner d user) tenant t new,
  eq_iff user u,
  eq_iff tenant t,
)
