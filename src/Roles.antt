-- ===== src/Roles.antt =====
-- feature_stores.go: MemoryRolesPermissionsStore, roles with permissions and their assignment to
-- users in tenants. A set is a map to the unit type; reading a nil map is reading an empty one.
pub mod Laws
pub mod Calls
pub mod Deletion
pub mod Refinement
use Prim.Native.String.{compare}
use text.Mathlib.Text.{is_lt}
use mathlib.Core.Option.{get_or}
use awesome_go_auth.Base.{
  String, Bool, true, false, Option, none, some, List, [], ◌∷◌, ◌++◌, ◌==◌, ◌||◌, ◌&&◌,
  if◌then◌else◌, sort_by, is_some,
}
use awesome_go_auth.Base.Dict.{Dict, empty, get, put, remove}
use awesome_go_auth.Base.Dict.Entries.{keys, map_values}
use awesome_go_auth.Errors.{ok, err, M, role_not_found}

-- map[string]struct{}
abbrev pub StringSet : Type 0
StringSet = Dict (Unit {0})

pub record MemoryRolesPermissionsStore : Type 0 where
  pub role_permissions : Dict StringSet
  pub user_roles : Dict (Dict StringSet)

unfoldable pub new_memory_roles_permissions_store : MemoryRolesPermissionsStore
new_memory_roles_permissions_store = record { role_permissions = empty; user_roles = empty }

-- m[k], which is the zero value, an empty map, on a missing key
abbrev pub inner : {V : Type 0} → Dict (Dict V) → String → Dict V
inner d k = get_or (get d k) empty

abbrev pub by_name : String → String → Bool
by_name a b = is_lt (compare a b)

-- a loop that answers true at the first element that is `x`
unfoldable pub contains : String → List String → Bool
contains x [] = false
contains x (y ∷ ys) = y == x || contains x ys

-- sort.Strings
abbrev pub sort_strings : List String → List String
sort_strings names = sort_by by_name names

unfoldable pub add_role_to_user :
    String → String → String → M MemoryRolesPermissionsStore (Unit {0})
add_role_to_user user_id role tenant_id s =
    if is_some (get s.role_permissions role)
    then (let scoped = inner s.user_roles user_id in
        let roles = put (inner scoped tenant_id) role tt in
        (ok tt, record s { user_roles = put s.user_roles user_id (put scoped tenant_id roles) }))
    else (err role_not_found, s)

unfoldable pub remove_role_from_user :
    String → String → String → M MemoryRolesPermissionsStore (Unit {0})
remove_role_from_user user_id role tenant_id s =
    let scoped = inner s.user_roles user_id in
    let roles = remove (inner scoped tenant_id) role in
    if is_some (get s.user_roles user_id) && is_some (get scoped tenant_id)
    then (ok tt, record s { user_roles = put s.user_roles user_id (put scoped tenant_id roles) })
    else (ok tt, s)

unfoldable pub get_roles_for_user : String → String → MemoryRolesPermissionsStore → List String
get_roles_for_user user_id tenant_id s =
    sort_strings (keys (inner (inner s.user_roles user_id) tenant_id))

-- for _, permission := range permissions { permSet[permission] = struct{}{} }
unfoldable pub to_set : List String → StringSet → StringSet
to_set [] set = set
to_set (p ∷ ps) set = to_set ps (put set p tt)

unfoldable pub create_role : String → List String → M MemoryRolesPermissionsStore (Unit {0})
create_role role permissions s =
    (ok tt, record s { role_permissions = put s.role_permissions role (to_set permissions empty) })

unfoldable pub delete_role : String → M MemoryRolesPermissionsStore (Unit {0})
delete_role role s = (
  ok tt,
  record {
    role_permissions = remove s.role_permissions role;
    user_roles = map_values (λ scoped. map_values (λ roles. remove roles role) scoped) s.user_roles;
  },
)

unfoldable pub add_permission_to_role : String → String → M MemoryRolesPermissionsStore (Unit {0})
add_permission_to_role role permission s =
    let permissions = put (inner s.role_permissions role) permission tt in
    (ok tt, record s { role_permissions = put s.role_permissions role permissions })

unfoldable pub remove_permission_from_role :
    String → String → M MemoryRolesPermissionsStore (Unit {0})
remove_permission_from_role role permission s = elim (get s.role_permissions role) [
  | none ↦ (ok tt, s)
  | some permissions ↦ (
    ok tt,
    record s { role_permissions = put s.role_permissions role (remove permissions permission) },
  )
]

unfoldable pub get_permissions_for_role : String → MemoryRolesPermissionsStore → List String
get_permissions_for_role role s = sort_strings (keys (inner s.role_permissions role))

-- The inner loop of GetPermissionsForUser, over the permissions of one role. The list collected so
-- far is also the set `seen`.
unfoldable pub collect : List String → List String → List String
collect [] out = out
collect (p ∷ ps) out = collect ps (if contains p out then out else out ++ p ∷ [])

unfoldable pub collect_roles : MemoryRolesPermissionsStore → List String → List String → List String
collect_roles s [] out = out
collect_roles s (r ∷ rs) out = collect_roles s rs (collect (get_permissions_for_role r s) out)

unfoldable pub get_permissions_for_user :
    String → String → MemoryRolesPermissionsStore → List String
get_permissions_for_user user_id tenant_id s =
    sort_strings (collect_roles s (get_roles_for_user user_id tenant_id s) [])

unfoldable pub user_has_permission : String → String → String → MemoryRolesPermissionsStore → Bool
user_has_permission user_id permission tenant_id s =
    contains permission (get_permissions_for_user user_id tenant_id s)

unfoldable pub get_all_roles : MemoryRolesPermissionsStore → List String
get_all_roles s = sort_strings (keys s.role_permissions)
