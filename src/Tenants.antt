-- ===== src/Tenants.antt =====
-- feature_stores.go: MemoryTenantStore, the tenants and the membership of users in them, which is
-- held from both sides.
pub mod Membership
use Prim.Native.String.{compare}
use text.Mathlib.Text.{is_lt}
use awesome_go_auth.Base.{
  String, Bool, true, false, Option, none, some, List, [], ◌∷◌, if◌then◌else◌, sort_by, is_some,
}
use awesome_go_auth.Base.Dict.{Dict, empty, get, put, remove, values}
use awesome_go_auth.Base.Dict.Entries.{keys, map_values}
use awesome_go_auth.Errors.{Result, ok, err, M, already_exists, tenant_not_found}
use awesome_go_auth.Models.{Tenant, Any}
use awesome_go_auth.Roles.{StringSet, inner, sort_strings}

pub record MemoryTenantStore : Type 0 where
  pub by_id : Dict Tenant
  pub user_tenants : Dict StringSet
  pub tenant_users : Dict StringSet

unfoldable pub new_memory_tenant_store : MemoryTenantStore
new_memory_tenant_store = record { by_id = empty; user_tenants = empty; tenant_users = empty }

unfoldable pub create_tenant : Tenant → M MemoryTenantStore Tenant
create_tenant tenant s =
    if is_some (get s.by_id tenant.id)
    then (err already_exists, s)
    else (ok tenant, record s { by_id = put s.by_id tenant.id tenant })

unfoldable pub get_tenant_by_id : String → MemoryTenantStore → Result Tenant
get_tenant_by_id id s = elim (get s.by_id id) [ none ↦ err tenant_not_found | some t ↦ ok t ]

-- out[i].ID < out[j].ID
abbrev pub by_tenant_id : Tenant → Tenant → Bool
by_tenant_id x y = is_lt (compare x.id y.id)

unfoldable pub get_all_tenants : MemoryTenantStore → List Tenant
get_all_tenants s = sort_by by_tenant_id (values s.by_id)

unfoldable pub update_tenant : String → Tenant → M MemoryTenantStore (Unit {0})
update_tenant id update s = elim (get s.by_id id) [
  | none ↦ (err tenant_not_found, s)
  | some current ↦
      let current' = record current {
        name = update.name;
        is_active = update.is_active;
        config = update.config;
      } in
      (ok tt, record s { by_id = put s.by_id id current' })
]

unfoldable pub delete_tenant : String → M MemoryTenantStore (Unit {0})
delete_tenant id s = (
  ok tt,
  record {
    by_id = remove s.by_id id;
    user_tenants = map_values (λ tenants. remove tenants id) s.user_tenants;
    tenant_users = remove s.tenant_users id;
  },
)

unfoldable pub associate_user_with_tenant : String → String → M MemoryTenantStore (Unit {0})
associate_user_with_tenant user_id tenant_id s =
    if is_some (get s.by_id tenant_id)
    then (
      ok tt,
      record s {
        user_tenants = put s.user_tenants user_id (put (inner s.user_tenants user_id) tenant_id tt);
        tenant_users =
            put s.tenant_users tenant_id (put (inner s.tenant_users tenant_id) user_id tt);
      },
    )
    else (err tenant_not_found, s)

-- if m[key] != nil { delete(m[key], x) }
unfoldable pub delete_inner : Dict StringSet → String → String → Dict StringSet
delete_inner m key x = elim (get m key) [ none ↦ m | some members ↦ put m key (remove members x) ]

unfoldable pub disassociate_user_from_tenant : String → String → M MemoryTenantStore (Unit {0})
disassociate_user_from_tenant user_id tenant_id s = (
  ok tt,
  record s {
    user_tenants = delete_inner s.user_tenants user_id tenant_id;
    tenant_users = delete_inner s.tenant_users tenant_id user_id;
  },
)

-- for tenantID := range …: the tenants that exist
unfoldable pub existing : Dict Tenant → List String → List Tenant
existing by_id [] = []
existing by_id (id ∷ ids) =
    let rest = existing by_id ids in elim (get by_id id) [ none ↦ rest | some t ↦ t ∷ rest ]

unfoldable pub get_tenants_for_user : String → MemoryTenantStore → List Tenant
get_tenants_for_user user_id s =
    sort_by by_tenant_id (existing s.by_id (keys (inner s.user_tenants user_id)))

unfoldable pub get_users_for_tenant : String → MemoryTenantStore → List String
get_users_for_tenant tenant_id s = sort_strings (keys (inner s.tenant_users tenant_id))
