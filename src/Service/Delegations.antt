-- ===== src/Service/Delegations.antt =====
-- service.go, account.go: the methods that hand on to a store where it is configured and can do what
-- is asked, and the listing of a user's sessions that are still good.
use awesome_go_auth.Base.{ℕ, String, Bool, true, not, none, some, List, keep_if, is_some}
use awesome_go_auth.Base.Dict.{Dict}
use awesome_go_auth.Errors.{ok, err, M, ◌>>=◌, ◌>>◌, return, feature_not_supported}
use awesome_go_auth.Metadata.{MemoryMetadataStore, get_metadata, update_metadata}
use awesome_go_auth.Models.{Any, User, Session, Tenant}
use awesome_go_auth.Paging.{ℤ}
use awesome_go_auth.Platform.{Platform}
use awesome_go_auth.Roles.{
  MemoryRolesPermissionsStore, create_role, add_role_to_user, user_has_permission,
}
use awesome_go_auth.Service.{Config, Action, now, on_sessions, ask, require, new_id}
use awesome_go_auth.SessionStore.{
  list_sessions_for_user, revoke_session_by_id, delete_expired_sessions,
}
use awesome_go_auth.Tenants.{MemoryTenantStore, create_tenant, associate_user_with_tenant}
use awesome_go_auth.UserStore.{list_users}

-- if s.rbac == nil { return ErrFeatureNotSupported }, and the call
unfoldable pub call_rbac : {A : Type 0} → M MemoryRolesPermissionsStore A → Action A
call_rbac m w = elim w.rbac [
  | none ↦ (err feature_not_supported, w)
  | some s ↦ let (r, t) = m s in (r, record w { rbac = some t })
]

unfoldable pub call_tenants : {A : Type 0} → M MemoryTenantStore A → Action A
call_tenants m w = elim w.tenants [
  | none ↦ (err feature_not_supported, w)
  | some s ↦ let (r, t) = m s in (r, record w { tenants = some t })
]

unfoldable pub call_metadata : {A : Type 0} → M MemoryMetadataStore A → Action A
call_metadata m w = elim w.metadata [
  | none ↦ (err feature_not_supported, w)
  | some s ↦ let (r, t) = m s in (r, record w { metadata = some t })
]

unfoldable pub service_get_metadata : String → Action (Dict Any)
service_get_metadata user_id = call_metadata (λ s. (ok (get_metadata user_id s), s))

unfoldable pub service_update_metadata : String → Dict Any → Action (Unit {0})
service_update_metadata user_id metadata = call_metadata (update_metadata user_id metadata)

unfoldable pub service_create_role : String → List String → Action (Unit {0})
service_create_role role permissions = call_rbac (create_role role permissions)

unfoldable pub service_assign_role : String → String → String → Action (Unit {0})
service_assign_role user_id role tenant_id = call_rbac (add_role_to_user user_id role tenant_id)

unfoldable pub service_user_has_permission : String → String → String → Action Bool
service_user_has_permission user_id permission tenant_id =
    call_rbac (λ s. (ok (user_has_permission user_id permission tenant_id s), s))

unfoldable pub service_create_tenant : Platform → String → Dict Any → Action Tenant
service_create_tenant p name config = do
  require_tenants
  id ← new_id p "tnt"
  t ← now
  call_tenants (
      create_tenant
        (record { id = id; name = name; is_active = true; config = config; created_at = t }))
  where
    require_tenants : Action (Unit {0})
    require_tenants w = require (is_some w.tenants) feature_not_supported w

unfoldable pub service_add_user_to_tenant : String → String → Action (Unit {0})
service_add_user_to_tenant user_id tenant_id =
    call_tenants (associate_user_with_tenant user_id tenant_id)

module _ (c : Config) where
  unfoldable pub service_list_sessions : String → String → Action (List Session)
  service_list_sessions user_id tenant_id = do
    require c.stores.session_admin feature_not_supported
    ask (λ w. ok (list_sessions_for_user user_id tenant_id w.sessions))

  -- account.go: the sessions that are not revoked
  unfoldable pub list_active_sessions : String → String → Action (List Session)
  list_active_sessions user_id tenant_id = do
    sessions ← service_list_sessions user_id tenant_id
    return (keep_if (λ x. not (is_some x.revoked_at)) sessions)

  unfoldable pub service_revoke_session_by_id : String → Action (Unit {0})
  service_revoke_session_by_id session_id = do
    require c.stores.session_admin feature_not_supported
    t ← now
    on_sessions (revoke_session_by_id t session_id)

  unfoldable pub service_cleanup_expired_sessions : Action ℕ
  service_cleanup_expired_sessions = do
    require c.stores.session_admin feature_not_supported
    t ← now
    on_sessions (delete_expired_sessions t)

  unfoldable pub service_list_users : String → ℤ → ℤ → Action (List User)
  service_list_users tenant_id limit offset = do
    require c.stores.user_admin feature_not_supported
    ask (λ w. ok (list_users tenant_id limit offset w.users))
