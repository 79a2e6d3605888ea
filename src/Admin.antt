-- ===== src/Admin.antt =====
-- admin_write.go, admin_promote.go, admin_read.go: the handlers of the administration that write to
-- users, roles, tenants and sessions, from what a request carries to the answer, and the bounds of a
-- filtered listing. The admission of an administrator comes before them and is not here.
pub mod Bounds
pub mod TwoFactorPolicy
pub mod Promotion
pub mod Listings
pub mod Guard
pub mod Token
use Prim.Native.Nat.{zero}
use awesome_go_auth.Base.{
  ℕ, suc, ◌+◌, ◌-◌, ◌^◌, String, Bool, true, false, not, ◌||◌, Option, none, some, List, [], ◌∷◌,
  ◌==◌, eqb, ltb, leb, if◌then◌else◌, length, is_some,
}
use awesome_go_auth.Base.Dict.{Dict, empty}
use awesome_go_auth.Errors.{
  Error, Result, ok, err, M, ◌>>=◌, ◌>>◌, return, fail, then_run, feature_not_supported,
}
use awesome_go_auth.Metadata.{MemoryMetadataStore, update_metadata}
use awesome_go_auth.Models.{Any, User, Tenant}
use awesome_go_auth.Paging.{ℤ, pos, negsuc, add_int64}
use awesome_go_auth.Platform.{Platform}
use awesome_go_auth.Roles.{
  MemoryRolesPermissionsStore, add_role_to_user, remove_role_from_user, create_role, delete_role,
}
use awesome_go_auth.Service.{
  Config, World, Event, Action, now, on_users, on_sessions, publish, new_id,
}
use awesome_go_auth.SessionStore.{revoke_session_by_id}
use awesome_go_auth.Tenants.{
  MemoryTenantStore, create_tenant, delete_tenant, associate_user_with_tenant,
  disassociate_user_from_tenant,
}
use awesome_go_auth.UserStore.{
  MemoryUserStore, delete_user, list_users, update_require_2fa, update_is_admin,
}

-- What is answered: an error with its status, `{success: true}`, and the answers that carry more.
pub data Answer : Type 0 where
  refused : ℕ → String → Answer
  success : Answer
  updated : ℕ → Answer
  promoted : String → Answer
  tenant_row : Tenant → Answer

-- writeAdminError(w, http.StatusInternalServerError, "Internal server error")
abbrev pub internal : Answer
internal = refused 500 "Internal server error"

-- if err := …; err != nil { internal; return }, and the rest
unfoldable pub or_internal : {A : Type 0} → Action A → (A → Action Answer) → Action Answer
or_internal m next w = let (r, w') = m w in elim r [ err _ ↦ (ok internal, w') | ok a ↦ next a w' ]

unfoldable pub on_rbac :
    {A : Type 0} → MemoryRolesPermissionsStore → M MemoryRolesPermissionsStore A → Action A
on_rbac rbac m w = let (r, s) = m rbac in (r, record w { rbac = some s })

unfoldable pub on_tenants : {A : Type 0} → MemoryTenantStore → M MemoryTenantStore A → Action A
on_tenants tenants m w = let (r, s) = m tenants in (r, record w { tenants = some s })

unfoldable pub on_metadata : {A : Type 0} → MemoryMetadataStore → M MemoryMetadataStore A → Action A
on_metadata metadata m w = let (r, s) = m metadata in (r, record w { metadata = some s })

-- if a.service.rbac == nil { … 404 }
unfoldable pub with_rbac : (MemoryRolesPermissionsStore → Action Answer) → Action Answer
with_rbac next w = elim w.rbac [
  | none ↦ (ok (refused 404 "RBAC store not configured"), w)
  | some rbac ↦ next rbac w
]

unfoldable pub with_tenants : (MemoryTenantStore → Action Answer) → Action Answer
with_tenants next w = elim w.tenants [
  | none ↦ (ok (refused 404 "Tenant store not configured"), w)
  | some tenants ↦ next tenants w
]

-- adminDecodeAgain, where url.PathUnescape is `unescape`
unfoldable pub decode_again :
    (String → Option String) → String → (String → Action Answer) → Action Answer
decode_again unescape raw next = elim (unescape raw) [ none ↦ return internal | some s ↦ next s ]

-- the event of a role given or taken
abbrev pub role_event : String → String → List (String × String) → Event
role_event name user_id info = record {
  name = name;
  user_id = user_id;
  session_id = "";
  info = info;
}

module _ (c : Config) where
  unfoldable pub admin_add_user_role : String → String → String → Action Answer
  admin_add_user_role id role tenant_id = with_rbac λ rbac.
      if role == ""
      then return (refused 400 "role is required")
      else or_internal (on_rbac rbac (add_role_to_user id role tenant_id)) λ _. do
        publish c (role_event "identity.role.assigned" id (("role", role) ∷ []))
        return success

  unfoldable pub admin_remove_user_role : (String → Option String) → String → String → Action Answer
  admin_remove_user_role unescape id raw_role = with_rbac λ rbac.
      decode_again unescape raw_role λ role.
        or_internal (on_rbac rbac (remove_role_from_user id role "")) λ _. do
          publish c (role_event "identity.role.revoked" id (("role", role) ∷ []))
          return success

  -- the flag branch
  unfoldable pub promote_by_flag : String → String → Action Answer
  promote_by_flag id method =
      if not c.stores.admin_flag
      then return (refused 501 "IUserStore.update is required for method=flag")
      else or_internal (on_users (update_is_admin id "" true)) λ _. do
        publish c
            (role_event "identity.role.assigned" id (("role", "admin") ∷ ("method", "flag") ∷ []))
        return (promoted method)

  -- the role branch: the role is created, and then given
  unfoldable pub promote_by_role : String → String → Action Answer
  promote_by_role id method = with_rbac λ rbac.
      or_internal (on_rbac rbac (create_role "admin" [])) λ _. with_rbac λ made.
        or_internal (on_rbac made (add_role_to_user id "admin" "")) λ _. do
          publish c
              (role_event "identity.role.assigned" id (("role", "admin") ∷ ("method", "role") ∷ []))
          return (promoted method)

  -- adminPromoteUser, with the method of the body where it has one
  unfoldable pub admin_promote_user : Option String → String → Action Answer
  admin_promote_user method id =
      let resolved : String = elim method [ none ↦ "role" | some m ↦ m ] in
      if resolved == "flag" then promote_by_flag id resolved else promote_by_role id resolved

  unfoldable pub admin_revoke_session : (String → Option String) → String → Action Answer
  admin_revoke_session unescape raw_handle = decode_again unescape raw_handle λ handle.
      if not c.stores.session_admin
      then return internal
      else or_internal (λ w. on_sessions (revoke_session_by_id w.clock handle) w)
          (λ _. return success)

-- the user is looked for in the empty tenant
unfoldable pub admin_delete_user : Platform → Config → String → Action Answer
admin_delete_user p c id =
    if not c.stores.account
    then return (refused 501 "IUserStore.deleteUser is not implemented")
    else or_internal (on_users (delete_user p.lower id "")) (λ _. return success)

unfoldable pub admin_create_role : String → List String → Action Answer
admin_create_role name permissions = with_rbac λ rbac.
    if name == ""
    then return (refused 400 "name is required")
    else or_internal (on_rbac rbac (create_role name permissions)) (λ _. return success)

unfoldable pub admin_delete_role : (String → Option String) → String → Action Answer
admin_delete_role unescape raw_name = with_rbac λ rbac.
    decode_again unescape raw_name
      λ name. or_internal (on_rbac rbac (delete_role name)) (λ _. return success)

-- a tenant is active unless the body says otherwise
unfoldable pub admin_create_tenant : Platform → String → Option Bool → Action Answer
admin_create_tenant p name is_active = with_tenants λ tenants.
    if name == ""
    then return (refused 400 "name is required")
    else or_internal (new_id p "tnt") λ id. or_internal now λ t.
      let active : Bool = elim is_active [ none ↦ true | some b ↦ b ] in
      let tenant : Tenant = record {
        id = id;
        name = name;
        is_active = active;
        config = empty;
        created_at = t;
      } in
      or_internal (on_tenants tenants (create_tenant tenant)) (λ made. return (tenant_row made))

unfoldable pub admin_delete_tenant : (String → Option String) → String → Action Answer
admin_delete_tenant unescape raw_id = with_tenants λ tenants.
    decode_again unescape raw_id
      λ id. or_internal (on_tenants tenants (delete_tenant id)) (λ _. return success)

unfoldable pub admin_add_tenant_user : (String → Option String) → String → String → Action Answer
admin_add_tenant_user unescape user_id raw_id = with_tenants λ tenants.
    if user_id == ""
    then return (refused 400 "userId is required")
    else decode_again unescape raw_id λ tenant_id.
      or_internal (on_tenants tenants (associate_user_with_tenant user_id tenant_id))
        (λ _. return success)

unfoldable pub admin_remove_tenant_user : (String → Option String) → String → String → Action Answer
admin_remove_tenant_user unescape raw_user_id raw_id = with_tenants λ tenants.
    decode_again unescape raw_user_id λ user_id. decode_again unescape raw_id λ tenant_id.
      or_internal (on_tenants tenants (disassociate_user_from_tenant user_id tenant_id))
        (λ _. return success)

-- an empty body is an empty map
unfoldable pub admin_update_user_metadata : String → Dict Any → Action Answer
admin_update_user_metadata id metadata w = elim w.metadata [
  | none ↦ (ok (refused 404 "User metadata store not configured"), w)
  | some store ↦
      or_internal (on_metadata store (update_metadata id metadata)) (λ _. return success) w
]

-- for _, user := range batch { … UpdateRequire2FA … }
unfoldable pub update_batch : Bool → List User → M MemoryUserStore (Unit {0})
update_batch required [] = return tt
update_batch required (user ∷ users) = do
  update_require_2fa user.id user.tenant_id required
  update_batch required users

-- The loop over the batches of a hundred, with the rounds it may still take; each is at an offset.
unfoldable pub policy_loop : ℕ → Bool → ℕ → ℕ → Action Answer
policy_loop zero required offset count w = (ok (refused 0 "out of rounds"), w)
policy_loop (suc rounds) required offset count w =
    let batch = list_users "" (pos 100) (pos offset) w.users in
    if eqb (length batch) 0
    then (ok (updated count), w)
    else or_internal (on_users (update_batch required batch))
        (λ _.
          if ltb (length batch) 100
          then return (updated (count + length batch))
          else policy_loop rounds required (offset + 100) (count + length batch))
        w

-- adminSetTwoFAPolicy, with the boolean of the body where it has one
unfoldable pub admin_set_two_fa_policy : Config → ℕ → Option Bool → Action Answer
admin_set_two_fa_policy c rounds none = return (refused 400 "\"required\" must be a boolean")
admin_set_two_fa_policy c rounds (some required) =
    if not c.stores.two_factor_policy
    then return (refused 501 "IUserStore.updateRequire2FA is not implemented")
    else if not c.stores.user_admin
    then return (refused 501 "IUserStore.listUsers is not implemented")
    else policy_loop rounds required 0 0

-- adminSliceBounds: a start from the end where it is negative, and an end that never precedes it
unfoldable pub slice_start : ℕ → ℤ → ℕ
slice_start n (pos start) = if ltb n start then n else start
slice_start n (negsuc start) = if ltb n (suc start) then 0 else n - suc start

abbrev clamp_end : ℕ → ℕ → ℤ → ℕ
clamp_end n begin (negsuc _) = begin
clamp_end n begin (pos end) = if ltb end begin then begin else if ltb n end then n else end

unfoldable pub admin_slice_bounds : ℕ → ℤ → ℤ → ℕ × ℕ
admin_slice_bounds n start limit =
    let begin = slice_start n start in (begin, clamp_end n begin (add_int64 (pos begin) limit))
