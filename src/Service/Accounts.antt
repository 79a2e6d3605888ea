-- ===== src/Service/Accounts.antt =====
-- service.go, account.go: registration, the passwords, and what a user does to his own account.
pub mod Passwords
pub mod Registration
pub mod Change
pub mod Deletion
use Prim.Native.Char.{code}
use Prim.Native.String.{[], ◌∷◌}
use mathlib.Core.Option.{get_or}
use awesome_go_auth.Base.{
  ℕ, ◌+◌, String, Bool, true, false, ◌||◌, ◌&&◌, not, Option, none, some, List, [], ◌∷◌, ◌==◌, ltb,
  if◌then◌else◌, is_some,
}
use awesome_go_auth.Base.Strings.{trim_space}
use awesome_go_auth.Errors.{
  Error, Result, ok, err, M, ◌>>=◌, ◌>>◌, return, fail, then_run, rewrap, wrapped,
  invalid_credentials, user_exists, invalid_token, session_not_found, weak_password,
  feature_not_supported, invalid_input,
}
use awesome_go_auth.Metadata.{clear_metadata, MemoryMetadataStore}
use awesome_go_auth.Models.{User, Session, AuthTokens, Tenant, zero_user}
use awesome_go_auth.Base.Strings.{byte_len}
use awesome_go_auth.Platform.{Platform}
use awesome_go_auth.Roles.{get_roles_for_user, remove_role_from_user, MemoryRolesPermissionsStore}
use awesome_go_auth.Service.{
  Config, World, Event, Action, now, on_users, on_sessions, ask, or_error, refuse, require, publish,
  hash_password, verify_password, hash_token, random_token, new_id, email_verification_mode,
  deliver, Delivery,
}
use awesome_go_auth.Service.Sessions.{
  new_session_tokens, is_past, enrich_from_stores, enrich_custom_claims,
}
use awesome_go_auth.SessionStore.{list_sessions_for_user, revoke_session_by_id, MemorySessionStore}
use awesome_go_auth.Tenants.{get_tenants_for_user, disassociate_user_from_tenant, MemoryTenantStore}
use awesome_go_auth.UserStore.{
  normalize_email, create_user, get_user_by_email, get_user_by_id, update_password, update_profile,
  update_phone_number, delete_user,
}
use awesome_go_auth.UserStore.Credentials.{
  update_reset_token, get_user_by_reset_token_hash, clear_reset_token,
}

abbrev pub is_ok : {A : Type 0} → Result A → Bool
is_ok (ok _) = true
is_ok (err _) = false

-- user.X == nil || s.now().After(user.X.Add(s.cfg.ClockSkew))
abbrev pub is_spent : Config → ℕ → Option ℕ → Bool
is_spent c t none = true
is_spent c t (some expiry) = is_past c t expiry

pub record RegisterInput : Type 0 where
  pub email : String
  pub password : String
  pub tenant_id : String

-- the user that Register creates
abbrev pub registered : RegisterInput → String → String → String → Bool → ℕ → User
registered input email id hash verified t = record zero_user {
  id = id;
  email = email;
  password_hash = hash;
  tenant_id = input.tenant_id;
  is_email_verified = verified;
  created_at = t;
  updated_at = t;
}

-- for _, session := range sessions { _ = adminStore.RevokeSessionByID(ctx, session.ID) }
unfoldable pub revoke_each : ℕ → List Session → MemorySessionStore → MemorySessionStore
revoke_each t [] s = s
revoke_each t (x ∷ xs) s = revoke_each t xs (revoke_session_by_id t x.id s).1

unfoldable pub remove_each_role :
    String → String → List String → MemoryRolesPermissionsStore → MemoryRolesPermissionsStore
remove_each_role user_id tenant_id [] s = s
remove_each_role user_id tenant_id (role ∷ roles) s =
    remove_each_role user_id tenant_id roles (remove_role_from_user user_id role tenant_id s).1

unfoldable pub leave_each : String → List Tenant → MemoryTenantStore → MemoryTenantStore
leave_each user_id [] s = s
leave_each user_id (t ∷ ts) s =
    leave_each user_id ts (disassociate_user_from_tenant user_id t.id s).1

-- the loop of RevokeUserSession
unfoldable pub revoke_found : ℕ → String → List Session → Action (Unit {0})
revoke_found t handle [] = fail session_not_found
revoke_found t handle (x ∷ xs) =
    let rest = revoke_found t handle xs in
    if not (x.id == handle)
    then rest
    else if is_some x.revoked_at || ltb x.expires_at t
    then fail session_not_found
    else on_sessions (revoke_session_by_id t handle)

-- UpdateProfile: the names, read from the store when one is not given
unfoldable pub current_names :
    String → String → Option String → Option String → Action (String × String)
current_names user_id tenant_id (some first) (some last) w = (ok (first, last), w)
current_names user_id tenant_id first last w = elim (get_user_by_id user_id tenant_id w.users) [
  | err e ↦ (err (wrapped "auth: update profile" e), w)
  | ok current ↦ (ok (get_or first current.first_name, get_or last current.last_name), w)
]

module _ (p : Platform) (c : Config) where
  -- Register
  unfoldable pub register : RegisterInput → Action (User × AuthTokens)
  register input = do
    let email = normalize_email p.lower input.email
    refuse (email == "" || input.password == "") invalid_input
    refuse (ltb (byte_len input.password) c.min_password_len) weak_password
    taken ← ask (λ w. ok (is_ok (get_user_by_email p.lower email input.tenant_id w.users)))
    refuse taken user_exists
    hash ← hash_password p input.password c.bcrypt_cost
    id ← new_id p "usr"
    t ← now
    let verified = email_verification_mode p c == "none"
    created ←
        rewrap (wrapped "auth: create user")
          (on_users (create_user p.lower (registered input email id hash verified t)))
    tokens ← new_session_tokens p c created
    publish c (record {
      name = "identity.user.created";
      user_id = created.id;
      session_id = "";
      info = ("email", created.email) ∷ ("method", "default") ∷ [];
    })
    return (created, tokens)

  -- ForgotPassword: silence for an unknown address
  unfoldable pub forgot_password : String → String → String → String → Action String
  forgot_password submitted tenant_id link_base lang w =
      elim (get_user_by_email p.lower (normalize_email p.lower submitted) tenant_id w.users) [
        | err _ ↦ (ok "", w)
        | ok user ↦
            (do
              require c.stores.password feature_not_supported
              reset_token ← random_token p 32
              t ← now
              let expires_at = t + c.reset_token_ttl
              on_users
                  (update_reset_token user.id user.tenant_id (hash_token p reset_token) expires_at)
              deliver c.send_password_reset (record {
                channel = "password-reset";
                user_id = user.id;
                tenant_id = user.tenant_id;
                to = user.email;
                secret = reset_token;
                expires_at = expires_at;
                link_base = link_base;
                lang = lang;
              })
              return reset_token)
              w
      ]

  -- ResetPassword
  unfoldable pub reset_password : String → String → Action (Unit {0})
  reset_password token new_password = do
    refuse (ltb (byte_len new_password) c.min_password_len) weak_password
    require c.stores.password feature_not_supported
    t ← now
    user ←
        ask
          (λ w. or_error invalid_token (get_user_by_reset_token_hash (hash_token p token) w.users))
    refuse (is_spent c t user.reset_token_expires_at) invalid_token
    hash ← hash_password p new_password c.bcrypt_cost
    on_users (update_password user.id user.tenant_id hash)
    on_users (clear_reset_token user.id user.tenant_id)

  -- ChangePassword
  unfoldable pub change_password : String → String → String → String → Action (Unit {0})
  change_password user_id tenant_id current_password new_password = do
    refuse (ltb (byte_len new_password) c.min_password_len) weak_password
    user ← ask (λ w. or_error invalid_credentials (get_user_by_id user_id tenant_id w.users))
    require (verify_password p current_password user.password_hash) invalid_credentials
    require c.stores.password feature_not_supported
    hash ← hash_password p new_password c.bcrypt_cost
    on_users (update_password user.id user.tenant_id hash)
    publish c (record {
      name = "identity.user.password.changed";
      user_id = user.id;
      session_id = "";
      info = [];
    })

  -- account.go, RevokeUserSession
  unfoldable pub revoke_user_session : String → String → String → Action (Unit {0})
  revoke_user_session user_id tenant_id session_id = do
    require c.stores.session_admin feature_not_supported
    let handle = trim_space session_id
    refuse (handle == "") session_not_found
    sessions ← ask (λ w. ok (list_sessions_for_user user_id tenant_id w.sessions))
    t ← now
    revoke_found t handle sessions

  -- account.go, UpdatePhoneNumber, with the enrichment of its result
  unfoldable pub change_phone_number : String → String → String → Action User
  change_phone_number user_id tenant_id phone_number = do
    require c.stores.phone feature_not_supported
    t ← now
    updated ←
        rewrap (wrapped "auth: update phone number")
          (on_users (update_phone_number t user_id tenant_id (trim_space phone_number)))
    ask (λ w. ok (enrich_custom_claims c (enrich_from_stores updated w)))

  -- UpdateProfile: a name that is not given stays as it is stored
  unfoldable pub change_profile : String → String → Option String → Option String → Action User
  change_profile user_id tenant_id first last = do
    require c.stores.account feature_not_supported
    (first_name, last_name) ← current_names user_id tenant_id first last
    t ← now
    updated ← rewrap (wrapped "auth: update profile") (
        on_users
          (update_profile t user_id tenant_id (trim_space first_name) (trim_space last_name)))
    ask (λ w. ok (enrich_custom_claims c (enrich_from_stores updated w)))

  -- DeleteAccount: sessions, roles, memberships, metadata, and the user last
  unfoldable pub delete_account : String → String → Action (Unit {0})
  delete_account user_id tenant_id w =
      if c.stores.account
      then (let t = w.clock in
          let sessions =
            if c.stores.session_admin
            then revoke_each t (list_sessions_for_user user_id tenant_id w.sessions) w.sessions
            else w.sessions in
          let rbac : Option MemoryRolesPermissionsStore = elim w.rbac [
            | none ↦ none
            | some r ↦
                some (remove_each_role user_id tenant_id (get_roles_for_user user_id tenant_id r) r)
          ] in
          let tenants : Option MemoryTenantStore = elim w.tenants [
            | none ↦ none
            | some ts ↦ some (leave_each user_id (get_tenants_for_user user_id ts) ts)
          ] in
          let metadata : Option MemoryMetadataStore = elim w.metadata [
            | none ↦ none
            | some m ↦ some (clear_metadata user_id m).1
          ] in
          (rewrap (wrapped "auth: delete account")
                (on_users (delete_user p.lower user_id tenant_id))
              >> publish c (record {
                name = "identity.user.deleted";
                user_id = user_id;
                session_id = "";
                info = [];
              }))
            (record w { sessions = sessions; rbac = rbac; tenants = tenants; metadata = metadata }))
      else (err feature_not_supported, w)
