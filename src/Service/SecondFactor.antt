-- ===== src/Service/SecondFactor.antt =====
-- service.go: the methods of the second factor by time-based codes, and the delegations to the role,
-- tenant and metadata stores where they are configured.
pub mod Enrolment
use awesome_go_auth.Base.{
  ℕ, String, Bool, true, false, not, ◌&&◌, ◌||◌, Option, none, some, List, [], ◌∷◌, ◌==◌,
}
use awesome_go_auth.Base.Dict.{Dict}
use awesome_go_auth.Errors.{
  Error, Result, ok, err, M, ◌>>=◌, ◌>>◌, return, fail, then_run, invalid_credentials, invalid_code,
  feature_not_supported,
}
use awesome_go_auth.Metadata.{MemoryMetadataStore, get_metadata, update_metadata}
use awesome_go_auth.Models.{Any, User, AuthTokens, Tenant}
use awesome_go_auth.Platform.{Platform}
use awesome_go_auth.Roles.{
  MemoryRolesPermissionsStore, create_role, add_role_to_user, user_has_permission,
}
use awesome_go_auth.Service.{
  Config, World, Event, Action, now, on_users, ask, or_error, refuse, require, publish, new_id,
}
use awesome_go_auth.Service.Login.{login_success}
use awesome_go_auth.Service.Sessions.{issue_session}
use awesome_go_auth.Tenants.{MemoryTenantStore, create_tenant, associate_user_with_tenant}
use awesome_go_auth.Totp.{generate_totp_secret, validate_totp_code}
use awesome_go_auth.UserStore.{get_user_by_id, update_totp_secret}

-- An event that names a user only.
abbrev pub user_event : String → String → Event
user_event name user_id = record { name = name; user_id = user_id; session_id = ""; info = [] }

module _ (p : Platform) where
  unfoldable pub setup_totp : String → String → Action String
  setup_totp user_id tenant_id = do
    _ ← ask (λ w. or_error invalid_credentials (get_user_by_id user_id tenant_id w.users))
    generate_totp_secret p

  module _ (c : Config) where
    unfoldable pub verify_totp_setup : String → String → String → String → Action (Unit {0})
    verify_totp_setup user_id tenant_id secret code = do
      require c.stores.totp feature_not_supported
      t ← now
      require (validate_totp_code p secret code t) invalid_code
      on_users (update_totp_secret user_id tenant_id secret true)
      publish c (user_event "identity.user.2fa.enabled" user_id)

    unfoldable pub verify_totp : String → String → String → Action (User × AuthTokens)
    verify_totp user_id tenant_id code = do
      user ← ask (λ w. or_error invalid_credentials (get_user_by_id user_id tenant_id w.users))
      refuse (not user.is_totp_enabled || user.totp_secret == "") invalid_credentials
      t ← now
      require (validate_totp_code p user.totp_secret code t) invalid_code
      (tokens, session_id) ← issue_session p c user
      publish c (login_success user session_id "totp")
      return (user, tokens)

-- no platform is read
unfoldable pub disable_totp : Config → String → String → Action (Unit {0})
disable_totp c user_id tenant_id = do
  require c.stores.totp feature_not_supported
  on_users (update_totp_secret user_id tenant_id "" false)
  publish c (user_event "identity.user.2fa.disabled" user_id)
