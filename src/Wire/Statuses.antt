-- ===== src/Wire/Statuses.antt =====
-- The error table against the status alone.
use awesome_go_auth.Base.{◌≡◌, refl}
use awesome_go_auth.Errors.{
  Error, invalid_credentials, user_exists, invalid_token, session_not_found, session_revoked,
  weak_password, feature_not_supported, email_not_verified, invalid_code, two_factor_required,
  already_exists, tenant_not_found, role_not_found, invalid_input, email_not_configured,
  sms_not_configured, magic_link_owner_mismatch, api_key_not_found, oauth_email_not_verified,
  oauth_email_domain_not_allowed, oauth_user_not_provisioned, oauth_account_conflict,
  user_not_found, external, wrapped, delivery_failed,
}
use awesome_go_auth.Service.Login.{http_status_for}
use awesome_go_auth.Wire.{http_error_for}

-- The envelope of an error has the status that the login reads for it.
pub status-http_error_for : (e : Error) → (http_error_for e).status ≡ http_status_for e
unfolding http_error_for http_status_for
status-http_error_for invalid_credentials = refl
status-http_error_for user_exists = refl
status-http_error_for invalid_token = refl
status-http_error_for session_not_found = refl
status-http_error_for session_revoked = refl
status-http_error_for weak_password = refl
status-http_error_for feature_not_supported = refl
status-http_error_for email_not_verified = refl
status-http_error_for invalid_code = refl
status-http_error_for two_factor_required = refl
status-http_error_for already_exists = refl
status-http_error_for tenant_not_found = refl
status-http_error_for role_not_found = refl
status-http_error_for invalid_input = refl
status-http_error_for email_not_configured = refl
status-http_error_for sms_not_configured = refl
status-http_error_for magic_link_owner_mismatch = refl
status-http_error_for api_key_not_found = refl
status-http_error_for oauth_email_not_verified = refl
status-http_error_for oauth_email_domain_not_allowed = refl
status-http_error_for oauth_user_not_provisioned = refl
status-http_error_for (oauth_account_conflict _ _ _) = refl
status-http_error_for user_not_found = refl
status-http_error_for (external _) = refl
status-http_error_for (wrapped _ e) = status-http_error_for e
status-http_error_for (delivery_failed e) = status-http_error_for e
