-- ===== src/Models.antt =====
-- models.go: users, sessions and tenants. A time is a number of nanoseconds, and `*time.Time` an
-- option. A value of Go's `any` is kept where the program only passes it on.
use awesome_go_auth.Base.{ℕ, String, Bool, false, Option, none, List, [], if◌then◌else◌, ◌==◌}
use awesome_go_auth.Base.Dict.{Dict, empty}

pub data Any : Type 0 where
  str : String → Any
  flag : Bool → Any
  int : ℕ → Any
  opaque : ℕ → Any

pub record Tenant : Type 0 where
  pub id : String
  pub name : String
  pub is_active : Bool
  pub config : Dict Any
  pub created_at : ℕ

pub record User : Type 0 where
  pub id : String
  pub email : String
  pub password_hash : String
  pub tenant_id : String
  pub first_name : String
  pub last_name : String
  pub phone_number : String
  pub role : String
  pub is_admin : Bool
  pub login_provider : String
  pub is_email_verified : Bool
  pub require_2fa : Bool
  pub is_totp_enabled : Bool
  pub totp_secret : String
  pub reset_token_hash : String
  pub reset_token_expires_at : Option ℕ
  pub magic_link_token_hash : String
  pub magic_link_token_expires_at : Option ℕ
  pub sms_code_hash : String
  pub sms_code_expires_at : Option ℕ
  pub email_verification_token_hash : String
  pub email_verification_token_expiry : Option ℕ
  pub pending_email : String
  pub email_change_token_hash : String
  pub email_change_token_expiry : Option ℕ
  pub metadata : Dict Any
  pub roles : List String
  pub permissions : List String
  pub tenants : List Tenant
  pub custom_claims : Dict Any
  pub created_at : ℕ
  pub updated_at : ℕ

-- User{}
abbrev pub zero_user : User
unfolding empty
zero_user = record {
  id = "";
  email = "";
  password_hash = "";
  tenant_id = "";
  first_name = "";
  last_name = "";
  phone_number = "";
  role = "";
  is_admin = false;
  login_provider = "";
  is_email_verified = false;
  require_2fa = false;
  is_totp_enabled = false;
  totp_secret = "";
  reset_token_hash = "";
  reset_token_expires_at = none;
  magic_link_token_hash = "";
  magic_link_token_expires_at = none;
  sms_code_hash = "";
  sms_code_expires_at = none;
  email_verification_token_hash = "";
  email_verification_token_expiry = none;
  pending_email = "";
  email_change_token_hash = "";
  email_change_token_expiry = none;
  metadata = empty;
  roles = [];
  permissions = [];
  tenants = [];
  custom_claims = empty;
  created_at = 0;
  updated_at = 0;
}

pub record Session : Type 0 where
  pub id : String
  pub user_id : String
  pub tenant_id : String
  pub refresh_token_hash : String
  pub created_at : ℕ
  pub expires_at : ℕ
  pub revoked_at : Option ℕ

pub record AuthTokens : Type 0 where
  pub access_token : String
  pub refresh_token : String
  pub expires_in : ℕ

unfoldable pub login_provider_or_local : User → String
login_provider_or_local u = if u.login_provider == "" then "local" else u.login_provider
