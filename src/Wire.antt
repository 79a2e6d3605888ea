-- ===== src/Wire.antt =====
-- wire.go: the error table of the HTTP layer, the cookies it writes and the tokens it reads.
pub mod Expiry
pub mod Statuses
use Prim.Native.String.{◌++◌ as cat}
use awesome_go_auth.Base.{
  ℕ, String, Bool, true, false, not, ◌&&◌, ◌||◌, Option, none, some, List, [], ◌∷◌, ◌++◌, ◌==◌, ltb,
  ◌/◌, is_some, if◌then◌else◌,
}
use awesome_go_auth.Base.Strings.{trim_space}
use awesome_go_auth.Csrf.{Request, bearer_token, cookie_value, cut_prefix}
use awesome_go_auth.Errors.{
  Error, invalid_credentials, user_exists, invalid_token, session_not_found, session_revoked,
  weak_password, feature_not_supported, email_not_verified, two_factor_required, already_exists,
  invalid_input, email_not_configured, sms_not_configured, wrapped, delivery_failed,
}
use awesome_go_auth.Paging.{ℤ, pos, negsuc}
use awesome_go_auth.Platform.{Platform}
use awesome_go_auth.Roles.{contains}

pub record HttpError : Type 0 where
  pub status : ℕ
  pub message : String
  pub code : String

-- HTTPError.Error
unfoldable pub error_text : HttpError → String
error_text e = if e.code == "" then e.message else cat e.code (cat ": " e.message)

abbrev pub http_err : ℕ → String → String → HttpError
http_err status message code = record { status = status; message = message; code = code }

abbrev pub http_err_session_revoked : HttpError
http_err_session_revoked = http_err 401 "Session has been revoked" "SESSION_REVOKED"

abbrev pub http_err_invalid_access_token : HttpError
http_err_invalid_access_token = http_err 403 "Invalid or expired access token" ""

-- HTTPErrorFor; errors.Is looks through every wrapping
unfoldable pub http_error_for : Error → HttpError
http_error_for session_revoked = http_err_session_revoked
http_error_for invalid_credentials = http_err 401 "Invalid credentials" "INVALID_CREDENTIALS"
http_error_for email_not_verified =
    http_err 403 "Email address is not verified" "EMAIL_NOT_VERIFIED"
http_error_for two_factor_required =
    http_err 403 "Two-factor authentication required" "2FA_REQUIRED"
http_error_for user_exists = http_err 409 "User already exists" "USER_EXISTS"
http_error_for already_exists = http_err 409 "User already exists" "USER_EXISTS"
http_error_for invalid_input = http_err 400 "Email and password are required" "INVALID_INPUT"
http_error_for weak_password = http_err 400 "Password is too weak" "WEAK_PASSWORD"
http_error_for feature_not_supported =
    http_err 501 "Feature not supported by the configured stores" "NOT_IMPLEMENTED"
http_error_for email_not_configured = http_err 500 "Email not configured" "EMAIL_NOT_CONFIGURED"
http_error_for sms_not_configured = http_err 500 "SMS is not configured" "SMS_NOT_CONFIGURED"
http_error_for session_not_found = http_err 401 "Invalid or expired token" "INVALID_TOKEN"
http_error_for invalid_token = http_err 401 "Invalid or expired token" "INVALID_TOKEN"
http_error_for (wrapped _ e) = http_error_for e
http_error_for (delivery_failed e) = http_error_for e
http_error_for _ = http_err 500 "Internal server error" ""

-- RefreshHTTPError
unfoldable pub refresh_http_error : Error → HttpError
refresh_http_error session_revoked = http_err_session_revoked
refresh_http_error invalid_token =
    http_err 401 "Invalid or expired refresh token" "INVALID_REFRESH_TOKEN"
refresh_http_error session_not_found = http_err 401 "Invalid refresh token" ""
refresh_http_error (wrapped _ e) = refresh_http_error e
refresh_http_error (delivery_failed e) = refresh_http_error e
refresh_http_error e = http_error_for e

-- AccessHTTPError
unfoldable pub access_http_error : Error → HttpError
access_http_error session_revoked = http_err_session_revoked
access_http_error (wrapped _ e) = access_http_error e
access_http_error (delivery_failed e) = access_http_error e
access_http_error _ = http_err_invalid_access_token

-- IsBearerRequest
unfoldable pub is_bearer_request : Request → Bool
is_bearer_request r = r.header "X-Auth-Strategy" == "bearer"

-- AccessTokenFromRequest
unfoldable pub access_token_from_request : Platform → Request → String
access_token_from_request p r =
    let token = bearer_token p (r.header "Authorization") in
    if token == "" then cookie_value r "accessToken" else token

-- RefreshTokenFromRequest; the field of the body is empty where there is none
unfoldable pub refresh_token_from_request : Request → String → String
refresh_token_from_request r body_token =
    let token = trim_space body_token in
    if token == "" then cookie_value r "refreshToken" else token

pub record CookieOptions : Type 0 where
  pub secure : Bool
  pub same_site : String
  pub path : String
  pub domain : String
  pub refresh_token_path : String
  pub access_token_max_age : ℕ
  pub refresh_token_max_age : ℕ
  pub csrf_token_max_age : ℕ

-- http.Cookie, as far as it is written
pub record Cookie : Type 0 where
  pub name : String
  pub value : String
  pub path : String
  pub domain : String
  pub http_only : Bool
  pub secure : Bool
  pub same_site : String
  pub max_age : ℤ

unfoldable pub default_cookie_options : CookieOptions
default_cookie_options = record {
  secure = true;
  same_site = "lax";
  path = "/";
  domain = "";
  refresh_token_path = "";
  access_token_max_age = 0;
  refresh_token_max_age = 0;
  csrf_token_max_age = 900000000000;
}

-- CookieName
unfoldable pub cookie_name : CookieOptions → String → String
cookie_name o base =
    if not o.secure
    then base
    else if (o.path == "" || o.path == "/") && o.domain == ""
    then cat "__Host-" base
    else cat "__Secure-" base

unfoldable pub base_path : CookieOptions → String
base_path o = if trim_space o.path == "" then "/" else trim_space o.path

unfoldable pub refresh_path : CookieOptions → String
refresh_path o =
    if trim_space o.refresh_token_path == "" then base_path o else trim_space o.refresh_token_path

-- strings.HasPrefix(name, hostCookiePrefix)
unfoldable pub is_host_name : String → Bool
is_host_name name = is_some (cut_prefix "__Host-" name)

-- cookie; a lifetime in nanoseconds is cut to seconds
unfoldable pub cookie : CookieOptions → String → String → String → ℕ → Bool → Cookie
cookie o name value path max_age http_only = record {
  name = name;
  value = value;
  path = if is_host_name name || path == "" then "/" else path;
  domain = if is_host_name name then "" else o.domain;
  http_only = http_only;
  secure = is_host_name name || o.secure;
  same_site = o.same_site;
  max_age = pos (max_age / 1000000000);
}

unfoldable pub set_access_token_cookie : CookieOptions → String → Cookie
set_access_token_cookie o value =
    cookie o (cookie_name o "accessToken") value (base_path o) o.access_token_max_age true

unfoldable pub set_refresh_token_cookie : CookieOptions → String → Cookie
set_refresh_token_cookie o value =
    cookie o (cookie_name o "refreshToken") value (refresh_path o) o.refresh_token_max_age true

unfoldable pub set_csrf_token_cookie : CookieOptions → String → Cookie
set_csrf_token_cookie o value =
    cookie o (cookie_name o "csrf-token") value (base_path o) o.csrf_token_max_age false

-- the cookie of a name that makes a client drop it
unfoldable pub expired_cookie : CookieOptions → String → Bool → String → Cookie
expired_cookie o path http_only name = record (cookie o name "" path 0 http_only) {
  max_age = negsuc 0;
}

-- the loop of clearVariants, with the names that were seen
unfoldable pub clear_loop : CookieOptions → String → Bool → List String → List String → List Cookie
clear_loop o path http_only seen [] = []
clear_loop o path http_only seen (name ∷ names) =
    let skipped = clear_loop o path http_only seen names in
    let later = clear_loop o path http_only (name ∷ seen) names in
    if contains name seen then skipped else expired_cookie o path http_only name ∷ later

unfoldable pub clear_variants : CookieOptions → String → String → Bool → List Cookie
clear_variants o base path http_only =
    clear_loop o path http_only []
      (cookie_name o base ∷ cat "__Host-" base ∷ cat "__Secure-" base ∷ base ∷ [])

unfoldable pub clear_auth_cookies : CookieOptions → Bool → List Cookie
clear_auth_cookies o include_csrf =
    clear_variants o "accessToken" (base_path o) true
    ++ clear_variants o "refreshToken" (refresh_path o) true
    ++ (if include_csrf then clear_variants o "csrf-token" (base_path o) false else [])
