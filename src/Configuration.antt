-- ===== src/Configuration.antt =====
-- config.go: the defaults of a configuration and what makes one valid.
use awesome_go_auth.Base.{String, Bool, false, not, ◌||◌, ◌&&◌, none, ◌==◌, eqb, ltb, if◌then◌else◌}
use awesome_go_auth.Base.Strings.{byte_len}
use awesome_go_auth.Errors.{Result, ok, err, external}
use awesome_go_auth.Platform.{Platform}
use awesome_go_auth.Service.{Config, Capabilities, mode_of}

-- DefaultConfig, for stores that can do what is listed
unfoldable pub default_config : Capabilities → String → Config
default_config stores secret = record {
  secret = secret;
  issuer = "awesome-go-auth";
  access_token_ttl = 900000000000;
  refresh_token_ttl = 2592000000000000;
  session_check_on = "refresh";
  clock_skew = 30000000000;
  min_password_len = 8;
  bcrypt_cost = 10;
  reset_token_ttl = 3600000000000;
  magic_link_ttl = 900000000000;
  sms_code_ttl = 600000000000;
  email_verification_ttl = 86400000000000;
  email_verification_mode = "none";
  email_change_ttl = 3600000000000;
  temp_token_ttl = 300000000000;
  require_2fa = false;
  build_token_claims = none;
  password_verifier = none;
  send_magic_link = none;
  send_sms_code = none;
  send_password_reset = none;
  send_email_verification = none;
  send_email_change = none;
  send_email_changed = none;
  events = false;
  stores = stores;
}

module _ (p : Platform) where
  unfoldable pub is_session_check : String → Bool
  is_session_check raw =
      let mode = mode_of p raw in
      mode == "" || mode == "allcalls" || mode == "refresh" || mode == "none"

  unfoldable pub is_verification_mode : String → Bool
  is_verification_mode raw =
      let mode = mode_of p raw in mode == "" || mode == "none" || mode == "lazy" || mode == "strict"

  -- validate; a lifetime is not negative here
  unfoldable pub validate : Config → Result (Unit {0})
  validate c =
      if ltb (byte_len c.secret) 32
      then err (external "auth: secret must be at least 32 chars")
      else if eqb c.access_token_ttl 0
      then err (external "auth: access token ttl must be > 0")
      else if eqb c.refresh_token_ttl 0
      then err (external "auth: refresh token ttl must be > 0")
      else if not (is_session_check c.session_check_on)
      then err (external "auth: session check mode must be one of allcalls|refresh|none")
      else if not (is_verification_mode c.email_verification_mode)
      then err (external "auth: email verification mode must be one of none|lazy|strict")
      else if ltb c.min_password_len 8
      then err (external "auth: min password len must be >= 8")
      else if not (eqb c.bcrypt_cost 0) && (ltb c.bcrypt_cost 4 || ltb 31 c.bcrypt_cost)
      then err (external "auth: bcrypt cost must be between 4 and 31, or 0 for the default")
      else if eqb c.reset_token_ttl 0 || eqb c.magic_link_ttl 0 || eqb c.sms_code_ttl 0
      then err (external "auth: reset token, magic link, and sms code ttl must be > 0")
      else if eqb c.email_verification_ttl 0 || eqb c.email_change_ttl 0 || eqb c.temp_token_ttl 0
      then err (external "auth: email and temp token ttl must be > 0")
      else ok tt
