-- ===== src/Service/Login.antt =====
-- service.go, login_2fa.go, password_verifier.go: the password login, with the gates before a session
-- is issued and the challenge that stands in for one where a second factor is due.
pub mod Gates
use awesome_go_auth.Base.{
  ℕ, String, Bool, true, false, ◌||◌, ◌&&◌, not, Option, none, some, List, [], ◌∷◌, ◌++◌, ◌==◌, eqb,
  if◌then◌else◌, is_some,
}
use awesome_go_auth.Base.Strings.{trim_space}
use awesome_go_auth.Errors.{
  Error, Result, ok, err, M, ◌>>=◌, ◌>>◌, return, fail, then_run, external, wrapped,
  delivery_failed, invalid_credentials, user_exists, invalid_token, session_not_found,
  session_revoked, weak_password, feature_not_supported, email_not_verified, two_factor_required,
  already_exists, invalid_input, email_not_configured, sms_not_configured,
}
use awesome_go_auth.Models.{User, AuthTokens}
use awesome_go_auth.Platform.{Platform}
use awesome_go_auth.Service.{
  Config, World, Event, Action, on_users, ask, or_error, refuse, require, publish, hash_password,
  verify_password, email_verification_mode,
}
use awesome_go_auth.Service.Sessions.{issue_session}
use awesome_go_auth.Service.Tokens.{issue_token}
use awesome_go_auth.UserStore.{normalize_email, get_user_by_email, update_password}

-- wire.go, HTTPErrorFor: the status; errors.Is looks through every wrapping.
unfoldable pub http_status_for : Error → ℕ
http_status_for session_revoked = 401
http_status_for invalid_credentials = 401
http_status_for email_not_verified = 403
http_status_for two_factor_required = 403
http_status_for user_exists = 409
http_status_for already_exists = 409
http_status_for invalid_input = 400
http_status_for weak_password = 400
http_status_for feature_not_supported = 501
http_status_for session_not_found = 401
http_status_for invalid_token = 401
http_status_for (wrapped _ e) = http_status_for e
http_status_for (delivery_failed e) = http_status_for e
http_status_for _ = 500

pub record TwoFactorChallenge : Type 0 where
  pub temp_token : String
  pub methods : List String
  pub setup_required : Bool

-- A login gives tokens or a challenge.
pub record LoginResult : Type 0 where
  pub user : User
  pub tokens : AuthTokens
  pub challenge : Option TwoFactorChallenge

pub record LoginInput : Type 0 where
  pub email : String
  pub password : String
  pub tenant_id : String

-- AuthTokens{}
abbrev pub zero_tokens : AuthTokens
zero_tokens = record { access_token = ""; refresh_token = ""; expires_in = 0 }

-- the event of a login with a method
abbrev pub login_success : User → String → String → Event
login_success user session_id method = record {
  name = "identity.auth.login.success";
  user_id = user.id;
  session_id = session_id;
  info = ("method", method) ∷ [];
}

-- requiresTwoFactor
unfoldable pub requires_two_factor : Config → User → Bool
requires_two_factor c user =
    let has_totp = user.is_totp_enabled && not (trim_space user.totp_secret == "") in
    (c.require_2fa || user.require_2fa) || has_totp

-- availableTwoFactorMethods
unfoldable pub available_two_factor_methods : Config → User → List String
available_two_factor_methods c user =
    (if user.is_totp_enabled && not (trim_space user.totp_secret == "") then "totp" ∷ [] else [])
    ++ (if (c.stores.sms && is_some c.send_sms_code) && not (trim_space user.phone_number == "")
        then "sms" ∷ []
        else [])
    ++ (if c.stores.magic_link && is_some c.send_magic_link then "magic-link" ∷ [] else [])

-- loginFailed: the refusal, with its event where the status is 401
unfoldable pub login_failed : {A : Type 0} → Config → String → Error → Action A
login_failed c submitted e =
    if eqb (http_status_for e) 401
    then (publish c (record {
      name = "identity.auth.login.failed";
      user_id = "";
      session_id = "";
      info = ("method", "local") ∷ ("email", submitted) ∷ [];
    })
        >> fail e)
    else fail e

-- if err != nil { return …, s.loginFailed(ctx, submitted, err) }
unfoldable pub refused_as : {A : Type 0} → Config → String → Result A × World → Result A × World
refused_as c submitted (ok a, w) = (ok a, w)
refused_as c submitted (err e, w) = login_failed c submitted e w

module _ (p : Platform) (c : Config) where
  -- verifyThroughPasswordVerifier, after the hook has answered
  unfoldable pub adopt : User → String → Bool × Bool → Action User
  adopt user password (verified, migrated) =
      if not verified
      then fail invalid_credentials
      else if not migrated || password == ""
      then return user
      else do
        require c.stores.password (external "auth: password verifier asked to migrate a password")
        hash ← hash_password p password c.bcrypt_cost
        on_users (update_password user.id user.tenant_id hash)
        return (record user { password_hash = hash })

  -- verifyThroughPasswordVerifier: an error of the hook is opaque
  unfoldable pub verify_through_password_verifier : User → String → Action User
  verify_through_password_verifier user password = elim c.password_verifier [
    | none ↦ fail invalid_credentials
    | some verify ↦ elim (verify user password) [
      | err _ ↦ fail (external "auth: password verifier")
      | ok answer ↦ adopt user password answer
    ]
  ]

  -- if !verifyPassword(…) { user, err = s.verifyThroughPasswordVerifier(…); loginFailed on err }
  unfoldable pub check_password : String → User → String → Action User
  check_password submitted user password w =
      if verify_password p password user.password_hash
      then (ok user, w)
      else refused_as c submitted (verify_through_password_verifier user password w)

  -- loginPassword: the user, and whether a second factor is due
  unfoldable pub login_password : LoginInput → Action (User × Bool)
  login_password input w =
      elim (get_user_by_email p.lower (normalize_email p.lower input.email) input.tenant_id
        w.users) [
          | err _ ↦ login_failed c input.email invalid_credentials w
          | ok found ↦
              (do
                user ← check_password input.email found input.password
                if not user.is_email_verified && not (email_verification_mode p c == "lazy")
                    then login_failed c input.email email_not_verified
                    else return (user, requires_two_factor c user))
                w
        ]

  -- completeLocalLogin
  unfoldable pub complete_local_login : User → Action AuthTokens
  complete_local_login user = do
    (tokens, session_id) ← issue_session p c user
    publish c (login_success user session_id "local")
    return tokens

  -- Login
  unfoldable pub login : LoginInput → Action (User × AuthTokens)
  login input = do
    (user, second_factor) ← login_password input
    refuse second_factor two_factor_required
    tokens ← complete_local_login user
    return (user, tokens)

  -- passwordless.go, IssueTempToken
  unfoldable pub issue_temp_token : User → Action String
  issue_temp_token user = do
    (token, _) ← issue_token p c user "" "temp" c.temp_token_ttl
    return token

  -- twoFactorChallenge
  unfoldable pub two_factor_challenge : User → Action TwoFactorChallenge
  two_factor_challenge user = do
    let methods = available_two_factor_methods c user
    token ← issue_temp_token user
    return (record {
      temp_token = token;
      methods = methods;
      setup_required = elim methods [ [] ↦ true | _ ∷ _ ↦ false ];
    })

  -- LoginWithChallenge
  unfoldable pub login_with_challenge : LoginInput → Action LoginResult
  login_with_challenge input = do
    (user, second_factor) ← login_password input
    if second_factor
        then (do
          challenge ← two_factor_challenge user
          return (record { user = user; tokens = zero_tokens; challenge = some challenge }))
        else (do
          tokens ← complete_local_login user
          return (record { user = user; tokens = tokens; challenge = none }))
