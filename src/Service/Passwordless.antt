-- ===== src/Service/Passwordless.antt =====
-- service.go, passwordless.go: magic links, SMS codes, the verification and the change of an address.
pub mod Spent
use Prim.Native.Nat.{zero, suc}
use Prim.Native.Char.{Char}
use Prim.Native.String.{[], ◌∷◌}
use awesome_go_auth.Base.{
  ℕ, ◌+◌, String, Bool, true, false, ◌||◌, ◌&&◌, not, Option, none, some, List, [], ◌∷◌, ◌==◌,
  if◌then◌else◌, is_some,
}
use awesome_go_auth.Base.Strings.{trim_space, digit}
use awesome_go_auth.Errors.{
  Error, Result, ok, err, M, ◌>>=◌, ◌>>◌, return, fail, then_run, rewrap, wrapped, external,
  invalid_credentials, user_exists, invalid_token, invalid_code, feature_not_supported,
  email_not_configured, sms_not_configured, magic_link_owner_mismatch,
}
use awesome_go_auth.Models.{User, AuthTokens}
use awesome_go_auth.Platform.{Platform}
use awesome_go_auth.Service.{
  Config, World, Event, Action, Sender, Delivery, now, on_users, ask, or_error, refuse, require,
  publish, hash_token, random_token, deliver, send_with,
}
use awesome_go_auth.Service.Accounts.{is_ok, is_spent}
use awesome_go_auth.Service.Login.{login_success}
use awesome_go_auth.Service.Sessions.{issue_session}
use awesome_go_auth.UserStore.{
  normalize_email, get_user_by_email, get_user_by_id, mark_email_verified,
}
use awesome_go_auth.UserStore.Credentials.{
  update_magic_link_token, get_user_by_magic_link_token_hash, clear_magic_link_token,
  update_sms_code, get_user_by_sms_code_hash, clear_sms_code, update_email_verification_token,
  get_user_by_email_verification_token_hash, clear_email_verification_token,
  update_email_change_token, get_user_by_email_change_token_hash, clear_email_change_token,
  apply_email_change,
}

-- a byte of a text; an index out of range panics, and is not reached
module _ (p : Platform) where
  -- security.go, randomNumericCode, of a positive length
  unfoldable pub random_numeric_code : ℕ → Action String
  random_numeric_code zero w = (ok "", w)
  random_numeric_code (suc n) w =
      let drawn = record w { draws = w.draws + 1 } in
      let rest = random_numeric_code n drawn in
      elim (p.rand_int w.draws 10) [
        | none ↦ (err (external "auth: random code"), drawn)
        | some d ↦ then_run rest λ code w'. (ok (digit d ∷ code), w')
      ]

  -- resolveUser: by the id, or by the address when there is no id
  unfoldable pub resolve_user : String → String → String → World → Result User
  resolve_user user_id email tenant_id w =
      if not (trim_space user_id == "")
      then get_user_by_id (trim_space user_id) tenant_id w.users
      else if not (trim_space email == "")
      then get_user_by_email p.lower (normalize_email p.lower (trim_space email)) tenant_id w.users
      else err invalid_credentials

module _ (p : Platform) (c : Config) where
  -- SendMagicLink, for a user that was found
  unfoldable pub send_link_to : Sender → User → String → String → Action String
  send_link_to send user link_base lang = do
    magic_token ← random_token p 32
    t ← now
    let expires_at = t + c.magic_link_ttl
    on_users (update_magic_link_token user.id user.tenant_id (hash_token p magic_token) expires_at)
    rewrap (wrapped "auth: deliver magic link") (
        send_with send (record {
          channel = "magic-link";
          user_id = user.id;
          tenant_id = user.tenant_id;
          to = user.email;
          secret = magic_token;
          expires_at = expires_at;
          link_base = link_base;
          lang = lang;
        }))
    return magic_token

  -- SendMagicLink: what is not configured is said before the lookup, and an unknown address is silence
  unfoldable pub send_magic_link : String → String → String → String → Action String
  send_magic_link submitted tenant_id link_base lang w =
      if not c.stores.magic_link then (err feature_not_supported, w) else elim c.send_magic_link [
        | none ↦ (err email_not_configured, w)
        | some send ↦
            elim (get_user_by_email p.lower (normalize_email p.lower submitted) tenant_id w.users) [
              | err _ ↦ (ok "", w)
              | ok user ↦ send_link_to send user link_base lang w
            ]
      ]

  -- The end of a login that is not by password: the session, and its event.
  unfoldable pub complete_login : User → String → Action (User × AuthTokens)
  complete_login user method = do
    (tokens, session_id) ← issue_session p c user
    publish c (login_success user session_id method)
    return (user, tokens)

  -- the first login by a link verifies the address; a failing write is ignored
  unfoldable pub verify_by_link : Bool → User → Action User
  verify_by_link direct user w =
      if direct && not user.is_email_verified
      then (
        ok (record user { is_email_verified = true }),
        if c.stores.email_verification
            then (on_users (mark_email_verified user.id user.tenant_id true) w).1
            else w,
      )
      else (ok user, w)

  -- verifyMagicLink: the link is spent before its owner is compared
  unfoldable pub verify_magic_link : String → String → Action (User × AuthTokens)
  verify_magic_link token require_user_id = do
    require c.stores.magic_link feature_not_supported
    user ←
        ask λ w.
          or_error invalid_token (get_user_by_magic_link_token_hash (hash_token p token) w.users)
    t ← now
    refuse (is_spent c t user.magic_link_token_expires_at) invalid_token
    on_users (clear_magic_link_token user.id user.tenant_id)
    refuse (not (require_user_id == "") && not (user.id == require_user_id))
        magic_link_owner_mismatch
    verified ← verify_by_link (require_user_id == "") user
    complete_login verified "magic-link"

  -- SendSMSCode, for a user that was found and has a number
  unfoldable pub send_code_to : Sender → User → Action String
  send_code_to send user = do
    code ← random_numeric_code p 6
    t ← now
    let expires_at = t + c.sms_code_ttl
    on_users (update_sms_code user.id user.tenant_id (hash_token p code) expires_at)
    rewrap (wrapped "auth: deliver sms code") (
        send_with send (record {
          channel = "sms";
          user_id = user.id;
          tenant_id = user.tenant_id;
          to = user.phone_number;
          secret = code;
          expires_at = expires_at;
          link_base = "";
          lang = "";
        }))
    return code

  -- SendSMSCode
  unfoldable pub send_sms_code : String → String → String → Action String
  send_sms_code user_id email tenant_id w =
      if not c.stores.sms then (err feature_not_supported, w) else elim c.send_sms_code [
        | none ↦ (err sms_not_configured, w)
        | some send ↦ elim (resolve_user p user_id email tenant_id w) [
          | err _ ↦ (ok "", w)
          | ok user ↦ if user.phone_number == "" then (ok "", w) else send_code_to send user w
        ]
      ]

  -- VerifySMSCode
  unfoldable pub verify_sms_code : String → String → String → String → Action (User × AuthTokens)
  verify_sms_code user_id email tenant_id code = do
    require c.stores.sms feature_not_supported
    user ← ask (λ w. or_error invalid_credentials (resolve_user p user_id email tenant_id w))
    matched ← ask λ w.
        or_error invalid_code
          (get_user_by_sms_code_hash user.id user.tenant_id (hash_token p code) w.users)
    t ← now
    refuse (is_spent c t matched.sms_code_expires_at) invalid_code
    on_users (clear_sms_code matched.id matched.tenant_id)
    complete_login matched "sms"

  -- SendVerificationEmailToken: nothing to do for a verified address
  unfoldable pub send_verification_email_token : String → String → String → String → Action String
  send_verification_email_token user_id tenant_id link_base lang = do
    require c.stores.email_verification feature_not_supported
    user ← ask (λ w. or_error invalid_credentials (get_user_by_id user_id tenant_id w.users))
    if user.is_email_verified then return "" else (do
      token ← random_token p 32
      t ← now
      let expires_at = t + c.email_verification_ttl
      on_users
          (update_email_verification_token user.id user.tenant_id (hash_token p token) expires_at)
      deliver c.send_email_verification (record {
        channel = "email-verification";
        user_id = user.id;
        tenant_id = user.tenant_id;
        to = user.email;
        secret = token;
        expires_at = expires_at;
        link_base = link_base;
        lang = lang;
      })
      return token)

  -- VerifyEmail
  unfoldable pub verify_email : String → Action (Unit {0})
  verify_email token = do
    require c.stores.email_verification feature_not_supported
    user ← ask λ w.
        or_error invalid_token
          (get_user_by_email_verification_token_hash (hash_token p token) w.users)
    t ← now
    refuse (is_spent c t user.email_verification_token_expiry) invalid_token
    on_users (mark_email_verified user.id user.tenant_id true)
    on_users (clear_email_verification_token user.id user.tenant_id)
    publish c (record {
      name = "identity.user.email.verified";
      user_id = user.id;
      session_id = "";
      info = [];
    })

  -- RequestEmailChange: the mail goes to the new address
  unfoldable pub request_email_change : String → String → String → String → String → Action String
  request_email_change user_id tenant_id submitted link_base lang = do
    require c.stores.email_change feature_not_supported
    let new_email = normalize_email p.lower submitted
    taken ← ask (λ w. ok (is_ok (get_user_by_email p.lower new_email tenant_id w.users)))
    refuse taken user_exists
    user ← ask (λ w. or_error invalid_credentials (get_user_by_id user_id tenant_id w.users))
    token ← random_token p 32
    t ← now
    let expires_at = t + c.email_change_ttl
    on_users (
        update_email_change_token p.lower user.id user.tenant_id new_email (hash_token p token)
          expires_at)
    deliver c.send_email_change (record {
      channel = "email-change";
      user_id = user.id;
      tenant_id = user.tenant_id;
      to = new_email;
      secret = token;
      expires_at = expires_at;
      link_base = link_base;
      lang = lang;
    })
    return token

  -- ConfirmEmailChange: the notice goes to the old address, after the change
  unfoldable pub confirm_email_change : String → String → Action (Unit {0})
  confirm_email_change token lang = do
    require c.stores.email_change feature_not_supported
    user ← ask λ w.
        or_error invalid_token (get_user_by_email_change_token_hash (hash_token p token) w.users)
    t ← now
    refuse (is_spent c t user.email_change_token_expiry) invalid_token
    on_users (apply_email_change p.lower user.id user.tenant_id)
    on_users (clear_email_change_token user.id user.tenant_id)
    deliver c.send_email_changed (record {
      channel = "email-changed";
      user_id = user.id;
      tenant_id = user.tenant_id;
      to = user.email;
      secret = user.pending_email;
      expires_at = 0;
      link_base = "";
      lang = lang;
    })
    publish c (record {
      name = "identity.user.email.changed";
      user_id = user.id;
      session_id = "";
      info = ("oldEmail", user.email) ∷ ("newEmail", user.pending_email) ∷ [];
    })
