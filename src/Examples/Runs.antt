-- ===== src/Examples/Runs.antt =====
-- Runs of the service on the toy platform, from a world with one user.
use awesome_go_auth.Base.{
  ℕ, String, ◌≡◌, ◌≢◌, refl, true, false, none, some, [], arith, eq_iff, ◌==◌, inl, ◌≤◌, ◌<◌, ◌^◌,
  ◌+◌, ◌*◌, ◌/◌,
}
use awesome_go_auth.ApiKeys.{new_memory_api_key_store}
use awesome_go_auth.Webhooks.{new_memory_webhook_store}
use awesome_go_auth.AuthCodes.{new_memory_auth_code_store}
use awesome_go_auth.LinkedAccounts.{new_memory_linked_accounts}
use awesome_go_auth.Base.Dict.{empty, get, put}
use awesome_go_auth.Errors.{Result, ok, err, session_not_found, session_revoked, invalid_token}
use awesome_go_auth.Models.{str, User, Session, AuthTokens, zero_user}
use awesome_go_auth.Service.{
  Config, World, Capabilities, on_users, on_sessions, draw, new_id, hash_token, publish,
}
use awesome_go_auth.Service.Tokens.{
  second, issue_token, parse_token, split_token, split_dots, base_claims, user_claims, reserve,
  build_hs256_jwt, sign, read_parts, check_claims,
}
use awesome_go_auth.Service.Tokens.RoundTrip.{
  minted, parse_token-issue_token, parse_token-issue_token_refused,
}
use awesome_go_auth.Base.Strings.{trim_space}
use awesome_go_auth.Service.Sessions.Refresh.{Accepted, refresh-refresh}
use awesome_go_auth.Service.Sessions.Logout.{logout-refresh}
use awesome_go_auth.Service.Sessions.Issue.{refreshed-issue_session, authenticate-issue_session}
use awesome_go_auth.Service.Login.{zero_tokens}
use awesome_go_auth.Platform.{TokenClaims, plain_name, plain_claims}
use awesome_go_auth.Service.Sessions.{
  issue_session, refresh, refreshed, rotate, logout, authenticate, enrich_from_stores,
}
use awesome_go_auth.SessionStore.{
  new_memory_session_store, create_session, update_session, get_session_by_refresh_token_hash,
  move_hash,
}
use awesome_go_auth.SessionStore.Invariant.{IsIndexed, IsIndexed-new, create_session-IsIndexed}
use awesome_go_auth.UserStore.{
  new_memory_user_store, create_user, get_user_by_id, owned, user_email_key, normalize_email,
}
use awesome_go_auth.Examples.Lawful.{toy, toy-IsLawful}

abbrev every_store : Capabilities
every_store = record {
  password = true;
  magic_link = true;
  sms = true;
  totp = true;
  email_verification = true;
  email_change = true;
  account = true;
  phone = true;
  session_lookup = true;
  session_admin = true;
  user_admin = true;
  two_factor_policy = true;
  admin_flag = true;
}

abbrev pub config : Config
config = record {
  secret = "s";
  issuer = "i";
  access_token_ttl = 1000000000;
  refresh_token_ttl = 2000000000;
  session_check_on = "allcalls";
  clock_skew = 5;
  min_password_len = 3;
  bcrypt_cost = 0;
  reset_token_ttl = 10;
  magic_link_ttl = 10;
  sms_code_ttl = 10;
  email_verification_ttl = 10;
  email_verification_mode = "";
  email_change_ttl = 10;
  temp_token_ttl = 10;
  require_2fa = false;
  build_token_claims = none;
  password_verifier = none;
  send_magic_link = none;
  send_sms_code = none;
  send_password_reset = none;
  send_email_verification = none;
  send_email_change = none;
  send_email_changed = none;
  events = true;
  stores = every_store;
}

abbrev pub ada : User
ada = record zero_user {
  id = "u";
  email = "a@b";
  tenant_id = "t";
  password_hash = "pass";
  is_email_verified = true;
}

unfoldable pub start : World
unfolding new_memory_user_store create_user new_memory_session_store user_email_key normalize_email
    new_memory_api_key_store new_memory_webhook_store new_memory_linked_accounts
    new_memory_auth_code_store
start = record {
  users = (create_user toy.lower ada new_memory_user_store).1;
  sessions = new_memory_session_store;
  rbac = none;
  metadata = none;
  tenants = none;
  api_keys = new_memory_api_key_store;
  webhooks = new_memory_webhook_store;
  links = new_memory_linked_accounts;
  codes = new_memory_auth_code_store;
  clock = 0;
  draws = 0;
  events = [];
  outbox = [];
}

abbrev signed_in : Result (AuthTokens × String) × World
signed_in = issue_session toy config ada start

abbrev pub tokens_of : Result (AuthTokens × String) → AuthTokens × String
tokens_of (ok t) = t
tokens_of (err e) = (zero_tokens, "")

-- the tokens, the session and the world of the first login
abbrev pub tokens : AuthTokens
tokens = (tokens_of signed_in.0).0

abbrev pub sid : String
sid = (tokens_of signed_in.0).1

abbrev pub entered : World
entered = signed_in.1

pub signed_in_lem : signed_in ≡ (ok (tokens, sid), entered)
unfolding toy new_id draw issue_token user_claims base_claims reserve build_hs256_jwt sign
    on_sessions on_users hash_token get put empty issue_session create_session start
signed_in_lem = refl

pub ada_claims : user_claims config ada ≡ ok (base_claims ada)
unfolding user_claims
ada_claims = refl

pub ada_subject : get (base_claims ada) "sub" ≡ some (str "u")
unfolding base_claims get put empty
ada_subject = refl

-- no claim of the user folds to one of the session's
pub ada_plain : plain_claims toy.fold (base_claims ada).entries ≡ true
unfolding toy plain_claims plain_name base_claims put empty
ada_plain = refl

refresh_fits : (start.clock + 2000000000) / second < 2 ^ 63
unfolding start
refresh_fits = omega arith

access_fits : (start.clock + 1000000000) / second < 2 ^ 63
unfolding start
access_fits = omega arith

pub ada_found : get_user_by_id "u" "t" start.users ≡ ok ada
unfolding start get_user_by_id owned create_user new_memory_user_store get put empty
ada_found = refl

early_refresh : 1 ≤ (start.clock + 2000000000) / second * second + 5
unfolding start
early_refresh = omega arith

refreshed-issue_session_example :
    (read : TokenClaims) × (session : Session) × (refreshed toy config tokens.refresh_token
        (record entered { clock = 1 })
      ≡ (ok (read, session, ada), record entered { clock = 1 }))
    × (session.id ≡ sid)
    × (session.user_id ≡ "u")
refreshed-issue_session_example =
    refreshed-issue_session toy toy-IsLawful config ada start entered tokens sid (base_claims ada)
      ada_claims ada_subject ada_plain signed_in_lem ada ada_found 1 refresh_fits early_refresh

apart : (a b : String) → (a == b) ≡ false → a ≢ b
apart a b h = ground (arith, eq_iff a b)

marked : trim_space sid ≢ ""
unfolding toy new_id draw issue_token user_claims base_claims reserve build_hs256_jwt sign
    on_sessions on_users hash_token get put empty issue_session create_session start trim_space
marked = apart "ses_" "" refl

in_session : 1 ≤ (start.clock + 1000000000) / second * second + 5
unfolding start
in_session = omega arith

session_lives : 1 ≤ start.clock + 2000000000 + 5
unfolding start
session_lives = omega arith

authenticate-issue_session_example :
    authenticate toy config tokens.access_token (record entered { clock = 1 })
    ≡ (ok (enrich_from_stores ada (record entered { clock = 1 })), record entered { clock = 1 })
authenticate-issue_session_example =
    authenticate-issue_session toy toy-IsLawful config ada start entered tokens sid
      (base_claims ada) ada_claims ada_subject ada_plain signed_in_lem ada ada_found 1 refl marked
      access_fits in_session session_lives

entered-IsIndexed : IsIndexed entered.sessions
unfolding toy new_id draw issue_token user_claims base_claims reserve build_hs256_jwt sign
    on_sessions on_users hash_token get put empty issue_session create_session start
    new_memory_session_store
entered-IsIndexed = create_session-IsIndexed IsIndexed-new _ refl refl

-- a refresh of the first session's token
abbrev rotated : Result AuthTokens × World
rotated = refresh toy config tokens.refresh_token entered

abbrev tokens_or_zero : Result AuthTokens → AuthTokens
tokens_or_zero (ok t) = t
tokens_or_zero (err e) = zero_tokens

rotated_lem : rotated ≡ (ok (tokens_or_zero rotated.0), rotated.1)
unfolding toy new_id draw issue_token user_claims base_claims reserve build_hs256_jwt sign
    on_sessions on_users hash_token get put empty issue_session start refresh refreshed rotate
    publish parse_token split_token split_dots read_parts check_claims
    get_session_by_refresh_token_hash update_session move_hash create_session get_user_by_id owned
    create_user new_memory_user_store new_memory_session_store
rotated_lem = refl

other_hash :
    hash_token toy (tokens_or_zero rotated.0).refresh_token ≢ hash_token toy tokens.refresh_token
unfolding toy new_id draw issue_token user_claims base_claims reserve build_hs256_jwt sign
    on_sessions on_users hash_token get put empty issue_session start refresh refreshed rotate
    publish parse_token split_token split_dots read_parts check_claims
    get_session_by_refresh_token_hash update_session move_hash create_session get_user_by_id owned
    create_user new_memory_user_store new_memory_session_store
other_hash = apart _ _ refl

refresh-refresh_example :
    ((refresh toy config tokens.refresh_token rotated.1).0 ≡ err session_not_found)
    × (claims : TokenClaims) × (session : Session) × (user : User) × Accepted toy config
        tokens.refresh_token entered claims session user
    × (moved : Session) × (get_session_by_refresh_token_hash
          (hash_token toy (tokens_or_zero rotated.0).refresh_token)
          rotated.1.sessions
        ≡ ok moved)
    × (moved.id ≡ session.id)
    × (moved.user_id ≡ session.user_id)
    × (moved.revoked_at ≡ none)
refresh-refresh_example =
    refresh-refresh toy config tokens.refresh_token entered rotated.1 (tokens_or_zero rotated.0)
      entered-IsIndexed other_hash rotated_lem

logged_out :
    logout toy config tokens.refresh_token entered
    ≡ (ok tt, (logout toy config tokens.refresh_token entered).1)
unfolding toy new_id draw issue_token user_claims base_claims reserve build_hs256_jwt sign
    on_sessions on_users hash_token get put empty issue_session start logout publish parse_token
    split_token split_dots read_parts check_claims get_session_by_refresh_token_hash update_session
    move_hash create_session get_user_by_id owned create_user new_memory_user_store
    new_memory_session_store
logged_out = refl

logout-refresh_example :
    ((refresh toy config tokens.refresh_token (logout toy config tokens.refresh_token entered).1).0
      ≡ err session_revoked)
    × IsIndexed (logout toy config tokens.refresh_token entered).1.sessions
logout-refresh_example =
    logout-refresh toy config tokens.refresh_token entered
      (logout toy config tokens.refresh_token entered).1 entered-IsIndexed logged_out

-- a refresh token by itself
abbrev one_token : Result (String × ℕ) × World
one_token = issue_token toy config ada "s" "refresh" 2000000000 start

abbrev token_of : Result (String × ℕ) → String
token_of (ok (t, exp)) = t
token_of (err e) = ""

one_token_lem : one_token ≡ (ok (token_of one_token.0, 2000000000), one_token.1)
unfolding toy new_id draw issue_token user_claims base_claims reserve build_hs256_jwt sign get put
    empty start
one_token_lem = refl

parse_token-issue_token_example :
    (jti : String) × (parse_token toy config (token_of one_token.0) "refresh" 1
      ≡ ok (
          minted toy toy-IsLawful config ada "s" "refresh" jti start.clock
            (start.clock + 2000000000)))
parse_token-issue_token_example =
    parse_token-issue_token toy toy-IsLawful config ada "s" "refresh" 2000000000 start one_token.1
      (base_claims ada) (token_of one_token.0) 2000000000 1 ada_claims ada_subject ada_plain
      refresh_fits one_token_lem early_refresh

parse_token-issue_token_refused_example :
    parse_token toy config (token_of one_token.0) "access" 1 ≡ err invalid_token
parse_token-issue_token_refused_example =
    parse_token-issue_token_refused toy toy-IsLawful config ada "s" "refresh" "access" 2000000000
      start one_token.1 (base_claims ada) (token_of one_token.0) 2000000000 1 ada_claims ada_subject
      ada_plain refresh_fits one_token_lem (inl (apart "refresh" "access" refl))
