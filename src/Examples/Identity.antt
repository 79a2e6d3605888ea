-- ===== src/Examples/Identity.antt =====
-- Accounts of a provider and authorisation codes: links, domains, a conflict and a redeemed code.
use awesome_go_auth.Base.{
  ℕ, String, Bool, ◌≡◌, ◌≢◌, ◌↔◌, refl, true, false, none, some, Option, List, [], ◌∷◌, ◌==◌, ◌&&◌,
  if◌then◌else◌, In, inr,
}
use awesome_go_auth.Base.Dict.{Dict, get, put, empty}
use awesome_go_auth.AuthCodes.{AuthCode, new_memory_auth_code_store, save_code, consume_code}
use awesome_go_auth.Errors.{Result, ok, err, external}
use awesome_go_auth.Idp.{Idp, IdpClient, Response, refused, issued, Values, handle_token}
use awesome_go_auth.Idp.Redemption.{handle_token-handle_token}
use awesome_go_auth.LinkedAccounts.{
  OAuthLinkedAccount, MemoryLinkedAccounts, new_memory_linked_accounts, save_link, delete_link,
  find_by_provider,
}
use awesome_go_auth.LinkedAccounts.Laws.{find_by_provider-delete_link}
use awesome_go_auth.Models.{AuthTokens}
use awesome_go_auth.OAuth.{OAuthUserInfo, OAuthProvisioning, ProfileMap}
use awesome_go_auth.Service.{World, hash_token}
use awesome_go_auth.Service.Login.{zero_tokens}
use awesome_go_auth.UserStore.{new_memory_user_store, create_user, user_email_key, normalize_email}
use awesome_go_auth.Examples.Lawful.{toy}
use awesome_go_auth.Examples.Runs.{start, config}

abbrev link : OAuthLinkedAccount
link = record {
  id = "l";
  user_id = "u";
  provider = "g";
  provider_id = "1";
  email = "a@b";
  name = "";
  picture = "";
  created_at = 0;
}

abbrev links : MemoryLinkedAccounts
links = (save_link link new_memory_linked_accounts).1

link_there : get links.by_id "l" ≡ some link
unfolding save_link get put empty new_memory_linked_accounts
link_there = refl

find_by_provider-delete_link_example : find_by_provider "g" "1" (delete_link "l" links).1 ≡ (
    if ("g" == "g") && ("1" == "1")
    then err (external "auth: linked account not found")
    else find_by_provider "g" "1" links)
find_by_provider-delete_link_example =
    find_by_provider-delete_link links "g" "1" "l" link link_there

abbrev no_map : ProfileMap
no_map = record {
  compile_profile_expr = λ e. err (external e);
  profile_string = λ v. err (external "");
}

abbrev info : OAuthUserInfo
info = record {
  provider_id = "1";
  provider = "g";
  email = "a@b";
  name = "";
  avatar_url = "";
  email_verified = none;
  raw = empty;
}

abbrev conflicting : OAuthProvisioning
conflicting = record {
  auto_create = true;
  allowed_email_domains = [];
  require_verified_email = false;
  on_email_match = "conflict";
  field_map = [];
}

abbrev app : IdpClient
app = record { client_id = "app"; client_secret = "k"; redirect_uris = "r" ∷ []; name = "n" }

abbrev idp : Idp
idp = record {
  issuer = "i";
  code_ttl = 60;
  id_token_ttl = 60;
  clients = put empty "app" app;
  build_rs256_jwt = λ d. some "jwt";
  parses = λ s. true;
}

abbrev code : AuthCode
code = record {
  code_hash = "c";
  user_id = "u";
  tenant_id = "t";
  client_id = "app";
  nonce = "";
  redirect_uri = "r";
  code_challenge = "";
  code_challenge_method = "";
  scope = "";
  expires_at = 60;
}

abbrev coded : World
coded = record start { codes = (save_code 0 code new_memory_auth_code_store).1 }

abbrev form : Values
form name =
    if name == "grant_type"
    then "authorization_code"
    else if name == "code"
    then "c"
    else if name == "client_id"
    then "app"
    else if name == "client_secret"
    then "k"
    else ""

abbrev redeemed : Result Response × World
redeemed = handle_token toy config idp (some form) coded

abbrev tokens_of : Result Response → AuthTokens × String
tokens_of (ok (issued tokens id_token)) = (tokens, id_token)
tokens_of _ = (zero_tokens, "")

redeemed_lem :
    redeemed ≡ (ok (issued (tokens_of redeemed.0).0 (tokens_of redeemed.0).1), redeemed.1)
unfolding handle_token awesome_go_auth.Idp.knows_client awesome_go_auth.Idp.or_answer
    awesome_go_auth.Idp.on_codes awesome_go_auth.Idp.tokens_for awesome_go_auth.Idp.build_id_token
    get put empty consume_code save_code hash_token toy start
    awesome_go_auth.UserStore.get_user_by_id awesome_go_auth.UserStore.owned create_user
    new_memory_user_store awesome_go_auth.Service.Sessions.new_session_tokens
    awesome_go_auth.Service.Sessions.issue_session awesome_go_auth.Service.new_id
    awesome_go_auth.Service.draw awesome_go_auth.Service.on_sessions new_memory_auth_code_store
    awesome_go_auth.AuthCodes.prune awesome_go_auth.Base.Dict.remove
    awesome_go_auth.SessionStore.create_session awesome_go_auth.Service.Tokens.base_claims
    awesome_go_auth.Service.Tokens.build_hs256_jwt awesome_go_auth.Service.Tokens.issue_token
    awesome_go_auth.Service.Tokens.reserve awesome_go_auth.Service.Tokens.sign
    awesome_go_auth.Service.Tokens.spread awesome_go_auth.Service.Tokens.user_claims
redeemed_lem = refl

handle_token-handle_token_example :
    handle_token toy config idp (some form) (record redeemed.1 { clock = 1 })
    ≢ (ok (issued zero_tokens ""), start)
handle_token-handle_token_example =
    handle_token-handle_token toy config idp form form (tokens_of redeemed.0).0 zero_tokens
      (tokens_of redeemed.0).1 "" 1 coded redeemed.1 start redeemed_lem refl
