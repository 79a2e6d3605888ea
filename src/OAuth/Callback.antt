-- ===== src/OAuth/Callback.antt =====
-- oauth.go: the account that an identity of a provider signs in to, in the order of
-- HandleCallbackWithPolicy.
pub mod Laws
use awesome_go_auth.Base.{
  String, Bool, true, false, not, ◌||◌, Option, none, some, List, [], ◌∷◌, ◌==◌, if◌then◌else◌, ℕ,
}
use awesome_go_auth.Errors.{
  Error, Result, ok, err, M, ◌>>=◌, ◌>>◌, return, fail, then_run, wrapped, rewrap,
  invalid_credentials, oauth_account_conflict, oauth_user_not_provisioned,
}
use awesome_go_auth.LinkedAccounts.{
  OAuthLinkedAccount, MemoryLinkedAccounts, save_link, find_by_provider,
}
use awesome_go_auth.Models.{User, AuthTokens, zero_user}
use awesome_go_auth.OAuth.{
  OAuthUserInfo, OAuthProvisioning, ProfileMap, normalized, admit, email_verified_on_create,
  compile_user_field_map, apply_user_field_map, default_oauth_provisioning,
}
use awesome_go_auth.Platform.{Platform}
use awesome_go_auth.Service.{Config, World, Action, now, on_users, ask, lift, or_error, new_id}
use awesome_go_auth.Service.Sessions.{new_session_tokens}
use awesome_go_auth.UserStore.{get_user_by_id, get_user_by_email, create_user}

unfoldable pub on_links : {A : Type 0} → M MemoryLinkedAccounts A → Action A
on_links m w = let (r, s) = m w.links in (r, record w { links = s })

-- linkID, _ := newID("lnk")
unfoldable pub id_or_empty : Platform → Action String
id_or_empty p w =
    let (r, w') = new_id p "lnk" w in elim r [ ok id ↦ (ok id, w') | err _ ↦ (ok "", w') ]

unfoldable pub link_of : OAuthUserInfo → String → String → ℕ → OAuthLinkedAccount
link_of info id user_id t = record {
  id = id;
  user_id = user_id;
  provider = info.provider;
  provider_id = info.provider_id;
  email = info.email;
  name = "";
  picture = "";
  created_at = t;
}

-- the draft of a new account
unfoldable pub drafted : OAuthUserInfo → String → String → ℕ → User
drafted info user_id tenant_id t = record zero_user {
  id = user_id;
  email = info.email;
  tenant_id = tenant_id;
  login_provider = info.provider;
  is_email_verified = email_verified_on_create info;
  created_at = t;
  updated_at = t;
}

module _ (p : Platform) (c : Config) (info : OAuthUserInfo) (tenant_id : String) where
  -- tokens for the user, who is handed back with them
  unfoldable pub sign_in : User → Action (User × AuthTokens)
  sign_in user = do tokens ← new_session_tokens p c user; return (user, tokens)

  unfoldable pub sign_in_by_id : String → Action (User × AuthTokens)
  sign_in_by_id user_id = do
    user ← ask (λ w. or_error invalid_credentials (get_user_by_id user_id tenant_id w.users))
    sign_in user

  -- linkToUserID != ""
  unfoldable pub link_to_user : String → Action (User × AuthTokens)
  link_to_user user_id = do
    link_id ← new_id p "lnk"
    t ← now
    rewrap (wrapped "auth: link account") (on_links (save_link (link_of info link_id user_id t)))
    sign_in_by_id user_id

  -- the link of a user who was found or made, whose errors are not looked at
  unfoldable pub link_found : User → Action (User × AuthTokens)
  link_found user = do
    link_id ← id_or_empty p
    t ← now
    on_links (save_link (link_of info link_id user.id t))
    sign_in user

  -- an account holds the address: the policy decides
  unfoldable pub match_email : OAuthProvisioning → User → Action (User × AuthTokens)
  match_email policy user =
      if policy.on_email_match == "conflict"
      then fail (oauth_account_conflict info.provider info.email info.provider_id)
      else if policy.on_email_match == "reject"
      then fail oauth_user_not_provisioned
      else link_found user

  unfoldable pub create_account : ProfileMap → OAuthProvisioning → Action (User × AuthTokens)
  create_account q policy = if not policy.auto_create then fail oauth_user_not_provisioned else (do
    setters ← lift (compile_user_field_map q policy.field_map)
    user_id ← new_id p "usr"
    t ← now
    draft ← lift (apply_user_field_map q setters info.raw (drafted info user_id tenant_id t))
    new_user ← rewrap (wrapped "auth: create oauth user") (on_users (create_user p.lower draft))
    link_found new_user)

  -- user, err := authSvc.users.GetUserByEmail(…), where there is an address
  unfoldable pub holder : World → Option User
  holder w =
      if info.email == ""
      then none
      else elim (get_user_by_email p.lower info.email tenant_id w.users) [
        | err _ ↦ none
        | ok user ↦ some user
      ]

  unfoldable pub by_email_or_new : ProfileMap → OAuthProvisioning → Action (User × AuthTokens)
  by_email_or_new q policy w = elim (holder w) [
    | some user ↦ match_email policy user w
    | none ↦ create_account q policy w
  ]

  -- HandleCallbackWithPolicy
  unfoldable pub handle_callback_with_policy :
      ProfileMap → String → OAuthProvisioning → Action (User × AuthTokens)
  handle_callback_with_policy q link_to_user_id policy w =
      elim (admit p.lower (normalized policy) info) [
        | err e ↦ (err e, w)
        | ok _ ↦
            if not (link_to_user_id == "")
            then link_to_user link_to_user_id w
            else elim (find_by_provider info.provider info.provider_id w.links) [
              | ok link ↦ sign_in_by_id link.user_id w
              | err _ ↦ by_email_or_new q (normalized policy) w
            ]
      ]

  -- HandleCallback
  unfoldable pub handle_callback : ProfileMap → String → Action (User × AuthTokens)
  handle_callback q link_to_user_id =
      handle_callback_with_policy q link_to_user_id default_oauth_provisioning
