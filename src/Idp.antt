-- ===== src/Idp.antt =====
-- idp.go: the authorization and the token endpoint of the identity provider, from the parameters of a
-- request to what is answered. The signer and the parsing of addresses are outside.
pub mod Redemption
use awesome_go_auth.Base.{
  ℕ, ◌+◌, ◌/◌, String, Bool, true, false, not, ◌||◌, Option, none, some, List, [], ◌∷◌, ◌==◌, eqb,
  ltb, if◌then◌else◌,
}
use awesome_go_auth.AuthCodes.{AuthCode, MemoryAuthCodeStore, save_code, consume_code}
use awesome_go_auth.Base.Dict.{Dict, empty, get, put}
use awesome_go_auth.Errors.{
  Error, Result, ok, err, M, ◌>>=◌, ◌>>◌, return, fail, then_run, external,
}
use awesome_go_auth.Models.{Any, str, int, User, AuthTokens}
use awesome_go_auth.Platform.{Platform}
use awesome_go_auth.Service.{Config, World, Action, now, ask, random_token, hash_token}
use awesome_go_auth.Service.Login.{LoginInput, login}
use awesome_go_auth.Service.Sessions.{new_session_tokens}
use awesome_go_auth.UserStore.{get_user_by_id}

pub record IdpClient : Type 0 where
  pub client_id : String
  pub client_secret : String
  pub redirect_uris : List String
  pub name : String

pub record Idp : Type 0 where
  pub issuer : String
  pub code_ttl : ℕ
  pub id_token_ttl : ℕ
  pub clients : Dict IdpClient
  -- BuildRS256JWT with the signer and the key's id; `none` is an error
  pub build_rs256_jwt : Dict Any → Option String
  -- whether url.Parse reads an address
  pub parses : String → Bool

-- What is answered: an error with its status, the form, a redirect with its code and state, or tokens
-- and the identity token.
pub data Response : Type 0 where
  refused : ℕ → String → Response
  login_form : Response
  redirect : String → String → String → Response
  issued : AuthTokens → String → Response

-- The parameters of a request, by name.
abbrev pub Values : Type 0
Values = String → String

unfoldable pub on_codes : {A : Type 0} → M MemoryAuthCodeStore A → Action A
on_codes m w = let (r, s) = m w.codes in (r, record w { codes = s })

-- A step of a handler: on an error, the answer is another.
unfoldable pub or_answer :
    {A : Type 0} → Response → Action A → (A → Action Response) → Action Response
or_answer answer m next w =
    let (r, w') = m w in elim r [ err _ ↦ (ok answer, w') | ok a ↦ next a w' ]

-- codeTTL
unfoldable pub code_ttl : Idp → ℕ
code_ttl idp = if eqb idp.code_ttl 0 then 300000000000 else idp.code_ttl

-- idpMatchedRedirect
unfoldable pub matched_redirect : List String → String → String
matched_redirect [] requested = ""
matched_redirect (u ∷ us) requested = if u == requested then u else matched_redirect us requested

module _ (p : Platform) (c : Config) (idp : Idp) where
  -- buildIDToken, at a time
  unfoldable pub build_id_token : User → String → String → ℕ → Result String
  build_id_token user audience nonce t =
      let ttl = if eqb idp.id_token_ttl 0 then 3600000000000 else idp.id_token_ttl in
      let claims =
        put
          (put
            (put
              (put (put (put empty "iss" (str idp.issuer)) "sub" (str user.id)) "aud"
                (str audience))
              "iat" (int (t / 1000000000)))
            "exp" (int ((t + ttl) / 1000000000)))
          "email" (str user.email) in
      let with_nonce = if nonce == "" then claims else put claims "nonce" (str nonce) in
      elim (idp.build_rs256_jwt with_nonce) [
        | none ↦ err (external "rs256")
        | some token ↦ ok token
      ]

  -- the code that is kept for a user who signed in: its hash, and what the request said
  unfoldable pub kept_code : Values → String → String → String → User → ℕ → AuthCode
  kept_code query client_id redirect_uri code user t = record {
    code_hash = hash_token p code;
    user_id = user.id;
    tenant_id = user.tenant_id;
    client_id = client_id;
    nonce = query "nonce";
    redirect_uri = redirect_uri;
    code_challenge = query "code_challenge";
    code_challenge_method = query "code_challenge_method";
    scope = query "scope";
    expires_at = t + code_ttl idp;
  }

  -- the POST of the form, with its values where it parses
  unfoldable pub sign_in_form : Values → String → Option Values → Action Response
  sign_in_form query redirect_uri none = return (refused 400 "bad request")
  sign_in_form query redirect_uri (some form) =
      or_answer (refused 401 "invalid credentials")
        (login p c (record {
          email = form "email";
          password = form "password";
          tenant_id = form "tenant_id";
        }))
        λ (user, _). or_answer (refused 500 "internal error") (random_token p 24) λ code. do
          t ← now
          on_codes (save_code t (kept_code query (query "client_id") redirect_uri code user t))
          if idp.parses redirect_uri
              then return (redirect redirect_uri code (query "state"))
              else return (refused 500 "internal error")

  -- handleAuthorize; `posted` tells a POST from the other methods
  unfoldable pub handle_authorize : Bool → Values → Option Values → Action Response
  handle_authorize posted query form = elim (get idp.clients (query "client_id")) [
    | none ↦ return (refused 400 "unknown client")
    | some client ↦
        let redirect_uri = matched_redirect client.redirect_uris (query "redirect_uri") in
        if redirect_uri == ""
        then return (refused 400 "redirect_uri not allowed")
        else if posted
        then sign_in_form query redirect_uri form
        else return login_form
  ]

  -- client.ClientSecret != clientSecret, and an unknown client
  unfoldable pub knows_client : String → String → Bool
  knows_client client_id client_secret = elim (get idp.clients client_id) [
    | none ↦ false
    | some client ↦ client.client_secret == client_secret
  ]

  -- what follows the redemption of a code
  unfoldable pub tokens_for : String → AuthCode → Action Response
  tokens_for client_id meta =
      or_answer (refused 500 "server_error")
        (ask (λ w. get_user_by_id meta.user_id meta.tenant_id w.users))
        λ user. or_answer (refused 500 "server_error") (new_session_tokens p c user) λ tokens w.
          elim (build_id_token user client_id meta.nonce w.clock) [
            | err _ ↦ (ok (refused 500 "server_error"), w)
            | ok id_token ↦ (ok (issued tokens id_token), w)
          ]

  -- handleToken
  unfoldable pub handle_token : Option Values → Action Response
  handle_token none = return (refused 400 "bad request")
  handle_token (some form) =
      if not (form "grant_type" == "authorization_code")
      then return (refused 400 "unsupported_grant_type")
      else if not (knows_client (form "client_id") (form "client_secret"))
      then return (refused 401 "invalid_client")
      else (λ w.
          or_answer (refused 400 "invalid_grant")
            (on_codes (consume_code w.clock (hash_token p (form "code"))))
            (λ meta.
              if ltb meta.expires_at w.clock || not (meta.client_id == form "client_id")
              then return (refused 400 "invalid_grant")
              else tokens_for (form "client_id") meta)
            w)
