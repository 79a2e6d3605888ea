-- ===== src/Service/Sessions.antt =====
-- service.go: issuing a session, Refresh, Logout, and what a request with an access token is checked
-- against.
pub mod Refresh
pub mod Logout
pub mod Issue
use awesome_go_auth.Base.{
  ℕ, ◌+◌, String, Bool, ◌||◌, not, none, some, List, [], ◌∷◌, ◌==◌, ltb, if◌then◌else◌, is_some,
}
use awesome_go_auth.Base.Strings.{trim_space}
use awesome_go_auth.Errors.{
  Result, ok, err, ◌>>=◌, ◌>>◌, return, invalid_token, session_not_found, session_revoked,
}
use awesome_go_auth.Metadata.{get_metadata}
use awesome_go_auth.Models.{User, Session, AuthTokens}
use awesome_go_auth.Platform.{Platform, TokenClaims}
use awesome_go_auth.Roles.{get_roles_for_user, get_permissions_for_user}
use awesome_go_auth.Service.{
  Config, World, Action, now, on_sessions, ask, lift, or_error, refuse, new_id, hash_token, mode_of,
  publish,
}
use awesome_go_auth.Service.Tokens.{issue_token, parse_token}
use awesome_go_auth.SessionStore.{
  MemorySessionStore, create_session, get_session_by_id, get_session_by_refresh_token_hash,
  update_session, list_sessions_for_user,
}
use awesome_go_auth.Tenants.{get_tenants_for_user}
use awesome_go_auth.UserStore.{get_user_by_id}

-- s.now().After(t.Add(s.cfg.ClockSkew))
abbrev pub is_past : Config → ℕ → ℕ → Bool
is_past c t expiry = ltb (expiry + c.clock_skew) t

-- validateSessionState
unfoldable pub validate_session_state : Config → ℕ → Session → TokenClaims → Result (Unit {0})
validate_session_state c t session claims =
    if not (session.id == claims.sid)
    then err invalid_token
    else if not (session.user_id == claims.sub)
    then err invalid_token
    else if not (session.tenant_id == claims.tid)
    then err invalid_token
    else if is_some session.revoked_at
    then err session_revoked
    else if is_past c t session.expires_at
    then err invalid_token
    else ok tt

-- the loop of validateSessionForAccess over the user's sessions
unfoldable pub validate_listed : Config → ℕ → List Session → TokenClaims → Result (Unit {0})
validate_listed c t [] claims = err session_not_found
validate_listed c t (session ∷ sessions) claims =
    let rest = validate_listed c t sessions claims in
    if session.id == claims.sid then validate_session_state c t session claims else rest

-- enrichFromStores: the reads of the optional stores, which cannot fail in memory
unfoldable pub enrich_from_stores : User → World → User
enrich_from_stores u w =
    let u1 : User = elim w.metadata [
      | none ↦ u
      | some m ↦ record u { metadata = get_metadata u.id m }
    ] in
    let u2 : User = elim w.rbac [
      | none ↦ u1
      | some r ↦ record u1 {
        roles = get_roles_for_user u1.id u1.tenant_id r;
        permissions = get_permissions_for_user u1.id u1.tenant_id r;
      }
    ] in
    elim w.tenants [ none ↦ u2 | some ts ↦ record u2 { tenants = get_tenants_for_user u2.id ts } ]

-- enrichCustomClaims
unfoldable pub enrich_custom_claims : Config → User → User
enrich_custom_claims c u = elim c.build_token_claims [
  | none ↦ u
  | some hook ↦ elim (hook u) [ err _ ↦ u | ok claims ↦ record u { custom_claims = claims } ]
]

module _ (p : Platform) (c : Config) where
  -- validateSessionForAccess
  unfoldable pub validate_session_for_access :
      ℕ → TokenClaims → MemorySessionStore → Result (Unit {0})
  validate_session_for_access t claims s =
      let configured = mode_of p c.session_check_on in
      let mode = if configured == "" then "refresh" else configured in
      if not (mode == "allcalls")
      then ok tt
      else if trim_space claims.sid == ""
      then err invalid_token
      else if c.stores.session_lookup
      then elim (get_session_by_id claims.sid s) [
        | err _ ↦ err session_not_found
        | ok session ↦ validate_session_state c t session claims
      ]
      else if c.stores.session_admin
      then validate_listed c t (list_sessions_for_user claims.sub claims.tid s) claims
      else ok tt

  -- Authenticate
  unfoldable pub authenticate : String → Action User
  authenticate access_token = do
    t ← now
    claims ← lift (parse_token p c access_token "access" t)
    ask (λ w. validate_session_for_access t claims w.sessions)
    user ← ask (λ w. or_error invalid_token (get_user_by_id claims.sub claims.tid w.users))
    ask (λ w. ok (enrich_from_stores user w))

  -- Me
  unfoldable pub me : String → Action User
  me access_token = do user ← authenticate access_token; return (enrich_custom_claims c user)

  -- issueSession
  unfoldable pub issue_session : User → Action (AuthTokens × String)
  issue_session user = do
    session_id ← new_id p "ses"
    (refresh_token, refresh_exp) ← issue_token p c user session_id "refresh" c.refresh_token_ttl
    (access_token, _) ← issue_token p c user session_id "access" c.access_token_ttl
    t ← now
    _ ← on_sessions (
        create_session (record {
          id = session_id;
          user_id = user.id;
          tenant_id = user.tenant_id;
          refresh_token_hash = hash_token p refresh_token;
          created_at = t;
          expires_at = refresh_exp;
          revoked_at = none;
        }))
    let tokens : AuthTokens = record {
      access_token = access_token;
      refresh_token = refresh_token;
      expires_in = c.access_token_ttl;
    }
    return (tokens, session_id)

  -- newSessionTokens
  unfoldable pub new_session_tokens : User → Action AuthTokens
  new_session_tokens user = do (tokens, _) ← issue_session user; return tokens

  -- The part of Refresh that decides: the session and the user that a refresh token stands for.
  unfoldable pub refreshed : String → Action (TokenClaims × Session × User)
  refreshed refresh_token = do
    t ← now
    claims ← lift (parse_token p c refresh_token "refresh" t)
    session ← ask λ w.
        or_error session_not_found
          (get_session_by_refresh_token_hash (hash_token p refresh_token) w.sessions)
    refuse (is_some session.revoked_at) session_revoked
    refuse (is_past c t session.expires_at) invalid_token
    refuse (not (session.id == claims.sid) || not (session.user_id == claims.sub)) invalid_token
    user ← ask (λ w. or_error invalid_token (get_user_by_id claims.sub claims.tid w.users))
    return (claims, session, user)

  -- The part of Refresh that rotates: new tokens, the session moved to the new one.
  unfoldable pub rotate : TokenClaims → Session → User → Action AuthTokens
  rotate claims session user = do
    (new_refresh, refresh_exp) ← issue_token p c user session.id "refresh" c.refresh_token_ttl
    (new_access, _) ← issue_token p c user session.id "access" c.access_token_ttl
    on_sessions (
        update_session (record session {
          refresh_token_hash = hash_token p new_refresh;
          expires_at = refresh_exp;
        }))
    publish c (record {
      name = "identity.session.rotated";
      user_id = user.id;
      session_id = session.id;
      info = ("previousSessionId", claims.sid) ∷ [];
    })
    return (record {
      access_token = new_access;
      refresh_token = new_refresh;
      expires_in = c.access_token_ttl;
    })

  -- Refresh
  unfoldable pub refresh : String → Action AuthTokens
  refresh refresh_token = do
    (claims, session, user) ← refreshed refresh_token
    rotate claims session user

  -- Logout
  unfoldable pub logout : String → Action (Unit {0})
  logout refresh_token = do
    t ← now
    claims ← lift (parse_token p c refresh_token "refresh" t)
    session ← ask λ w.
        or_error session_not_found
          (get_session_by_refresh_token_hash (hash_token p refresh_token) w.sessions)
    refuse (not (session.id == claims.sid)) invalid_token
    on_sessions (update_session (record session { revoked_at = some t }))
    publish c (record {
      name = "identity.auth.logout";
      user_id = claims.sub;
      session_id = claims.sid;
      info = [];
    })
