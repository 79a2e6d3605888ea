-- ===== src/Service/Sessions/Issue.antt =====
-- issueSession: what it leaves behind, and that its tokens are then accepted by Refresh and by
-- Authenticate.
use awesome_go_auth.Base.{
  ℕ, ◌+◌, ◌*◌, ◌/◌, ◌≤◌, ◌<◌, ◌^◌, true, String, ◌≡◌, ◌≢◌, refl, none, some, eq_iff, eq_refl, arith,
  inl, inr,
}
use awesome_go_auth.Base.Strings.{trim_space}
use awesome_go_auth.Base.Dict.{Dict, get, get-put_self}
use awesome_go_auth.Errors.{ok, run-cases}
use awesome_go_auth.Models.{Any, str, Session, User, AuthTokens}
use awesome_go_auth.Platform.{Platform, TokenClaims, IsLawful, plain_claims}
use awesome_go_auth.Service.{Config, World, hash_token, on_sessions, new_id}
use awesome_go_auth.Service.Tokens.{second, issue_token, user_claims}
use awesome_go_auth.Service.Tokens.Frame.{issue_token-Frame, new_id-Frame}
use awesome_go_auth.Service.Tokens.RoundTrip.{issue_token-built, parse_token-issue_token}
use awesome_go_auth.Service.Sessions.Refresh.{Accepted, Accepted-refreshed}
use awesome_go_auth.Service.Sessions.{
  issue_session, refreshed, authenticate, validate_session_for_access, validate_session_state,
  enrich_from_stores,
}
use awesome_go_auth.SessionStore.{
  get_session_by_refresh_token_hash, create_session, get_session_by_id,
}
use awesome_go_auth.UserStore.{get_user_by_id}

module _ (p : Platform) (c : Config) (user : User) (w w' : World) (tokens : AuthTokens)
    (sid : String) where
  -- the session that is stored
  abbrev pub started : ℕ → Session
  started exp = record {
    id = sid;
    user_id = user.id;
    tenant_id = user.tenant_id;
    refresh_token_hash = hash_token p tokens.refresh_token;
    created_at = w.clock;
    expires_at = exp;
    revoked_at = none;
  }

  -- what an issueSession that returns has done
  pub record Issued : Type 0 where
    pub w1 : World
    pub w2 : World
    pub w3 : World
    pub exp : ℕ
    pub exp' : ℕ
    pub refresh_issued :
        issue_token p c user sid "refresh" c.refresh_token_ttl w1
        ≡ (ok (tokens.refresh_token, exp), w2)
    pub access_issued :
        issue_token p c user sid "access" c.access_token_ttl w2
        ≡ (ok (tokens.access_token, exp'), w3)
    pub clock1 : w1.clock ≡ w.clock
    pub clock2 : w2.clock ≡ w.clock
    pub clock : w'.clock ≡ w.clock
    pub users : w'.users ≡ w.users
    pub stored : w'.sessions ≡ (create_session (started exp) w.sessions).1

  issue_session-Issued : issue_session p c user w ≡ (ok (tokens, sid), w') → Issued
  unfolding issue_session on_sessions
  issue_session-Issued e = elim (run-cases (new_id p "ses" w)) [
    | inl (e1, w1, bad) ↦ ground (arith)
    | inr (id, w1, drawn) ↦
        elim (run-cases (issue_token p c user id "refresh" c.refresh_token_ttl w1)) [
          | inl (e1, w2, bad) ↦ ground (arith)
          | inr ((refresh_token, exp), w2, one) ↦
              elim (run-cases (issue_token p c user id "access" c.access_token_ttl w2)) [
                | inl (e1, w3, bad) ↦ ground (arith)
                | inr ((access_token, exp'), w3, two) ↦
                    let f1 = new_id-Frame p "ses" w in
                    let f2 = issue_token-Frame p c user id "refresh" c.refresh_token_ttl w1 in
                    let f3 = issue_token-Frame p c user id "access" c.access_token_ttl w2 in
                    record {
                      w1 = w1;
                      w2 = w2;
                      w3 = w3;
                      exp = exp;
                      exp' = exp';
                      refresh_issued = ground (arith);
                      access_issued = ground (arith);
                      clock1 = ground (arith, f1.clock);
                      clock2 = ground (arith, f1.clock, f2.clock);
                      clock = ground (arith, f1.clock, f2.clock, f3.clock);
                      users = ground (arith, f1.users, f2.users, f3.users);
                      stored = ground (
                        arith, f1.sessions, f2.sessions, f3.sessions, f1.clock, f2.clock, f3.clock,
                      );
                    }
              ]
        ]
  ]

-- The tokens of a session, some time later, at a state that has not changed since.
module _ (p : Platform) (law : IsLawful p) (c : Config) (user : User) (w w' : World)
    (tokens : AuthTokens) (sid : String) (claims : Dict Any)
    (named : user_claims c user ≡ ok claims) (subject : get claims "sub" ≡ some (str user.id))
    (plain : plain_claims p.fold claims.entries ≡ true)
    (issued : issue_session p c user w ≡ (ok (tokens, sid), w')) (owner : User)
    (registered : get_user_by_id user.id user.tenant_id w.users ≡ ok owner) (t : ℕ) where
  -- On a lawful platform, where the claims hook keeps the subject and sets no claim under a name
  -- that folds to that of a claim that is read and is not it (as "Exp" folds to "exp"), the user is
  -- in the store and the expiry in seconds is below 2 to the 63, the refresh token of a session that
  -- was issued is accepted by Refresh, at a time up to its expiry in whole seconds plus the skew,
  -- for the session and the user that it was issued for.
  pub refreshed-issue_session :
      (w.clock + c.refresh_token_ttl) / second < 2 ^ 63
      → t ≤ (w.clock + c.refresh_token_ttl) / second * second + c.clock_skew
      → (read : TokenClaims) × (session : Session) × (refreshed p c tokens.refresh_token
            (record w' { clock = t })
          ≡ (ok (read, session, owner), record w' { clock = t }))
        × (session.id ≡ sid)
        × (session.user_id ≡ user.id)
  unfolding create_session get_session_by_refresh_token_hash
  refreshed-issue_session fits early =
      let i = issue_session-Issued p c user w w' tokens sid issued in
      let (at, _, _) =
        issue_token-built p law c user sid "refresh" c.refresh_token_ttl i.w1 i.w2 claims
          tokens.refresh_token i.exp named i.refresh_issued in
      let (jti, read) =
        parse_token-issue_token p law c user sid "refresh" c.refresh_token_ttl i.w1 i.w2 claims
          tokens.refresh_token i.exp t named subject plain (ground (arith, i.clock1, fits))
          i.refresh_issued (ground (arith, i.clock1)) in
      let session = started p c user w w' tokens sid i.exp in
      let accepted : Accepted p c tokens.refresh_token (record w' { clock = t }) _ session owner =
        record {
          read = read;
          found = ground (
            arith,
            i.stored,
            get-put_self w.sessions.by_token_hashed session.refresh_token_hash sid,
            get-put_self w.sessions.by_id sid session,
          );
          live = refl;
          in_time = ground (arith, at, i.clock1);
          its_session = refl;
          its_user = refl;
          owner = ground (arith, i.users);
        } in
      (
        _,
        session,
        Accepted-refreshed p c tokens.refresh_token (record w' { clock = t }) _ session owner
            accepted,
        refl,
        refl,
      )

  -- On a lawful platform with a store that looks sessions up, where the claims hook keeps the
  -- subject and sets no claim under a name that folds to that of a claim that is read and is not it
  -- (as "Exp" folds to "exp"), the user is in the store, the session id is not blank and the expiry
  -- in seconds is below 2 to the 63, the access token of an issued session authenticates its user,
  -- in every session-check mode, until its own and the session's expiry plus the skew.
  pub authenticate-issue_session :
      c.stores.session_lookup ≡ true
      → trim_space sid ≢ ""
      → (w.clock + c.access_token_ttl) / second < 2 ^ 63
      → t ≤ (w.clock + c.access_token_ttl) / second * second + c.clock_skew
      → t ≤ w.clock + c.refresh_token_ttl + c.clock_skew
      → authenticate p c tokens.access_token (record w' { clock = t })
        ≡ (ok (enrich_from_stores owner (record w' { clock = t })), record w' { clock = t })
  unfolding authenticate validate_session_for_access validate_session_state create_session
      get_session_by_id
  authenticate-issue_session lookup marked fits early live =
      let i = issue_session-Issued p c user w w' tokens sid issued in
      let (at, _, _) =
        issue_token-built p law c user sid "refresh" c.refresh_token_ttl i.w1 i.w2 claims
          tokens.refresh_token i.exp named i.refresh_issued in
      let (jti, read) =
        parse_token-issue_token p law c user sid "access" c.access_token_ttl i.w2 i.w3 claims
          tokens.access_token i.exp' t named subject plain (ground (arith, i.clock2, fits))
          i.access_issued (ground (arith, i.clock2)) in
      let session = started p c user w w' tokens sid i.exp in
      ground (
        arith,
        read,
        lookup,
        marked,
        at,
        i.clock1,
        i.stored,
        i.users,
        get-put_self w.sessions.by_id sid session,
        eq_refl sid,
        eq_refl user.id,
        eq_refl user.tenant_id,
        eq_iff (trim_space sid) "",
      )
