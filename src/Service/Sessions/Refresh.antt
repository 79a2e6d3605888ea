-- ===== src/Service/Sessions/Refresh.antt =====
-- Refresh: what it accepts, that it rotates the token, and that a refusal changes nothing.
use awesome_go_auth.Base.{
  ℕ, ◌+◌, ◌≤◌, String, ◌≡◌, ◌≢◌, refl, none, eq_iff, eq_refl, arith, inl, inr,
}
use awesome_go_auth.Errors.{ok, err, session_not_found, run-cases}
use awesome_go_auth.Models.{Session, User, AuthTokens}
use awesome_go_auth.Platform.{Platform, TokenClaims}
use awesome_go_auth.Service.{Config, World, hash_token, on_sessions, publish}
use awesome_go_auth.Service.Tokens.{issue_token, parse_token}
use awesome_go_auth.Service.Tokens.Frame.{issue_token-Frame}
use awesome_go_auth.Service.Sessions.{refreshed, rotate, refresh}
use awesome_go_auth.SessionStore.{get_session_by_refresh_token_hash, update_session}
use awesome_go_auth.SessionStore.Invariant.{IsIndexed}
use awesome_go_auth.SessionStore.Rotation.{by_hash-update_session_old, by_hash-update_session_new}
use awesome_go_auth.UserStore.{get_user_by_id}

module _ (p : Platform) (c : Config) where
  -- What has to hold for a refresh token to be accepted in a state.
  pub record Accepted (token : String) (w : World) (claims : TokenClaims) (session : Session)
      (user : User) : Type 0 where
    pub read : parse_token p c token "refresh" w.clock ≡ ok claims
    pub found : get_session_by_refresh_token_hash (hash_token p token) w.sessions ≡ ok session
    pub live : session.revoked_at ≡ none
    pub in_time : w.clock ≤ session.expires_at + c.clock_skew
    pub its_session : session.id ≡ claims.sid
    pub its_user : session.user_id ≡ claims.sub
    pub owner : get_user_by_id claims.sub claims.tid w.users ≡ ok user

  module _ (token : String) (w : World) where
    refreshed_same : (refreshed p c token w).1 ≡ w
    unfolding refreshed
    refreshed_same = ground (arith)

    refreshed-Accepted :
        (w' : World) (claims : TokenClaims) (session : Session) (user : User)
        → refreshed p c token w ≡ (ok (claims, session, user), w')
        → Accepted token w claims session user
    unfolding refreshed
    refreshed-Accepted w' claims session user e = record {
      read = ground (arith);
      found = ground (arith);
      live = ground (arith);
      in_time = ground (arith);
      its_session = ground (arith, eq_iff session.id claims.sid);
      its_user = ground (arith, eq_iff session.user_id claims.sub);
      owner = ground (arith);
    }

    pub Accepted-refreshed :
        (claims : TokenClaims) (session : Session) (user : User)
        → Accepted token w claims session user
        → refreshed p c token w ≡ (ok (claims, session, user), w)
    unfolding refreshed
    Accepted-refreshed claims session user a = ground (
      arith,
      a.read,
      a.found,
      a.live,
      a.in_time,
      a.its_session,
      a.its_user,
      a.owner,
      eq_refl claims.sid,
      eq_refl claims.sub,
    )

    -- what a refresh that returns has done
    record Rotated (w' : World) (tokens : AuthTokens) (session : Session) (user : User)
        : Type 0 where
      w1 : World
      w2 : World
      exp : ℕ
      exp' : ℕ
      refresh_issued :
          issue_token p c user session.id "refresh" c.refresh_token_ttl w
          ≡ (ok (tokens.refresh_token, exp), w1)
      access_issued :
          issue_token p c user session.id "access" c.access_token_ttl w1
          ≡ (ok (tokens.access_token, exp'), w2)
      clock : w'.clock ≡ w.clock
      stored :
          w'.sessions
          ≡ (update_session
              (record session {
                refresh_token_hash = hash_token p tokens.refresh_token;
                expires_at = exp;
              })
              w.sessions).1

    rotate-Rotated :
        (w' : World) (tokens : AuthTokens) (claims : TokenClaims) (session : Session) (user : User)
        → rotate p c claims session user w ≡ (ok tokens, w')
        → Rotated w' tokens session user
    unfolding rotate on_sessions publish
    rotate-Rotated w' tokens claims session user e =
        elim (run-cases (issue_token p c user session.id "refresh" c.refresh_token_ttl w)) [
          | inl (e1, w1, bad) ↦ ground (arith)
          | inr ((token1, exp), w1, good) ↦
              elim (run-cases (issue_token p c user session.id "access" c.access_token_ttl w1)) [
                | inl (e1, w2, bad) ↦ ground (arith)
                | inr ((token2, exp'), w2, good') ↦
                    let f1 =
                      issue_token-Frame p c user session.id "refresh" c.refresh_token_ttl w in
                    let f2 = issue_token-Frame p c user session.id "access" c.access_token_ttl w1 in
                    record {
                      w1 = w1;
                      w2 = w2;
                      exp = exp;
                      exp' = exp';
                      refresh_issued = ground (arith);
                      access_issued = ground (arith);
                      clock = ground (arith, f1.clock, f2.clock);
                      stored = ground (arith, f1.sessions, f2.sessions);
                    }
              ]
        ]

    -- what a refresh that returns has accepted and done
    refresh-inversion :
        (w' : World) (tokens : AuthTokens)
        → refresh p c token w ≡ (ok tokens, w')
        → (claims : TokenClaims) × (session : Session) × (user : User) × Accepted token w claims
            session user
          × Rotated w' tokens session user
    unfolding refresh
    refresh-inversion w' tokens e = elim (run-cases (refreshed p c token w)) [
      | inl (e1, w1, bad) ↦ ground (arith)
      | inr ((claims, session, user), w1, good) ↦
          let same : w1 ≡ w = ground (arith, refreshed_same) in
          (
            claims,
            session,
            user,
            refreshed-Accepted w1 claims session user good,
            rotate-Rotated w' tokens claims session user (ground (arith)),
          )
    ]

    -- A refresh that returns, in a world whose session store is consistent and where the hashes of
    -- the two tokens differ, has moved the session to the new token under its id and its user,
    -- unrevoked; presented again at once, the old token is refused as one of no session.
    pub refresh-refresh :
        (w' : World) (tokens : AuthTokens)
        → IsIndexed w.sessions
        → hash_token p tokens.refresh_token ≢ hash_token p token
        → refresh p c token w ≡ (ok tokens, w')
        → ((refresh p c token w').0 ≡ err session_not_found)
          × (claims : TokenClaims) × (session : Session) × (user : User) × Accepted token w claims
              session user
          × (moved : Session) × (get_session_by_refresh_token_hash
                (hash_token p tokens.refresh_token)
                w'.sessions
              ≡ ok moved)
          × (moved.id ≡ session.id)
          × (moved.user_id ≡ session.user_id)
          × (moved.revoked_at ≡ none)
    unfolding refresh refreshed
    refresh-refresh w' tokens indexed new e =
        let (claims, session, user, a, r) = refresh-inversion w' tokens e in
        let moved : Session = record session {
          refresh_token_hash = hash_token p tokens.refresh_token;
          expires_at = r.exp;
        } in
        let gone =
          by_hash-update_session_old w.sessions indexed (hash_token p token) session moved a.found
            refl new in
        let there =
          by_hash-update_session_new w.sessions indexed (hash_token p token) session moved a.found
            refl in
        (
          ground (arith, r.clock, r.stored, a.read, gone),
          claims,
          session,
          user,
          a,
          moved,
          rw r.stored there,
          refl,
          refl,
          a.live,
        )
