-- ===== src/Service/Sessions/Logout.antt =====
-- Logout: the session of a refresh token is revoked, and the token is refused as revoked from then on.
use awesome_go_auth.Base.{String, ◌≡◌, refl, some, eq_iff, arith, inl, inr}
use awesome_go_auth.Errors.{ok, err, session_revoked, Result-cases}
use awesome_go_auth.Models.{Session}
use awesome_go_auth.Platform.{Platform, TokenClaims}
use awesome_go_auth.Service.{Config, World, hash_token, on_sessions, publish}
use awesome_go_auth.Service.Tokens.{parse_token}
use awesome_go_auth.Service.Sessions.{refreshed, refresh, logout}
use awesome_go_auth.SessionStore.{get_session_by_refresh_token_hash, update_session}
use awesome_go_auth.SessionStore.Invariant.{IsIndexed, update_session-IsIndexed}
use awesome_go_auth.SessionStore.Rotation.{by_hash-update_session_same, stands}

module _ (p : Platform) (c : Config) (token : String) (w w' : World) where
  record LoggedOut : Type 0 where
    claims : TokenClaims
    session : Session
    read : parse_token p c token "refresh" w.clock ≡ ok claims
    found : get_session_by_refresh_token_hash (hash_token p token) w.sessions ≡ ok session
    its_session : session.id ≡ claims.sid
    clock : w'.clock ≡ w.clock
    users : w'.users ≡ w.users
    stored :
        w'.sessions ≡ (update_session (record session { revoked_at = some w.clock }) w.sessions).1

  logout-LoggedOut : logout p c token w ≡ (ok tt, w') → LoggedOut
  unfolding logout on_sessions publish
  logout-LoggedOut e = elim (Result-cases (parse_token p c token "refresh" w.clock)) [
    | inl (e1, bad) ↦ ground (arith)
    | inr (claims, read) ↦
        elim (Result-cases (get_session_by_refresh_token_hash (hash_token p token) w.sessions)) [
          | inl (e2, bad) ↦ ground (arith)
          | inr (session, found) ↦ record {
            claims = claims;
            session = session;
            read = read;
            found = found;
            its_session = ground (arith, eq_iff session.id claims.sid);
            clock = ground (arith);
            users = ground (arith);
            stored = ground (arith);
          }
        ]
  ]

  -- After a logout that returns, in a consistent session store, the token is refused as one of a
  -- revoked session, and the store is still consistent.
  pub logout-refresh :
      IsIndexed w.sessions
      → logout p c token w ≡ (ok tt, w')
      → ((refresh p c token w').0 ≡ err session_revoked) × IsIndexed w'.sessions
  unfolding refresh refreshed
  logout-refresh indexed e =
      let out = logout-LoggedOut e in
      let gone : Session = record out.session { revoked_at = some w.clock } in
      let hash = hash_token p token in
      let (at, is, its) = stands w.sessions indexed hash out.session gone out.found refl in
      let still =
        by_hash-update_session_same w.sessions indexed hash out.session gone out.found refl its in
      let keeps = update_session-IsIndexed indexed gone out.session is (inl refl) in
      (ground (arith, out.read, out.clock, out.stored, still), rw out.stored keeps)
