-- ===== src/Idp/Redemption.antt =====
-- A code is redeemed once, by the client that it was issued to, and in time.
use awesome_go_auth.Base.{ℕ, ◌≤◌, String, ◌≡◌, ◌≢◌, true, some, eq_iff, arith, inl, inr}
use awesome_go_auth.AuthCodes.{AuthCode, consume_code}
use awesome_go_auth.AuthCodes.Laws.{consume_code-consume_code}
use awesome_go_auth.Errors.{ok, Result-cases, run-cases}
use awesome_go_auth.Idp.{
  Idp, issued, Values, on_codes, or_answer, knows_client, tokens_for, handle_token, build_id_token,
}
use awesome_go_auth.Models.{User, AuthTokens}
use awesome_go_auth.Platform.{Platform}
use awesome_go_auth.Service.{Config, World, on_sessions, new_id, hash_token}
use awesome_go_auth.Service.Sessions.{issue_session, new_session_tokens}
use awesome_go_auth.Service.Tokens.{issue_token}
use awesome_go_auth.Service.Tokens.Frame.{issue_token-Frame, new_id-Frame}
use awesome_go_auth.SessionStore.{create_session}
use awesome_go_auth.UserStore.{get_user_by_id}

module _ (p : Platform) (c : Config) where
  issue_session_codes : (user : User) (w : World) → (issue_session p c user w).1.codes ≡ w.codes
  unfolding issue_session on_sessions create_session
  issue_session_codes user w =
      let f1 = new_id-Frame p "ses" w in
      elim (run-cases (new_id p "ses" w)) [
        | inl (_, w1, failed) ↦ ground (arith, f1.codes)
        | inr (id, w1, drawn) ↦
            let f2 = issue_token-Frame p c user id "refresh" c.refresh_token_ttl w1 in
            elim (run-cases (issue_token p c user id "refresh" c.refresh_token_ttl w1)) [
              | inl (_, w2, failed) ↦ ground (arith, f1.codes, f2.codes)
              | inr ((refresh_token, exp), w2, minted) ↦
                  let f3 = issue_token-Frame p c user id "access" c.access_token_ttl w2 in
                  ground (arith, f1.codes, f2.codes, f3.codes)
            ]
      ]

  module _ (idp : Idp) where
    tokens_for_codes :
        (client_id : String) (meta : AuthCode) (w : World)
        → (tokens_for p c idp client_id meta w).1.codes ≡ w.codes
    unfolding tokens_for or_answer new_session_tokens
    tokens_for_codes client_id meta w =
        elim (Result-cases (get_user_by_id meta.user_id meta.tenant_id w.users)) [
          | inl (_, lost) ↦ ground (arith, lost)
          | inr (user, found) ↦
              let kept = issue_session_codes user w in
              elim (run-cases (issue_session p c user w)) [
                | inl (_, w1, failed) ↦ ground (arith, found, failed, kept)
                | inr (session, w1, made) ↦
                    elim (Result-cases
                      (build_id_token p c idp user client_id meta.nonce w1.clock)) [
                        | inl (_, bad) ↦ ground (arith, found, made, bad, kept)
                        | inr (_, good) ↦ ground (arith, found, made, good, kept)
                      ]
              ]
        ]

    tokens_for-issued :
        (client_id : String) (meta : AuthCode) (tokens : AuthTokens) (id_token : String)
        (w w' : World)
        → tokens_for p c idp client_id meta w ≡ (ok (issued tokens id_token), w')
        → (user : User) × (get_user_by_id meta.user_id meta.tenant_id w.users ≡ ok user)
    unfolding tokens_for or_answer
    tokens_for-issued client_id meta tokens id_token w w' e =
        elim (Result-cases (get_user_by_id meta.user_id meta.tenant_id w.users)) [
          | inl (_, lost) ↦ absurd (ground (arith, lost))
          | inr found ↦ found
        ]

    -- What has to hold for a request to be answered with tokens.
    pub record Redeemed (form : Values) (w w' : World) : Type 0 where
      pub meta : AuthCode
      pub user : User
      pub authorised : form "grant_type" ≡ "authorization_code"
      pub known : knows_client p c idp (form "client_id") (form "client_secret") ≡ true
      pub consumed : (consume_code w.clock (hash_token p (form "code")) w.codes).0 ≡ ok meta
      pub in_time : w.clock ≤ meta.expires_at
      pub own : meta.client_id ≡ form "client_id"
      pub found : get_user_by_id meta.user_id meta.tenant_id w.users ≡ ok user
      pub spent : w'.codes ≡ (consume_code w.clock (hash_token p (form "code")) w.codes).1

    -- A request is answered with tokens only if it names the grant, a known client with its secret
    -- and a code that was issued to that client, is in the store and is in time, for a user who
    -- exists; the code is spent then.
    pub handle_token-Redeemed :
        (form : Values) (tokens : AuthTokens) (id_token : String) (w w' : World)
        → handle_token p c idp (some form) w ≡ (ok (issued tokens id_token), w')
        → Redeemed form w w'
    unfolding handle_token or_answer on_codes
    handle_token-Redeemed form tokens id_token w w' e =
        elim (run-cases (consume_code w.clock (hash_token p (form "code")) w.codes)) [
          | inl (_, s, gone) ↦ absurd (ground (arith, gone))
          | inr (meta, s, has) ↦
              let after : World = record w { codes = s } in
              let rest : tokens_for p c idp (form "client_id") meta after
                  ≡ (ok (issued tokens id_token), w') =
                ground (arith, has) in
              let kept = tokens_for_codes (form "client_id") meta after in
              let (user, found) =
                tokens_for-issued (form "client_id") meta tokens id_token after w' rest in
              record {
                meta = meta;
                user = user;
                authorised = ground (arith, has, eq_iff (form "grant_type") "authorization_code");
                known = ground (arith, has);
                consumed = ground (arith, has);
                in_time = ground (arith, has);
                own = ground (arith, has, eq_iff meta.client_id (form "client_id"));
                found = found;
                spent = ground (arith, has, kept, rest);
              }
        ]

    -- A code that the token endpoint answered with tokens is not answered with tokens again: in the
    -- world that the answer left, at any time and with any other values in the form, a request with
    -- that code gets none.
    pub handle_token-handle_token :
        (form again : Values) (tokens more : AuthTokens) (id_token other : String) (t : ℕ)
        (w w' w'' : World)
        → handle_token p c idp (some form) w ≡ (ok (issued tokens id_token), w')
        → again "code" ≡ form "code"
        → handle_token p c idp (some again) (record w' { clock = t })
          ≢ (ok (issued more other), w'')
    handle_token-handle_token form again tokens more id_token other t w w' w'' first same second =
        let a = handle_token-Redeemed form tokens id_token w w' first in
        let b = handle_token-Redeemed again more other (record w' { clock = t }) w'' second in
        let twice = consume_code-consume_code w.codes (hash_token p (form "code")) w.clock t in
        ground (arith, a.spent, b.consumed, same, twice)
