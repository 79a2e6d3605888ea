-- ===== src/Service/Passwordless/Spent.antt =====
-- A magic link is spent by the first request that finds it, whatever that request then answers.
use awesome_go_auth.Base.{
  String, ◌≡◌, ◌≢◌, Bool, true, false, some, ◌==◌, eq_iff, arith, inl, inr, Option-cases,
}
use awesome_go_auth.Base.Dict.{get, get-put}
use awesome_go_auth.Errors.{ok, err, run-cases, invalid_token, magic_link_owner_mismatch}
use awesome_go_auth.Models.{User}
use awesome_go_auth.Platform.{Platform}
use awesome_go_auth.Service.{Config, World, hash_token, on_users, on_sessions, publish, new_id}
use awesome_go_auth.Service.Accounts.{is_spent}
use awesome_go_auth.Service.Passwordless.{verify_magic_link, verify_by_link, complete_login}
use awesome_go_auth.Service.Sessions.{issue_session}
use awesome_go_auth.Service.Tokens.{issue_token}
use awesome_go_auth.SessionStore.{create_session}
use awesome_go_auth.Service.Tokens.Frame.{issue_token-Frame, new_id-Frame}
use awesome_go_auth.UserStore.{
  MemoryUserStore, mark_email_verified, on_user, owned, store_user, resolve,
}
use awesome_go_auth.UserStore.Credentials.{
  get_user_by_magic_link_token_hash, clear_magic_link_token,
}
use awesome_go_auth.UserStore.Invariant.{IsIndexed}
use awesome_go_auth.UserStore.OneTime.{magic, redeem, clear}
use awesome_go_auth.UserStore.OneTime.Laws.{redeem-clear, redeem-owned}

-- Marking an address verified makes no link valid.
mark-magic :
    (s : MemoryUserStore) (id tenant hash : String) (verified : Bool)
    → get_user_by_magic_link_token_hash hash s ≡ err invalid_token
    → get_user_by_magic_link_token_hash hash (mark_email_verified id tenant verified s).1
      ≡ err invalid_token
unfolding get_user_by_magic_link_token_hash resolve mark_email_verified on_user owned store_user
mark-magic s id tenant hash verified e = elim (Option-cases (get s.by_id id)) [
  | inl missing ↦ ground (arith)
  | inr (u, found) ↦ elim (Option-cases (get s.by_magic_token hash)) [
    | inl absent ↦ ground (arith)
    | inr (j, named) ↦
        ground
          (arith, get-put s.by_id id j (record u { is_email_verified = verified }), eq_iff id j)
  ]
]

module _ (p : Platform) (c : Config) where
  pub issue_session_users : (user : User) (w : World) → (issue_session p c user w).1.users ≡ w.users
  unfolding issue_session on_sessions create_session
  issue_session_users user w = elim (run-cases (new_id p "ses" w)) [
    | inl (e1, w1, bad) ↦ ground (arith, (new_id-Frame p "ses" w).users)
    | inr (id, w1, drawn) ↦
        let f1 = new_id-Frame p "ses" w in
        let f2 = issue_token-Frame p c user id "refresh" c.refresh_token_ttl w1 in
        elim (run-cases (issue_token p c user id "refresh" c.refresh_token_ttl w1)) [
          | inl (e1, w2, bad) ↦ ground (arith, f1.users, f2.users)
          | inr ((refresh_token, exp), w2, one) ↦
              let f3 = issue_token-Frame p c user id "access" c.access_token_ttl w2 in
              ground (arith, f1.users, f2.users, f3.users)
        ]
  ]

  complete_login_users :
      (user : User) (method : String) (w : World)
      → (complete_login p c user method w).1.users ≡ w.users
  unfolding complete_login publish
  complete_login_users user method w = ground (arith, issue_session_users user w)

  module _ (token : String) (w : World) (user : User) (indexed : IsIndexed p.lower w.users)
      (marked : hash_token p token ≢ "") (supported : c.stores.magic_link ≡ true)
      (found : get_user_by_magic_link_token_hash (hash_token p token) w.users ≡ ok user)
      (in_time : is_spent c w.clock user.magic_link_token_expires_at ≡ false) where
    -- The store after the link is cleared.
    spent :
        get_user_by_magic_link_token_hash
          (hash_token p token)
          (clear_magic_link_token user.id user.tenant_id w.users).1
        ≡ err invalid_token
    unfolding redeem clear
    spent = redeem-clear p.lower magic w.users (hash_token p token) user indexed marked found

    own : owned w.users user.id user.tenant_id ≡ some user
    unfolding redeem
    own = (redeem-owned p.lower magic w.users (hash_token p token) user indexed marked found).0

    -- In a consistent store that supports magic links, a link that is found and in time and whose
    -- hash is not empty, presented for a named user that is not its own, is refused as such; the
    -- link is cleared, and nothing else changes.
    pub verify_magic_link-mismatch :
        (require_user_id : String)
        → require_user_id ≢ ""
        → user.id ≢ require_user_id
        → verify_magic_link p c token require_user_id w ≡ (
          err magic_link_owner_mismatch,
          record w { users = (clear_magic_link_token user.id user.tenant_id w.users).1 },
        )
    unfolding verify_magic_link on_users clear_magic_link_token on_user
    verify_magic_link-mismatch require_user_id asked other =
        ground (arith, own, eq_iff require_user_id "", eq_iff user.id require_user_id)

    -- the state once the link is cleared, and the link in the state after the first login's verification
    cleared : World
    cleared = record w { users = (clear_magic_link_token user.id user.tenant_id w.users).1 }

    spent-verify_by_link :
        (direct : Bool)
        → get_user_by_magic_link_token_hash
            (hash_token p token)
            (verify_by_link p c direct user cleared).1.users
          ≡ err invalid_token
    unfolding verify_by_link on_users cleared
    spent-verify_by_link direct = ground (
      arith,
      spent,
      mark-magic (clear_magic_link_token user.id user.tenant_id w.users).1 user.id user.tenant_id
          (hash_token p token) true spent,
    )

    spent-verify_magic_link :
        (require_user_id : String)
        → get_user_by_magic_link_token_hash
            (hash_token p token)
            (verify_magic_link p c token require_user_id w).1.users
          ≡ err invalid_token
    unfolding verify_magic_link on_users clear_magic_link_token on_user cleared
    spent-verify_magic_link require_user_id =
        elim (run-cases (verify_by_link p c (require_user_id == "") user cleared)) [
          | inl (e, w2, bad) ↦
              ground (arith, own, spent, spent-verify_by_link (require_user_id == ""))
          | inr (u, w2, good) ↦ ground (
            arith,
            own,
            spent,
            spent-verify_by_link (require_user_id == ""),
            complete_login_users u "magic-link" w2,
          )
        ]

    -- In a consistent store that supports magic links, after one request with a link that is found
    -- and in time and whose hash is not empty, whatever it answers and whoever it is for, a second
    -- request with it is refused.
    pub verify_magic_link-verify_magic_link :
        (first second : String)
        → (verify_magic_link p c token second (verify_magic_link p c token first w).1).0
          ≡ err invalid_token
    unfolding verify_magic_link
    verify_magic_link-verify_magic_link first second =
        ground (arith, supported, spent-verify_magic_link first)
