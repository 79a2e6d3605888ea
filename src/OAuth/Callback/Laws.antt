-- ===== src/OAuth/Callback/Laws.antt =====
-- Whom a callback signs in.
use awesome_go_auth.Base.{String, ◌≡◌, arith, inl, inr}
use awesome_go_auth.Errors.{Error, ok, err, Result-cases, run-cases}
use awesome_go_auth.LinkedAccounts.{find_by_provider, OAuthLinkedAccount}
use awesome_go_auth.Models.{User, AuthTokens}
use awesome_go_auth.OAuth.{OAuthUserInfo, OAuthProvisioning, ProfileMap, normalized, admit}
use awesome_go_auth.OAuth.Callback.{handle_callback_with_policy, sign_in_by_id, sign_in}
use awesome_go_auth.Platform.{Platform}
use awesome_go_auth.Service.{Config, World}
use awesome_go_auth.Service.Sessions.{new_session_tokens}
use awesome_go_auth.UserStore.{get_user_by_id}

module _ (p : Platform) (c : Config) (info : OAuthUserInfo) (tenant_id : String) (q : ProfileMap)
    (policy : OAuthProvisioning) (w w' : World) where
  -- An identity that the policy does not admit is refused with the policy's reason, and nothing is
  -- changed, whichever account it is to be linked to.
  pub callback-refused :
      (link_to : String) (e : Error)
      → admit p.lower (normalized policy) info ≡ err e
      → handle_callback_with_policy p c info tenant_id q link_to policy w ≡ (err e, w)
  unfolding handle_callback_with_policy
  callback-refused link_to e refused = ground (arith, refused)

  sign_in_by_id-user :
      (user_id : String) (user : User) (tokens : AuthTokens)
      → sign_in_by_id p c info tenant_id user_id w ≡ (ok (user, tokens), w')
      → get_user_by_id user_id tenant_id w.users ≡ ok user
  unfolding sign_in_by_id sign_in
  sign_in_by_id-user user_id user tokens e =
      elim (Result-cases (get_user_by_id user_id tenant_id w.users)) [
        | inl (_, lost) ↦ absurd (ground (arith, lost))
        | inr (u, found) ↦ elim (run-cases (new_session_tokens p c u w)) [
          | inl (_, _, failed) ↦ absurd (ground (arith, found, failed))
          | inr (_, w1, issued) ↦ ground (arith, found, issued)
        ]
      ]

  -- An identity that is linked signs in the linked user, if he is of the tenant, and nobody else.
  pub callback-linked :
      (link : OAuthLinkedAccount) (user : User) (tokens : AuthTokens)
      → find_by_provider info.provider info.provider_id w.links ≡ ok link
      → handle_callback_with_policy p c info tenant_id q "" policy w ≡ (ok (user, tokens), w')
      → (admit p.lower (normalized policy) info ≡ ok tt)
        × (get_user_by_id link.user_id tenant_id w.users ≡ ok user)
  unfolding handle_callback_with_policy
  callback-linked link user tokens linked e =
      elim (Result-cases (admit p.lower (normalized policy) info)) [
        | inl (_, refused) ↦ absurd (ground (arith, refused))
        | inr (_, admitted) ↦ (
          admitted,
          sign_in_by_id-user link.user_id user tokens (ground (arith, admitted, linked)),
        )
      ]
