-- ===== src/Service/SecondFactor/Enrolment.antt =====
-- A second factor admits only with a code of the enrolled secret, and not at all once it is disabled.
use awesome_go_auth.Base.{
  ℕ, String, ◌≡◌, ◌≢◌, true, false, Bool, eq_iff, eq_refl, arith, inl, inr, Option-cases, subst,
  sym,
}
use awesome_go_auth.Base.Dict.{get, get-put}
use awesome_go_auth.Errors.{ok, err, Result-cases, run-cases, invalid_credentials}
use awesome_go_auth.Models.{User, AuthTokens}
use awesome_go_auth.Platform.{Platform}
use awesome_go_auth.Service.{Config, World, on_users, publish}
use awesome_go_auth.Service.SecondFactor.{verify_totp, disable_totp}
use awesome_go_auth.Service.Sessions.{issue_session}
use awesome_go_auth.Totp.{validate_totp_code}
use awesome_go_auth.UserStore.{
  MemoryUserStore, get_user_by_id, update_totp_secret, on_user, owned, store_user,
}

module _ (p : Platform) (c : Config) (user_id tenant_id : String) where
  -- A second step that succeeds is one of an existing user of the tenant who is enrolled, with a code
  -- that his secret gives at the time.
  pub verify_totp-enrolled :
      (code : String) (user : User) (tokens : AuthTokens) (w w' : World)
      → verify_totp p c user_id tenant_id code w ≡ (ok (user, tokens), w')
      → (get_user_by_id user_id tenant_id w.users ≡ ok user)
        × (user.is_totp_enabled ≡ true)
        × (user.totp_secret ≢ "")
        × (validate_totp_code p user.totp_secret code w.clock ≡ true)
  unfolding verify_totp
  verify_totp-enrolled code user tokens w w' e =
      elim (Result-cases (get_user_by_id user_id tenant_id w.users)) [
        | inl (_, lost) ↦ absurd (ground (arith, lost))
        | inr (u, found) ↦ elim (run-cases (issue_session p c u w)) [
          | inl (_, _, failed) ↦ absurd (ground (arith, found, failed))
          | inr (_, w1, issued) ↦
              let same : u ≡ user = ground (arith, found, issued) in
              (
                subst (λ x. get_user_by_id user_id tenant_id w.users ≡ ok x) same found,
                ground (arith, found, issued, same),
                ground (arith, found, issued, same, eq_iff u.totp_secret ""),
                ground (arith, found, issued, same),
              )
        ]
      ]

  written-totp :
      (secret : String) (enabled : Bool) (s s' : MemoryUserStore)
      → update_totp_secret user_id tenant_id secret enabled s ≡ (ok tt, s')
      → (u : User) × (get_user_by_id user_id tenant_id s'
          ≡ ok (record u { totp_secret = secret; is_totp_enabled = enabled }))
  unfolding update_totp_secret get_user_by_id on_user owned store_user
  written-totp secret enabled s s' e = elim (Option-cases (get s.by_id user_id)) [
    | inl missing ↦ absurd (ground (arith, missing))
    | inr (u, found) ↦
        let u' : User = record u { totp_secret = secret; is_totp_enabled = enabled } in
        (u, ground (arith, found, get-put s.by_id user_id user_id u', eq_refl user_id))
  ]

  -- After the second factor of a user is switched off, a code of his is refused as invalid
  -- credentials, at any time.
  pub verify_totp-disable_totp :
      (code : String) (t : ℕ) (w w' : World)
      → disable_totp c user_id tenant_id w ≡ (ok tt, w')
      → (verify_totp p c user_id tenant_id code (record w' { clock = t })).0
        ≡ err invalid_credentials
  unfolding disable_totp verify_totp on_users publish
  verify_totp-disable_totp code t w w' e =
      elim (run-cases (update_totp_secret user_id tenant_id "" false w.users)) [
        | inl (_, _, failed) ↦ absurd (ground (arith, failed))
        | inr (tt, s, wrote) ↦
            let (u, has) = written-totp "" false w.users s wrote in
            let kept : w'.users ≡ s = ground (arith, wrote) in
            let gone : get_user_by_id user_id tenant_id w'.users
                ≡ ok (record u { totp_secret = ""; is_totp_enabled = false }) =
              subst
                (λ x.
                  get_user_by_id user_id tenant_id x
                  ≡ ok (record u { totp_secret = ""; is_totp_enabled = false }))
                (sym kept) has in
            ground (arith, gone)
      ]
