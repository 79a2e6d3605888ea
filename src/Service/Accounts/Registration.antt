-- ===== src/Service/Accounts/Registration.antt =====
-- Register: what it refuses before it writes, and the account that it makes.
use Prim.Native.Char.{Char}
use awesome_go_auth.Base.{
  String, ◌≡◌, ◌≢◌, ap, true, false, ◌==◌, eq_iff, eq_refl, arith, inl, inr, ◌≤◌, ◌⊎◌, ◌<◌,
}
use awesome_go_auth.Base.Dict.{get-put_self}
use awesome_go_auth.Errors.{ok, err, Error, run-cases, invalid_input, weak_password, user_exists}
use awesome_go_auth.Models.{User, AuthTokens}
use awesome_go_auth.Platform.{Platform, IsLawful}
use awesome_go_auth.Service.{
  Config, World, on_users, publish, hash_password, verify_password, new_id, email_verification_mode,
}
use awesome_go_auth.Service.Accounts.{RegisterInput, registered, is_ok, register}
use awesome_go_auth.Base.Strings.{byte_len}
use awesome_go_auth.Service.Accounts.Passwords.{hash_password-bcrypt}
use awesome_go_auth.Service.Passwordless.Spent.{issue_session_users}
use awesome_go_auth.Service.Sessions.{issue_session, new_session_tokens}
use awesome_go_auth.Service.Tokens.Frame.{new_id-Frame}
use awesome_go_auth.UserStore.{
  MemoryUserStore, normalize_email, user_email_key, create_user, get_user_by_email, get_user_by_id,
  resolve, owned,
}

-- a user that was created is found by his address and by his id
create_user-found :
    (lower : Char → Char) (new created : User) (s s' : MemoryUserStore)
    → create_user lower new s ≡ (ok created, s')
    → (created ≡ new)
      × (get_user_by_email lower new.email new.tenant_id s' ≡ ok new)
      × (get_user_by_id new.id new.tenant_id s' ≡ ok new)
unfolding create_user get_user_by_email get_user_by_id resolve owned
create_user-found lower new created s s' e =
    let by_key = get-put_self s.by_email (user_email_key lower new.email new.tenant_id) new.id in
    let by_id = get-put_self s.by_id new.id new in
    (ground (arith), ground (arith, by_key, by_id), ground (arith, by_id, eq_refl new.tenant_id))

module _ (p : Platform) (c : Config) (input : RegisterInput) (w : World) where
  abbrev pub address : String
  address = normalize_email p.lower input.email

  -- An empty address or password, then a short password, then a taken address are refused with their
  -- own errors, and the world is unchanged.
  pub register-refused :
      (e : Error)
      → ((address ≡ "") ⊎ (input.password ≡ "")) × (e ≡ invalid_input)
        ⊎ ((address ≢ "")
            × (input.password ≢ "")
            × (byte_len input.password < c.min_password_len)
            × (e ≡ weak_password))
        ⊎ ((address ≢ "")
            × (input.password ≢ "")
            × (c.min_password_len ≤ byte_len input.password)
            × (is_ok (get_user_by_email p.lower address input.tenant_id w.users) ≡ true)
            × (e ≡ user_exists))
      → register p c input w ≡ (err e, w)
  unfolding register
  register-refused e why =
      let empty_address = eq_iff address "" in
      let empty_password = eq_iff input.password "" in ground (arith)

  -- On a lawful platform, a registration that returns took an address that was free in the tenant
  -- and a password of the configured length; the account is found by address and by id, its password
  -- verifies, and its address counts as verified exactly when no verification is configured.
  pub register-get_user :
      (law : IsLawful p) (user : User) (tokens : AuthTokens) (w' : World)
      → register p c input w ≡ (ok (user, tokens), w')
      → (address ≢ "")
        × (c.min_password_len ≤ byte_len input.password)
        × (is_ok (get_user_by_email p.lower address input.tenant_id w.users) ≡ false)
        × (user.email ≡ address)
        × (user.tenant_id ≡ input.tenant_id)
        × (user.is_email_verified ≡ (email_verification_mode p c == "none"))
        × (verify_password p input.password user.password_hash ≡ true)
        × (get_user_by_email p.lower user.email input.tenant_id w'.users ≡ ok user)
        × (get_user_by_id user.id input.tenant_id w'.users ≡ ok user)
  unfolding register verify_password new_session_tokens on_users publish
  register-get_user law user tokens w' e =
      elim (run-cases (hash_password p input.password c.bcrypt_cost w)) [
        | inl (e1, w1, bad) ↦ ground (arith)
        | inr (hash, w1, hashed) ↦ elim (run-cases (new_id p "usr" w1)) [
          | inl (e2, w2, bad) ↦ ground (arith)
          | inr (id, w2, drawn) ↦
              let (cost, draw, made, same, at) =
                hash_password-bcrypt p input.password c.bcrypt_cost w w1 hash hashed in
              let new =
                registered input address id hash (email_verification_mode p c == "none") w2.clock in
              let frame = new_id-Frame p "usr" w1 in
              elim (run-cases (create_user p.lower new w2.users)) [
                | inl (e3, s, bad) ↦ ground (arith)
                | inr (created, s, stored) ↦
                    let (is_new, by_email, by_id) =
                      create_user-found p.lower new created w2.users s stored in
                    elim (run-cases (issue_session p c created (record w2 { users = s }))) [
                      | inl (e4, w3, bad) ↦ ground (arith)
                      | inr ((t, sid), w3, issued) ↦
                          let kept = issue_session_users p c created (record w2 { users = s }) in
                          let is : user ≡ new = ground (arith) in
                          let after : w'.users ≡ s = ground (arith, kept) in
                          let free : is_ok
                                (get_user_by_email p.lower address input.tenant_id w.users)
                              ≡ false =
                            ground (arith) in
                          let checks = law.bcrypt-matches cost draw input.password hash made in
                          (
                            ground (arith, eq_iff address ""),
                            ground (arith),
                            free,
                            ap (λ u. u.email) is,
                            ap (λ u. u.tenant_id) is,
                            ap (λ u. u.is_email_verified) is,
                            rw is checks,
                            rw (is, after) by_email,
                            rw (is, after) by_id,
                          )
                    ]
              ]
        ]
      ]
