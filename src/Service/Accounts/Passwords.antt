-- ===== src/Service/Accounts/Passwords.antt =====
-- The password operations: what has to hold for a password to change, and that a reset token is used
-- once.
use awesome_go_auth.Base.{
  ℕ, String, ◌≡◌, ◌≢◌, true, false, none, some, eq_iff, eq_refl, arith, if◌then◌else◌, inl, inr,
  Option-cases, ◌≤◌, eqb,
}
use awesome_go_auth.Base.Dict.{get, put, get-put, get-put_self}
use awesome_go_auth.Errors.{ok, err, run-cases, Result-cases, invalid_token}
use awesome_go_auth.Models.{User}
use awesome_go_auth.Platform.{Platform, IsLawful}
use awesome_go_auth.Service.{Config, World, hash_token, on_users, hash_password, verify_password}
use awesome_go_auth.Service.Accounts.{is_spent, reset_password}
use awesome_go_auth.Base.Strings.{byte_len}
use awesome_go_auth.UserStore.{
  MemoryUserStore, on_user, owned, resolve, store_user, get_user_by_id, update_password,
}
use awesome_go_auth.UserStore.Credentials.{get_user_by_reset_token_hash, clear_reset_token}
use awesome_go_auth.UserStore.Invariant.{IsIndexed}
use awesome_go_auth.UserStore.Preserved.{update_password-IsIndexed}
use awesome_go_auth.UserStore.OneTime.{reset, redeem, clear, clear_lem}
use awesome_go_auth.UserStore.OneTime.Laws.{redeem-clear, redeem-owned}

module _ (p : Platform) where
  -- what a hash that was computed is, and that only the random source was read
  pub hash_password-bcrypt :
      (password : String) (cost : ℕ) (w w' : World) (hash : String)
      → hash_password p password cost w ≡ (ok hash, w')
      → (cost' draw : ℕ) × (p.bcrypt cost' draw password ≡ some hash)
        × (w'.users ≡ w.users)
        × (w'.clock ≡ w.clock)
  unfolding hash_password
  hash_password-bcrypt password cost w w' hash e =
      let cost' : ℕ = if eqb cost 0 then 10 else cost in
      elim (Option-cases (p.bcrypt cost' w.draws password)) [
        | inl failed ↦ ground (arith)
        | inr (h, made) ↦ (cost', w.draws, ground (arith), ground (arith), ground (arith))
      ]

module _ (p : Platform) (c : Config) where
  -- A reset that returns was asked for with a token that the store knew and that was in time, and
  -- with a password of the configured length.
  pub record Reset (token new_password : String) (w w' : World) : Type 0 where
    pub user : User
    pub hash : String
    pub w1 : World
    pub strong : c.min_password_len ≤ byte_len new_password
    pub found : get_user_by_reset_token_hash (hash_token p token) w.users ≡ ok user
    pub in_time : is_spent c w.clock user.reset_token_expires_at ≡ false
    pub hashed : hash_password p new_password c.bcrypt_cost w ≡ (ok hash, w1)
    pub stored :
        w'.users
        ≡ (clear_reset_token user.id user.tenant_id
            (update_password user.id user.tenant_id hash w1.users).1).1

  reset_password-Reset :
      (token new_password : String) (w w' : World)
      → reset_password p c token new_password w ≡ (ok tt, w')
      → Reset token new_password w w'
  unfolding reset_password on_users
  reset_password-Reset token new_password w w' e =
      elim (Result-cases (get_user_by_reset_token_hash (hash_token p token) w.users)) [
        | inl (e1, bad) ↦ ground (arith)
        | inr (user, found) ↦ elim (run-cases (hash_password p new_password c.bcrypt_cost w)) [
          | inl (e2, w1, bad) ↦ ground (arith)
          | inr (hash, w1, good) ↦ record {
            user = user;
            hash = hash;
            w1 = w1;
            strong = ground (arith);
            found = found;
            in_time = ground (arith);
            hashed = good;
            stored = ground (arith);
          }
        ]
      ]

  -- what the two writes of a reset leave, for a user that is there
  module _ (s : MemoryUserStore) (user : User) (hash : String) (indexed : IsIndexed p.lower s)
      (own : owned s user.id user.tenant_id ≡ some user) where
    abbrev rehashed : User
    rehashed = record user { password_hash = hash }

    abbrev updated : MemoryUserStore
    updated = (update_password user.id user.tenant_id hash s).1

    updated_lem : updated ≡ record s { by_id = put s.by_id user.id rehashed }
    unfolding update_password on_user store_user
    updated_lem = ground (arith, own)

    updated-owned : owned updated user.id user.tenant_id ≡ some rehashed
    unfolding owned
    updated-owned =
        ground (arith, updated_lem, get-put_self s.by_id user.id rehashed, eq_refl user.tenant_id)

    updated-found :
        (token_hash : String)
        → get_user_by_reset_token_hash token_hash s ≡ ok user
        → get_user_by_reset_token_hash token_hash updated ≡ ok rehashed
    unfolding get_user_by_reset_token_hash resolve owned
    updated-found token_hash found = elim (Option-cases (get s.by_reset_token token_hash)) [
      | inl missing ↦ ground (arith)
      | inr (id, named) ↦
          let is : get s.by_id id ≡ some user = ground (arith) in
          let key = indexed.id_key id user is in
          ground
            (arith, own, updated_lem, key, get-put s.by_id user.id id rehashed, eq_iff user.id id)
    ]

    abbrev written : MemoryUserStore
    written = (clear_reset_token user.id user.tenant_id updated).1

    written-owned :
        owned written user.id user.tenant_id
        ≡ some (record user {
          password_hash = hash;
          reset_token_hash = "";
          reset_token_expires_at = none;
        })
    unfolding owned clear
    written-owned =
        let (_, t) = clear_lem updated user.id user.tenant_id rehashed updated-owned reset in
        ground (
          arith,
          t,
          get-put_self updated.by_id user.id
              (record rehashed { reset_token_hash = ""; reset_token_expires_at = none }),
          eq_refl user.tenant_id,
        )

  -- In a consistent store and on a lawful platform, after a reset that returns, with a token whose
  -- hash is not empty, the new password verifies against the user's stored hash, and the reset token
  -- is refused with any further password of the configured length.
  pub reset_password-reset_password :
      (law : IsLawful p) (token new_password other : String) (w w' : World)
      → IsIndexed p.lower w.users
      → hash_token p token ≢ ""
      → reset_password p c token new_password w ≡ (ok tt, w')
      → c.min_password_len ≤ byte_len other
      → ((reset_password p c token other w').0 ≡ err invalid_token)
        × (user changed : User) × (get_user_by_reset_token_hash (hash_token p token) w.users
            ≡ ok user)
        × (get_user_by_id user.id user.tenant_id w'.users ≡ ok changed)
        × (verify_password p new_password changed.password_hash ≡ true)
  unfolding reset_password get_user_by_id verify_password redeem clear
  reset_password-reset_password law token new_password other w w' indexed marked e long =
      let r = reset_password-Reset token new_password w w' e in
      let (cost, draw, made, same, _) =
        hash_password-bcrypt p new_password c.bcrypt_cost w r.w1 r.hash r.hashed in
      let (own, _) =
        redeem-owned p.lower reset w.users (hash_token p token) r.user indexed marked r.found in
      let now_own = written-owned w.users r.user r.hash indexed own in
      let still = updated-found w.users r.user r.hash indexed own (hash_token p token) r.found in
      let keeps = update_password-IsIndexed p.lower indexed r.user.id r.user.tenant_id r.hash in
      let spent =
        redeem-clear p.lower reset (updated w.users r.user r.hash indexed own) (hash_token p token)
          (rehashed w.users r.user r.hash indexed own) keeps marked still in
      (
        ground (arith, same, r.stored, spent, long),
        r.user,
        record r.user {
          password_hash = r.hash;
          reset_token_hash = "";
          reset_token_expires_at = none;
        },
        r.found,
        ground (arith, same, r.stored, now_own),
        law.bcrypt-matches cost draw new_password r.hash made,
      )
