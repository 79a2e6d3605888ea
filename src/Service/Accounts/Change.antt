-- ===== src/Service/Accounts/Change.antt =====
-- ChangePassword: the current password is asked for, and only the one account changes.
use awesome_go_auth.Base.{String, ◌≡◌, true, some, eq_iff, arith, inl, inr, ◌≤◌, Option-cases}
use awesome_go_auth.Base.Dict.{get, put}
use awesome_go_auth.Errors.{ok, run-cases, Result-cases}
use awesome_go_auth.Models.{User}
use awesome_go_auth.Platform.{Platform, IsLawful}
use awesome_go_auth.Service.{Config, World, on_users, publish, hash_password, verify_password}
use awesome_go_auth.Service.Accounts.{change_password}
use awesome_go_auth.Base.Strings.{byte_len}
use awesome_go_auth.Service.Accounts.Passwords.{hash_password-bcrypt}
use awesome_go_auth.UserStore.{
  MemoryUserStore, owned, get_user_by_id, update_password, on_user, store_user,
}

-- whom a lookup by id finds is whom the guard lets through
get_user_by_id-owned :
    (s : MemoryUserStore) (id tenant : String) (u : User)
    → get_user_by_id id tenant s ≡ ok u
    → (owned s id tenant ≡ some u) × (get s.by_id id ≡ some u) × (u.tenant_id ≡ tenant)
unfolding get_user_by_id owned
get_user_by_id-owned s id tenant u e = elim (Option-cases (get s.by_id id)) [
  | inl missing ↦ ground (arith)
  | inr (v, found) ↦ (
    ground (arith, eq_iff v.tenant_id tenant),
    ground (arith),
    ground (arith, eq_iff v.tenant_id tenant),
  )
]

update_password_lem :
    (s : MemoryUserStore) (id tenant hash : String) (user : User)
    → owned s id tenant ≡ some user
    → update_password id tenant hash s
      ≡ (ok tt, record s { by_id = put s.by_id id (record user { password_hash = hash }) })
unfolding update_password on_user store_user
update_password_lem s id tenant hash user own = ground (arith)

module _ (p : Platform) (law : IsLawful p) (c : Config) where
  -- Where ids are keys of the user store and the platform is lawful, a change of password that
  -- returns was given the stored password and a new one of the configured length, which verifies
  -- against the new hash; nothing in the store but that hash has changed.
  pub change_password-verify_password :
      (user_id tenant_id current new_password : String) (w w' : World)
      → ((k : String) (u : User) → get w.users.by_id k ≡ some u → u.id ≡ k)
      → change_password p c user_id tenant_id current new_password w ≡ (ok tt, w')
      → (c.min_password_len ≤ byte_len new_password)
        × (user : User) × (get_user_by_id user_id tenant_id w.users ≡ ok user)
        × (verify_password p current user.password_hash ≡ true)
        × (hash : String) × (verify_password p new_password hash ≡ true)
        × (w'.users ≡ record w.users {
          by_id = put w.users.by_id user_id (record user { password_hash = hash });
        })
  unfolding change_password on_users publish verify_password
  change_password-verify_password user_id tenant_id current new_password w w' keyed e =
      elim (Result-cases (get_user_by_id user_id tenant_id w.users)) [
        | inl (e1, bad) ↦ ground (arith)
        | inr (user, found) ↦ elim (run-cases (hash_password p new_password c.bcrypt_cost w)) [
          | inl (e2, w1, bad) ↦ ground (arith)
          | inr (hash, w1, hashed) ↦
              let (cost, draw, made, same, _) =
                hash_password-bcrypt p new_password c.bcrypt_cost w w1 hash hashed in
              let (own, is, tenant) = get_user_by_id-owned w.users user_id tenant_id user found in
              let key = keyed user_id user is in
              let wrote = update_password_lem w.users user.id user.tenant_id hash user (cc) in
              (
                ground (arith),
                user,
                found,
                ground (arith),
                hash,
                law.bcrypt-matches cost draw new_password hash made,
                ground (arith, same, wrote, key),
              )
        ]
      ]
