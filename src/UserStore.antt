-- ===== src/UserStore.antt =====
-- memory_store.go, the first part: MemoryUserStore, its table of users and its five indexes.
-- A method is an action of `M MemoryUserStore`; the mutex makes each one atomic. The children hold
-- the one-time credentials and the proofs.
pub mod Credentials
pub mod Indexes
pub mod Invariant
pub mod Membership
pub mod OneTime
pub mod Preserved
pub mod Addresses
pub mod Calls
use Prim.Native.Char.{Char}
use Prim.Native.String.{◌++◌ as cat}
use Prim.Native.String.{compare}
use text.Mathlib.Text.{is_lt}
use awesome_go_auth.Paging.{ℤ, page_of}
use awesome_go_auth.Base.{
  List, ◌||◌, sort_by, keep_if, ℕ, String, Bool, Option, none, some, ◌==◌, if◌then◌else◌, is_some,
  ◌≡◌, List, [], ◌∷◌, map,
}
use awesome_go_auth.Base.Dict.{values, Dict, empty, get, put, remove}
use awesome_go_auth.Base.Strings.{trim_space, to_lower}
use awesome_go_auth.Errors.{Error, Result, ok, err, M, user_not_found, user_exists}
use awesome_go_auth.Models.{User}

pub record MemoryUserStore : Type 0 where
  pub by_id : Dict User
  pub by_email : Dict String
  pub by_reset_token : Dict String
  pub by_magic_token : Dict String
  pub by_verify_token : Dict String
  pub by_email_change_token : Dict String

unfoldable pub new_memory_user_store : MemoryUserStore
new_memory_user_store = record {
  by_id = empty;
  by_email = empty;
  by_reset_token = empty;
  by_magic_token = empty;
  by_verify_token = empty;
  by_email_change_token = empty;
}

-- normalizeEmail; `lower` is unicode.ToLower
unfoldable pub normalize_email : (Char → Char) → String → String
normalize_email lower email = to_lower lower (trim_space email)

unfoldable pub user_email_key : (Char → Char) → String → String → String
user_email_key lower email tenant_id = cat (cat tenant_id ":") (normalize_email lower email)

-- u, ok := s.byID[userID]; if !ok || u.TenantID != tenantID { … }
unfoldable pub owned : MemoryUserStore → String → String → Option User
owned s user_id tenant_id = elim (get s.by_id user_id) [
  | none ↦ none
  | some u ↦ if u.tenant_id == tenant_id then some u else none
]

-- The guard that the methods on one user share, and what each does with the user that it found.
unfoldable pub on_user :
    {A : Type 0} → String → String → (User → M MemoryUserStore A) → M MemoryUserStore A
on_user user_id tenant_id act s = elim (owned s user_id tenant_id) [
  | none ↦ (err user_not_found, s)
  | some u ↦ act u s
]

-- s.byID[userID] = u; return nil
unfoldable pub store_user : String → User → M MemoryUserStore (Unit {0})
store_user user_id u s = (ok tt, record s { by_id = put s.by_id user_id u })

-- The lookups by an index: a missing id, and an id with no user, are the same error.
unfoldable pub resolve : Error → Dict String → Dict User → String → Result User
resolve e index users key = elim (get index key) [
  | none ↦ err e
  | some id ↦ elim (get users id) [ none ↦ err e | some u ↦ ok u ]
]

module _ (lower : Char → Char) where
  unfoldable pub create_user : User → M MemoryUserStore User
  create_user user s =
      let key = user_email_key lower user.email user.tenant_id in
      if is_some (get s.by_id user.id)
      then (err user_exists, s)
      else if is_some (get s.by_email key)
      then (err user_exists, s)
      else (
        ok user,
        record s { by_id = put s.by_id user.id user; by_email = put s.by_email key user.id },
      )

  unfoldable pub get_user_by_email : String → String → MemoryUserStore → Result User
  get_user_by_email email tenant_id s =
      resolve user_not_found s.by_email s.by_id (user_email_key lower email tenant_id)

unfoldable pub get_user_by_id : String → String → MemoryUserStore → Result User
unfolding owned
get_user_by_id id tenant_id s = elim (owned s id tenant_id) [
  | none ↦ err user_not_found
  | some u ↦ ok u
]

unfoldable pub update_profile : ℕ → String → String → String → String → M MemoryUserStore User
update_profile now user_id tenant_id first_name last_name = on_user user_id tenant_id λ u s.
    let u' = record u { first_name = first_name; last_name = last_name; updated_at = now } in
    (ok u', record s { by_id = put s.by_id user_id u' })

-- account.go
unfoldable pub update_phone_number : ℕ → String → String → String → M MemoryUserStore User
update_phone_number now user_id tenant_id phone_number = on_user user_id tenant_id λ u s.
    let u' = record u { phone_number = phone_number; updated_at = now } in
    (ok u', record s { by_id = put s.by_id user_id u' })

-- if u.…Hash != "" { delete(s.by…, u.…Hash) }
unfoldable pub drop_hash : Dict String → String → Dict String
drop_hash index hash = if hash == "" then index else remove index hash

module _ (lower : Char → Char) where
  unfoldable pub delete_user : String → String → M MemoryUserStore (Unit {0})
  delete_user user_id tenant_id = on_user user_id tenant_id λ u s. (
    ok tt,
    record {
      by_id = remove s.by_id user_id;
      by_email = remove s.by_email (user_email_key lower u.email u.tenant_id);
      by_reset_token = drop_hash s.by_reset_token u.reset_token_hash;
      by_magic_token = drop_hash s.by_magic_token u.magic_link_token_hash;
      by_verify_token = drop_hash s.by_verify_token u.email_verification_token_hash;
      by_email_change_token = drop_hash s.by_email_change_token u.email_change_token_hash;
    },
  )

unfoldable pub update_password : String → String → String → M MemoryUserStore (Unit {0})
update_password user_id tenant_id password_hash =
    on_user user_id tenant_id λ u. store_user user_id (record u { password_hash = password_hash })

unfoldable pub update_totp_secret : String → String → String → Bool → M MemoryUserStore (Unit {0})
update_totp_secret user_id tenant_id secret enabled =
    on_user user_id tenant_id
      λ u. store_user user_id (record u { totp_secret = secret; is_totp_enabled = enabled })

unfoldable pub update_require_2fa : String → String → Bool → M MemoryUserStore (Unit {0})
update_require_2fa user_id tenant_id required =
    on_user user_id tenant_id λ u. store_user user_id (record u { require_2fa = required })

unfoldable pub update_is_admin : String → String → Bool → M MemoryUserStore (Unit {0})
update_is_admin user_id tenant_id is_admin =
    on_user user_id tenant_id λ u. store_user user_id (record u { is_admin = is_admin })

unfoldable pub mark_email_verified : String → String → Bool → M MemoryUserStore (Unit {0})
mark_email_verified user_id tenant_id verified =
    on_user user_id tenant_id λ u. store_user user_id (record u { is_email_verified = verified })

-- all[i].ID < all[j].ID
abbrev pub by_user_id : User → User → Bool
by_user_id x y = is_lt (compare x.id y.id)

-- an empty tenant id lists every user
unfoldable pub list_users : String → ℤ → ℤ → MemoryUserStore → List User
list_users tenant_id limit offset s =
    page_of
      (sort_by by_user_id
        (keep_if (λ u. tenant_id == "" || u.tenant_id == tenant_id) (values s.by_id)))
      limit offset
