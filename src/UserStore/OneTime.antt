-- ===== src/UserStore/OneTime.antt =====
-- The contract of the four one-time credentials of a user, stated over the methods of
-- memory_store.go that issue, redeem and clear them.
pub mod Resolve
pub mod Laws
use Prim.Native.Char.{Char}
use awesome_go_auth.Base.{
  ℕ, String, Bool, ◌≡◌, ◌≢◌, refl, sym, ap, some, none, Option, ◌==◌, eq_iff, eq_refl, arith, false,
  if◌then◌else◌, Option-cases, Bool-cases, inl, inr, ◌∙◌,
}
use awesome_go_auth.Base.Dict.{
  Dict, get, put, remove, get-put, get-remove, get-put_self, get-put_ne,
}
use awesome_go_auth.Errors.{Result, ok, err, M, invalid_token, Error}
use awesome_go_auth.Models.{User}
use awesome_go_auth.UserStore.{MemoryUserStore, normalize_email, on_user, owned, resolve, drop_hash}
use awesome_go_auth.UserStore.Credentials.{
  update_reset_token, clear_reset_token, get_user_by_reset_token_hash, update_magic_link_token,
  clear_magic_link_token, get_user_by_magic_link_token_hash, update_email_verification_token,
  clear_email_verification_token, get_user_by_email_verification_token_hash,
  update_email_change_token, clear_email_change_token, get_user_by_email_change_token_hash,
}
use awesome_go_auth.UserStore.Indexes.{Indexes, get-drop_hash}
use awesome_go_auth.UserStore.Invariant.{IsIndexed, owned-found}

-- The kinds of credential; a change of address carries the new one.
pub data Kind : Type 0 where
  reset magic verify : Kind
  change : String → Kind

module _ (lower : Char → Char) where
  unfoldable pub issue : Kind → String → String → String → ℕ → M MemoryUserStore (Unit {0})
  issue reset id tenant hash expiry = update_reset_token id tenant hash expiry
  issue magic id tenant hash expiry = update_magic_link_token id tenant hash expiry
  issue verify id tenant hash expiry = update_email_verification_token id tenant hash expiry
  issue (change to) id tenant hash expiry = update_email_change_token lower id tenant to hash expiry

unfoldable pub clear : Kind → String → String → M MemoryUserStore (Unit {0})
clear reset id tenant = clear_reset_token id tenant
clear magic id tenant = clear_magic_link_token id tenant
clear verify id tenant = clear_email_verification_token id tenant
clear (change _) id tenant = clear_email_change_token id tenant

unfoldable pub redeem : Kind → String → MemoryUserStore → Result User
redeem reset = get_user_by_reset_token_hash
redeem magic = get_user_by_magic_link_token_hash
redeem verify = get_user_by_email_verification_token_hash
redeem (change _) = get_user_by_email_change_token_hash

abbrev pub expiry_of : Kind → User → Option ℕ
expiry_of reset u = u.reset_token_expires_at
expiry_of magic u = u.magic_link_token_expires_at
expiry_of verify u = u.email_verification_token_expiry
expiry_of (change _) u = u.email_change_token_expiry

abbrev pub hash_of : Kind → User → String
hash_of reset u = u.reset_token_hash
hash_of magic u = u.magic_link_token_hash
hash_of verify u = u.email_verification_token_hash
hash_of (change _) u = u.email_change_token_hash

abbrev pub index_of : Kind → MemoryUserStore → Dict String
index_of reset s = s.by_reset_token
index_of magic s = s.by_magic_token
index_of verify s = s.by_verify_token
index_of (change _) s = s.by_email_change_token

pub redeem_lem :
    (kind : Kind) (hash : String) (s : MemoryUserStore)
    → redeem kind hash s ≡ resolve invalid_token (index_of kind s) s.by_id hash
unfolding redeem get_user_by_reset_token_hash get_user_by_magic_link_token_hash
    get_user_by_email_verification_token_hash get_user_by_email_change_token_hash
redeem_lem reset hash s = refl
redeem_lem magic hash s = refl
redeem_lem verify hash s = refl
redeem_lem (change _) hash s = refl

-- The user's record with a credential of the kind, and without one.
abbrev pub issued : (Char → Char) → Kind → String → ℕ → User → User
issued lower reset hash expiry u = record u {
  reset_token_hash = hash;
  reset_token_expires_at = some expiry;
}
issued lower magic hash expiry u = record u {
  magic_link_token_hash = hash;
  magic_link_token_expires_at = some expiry;
}
issued lower verify hash expiry u = record u {
  email_verification_token_hash = hash;
  email_verification_token_expiry = some expiry;
}
issued lower (change to) hash expiry u = record u {
  pending_email = normalize_email lower to;
  email_change_token_hash = hash;
  email_change_token_expiry = some expiry;
}

abbrev pub cleared : Kind → User → User
cleared reset u = record u { reset_token_hash = ""; reset_token_expires_at = none }
cleared magic u = record u { magic_link_token_hash = ""; magic_link_token_expires_at = none }
cleared verify u = record u {
  email_verification_token_hash = "";
  email_verification_token_expiry = none;
}
cleared (change _) u = record u {
  email_change_token_hash = "";
  email_change_token_expiry = none;
  pending_email = "";
}

module _ (s : MemoryUserStore) (id tenant : String) (u : User)
    (e : owned s id tenant ≡ some u) where
  pub issue_lem :
      (lower : Char → Char) (kind : Kind) (hash : String) (expiry : ℕ)
      → (index_of kind (issue lower kind id tenant hash expiry s).1
          ≡ put (drop_hash (index_of kind s) (hash_of kind u)) hash id)
        × ((issue lower kind id tenant hash expiry s).1.by_id
            ≡ put s.by_id id (issued lower kind hash expiry u))
  unfolding issue on_user update_reset_token update_magic_link_token update_email_verification_token
      update_email_change_token
  issue_lem lower reset hash expiry = rw (e, on_user) (refl, refl)
  issue_lem lower magic hash expiry = rw (e, on_user) (refl, refl)
  issue_lem lower verify hash expiry = rw (e, on_user) (refl, refl)
  issue_lem lower (change to) hash expiry = rw (e, on_user) (refl, refl)

  pub clear_lem :
      (kind : Kind)
      → (index_of kind (clear kind id tenant s).1 ≡ drop_hash (index_of kind s) (hash_of kind u))
        × ((clear kind id tenant s).1.by_id ≡ put s.by_id id (cleared kind u))
  unfolding clear on_user clear_reset_token clear_magic_link_token clear_email_verification_token
      clear_email_change_token
  clear_lem reset = rw (e, on_user) (refl, refl)
  clear_lem magic = rw (e, on_user) (refl, refl)
  clear_lem verify = rw (e, on_user) (refl, refl)
  clear_lem (change to) = rw (e, on_user) (refl, refl)
