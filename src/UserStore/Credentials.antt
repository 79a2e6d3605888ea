-- ===== src/UserStore/Credentials.antt =====
-- memory_store.go: reset, magic-link, SMS, email-verification and email-change credentials of a user.
use Prim.Native.Char.{Char}
use awesome_go_auth.Base.{ℕ, String, none, some, ◌==◌, if◌then◌else◌, is_some}
use awesome_go_auth.Base.Dict.{get, put, remove}
use awesome_go_auth.Errors.{Result, ok, err, M, invalid_token, invalid_code, user_exists}
use awesome_go_auth.Models.{User}
use awesome_go_auth.UserStore.{
  MemoryUserStore, normalize_email, user_email_key, owned, on_user, store_user, resolve, drop_hash,
}

unfoldable pub update_reset_token : String → String → String → ℕ → M MemoryUserStore (Unit {0})
update_reset_token user_id tenant_id token_hash expiry = on_user user_id tenant_id λ u s.
    let u' = record u { reset_token_hash = token_hash; reset_token_expires_at = some expiry } in
    let index = put (drop_hash s.by_reset_token u.reset_token_hash) token_hash user_id in
    (ok tt, record s { by_reset_token = index; by_id = put s.by_id user_id u' })

unfoldable pub get_user_by_reset_token_hash : String → MemoryUserStore → Result User
get_user_by_reset_token_hash token_hash s =
    resolve invalid_token s.by_reset_token s.by_id token_hash

unfoldable pub clear_reset_token : String → String → M MemoryUserStore (Unit {0})
clear_reset_token user_id tenant_id = on_user user_id tenant_id λ u s.
    let u' = record u { reset_token_hash = ""; reset_token_expires_at = none } in
    let index = drop_hash s.by_reset_token u.reset_token_hash in
    (ok tt, record s { by_reset_token = index; by_id = put s.by_id user_id u' })

unfoldable pub update_magic_link_token : String → String → String → ℕ → M MemoryUserStore (Unit {0})
update_magic_link_token user_id tenant_id token_hash expiry = on_user user_id tenant_id λ u s.
    let u' = record u {
      magic_link_token_hash = token_hash;
      magic_link_token_expires_at = some expiry;
    } in
    let index = put (drop_hash s.by_magic_token u.magic_link_token_hash) token_hash user_id in
    (ok tt, record s { by_magic_token = index; by_id = put s.by_id user_id u' })

unfoldable pub get_user_by_magic_link_token_hash : String → MemoryUserStore → Result User
get_user_by_magic_link_token_hash token_hash s =
    resolve invalid_token s.by_magic_token s.by_id token_hash

unfoldable pub clear_magic_link_token : String → String → M MemoryUserStore (Unit {0})
clear_magic_link_token user_id tenant_id = on_user user_id tenant_id λ u s.
    let u' = record u { magic_link_token_hash = ""; magic_link_token_expires_at = none } in
    let index = drop_hash s.by_magic_token u.magic_link_token_hash in
    (ok tt, record s { by_magic_token = index; by_id = put s.by_id user_id u' })

unfoldable pub update_sms_code : String → String → String → ℕ → M MemoryUserStore (Unit {0})
update_sms_code user_id tenant_id code_hash expiry = on_user user_id tenant_id λ u.
    store_user user_id (record u { sms_code_hash = code_hash; sms_code_expires_at = some expiry })

-- The comparison is secureEqual, whose answer is that of `==`.
unfoldable pub get_user_by_sms_code_hash : String → String → String → MemoryUserStore → Result User
unfolding owned
get_user_by_sms_code_hash user_id tenant_id code_hash s = elim (owned s user_id tenant_id) [
  | none ↦ err invalid_code
  | some u ↦ if u.sms_code_hash == code_hash then ok u else err invalid_code
]

unfoldable pub clear_sms_code : String → String → M MemoryUserStore (Unit {0})
clear_sms_code user_id tenant_id =
    on_user user_id tenant_id
      λ u. store_user user_id (record u { sms_code_hash = ""; sms_code_expires_at = none })

unfoldable pub update_email_verification_token :
    String → String → String → ℕ → M MemoryUserStore (Unit {0})
update_email_verification_token user_id tenant_id token_hash expiry =
    on_user user_id tenant_id λ u s.
      let u' = record u {
        email_verification_token_hash = token_hash;
        email_verification_token_expiry = some expiry;
      } in
      let index =
        put (drop_hash s.by_verify_token u.email_verification_token_hash) token_hash user_id in
      (ok tt, record s { by_verify_token = index; by_id = put s.by_id user_id u' })

unfoldable pub get_user_by_email_verification_token_hash : String → MemoryUserStore → Result User
get_user_by_email_verification_token_hash token_hash s =
    resolve invalid_token s.by_verify_token s.by_id token_hash

unfoldable pub clear_email_verification_token : String → String → M MemoryUserStore (Unit {0})
clear_email_verification_token user_id tenant_id = on_user user_id tenant_id λ u s.
    let u' = record u {
      email_verification_token_hash = "";
      email_verification_token_expiry = none;
    } in
    let index = drop_hash s.by_verify_token u.email_verification_token_hash in
    (ok tt, record s { by_verify_token = index; by_id = put s.by_id user_id u' })

module _ (lower : Char → Char) where
  unfoldable pub update_email_change_token :
      String → String → String → String → ℕ → M MemoryUserStore (Unit {0})
  update_email_change_token user_id tenant_id pending_email token_hash expiry =
      on_user user_id tenant_id λ u s.
        let u' = record u {
          pending_email = normalize_email lower pending_email;
          email_change_token_hash = token_hash;
          email_change_token_expiry = some expiry;
        } in
        let index =
          put (drop_hash s.by_email_change_token u.email_change_token_hash) token_hash user_id in
        (ok tt, record s { by_email_change_token = index; by_id = put s.by_id user_id u' })

  unfoldable pub apply_email_change : String → String → M MemoryUserStore (Unit {0})
  apply_email_change user_id tenant_id = on_user user_id tenant_id λ u s.
      let old_key = user_email_key lower u.email u.tenant_id in
      let new_key = user_email_key lower u.pending_email u.tenant_id in
      let u' = record u { email = u.pending_email; pending_email = "" } in
      if is_some (get s.by_email new_key) then (err user_exists, s) else (
        ok tt,
        record s {
          by_email = put (remove s.by_email old_key) new_key u.id;
          by_id = put s.by_id user_id u';
        },
      )

unfoldable pub get_user_by_email_change_token_hash : String → MemoryUserStore → Result User
get_user_by_email_change_token_hash token_hash s =
    resolve invalid_token s.by_email_change_token s.by_id token_hash

unfoldable pub clear_email_change_token : String → String → M MemoryUserStore (Unit {0})
clear_email_change_token user_id tenant_id = on_user user_id tenant_id λ u s.
    let u' = record u {
      email_change_token_hash = "";
      email_change_token_expiry = none;
      pending_email = "";
    } in
    let index = drop_hash s.by_email_change_token u.email_change_token_hash in
    (ok tt, record s { by_email_change_token = index; by_id = put s.by_id user_id u' })
