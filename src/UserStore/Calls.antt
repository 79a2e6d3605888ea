-- ===== src/UserStore/Calls.antt =====
-- Every sequence of calls of MemoryUserStore's methods, from an empty store.
use Prim.Native.Char.{Char}
use awesome_go_auth.Base.{ℕ, String, Bool, ◌≡◌, refl, some, none, List, [], ◌∷◌, sym, ◌∙◌, ap}
use mathlib.Core.Option.{some-injective}
use awesome_go_auth.Base.Dict.{get}
use awesome_go_auth.Models.{User}
use awesome_go_auth.UserStore.{
  MemoryUserStore, new_memory_user_store, create_user, update_profile, update_phone_number,
  delete_user, update_password, update_totp_secret, update_require_2fa, update_is_admin,
  mark_email_verified,
}
use awesome_go_auth.UserStore.Credentials.{update_sms_code, clear_sms_code, apply_email_change}
use awesome_go_auth.UserStore.OneTime.{Kind, reset, magic, verify, change, issue, clear}
use awesome_go_auth.UserStore.Invariant.{
  IsIndexed, IsIndexed-new, IsIndexed-quiet, on_user-keeps, key_of,
}
use awesome_go_auth.UserStore.Membership.{
  create_user-IsIndexed, delete_user-IsIndexed, apply_email_change-IsIndexed,
}
use awesome_go_auth.UserStore.Preserved.{
  quiet, update_password-IsIndexed, update_reset_token-IsIndexed, clear_reset_token-IsIndexed,
  update_magic_link_token-IsIndexed, clear_magic_link_token-IsIndexed,
  update_email_verification_token-IsIndexed, clear_email_verification_token-IsIndexed,
  update_email_change_token-IsIndexed, clear_email_change_token-IsIndexed,
}

-- The methods that write. The reads leave the store as it is by their types.
pub data Call : Type 0 where
  create : User → Call
  profile : ℕ → String → String → String → String → Call
  phone : ℕ → String → String → String → Call
  delete : String → String → Call
  password : String → String → String → Call
  totp : String → String → String → Bool → Call
  require_2fa is_admin verified : String → String → Bool → Call
  send_sms : String → String → String → ℕ → Call
  end_sms : String → String → Call
  give : Kind → String → String → String → ℕ → Call
  take_back : Kind → String → String → Call
  apply_change : String → String → Call

module _ (lower : Char → Char) where
  unfoldable pub run : Call → MemoryUserStore → MemoryUserStore
  run (create u) s = (create_user lower u s).1
  run (profile now id tenant first last) s = (update_profile now id tenant first last s).1
  run (phone now id tenant number) s = (update_phone_number now id tenant number s).1
  run (delete id tenant) s = (delete_user lower id tenant s).1
  run (password id tenant hash) s = (update_password id tenant hash s).1
  run (totp id tenant secret enabled) s = (update_totp_secret id tenant secret enabled s).1
  run (require_2fa id tenant b) s = (update_require_2fa id tenant b s).1
  run (is_admin id tenant b) s = (update_is_admin id tenant b s).1
  run (verified id tenant b) s = (mark_email_verified id tenant b s).1
  run (send_sms id tenant hash expiry) s = (update_sms_code id tenant hash expiry s).1
  run (end_sms id tenant) s = (clear_sms_code id tenant s).1
  run (give kind id tenant hash expiry) s = (issue lower kind id tenant hash expiry s).1
  run (take_back kind id tenant) s = (clear kind id tenant s).1
  run (apply_change id tenant) s = (apply_email_change lower id tenant s).1

  unfoldable pub run_all : List Call → MemoryUserStore → MemoryUserStore
  run_all [] s = s
  run_all (c ∷ cs) s = run_all cs (run c s)

  run-IsIndexed : (c : Call) {s : MemoryUserStore} → IsIndexed lower s → IsIndexed lower (run c s)
  unfolding run issue clear update_profile update_phone_number update_totp_secret update_require_2fa
      update_is_admin mark_email_verified update_sms_code clear_sms_code
  run-IsIndexed (create u) h = create_user-IsIndexed lower h u
  run-IsIndexed (profile now id tenant first last) {s} h =
      on_user-keeps (IsIndexed lower) id tenant _ s h λ u found.
        IsIndexed-quiet lower h id u
          (record u { first_name = first; last_name = last; updated_at = now }) found
          (refl, refl, refl) (refl, refl, refl, refl)
  run-IsIndexed (phone now id tenant number) {s} h =
      on_user-keeps (IsIndexed lower) id tenant _ s h λ u found.
        IsIndexed-quiet lower h id u (record u { phone_number = number; updated_at = now }) found
          (refl, refl, refl) (refl, refl, refl, refl)
  run-IsIndexed (delete id tenant) h = delete_user-IsIndexed lower h id tenant
  run-IsIndexed (password id tenant hash) h = update_password-IsIndexed lower h id tenant hash
  run-IsIndexed (totp id tenant secret enabled) h =
      quiet lower h id tenant (λ u. record u { totp_secret = secret; is_totp_enabled = enabled })
        (λ u. (refl, refl, refl)) (λ u. (refl, refl, refl, refl))
  run-IsIndexed (require_2fa id tenant b) h =
      quiet lower h id tenant (λ u. record u { require_2fa = b }) (λ u. (refl, refl, refl))
        (λ u. (refl, refl, refl, refl))
  run-IsIndexed (is_admin id tenant b) h =
      quiet lower h id tenant (λ u. record u { is_admin = b }) (λ u. (refl, refl, refl))
        (λ u. (refl, refl, refl, refl))
  run-IsIndexed (verified id tenant b) h =
      quiet lower h id tenant (λ u. record u { is_email_verified = b }) (λ u. (refl, refl, refl))
        (λ u. (refl, refl, refl, refl))
  run-IsIndexed (send_sms id tenant hash expiry) h =
      quiet lower h id tenant
        (λ u. record u { sms_code_hash = hash; sms_code_expires_at = some expiry })
        (λ u. (refl, refl, refl)) (λ u. (refl, refl, refl, refl))
  run-IsIndexed (end_sms id tenant) h =
      quiet lower h id tenant (λ u. record u { sms_code_hash = ""; sms_code_expires_at = none })
        (λ u. (refl, refl, refl)) (λ u. (refl, refl, refl, refl))
  run-IsIndexed (give reset id tenant hash expiry) h =
      update_reset_token-IsIndexed lower h id tenant hash expiry
  run-IsIndexed (give magic id tenant hash expiry) h =
      update_magic_link_token-IsIndexed lower h id tenant hash expiry
  run-IsIndexed (give verify id tenant hash expiry) h =
      update_email_verification_token-IsIndexed lower h id tenant hash expiry
  run-IsIndexed (give (change to) id tenant hash expiry) h =
      update_email_change_token-IsIndexed lower h id tenant to hash expiry
  run-IsIndexed (take_back reset id tenant) h = clear_reset_token-IsIndexed lower h id tenant
  run-IsIndexed (take_back magic id tenant) h = clear_magic_link_token-IsIndexed lower h id tenant
  run-IsIndexed (take_back verify id tenant) h =
      clear_email_verification_token-IsIndexed lower h id tenant
  run-IsIndexed (take_back (change to) id tenant) h =
      clear_email_change_token-IsIndexed lower h id tenant
  run-IsIndexed (apply_change id tenant) h = apply_email_change-IsIndexed lower h id tenant

  run_all-keeps :
      (cs : List Call) {s : MemoryUserStore} → IsIndexed lower s → IsIndexed lower (run_all cs s)
  unfolding run_all
  run_all-keeps [] h = h
  run_all-keeps (c ∷ cs) h = run_all-keeps cs (run-IsIndexed c h)

  -- Whatever the calls, in whatever order and whether they fail or not, a user store that began
  -- empty keeps ids as keys, an exact index of addresses, and credential indexes that, for a key
  -- that is not empty, name only users who hold the credential.
  pub run_all-IsIndexed : (cs : List Call) → IsIndexed lower (run_all cs new_memory_user_store)
  run_all-IsIndexed cs = run_all-keeps cs (IsIndexed-new lower)

  -- Whatever the calls, no two users of the store have one tenant-and-address key.
  pub addresses_unique :
      (cs : List Call) (j k : String) (u v : User)
      → get (run_all cs new_memory_user_store).by_id j ≡ some u
      → get (run_all cs new_memory_user_store).by_id k ≡ some v
      → key_of lower u ≡ key_of lower v
      → j ≡ k
  addresses_unique cs j k u v e f same =
      let h = run_all-IsIndexed cs in
      some-injective j k (sym (h.email_complete j u e) ∙ ap (get _) same ∙ h.email_complete k v f)
