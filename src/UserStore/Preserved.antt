-- ===== src/UserStore/Preserved.antt =====
-- Every method of MemoryUserStore keeps the invariant, whether it succeeds or fails.
use Prim.Native.Char.{Char}
use awesome_go_auth.Base.{ℕ, String, refl, some, none}
use awesome_go_auth.Models.{User}
use awesome_go_auth.UserStore.{
  MemoryUserStore, normalize_email, on_user, store_user, update_password,
}
use awesome_go_auth.UserStore.Credentials.{
  update_reset_token, clear_reset_token, update_magic_link_token, clear_magic_link_token,
  update_email_verification_token, clear_email_verification_token, update_email_change_token,
  clear_email_change_token,
}
use awesome_go_auth.UserStore.Indexes.{Indexes-store, Indexes-drop, Indexes-point}
use awesome_go_auth.UserStore.Invariant.{
  IsIndexed, IsIndexed-write, IsIndexed-quiet, on_user-keeps, SameName, SameHashes,
}

module _ (lower : Char → Char) {s : MemoryUserStore} (h : IsIndexed lower s) where
  pub quiet :
      (id tenant_id : String) (change : User → User)
      → ((u : User) → SameName lower (change u) u)
      → ((u : User) → SameHashes lower (change u) u)
      → IsIndexed lower (on_user id tenant_id (λ u. store_user id (change u)) s).1
  unfolding store_user
  quiet id tenant_id change name hashes =
      on_user-keeps (IsIndexed lower) id tenant_id (λ u. store_user id (change u)) s h
        λ u found. IsIndexed-quiet lower h id u (change u) found (name u) (hashes u)

  pub update_password-IsIndexed :
      (id tenant_id hash : String) → IsIndexed lower (update_password id tenant_id hash s).1
  unfolding update_password
  update_password-IsIndexed id tenant_id hash =
      quiet id tenant_id (λ u. record u { password_hash = hash }) (λ u. (refl, refl, refl))
        (λ u. (refl, refl, refl, refl))

  pub update_reset_token-IsIndexed :
      (id tenant_id hash : String) (expiry : ℕ)
      → IsIndexed lower (update_reset_token id tenant_id hash expiry s).1
  unfolding update_reset_token
  update_reset_token-IsIndexed id tenant_id hash expiry =
      on_user-keeps (IsIndexed lower) id tenant_id _ s h λ u found.
        let u' = record u { reset_token_hash = hash; reset_token_expires_at = some expiry } in
        IsIndexed-write lower h id u u' found (refl, refl, refl)
          (Indexes-point _ s.by_reset_token s.by_id h.reset id u' u hash found refl)
          (Indexes-store _ s.by_magic_token s.by_id h.magic id u' u found refl)
          (Indexes-store _ s.by_verify_token s.by_id h.verify id u' u found refl)
          (Indexes-store _ s.by_email_change_token s.by_id h.change id u' u found refl)

  pub clear_reset_token-IsIndexed :
      (id tenant_id : String) → IsIndexed lower (clear_reset_token id tenant_id s).1
  unfolding clear_reset_token
  clear_reset_token-IsIndexed id tenant_id =
      on_user-keeps (IsIndexed lower) id tenant_id _ s h λ u found.
        let u' = record u { reset_token_hash = ""; reset_token_expires_at = none } in
        IsIndexed-write lower h id u u' found (refl, refl, refl)
          (Indexes-drop _ s.by_reset_token s.by_id h.reset id u' u found)
          (Indexes-store _ s.by_magic_token s.by_id h.magic id u' u found refl)
          (Indexes-store _ s.by_verify_token s.by_id h.verify id u' u found refl)
          (Indexes-store _ s.by_email_change_token s.by_id h.change id u' u found refl)

  pub update_magic_link_token-IsIndexed :
      (id tenant_id hash : String) (expiry : ℕ)
      → IsIndexed lower (update_magic_link_token id tenant_id hash expiry s).1
  unfolding update_magic_link_token
  update_magic_link_token-IsIndexed id tenant_id hash expiry =
      on_user-keeps (IsIndexed lower) id tenant_id _ s h λ u found.
        let u' = record u {
          magic_link_token_hash = hash;
          magic_link_token_expires_at = some expiry;
        } in
        IsIndexed-write lower h id u u' found (refl, refl, refl)
          (Indexes-store _ s.by_reset_token s.by_id h.reset id u' u found refl)
          (Indexes-point _ s.by_magic_token s.by_id h.magic id u' u hash found refl)
          (Indexes-store _ s.by_verify_token s.by_id h.verify id u' u found refl)
          (Indexes-store _ s.by_email_change_token s.by_id h.change id u' u found refl)

  pub clear_magic_link_token-IsIndexed :
      (id tenant_id : String) → IsIndexed lower (clear_magic_link_token id tenant_id s).1
  unfolding clear_magic_link_token
  clear_magic_link_token-IsIndexed id tenant_id =
      on_user-keeps (IsIndexed lower) id tenant_id _ s h λ u found.
        let u' = record u { magic_link_token_hash = ""; magic_link_token_expires_at = none } in
        IsIndexed-write lower h id u u' found (refl, refl, refl)
          (Indexes-store _ s.by_reset_token s.by_id h.reset id u' u found refl)
          (Indexes-drop _ s.by_magic_token s.by_id h.magic id u' u found)
          (Indexes-store _ s.by_verify_token s.by_id h.verify id u' u found refl)
          (Indexes-store _ s.by_email_change_token s.by_id h.change id u' u found refl)

  pub update_email_verification_token-IsIndexed :
      (id tenant_id hash : String) (expiry : ℕ)
      → IsIndexed lower (update_email_verification_token id tenant_id hash expiry s).1
  unfolding update_email_verification_token
  update_email_verification_token-IsIndexed id tenant_id hash expiry =
      on_user-keeps (IsIndexed lower) id tenant_id _ s h λ u found.
        let u' = record u {
          email_verification_token_hash = hash;
          email_verification_token_expiry = some expiry;
        } in
        IsIndexed-write lower h id u u' found (refl, refl, refl)
          (Indexes-store _ s.by_reset_token s.by_id h.reset id u' u found refl)
          (Indexes-store _ s.by_magic_token s.by_id h.magic id u' u found refl)
          (Indexes-point _ s.by_verify_token s.by_id h.verify id u' u hash found refl)
          (Indexes-store _ s.by_email_change_token s.by_id h.change id u' u found refl)

  pub clear_email_verification_token-IsIndexed :
      (id tenant_id : String) → IsIndexed lower (clear_email_verification_token id tenant_id s).1
  unfolding clear_email_verification_token
  clear_email_verification_token-IsIndexed id tenant_id =
      on_user-keeps (IsIndexed lower) id tenant_id _ s h λ u found.
        let u' = record u {
          email_verification_token_hash = "";
          email_verification_token_expiry = none;
        } in
        IsIndexed-write lower h id u u' found (refl, refl, refl)
          (Indexes-store _ s.by_reset_token s.by_id h.reset id u' u found refl)
          (Indexes-store _ s.by_magic_token s.by_id h.magic id u' u found refl)
          (Indexes-drop _ s.by_verify_token s.by_id h.verify id u' u found)
          (Indexes-store _ s.by_email_change_token s.by_id h.change id u' u found refl)

  pub update_email_change_token-IsIndexed :
      (id tenant_id pending hash : String) (expiry : ℕ)
      → IsIndexed lower (update_email_change_token lower id tenant_id pending hash expiry s).1
  unfolding update_email_change_token
  update_email_change_token-IsIndexed id tenant_id pending hash expiry =
      on_user-keeps (IsIndexed lower) id tenant_id _ s h λ u found.
        let u' = record u {
          pending_email = normalize_email lower pending;
          email_change_token_hash = hash;
          email_change_token_expiry = some expiry;
        } in
        IsIndexed-write lower h id u u' found (refl, refl, refl)
          (Indexes-store _ s.by_reset_token s.by_id h.reset id u' u found refl)
          (Indexes-store _ s.by_magic_token s.by_id h.magic id u' u found refl)
          (Indexes-store _ s.by_verify_token s.by_id h.verify id u' u found refl)
          (Indexes-point _ s.by_email_change_token s.by_id h.change id u' u hash found refl)

  pub clear_email_change_token-IsIndexed :
      (id tenant_id : String) → IsIndexed lower (clear_email_change_token id tenant_id s).1
  unfolding clear_email_change_token
  clear_email_change_token-IsIndexed id tenant_id =
      on_user-keeps (IsIndexed lower) id tenant_id _ s h λ u found.
        let u' = record u {
          email_change_token_hash = "";
          email_change_token_expiry = none;
          pending_email = "";
        } in
        IsIndexed-write lower h id u u' found (refl, refl, refl)
          (Indexes-store _ s.by_reset_token s.by_id h.reset id u' u found refl)
          (Indexes-store _ s.by_magic_token s.by_id h.magic id u' u found refl)
          (Indexes-store _ s.by_verify_token s.by_id h.verify id u' u found refl)
          (Indexes-drop _ s.by_email_change_token s.by_id h.change id u' u found)
