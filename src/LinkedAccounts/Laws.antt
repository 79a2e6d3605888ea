-- ===== src/LinkedAccounts/Laws.antt =====
-- What a lookup by a provider's account gives after a link was saved or deleted.
use awesome_go_auth.Base.{
  String, ◌≡◌, some, ◌==◌, ◌&&◌, eq_iff, arith, if◌then◌else◌, Option-cases, inl, inr,
}
use awesome_go_auth.Base.Dict.{empty, get, put, remove, get-put, get-remove, get-empty}
use awesome_go_auth.Errors.{ok, err, external}
use awesome_go_auth.LinkedAccounts.{
  OAuthLinkedAccount, MemoryLinkedAccounts, save_link, find_by_provider, delete_link, drop_provider,
}
use mathlib.Core.Option.{get_or}

module _ (s : MemoryLinkedAccounts) (provider provider_id : String) where
  -- A saved link is what the lookup of its provider's account gives; the others give what they gave.
  pub find_by_provider-save_link :
      (link : OAuthLinkedAccount)
      → find_by_provider provider provider_id (save_link link s).1 ≡ (
          if (link.provider == provider) && (link.provider_id == provider_id)
          then ok link
          else find_by_provider provider provider_id s)
  unfolding find_by_provider save_link
  find_by_provider-save_link link =
      let old = get_or (get s.by_prv link.provider) empty in
      ground (
        arith,
        get-put s.by_prv link.provider provider (put old link.provider_id link),
        get-put old link.provider_id provider_id link,
        eq_iff link.provider provider,
      )

  -- After a link is deleted by its id, its provider's account is found under no link, also where a
  -- newer link had taken its place; every other account is found as before.
  pub find_by_provider-delete_link :
      (id : String) (link : OAuthLinkedAccount)
      → get s.by_id id ≡ some link
      → find_by_provider provider provider_id (delete_link id s).1 ≡ (
          if (link.provider == provider) && (link.provider_id == provider_id)
          then err (external "auth: linked account not found")
          else find_by_provider provider provider_id s)
  unfolding find_by_provider delete_link drop_provider
  find_by_provider-delete_link id link has = elim (Option-cases (get s.by_prv link.provider)) [
    | inl none_there ↦ ground (
      arith,
      has,
      none_there,
      get-empty {V = OAuthLinkedAccount} provider_id,
      eq_iff link.provider provider,
    )
    | inr (prv, there) ↦ ground (
      arith,
      has,
      there,
      get-put s.by_prv link.provider provider (remove prv link.provider_id),
      get-remove prv link.provider_id provider_id,
      eq_iff link.provider provider,
    )
  ]
