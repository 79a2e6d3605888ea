-- ===== src/UserStore/OneTime/Laws.antt =====
-- A credential that was issued is redeemed by its user until it is cleared or replaced, and then
-- never; the credentials of the other users are not touched.
use Prim.Native.Char.{Char}
use awesome_go_auth.Base.{ℕ, String, ◌≡◌, ◌≢◌, refl, sym, ap, some, ◌∙◌}
use awesome_go_auth.Errors.{ok, err, invalid_token}
use awesome_go_auth.Models.{User}
use awesome_go_auth.UserStore.{MemoryUserStore, owned, resolve}
use awesome_go_auth.UserStore.Indexes.{Indexes}
use awesome_go_auth.UserStore.Invariant.{IsIndexed}
use awesome_go_auth.UserStore.OneTime.{
  Kind, reset, magic, verify, change, issue, clear, redeem, expiry_of, hash_of, index_of,
  redeem_lem, issued, issue_lem, clear_lem,
}
use awesome_go_auth.UserStore.OneTime.Resolve.{
  resolve-put, resolve-drop, resolve-other, resolve-kept, resolve-found, owned_self,
}

module _ (lower : Char → Char) where
  issued-keeps :
      (kind : Kind) (hash : String) (expiry : ℕ) (u : User)
      → ((issued lower kind hash expiry u).id ≡ u.id)
        × ((issued lower kind hash expiry u).tenant_id ≡ u.tenant_id)
        × (expiry_of kind (issued lower kind hash expiry u) ≡ some expiry)
        × (hash_of kind (issued lower kind hash expiry u) ≡ hash)
  issued-keeps reset hash expiry u = (refl, refl, refl, refl)
  issued-keeps magic hash expiry u = (refl, refl, refl, refl)
  issued-keeps verify hash expiry u = (refl, refl, refl, refl)
  issued-keeps (change to) hash expiry u = (refl, refl, refl, refl)

  -- A credential issued to a user of the store is redeemed by that user, with the expiry it was
  -- issued with.
  pub redeem-issue :
      (kind : Kind) (s : MemoryUserStore) (id tenant hash : String) (expiry : ℕ) (u : User)
      → owned s id tenant ≡ some u
      → (u' : User) × (redeem kind hash (issue lower kind id tenant hash expiry s).1 ≡ ok u')
        × (u'.id ≡ u.id)
        × (u'.tenant_id ≡ u.tenant_id)
        × (expiry_of kind u' ≡ some expiry)
  redeem-issue kind s id tenant hash expiry u e =
      let (i, t) = issue_lem s id tenant u e lower kind hash expiry in
      let (same_id, same_tenant, expires, hashed) = issued-keeps kind hash expiry u in
      (
        issued lower kind hash expiry u,
        rw (redeem_lem, i, t) (resolve-put s.by_id id _ _ hash),
        same_id,
        same_tenant,
        expires,
      )

  indexed_by :
      (kind : Kind) {s : MemoryUserStore}
      → IsIndexed lower s
      → Indexes (hash_of kind) (index_of kind s) s.by_id
  indexed_by reset h = h.reset
  indexed_by magic h = h.magic
  indexed_by verify h = h.verify
  indexed_by (change to) h = h.change

  -- Whom a redeemed credential names: the guard of the other methods lets him through.
  pub redeem-owned :
      (kind : Kind) (s : MemoryUserStore) (hash : String) (u : User)
      → IsIndexed lower s
      → hash ≢ ""
      → redeem kind hash s ≡ ok u
      → (owned s u.id u.tenant_id ≡ some u) × (hash_of kind u ≡ hash)
  redeem-owned kind s hash u h ne e =
      let e' : resolve invalid_token (index_of kind s) s.by_id hash ≡ ok u =
        sym (redeem_lem kind hash s) ∙ e in
      let (id, named, found) = resolve-found invalid_token (index_of kind s) s.by_id hash u e' in
      let (v, has, hashed) = indexed_by kind h hash id ne named in
      (
        owned_self s id u found (h.id_key id u found),
        let same : v ≡ u = cc in ap (hash_of kind) (sym same) ∙ hashed,
      )

  -- In a consistent store, a credential with a hash that is not empty, once cleared for the user who
  -- redeems it, is redeemed by nobody.
  pub redeem-clear :
      (kind : Kind) (s : MemoryUserStore) (hash : String) (u : User)
      → IsIndexed lower s
      → hash ≢ ""
      → redeem kind hash s ≡ ok u
      → redeem kind hash (clear kind u.id u.tenant_id s).1 ≡ err invalid_token
  redeem-clear kind s hash u h ne e =
      let (own, hashed) = redeem-owned kind s hash u h ne e in
      let (i, t) = clear_lem s u.id u.tenant_id u own kind in
      rw (redeem_lem, i, t) (resolve-drop s.by_id u.id _ (index_of kind s) _ hash ne hashed)

  -- In a consistent store, issuing a user a credential of a kind retires his old one of that kind,
  -- if its hash is not empty and differs from the new one.
  pub redeem-issue_old :
      (kind : Kind) (s : MemoryUserStore) (old hash : String) (expiry : ℕ) (u : User)
      → IsIndexed lower s
      → old ≢ ""
      → redeem kind old s ≡ ok u
      → hash ≢ old
      → redeem kind old (issue lower kind u.id u.tenant_id hash expiry s).1 ≡ err invalid_token
  redeem-issue_old kind s old hash expiry u h ne e new =
      let (own, hashed) = redeem-owned kind s old u h ne e in
      let (i, t) = issue_lem s u.id u.tenant_id u own lower kind hash expiry in
      rw (redeem_lem, i, t)
        (resolve-other s.by_id u.id _ (index_of kind s) _ hash old new
          (resolve-drop s.by_id u.id _ (index_of kind s) _ old ne hashed))

  -- Clearing one user's credential leaves every other one redeemable.
  pub redeem-clear_other :
      (kind : Kind) (s : MemoryUserStore) (id tenant hash : String) (u v : User)
      → IsIndexed lower s
      → hash ≢ ""
      → owned s id tenant ≡ some u
      → redeem kind hash s ≡ ok v
      → v.id ≢ id
      → hash_of kind u ≢ hash
      → redeem kind hash (clear kind id tenant s).1 ≡ ok v
  redeem-clear_other kind s id tenant hash u v h ne own e other differs =
      let e' : resolve invalid_token (index_of kind s) s.by_id hash ≡ ok v =
        sym (redeem_lem kind hash s) ∙ e in
      let (j, named, found) = resolve-found invalid_token (index_of kind s) s.by_id hash v e' in
      let (i, t) = clear_lem s id tenant u own kind in
      rw (redeem_lem, i, t)
        (resolve-kept s.by_id id _ (index_of kind s) _ hash ne j v named found
          (λ p. other (h.id_key j v found ∙ sym p)) differs)
