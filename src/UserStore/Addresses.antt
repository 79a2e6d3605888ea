-- ===== src/UserStore/Addresses.antt =====
-- The key of the index of addresses, `tenantID + ":" + normalizeEmail(email)`: it separates the
-- tenants whose ids have no colon, and no others.
use Prim.Native.Char.{Char, code}
use Prim.Native.String.{[], ◌∷◌, ◌++◌ as cat}
use text.Mathlib.TextLemmas.{nil-append, cons-append, append_assoc, cons-eq-cons}
use awesome_go_auth.Base.{String, ◌≡◌, ◌≢◌, refl, sym, some, ap, ◌∙◌, arith, Option-cases, inl, inr}
use awesome_go_auth.Base.Dict.{get, get-put_self}
use awesome_go_auth.Errors.{ok, user_not_found}
use awesome_go_auth.Models.{User, zero_user}
use awesome_go_auth.UserStore.{
  MemoryUserStore, normalize_email, user_email_key, create_user, get_user_by_email, resolve,
}
use awesome_go_auth.UserStore.Invariant.{IsIndexed, key_of, key_of-ne-empty}
use awesome_go_auth.UserStore.OneTime.Resolve.{resolve-found}

-- a user with the address in the tenant
abbrev at : String → String → User
at email tenant = record zero_user { email = email; tenant_id = tenant }

abbrev pub NoColon : String → Type 0
NoColon [] = Unit
NoColon (c ∷ s) = (code c ≢ b':') × NoColon s

abbrev pub colon : Char
colon = ":"

colon-append : (x : String) → cat ":" x ≡ colon ∷ x
colon-append x = cons-append colon [] x ∙ ap (λ t. colon ∷ t) (nil-append x)

-- The parts of `a + ":" + x` are determined, if `a` has no colon.
parts :
    (a b x y : String)
    → NoColon a
    → NoColon b
    → cat a (colon ∷ x) ≡ cat b (colon ∷ y)
    → (a ≡ b) × (x ≡ y)
parts [] [] x y na nb e = (refl, (cons-eq-cons.0 (sym (nil-append _) ∙ e ∙ nil-append _)).1)
parts [] (c ∷ b) x y na nb e =
    absurd (nb.0 (ap code (sym (cons-eq-cons.0 (sym (nil-append _) ∙ e ∙ cons-append c b _)).0)))
parts (c ∷ a) [] x y na nb e =
    absurd (na.0 (ap code (cons-eq-cons.0 (sym (cons-append c a _) ∙ e ∙ nil-append _)).0))
parts (c ∷ a) (d ∷ b) x y na nb e =
    let (head, tail) = cons-eq-cons.0 (sym (cons-append c a _) ∙ e ∙ cons-append d b _) in
    let (same, rest) = parts a b x y na.1 nb.1 tail in (cons-eq-cons.1 (head, same), rest)

module _ (lower : Char → Char) where
  key_lem :
      (email tenant : String)
      → user_email_key lower email tenant ≡ cat tenant (colon ∷ normalize_email lower email)
  unfolding user_email_key
  key_lem email tenant =
      append_assoc tenant ":" _ ∙ ap (cat tenant) (colon-append (normalize_email lower email))

  -- Where no tenant id has a colon, a lookup by address finds only users of the tenant that was
  -- asked for, and only under the address that was asked for, up to case and outer space.
  pub get_user_by_email_tenant :
      (s : MemoryUserStore) (email tenant : String) (u : User)
      → IsIndexed lower s
      → ((k : String) (v : User) → get s.by_id k ≡ some v → NoColon v.tenant_id)
      → NoColon tenant
      → get_user_by_email lower email tenant s ≡ ok u
      → (u.tenant_id ≡ tenant) × (normalize_email lower u.email ≡ normalize_email lower email)
  unfolding get_user_by_email
  get_user_by_email_tenant s email tenant u h plain none_in e =
      let key = user_email_key lower email tenant in
      let (id, named, found) = resolve-found user_not_found s.by_email s.by_id key u e in
      let (v, has, keyed) = h.email key id (key_of-ne-empty lower (at email tenant)) named in
      let same : v ≡ u = cc in
      parts u.tenant_id tenant _ _ (plain id u found) none_in (
        sym (key_lem u.email u.tenant_id)
        ∙ ap (key_of lower) (sym same)
        ∙ keyed
        ∙ key_lem email tenant)

  created_found :
      (s : MemoryUserStore) (u v : User)
      → (create_user lower u s).0 ≡ ok v
      → let t = (create_user lower u s).1 in
        resolve user_not_found t.by_email t.by_id (key_of lower u) ≡ ok u
  unfolding create_user resolve
  created_found s u v done = elim (Option-cases (get s.by_id u.id)) [
    | inl fresh ↦ elim (Option-cases (get s.by_email (key_of lower u))) [
      | inl free ↦ ground (
        arith,
        fresh,
        free,
        get-put_self s.by_email (key_of lower u) u.id,
        get-put_self s.by_id u.id u,
      )
      | inr (j, taken) ↦ absurd (ground (arith, fresh, taken, done))
    ]
    | inr (w, exists) ↦ absurd (ground (arith, exists, done))
  ]

  -- A user whose creation succeeded is found in his tenant by his address in any form that
  -- normalises to the same text.
  pub get_user_by_email-create_user :
      (s : MemoryUserStore) (u v : User) (email : String)
      → (create_user lower u s).0 ≡ ok v
      → normalize_email lower email ≡ normalize_email lower u.email
      → get_user_by_email lower email u.tenant_id (create_user lower u s).1 ≡ ok u
  unfolding get_user_by_email
  get_user_by_email-create_user s u v email done same =
      rw
        (key_lem email u.tenant_id
          ∙ ap (λ n. cat u.tenant_id (colon ∷ n)) same
          ∙ sym (key_lem u.email u.tenant_id))
        (created_found s u v done)

  -- A user whose creation succeeded in tenant a under an address that begins with b and a colon is
  -- found, in the tenant a:b, by the rest of the address.
  pub cross_tenant :
      (s : MemoryUserStore) (a b c : String) (u v : User)
      → u.tenant_id ≡ a
      → normalize_email lower u.email ≡ cat b (colon ∷ normalize_email lower c)
      → (create_user lower u s).0 ≡ ok v
      → get_user_by_email lower c (cat a (colon ∷ b)) (create_user lower u s).1 ≡ ok u
  unfolding get_user_by_email
  cross_tenant s a b c u v tenant address done =
      let keys : user_email_key lower c (cat a (colon ∷ b)) ≡ key_of lower u =
        key_lem c (cat a (colon ∷ b))
        ∙ append_assoc a (colon ∷ b) _
        ∙ ap (cat a) (cons-append colon b _)
        ∙ cc (
          ap (λ t. cat t (colon ∷ normalize_email lower u.email)) tenant,
          ap (λ n. cat a (colon ∷ n)) address,
        )
        ∙ sym (key_lem u.email u.tenant_id) in
      rw keys (created_found s u v done)
