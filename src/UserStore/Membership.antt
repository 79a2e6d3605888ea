-- ===== src/UserStore/Membership.antt =====
-- Creating and deleting a user and changing his address keep the invariant.
use Prim.Native.Char.{Char}
use awesome_go_auth.Base.{
  String, ◌≡◌, refl, some, none, false, ◌==◌, eq_iff, arith, Option-cases, inl, inr,
}
use awesome_go_auth.Base.Dict.{get, put, remove, get-put, get-remove}
use awesome_go_auth.Models.{User}
use awesome_go_auth.UserStore.{MemoryUserStore, drop_hash, create_user, delete_user}
use awesome_go_auth.UserStore.Credentials.{apply_email_change}
use awesome_go_auth.UserStore.Indexes.{
  Indexes-store, Indexes-point, Indexes-insert, Indexes-enter, Indexes-delete,
}
use awesome_go_auth.UserStore.Invariant.{
  key_of, IsIndexed, SameHashes, on_user-keeps, key_of-ne-empty,
}

module _ (lower : Char → Char) {s : MemoryUserStore} (h : IsIndexed lower s) where
  enter :
      (u : User)
      → get s.by_id u.id ≡ none
      → get s.by_email (key_of lower u) ≡ none
      → IsIndexed lower
          (record s { by_id = put s.by_id u.id u; by_email = put s.by_email (key_of lower u) u.id })
  enter u fresh free = record {
    id_key = λ k w e. ground (arith, get-put s.by_id u.id k u, eq_iff u.id k, h.id_key k w);
    email =
        Indexes-enter (key_of lower) s.by_email s.by_id h.email u.id u (key_of lower u) fresh refl;
    email_complete = λ k w e. ground (
      arith,
      get-put s.by_id u.id k u,
      get-put s.by_email (key_of lower u) (key_of lower w) u.id,
      eq_iff u.id k,
      eq_iff (key_of lower u) (key_of lower w),
      h.email_complete k w,
    );
    reset = Indexes-insert _ s.by_reset_token s.by_id h.reset u.id u fresh;
    magic = Indexes-insert _ s.by_magic_token s.by_id h.magic u.id u fresh;
    verify = Indexes-insert _ s.by_verify_token s.by_id h.verify u.id u fresh;
    change = Indexes-insert _ s.by_email_change_token s.by_id h.change u.id u fresh;
  }

  pub create_user-IsIndexed : (u : User) → IsIndexed lower (create_user lower u s).1
  unfolding create_user
  create_user-IsIndexed u = elim (Option-cases (get s.by_id u.id)) [
    | inl fresh ↦ elim (Option-cases (get s.by_email (key_of lower u))) [
      | inl free ↦ rw (fresh, free) (enter u fresh free)
      | inr (j, taken) ↦ rw (fresh, taken) h
    ]
    | inr (v, exists) ↦ rw exists h
  ]

  -- the index of addresses has no empty key, so dropping an entry is deleting it
  drop_hash-key :
      (u : User) → remove s.by_email (key_of lower u) ≡ drop_hash s.by_email (key_of lower u)
  unfolding drop_hash
  drop_hash-key u = ground (arith, eq_iff (key_of lower u) "", key_of-ne-empty lower u)

  module _ (id : String) (u : User) (found : get s.by_id id ≡ some u) where
    other_key :
        (k : String) (w : User)
        → get s.by_id k ≡ some w
        → (id == k) ≡ false
        → (key_of lower u == key_of lower w) ≡ false
    other_key k w e ne = ground (
      arith,
      h.email_complete k w e,
      h.email_complete id u found,
      eq_iff id k,
      eq_iff (key_of lower u) (key_of lower w),
    )

    leave : IsIndexed lower (record {
      by_id = remove s.by_id id;
      by_email = remove s.by_email (key_of lower u);
      by_reset_token = drop_hash s.by_reset_token u.reset_token_hash;
      by_magic_token = drop_hash s.by_magic_token u.magic_link_token_hash;
      by_verify_token = drop_hash s.by_verify_token u.email_verification_token_hash;
      by_email_change_token = drop_hash s.by_email_change_token u.email_change_token_hash;
    })
    leave = record {
      id_key = λ k w e. ground (arith, get-remove s.by_id id k, h.id_key k w);
      email =
          rw drop_hash-key (Indexes-delete (key_of lower) s.by_email s.by_id id u h.email found);
      email_complete = λ k w e. ground (
        arith,
        get-remove s.by_id id k,
        get-remove s.by_email (key_of lower u) (key_of lower w),
        h.email_complete k w,
        other_key k w,
      );
      reset = Indexes-delete _ s.by_reset_token s.by_id id u h.reset found;
      magic = Indexes-delete _ s.by_magic_token s.by_id id u h.magic found;
      verify = Indexes-delete _ s.by_verify_token s.by_id id u h.verify found;
      change = Indexes-delete _ s.by_email_change_token s.by_id id u h.change found;
    }

    -- `u` under the address `key`, which nobody has
    module _ (u' : User) (free : get s.by_email (key_of lower u') ≡ none)
        (same : u'.id ≡ u.id) where
      readdress_complete :
          (k : String) (w : User)
          → get (put s.by_id id u') k ≡ some w
          → get (put (remove s.by_email (key_of lower u)) (key_of lower u') u.id) (key_of lower w)
            ≡ some k
      readdress_complete k w e = ground (
        arith,
        get-put s.by_id id k u',
        get-put (remove s.by_email (key_of lower u)) (key_of lower u') (key_of lower w) u.id,
        get-remove s.by_email (key_of lower u) (key_of lower w),
        eq_iff id k,
        eq_iff (key_of lower u') (key_of lower w),
        h.id_key id u found,
        h.email_complete k w,
        other_key k w,
      )

  pub delete_user-IsIndexed :
      (id tenant_id : String) → IsIndexed lower (delete_user lower id tenant_id s).1
  unfolding delete_user
  delete_user-IsIndexed id tenant_id =
      on_user-keeps (IsIndexed lower) id tenant_id _ s h λ u found. leave id u found

  readdress :
      (id : String) (u u' : User)
      → get s.by_id id ≡ some u
      → get s.by_email (key_of lower u') ≡ none
      → u'.id ≡ u.id
      → SameHashes lower u' u
      → IsIndexed lower (record s {
        by_email = put (remove s.by_email (key_of lower u)) (key_of lower u') u.id;
        by_id = put s.by_id id u';
      })
  readdress id u u' found free same (r, m, v, c) =
      let self = h.id_key id u found in
      record {
        id_key =
            λ k w e. ground (arith, get-put s.by_id id k u', eq_iff id k, h.id_key k w, self, same);
        email =
            rw (drop_hash-key, self)
              (Indexes-point (key_of lower) s.by_email s.by_id h.email id u' u _ found refl);
        email_complete = readdress_complete id u found u' free same;
        reset = Indexes-store _ s.by_reset_token s.by_id h.reset id u' u found r;
        magic = Indexes-store _ s.by_magic_token s.by_id h.magic id u' u found m;
        verify = Indexes-store _ s.by_verify_token s.by_id h.verify id u' u found v;
        change = Indexes-store _ s.by_email_change_token s.by_id h.change id u' u found c;
      }

  pub apply_email_change-IsIndexed :
      (id tenant_id : String) → IsIndexed lower (apply_email_change lower id tenant_id s).1
  unfolding apply_email_change
  apply_email_change-IsIndexed id tenant_id =
      on_user-keeps (IsIndexed lower) id tenant_id _ s h λ u found.
        let u' = record u { email = u.pending_email; pending_email = "" } in
        elim (Option-cases (get s.by_email (key_of lower u'))) [
          | inl free ↦ rw free (readdress id u u' found free refl (refl, refl, refl, refl))
          | inr (j, taken) ↦ rw taken h
        ]
