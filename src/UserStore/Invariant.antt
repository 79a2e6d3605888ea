-- ===== src/UserStore/Invariant.antt =====
-- The invariant of MemoryUserStore: ids are keys, addresses are unique within the table, and no
-- index leads to a user who does not hold the credential.
use Prim.Native.Char.{Char}
use text.Mathlib.TextLemmas.{cons-ne-nil, append-eq-nil_iff}
use awesome_go_auth.Base.{String, ◌≡◌, ◌≢◌, some, eq_iff, arith, Option-cases, inl, inr}
use awesome_go_auth.Base.Dict.{Dict, get, put, get-put, get-empty}
use awesome_go_auth.Errors.{M}
use awesome_go_auth.Models.{User}
use awesome_go_auth.UserStore.{
  MemoryUserStore, new_memory_user_store, user_email_key, owned, on_user,
}
use awesome_go_auth.UserStore.Indexes.{Indexes, Indexes-store}

module _ (lower : Char → Char) where
  abbrev pub key_of : User → String
  key_of u = user_email_key lower u.email u.tenant_id

  pub record IsIndexed (s : MemoryUserStore) : Type 0 where
    pub id_key : (k : String) (u : User) → get s.by_id k ≡ some u → u.id ≡ k
    pub email : Indexes key_of s.by_email s.by_id
    pub email_complete :
        (k : String) (u : User) → get s.by_id k ≡ some u → get s.by_email (key_of u) ≡ some k
    pub reset : Indexes (λ u. u.reset_token_hash) s.by_reset_token s.by_id
    pub magic : Indexes (λ u. u.magic_link_token_hash) s.by_magic_token s.by_id
    pub verify : Indexes (λ u. u.email_verification_token_hash) s.by_verify_token s.by_id
    pub change : Indexes (λ u. u.email_change_token_hash) s.by_email_change_token s.by_id

  pub key_of-ne-empty : (u : User) → key_of u ≢ ""
  unfolding user_email_key
  key_of-ne-empty u e = colon (append-eq-nil_iff.0 (append-eq-nil_iff.0 e).0).1
    where
      colon : ◌≡◌ {A = String} ":" "" → ⊥
      colon h = cons-ne-nil _ _ h

  pub IsIndexed-new : IsIndexed new_memory_user_store
  unfolding new_memory_user_store
  IsIndexed-new = record {
    id_key = λ k u e. cc (get-empty {V = User} k);
    email = λ key id ne e. absurd (cc (get-empty {V = String} key));
    email_complete = λ k u e. cc (get-empty {V = User} k);
    reset = λ key id ne e. absurd (cc (get-empty {V = String} key));
    magic = λ key id ne e. absurd (cc (get-empty {V = String} key));
    verify = λ key id ne e. absurd (cc (get-empty {V = String} key));
    change = λ key id ne e. absurd (cc (get-empty {V = String} key));
  }

  -- `u'` has the id, the address and the tenant of `u`
  abbrev pub SameName : User → User → Type 0
  SameName u' u = (u'.id ≡ u.id) × (u'.email ≡ u.email) × (u'.tenant_id ≡ u.tenant_id)

  module _ {s : MemoryUserStore} (h : IsIndexed s) (id : String) (u u' : User)
      (found : get s.by_id id ≡ some u) (same : SameName u' u) where
    key_of-same : key_of u' ≡ key_of u
    key_of-same = cc

    -- The table after a write to one user, with the four credential indexes still to be shown.
    pub IsIndexed-write :
        {reset magic verify change : Dict String}
        → Indexes (λ v. v.reset_token_hash) reset (put s.by_id id u')
        → Indexes (λ v. v.magic_link_token_hash) magic (put s.by_id id u')
        → Indexes (λ v. v.email_verification_token_hash) verify (put s.by_id id u')
        → Indexes (λ v. v.email_change_token_hash) change (put s.by_id id u')
        → IsIndexed (record {
          by_id = put s.by_id id u';
          by_email = s.by_email;
          by_reset_token = reset;
          by_magic_token = magic;
          by_verify_token = verify;
          by_email_change_token = change;
        })
    IsIndexed-write r m v c = record {
      id_key = λ k w e.
          ground (arith, get-put s.by_id id k u', eq_iff id k, h.id_key k w, h.id_key id u found);
      email = Indexes-store key_of s.by_email s.by_id h.email id u' u found key_of-same;
      email_complete = λ k w e. ground (
        arith,
        get-put s.by_id id k u',
        eq_iff id k,
        h.email_complete k w,
        h.email_complete id u found,
        key_of-same,
      );
      reset = r;
      magic = m;
      verify = v;
      change = c;
    }

  abbrev pub SameHashes : User → User → Type 0
  SameHashes u' u =
      (u'.reset_token_hash ≡ u.reset_token_hash)
      × (u'.magic_link_token_hash ≡ u.magic_link_token_hash)
      × (u'.email_verification_token_hash ≡ u.email_verification_token_hash)
      × (u'.email_change_token_hash ≡ u.email_change_token_hash)

  -- A write that touches no indexed field.
  pub IsIndexed-quiet :
      {s : MemoryUserStore} (h : IsIndexed s) (id : String) (u u' : User)
      → get s.by_id id ≡ some u
      → SameName u' u
      → SameHashes u' u
      → IsIndexed (record s { by_id = put s.by_id id u' })
  IsIndexed-quiet {s} h id u u' found same (r, m, v, c) =
      IsIndexed-write h id u u' found same
        (Indexes-store _ s.by_reset_token s.by_id h.reset id u' u found r)
        (Indexes-store _ s.by_magic_token s.by_id h.magic id u' u found m)
        (Indexes-store _ s.by_verify_token s.by_id h.verify id u' u found v)
        (Indexes-store _ s.by_email_change_token s.by_id h.change id u' u found c)

pub owned-found :
    (s : MemoryUserStore) (user_id tenant_id : String) {u : User}
    → owned s user_id tenant_id ≡ some u
    → (get s.by_id user_id ≡ some u) × (u.tenant_id ≡ tenant_id)
unfolding owned
owned-found s user_id tenant_id {u} e = elim (Option-cases (get s.by_id user_id)) [
  | inl missing ↦ absurd (ground (arith, missing))
  | inr (v, found) ↦ ground (arith, found, eq_iff v.tenant_id tenant_id)
]

-- A method on one user keeps what its action keeps at the user that the guard lets through.
pub on_user-keeps :
    {A : Type 0} (P : MemoryUserStore → Type 0) (user_id tenant_id : String)
    (act : User → M MemoryUserStore A) (s : MemoryUserStore)
    → P s
    → ((u : User) → get s.by_id user_id ≡ some u → P (act u s).1)
    → P (on_user user_id tenant_id act s).1
unfolding on_user
on_user-keeps P user_id tenant_id act s p step = elim (Option-cases (owned s user_id tenant_id)) [
  | inl missing ↦ rw (missing, on_user) p
  | inr (u, found) ↦ rw (found, on_user) (step u (owned-found s user_id tenant_id found).0)
]
