-- ===== src/UserStore/OneTime/Resolve.antt =====
-- A lookup by an index after the writes that issue and clear a credential.
use awesome_go_auth.Base.{String, ◌≡◌, ◌≢◌, some, eq_iff, eq_refl, arith, Option-cases, inl, inr}
use awesome_go_auth.Base.Dict.{Dict, get, put, get-put, get-put_self}
use awesome_go_auth.Errors.{ok, err, invalid_token, Error}
use awesome_go_auth.Models.{User}
use awesome_go_auth.UserStore.{MemoryUserStore, owned, resolve, drop_hash}
use awesome_go_auth.UserStore.Indexes.{get-drop_hash}

module _ (users : Dict User) (id : String) (u : User) where
  pub resolve-put :
      (index : Dict String) (key : String)
      → resolve invalid_token (put index key id) (put users id u) key ≡ ok u
  unfolding resolve
  resolve-put index key = rw (get-put_self index key id, get-put_self users id u, resolve)

  -- Dropping the key, and naming nobody else under it, makes the lookup fail.
  pub resolve-drop :
      (index : Dict String) (hash key : String)
      → key ≢ ""
      → hash ≡ key
      → resolve invalid_token (drop_hash index hash) (put users id u) key ≡ err invalid_token
  unfolding resolve
  resolve-drop index hash key ne same =
      ground (arith, get-drop_hash (λ (v : User). v.id) index users hash key ne, eq_iff hash key)

  -- An entry under another key decides nothing.
  pub resolve-other :
      (index : Dict String) (old hash key : String)
      → hash ≢ key
      → resolve invalid_token (drop_hash index old) (put users id u) key ≡ err invalid_token
      → resolve invalid_token (put (drop_hash index old) hash id) (put users id u) key
        ≡ err invalid_token
  unfolding resolve
  resolve-other index old hash key ne e =
      ground (arith, get-put (drop_hash index old) hash key id, eq_iff hash key, e)

  -- A write to one user under other keys leaves what the rest have.
  pub resolve-kept :
      (index : Dict String) (hash key : String)
      → key ≢ ""
      → (j : String) (v : User) → get index key ≡ some j
      → get users j ≡ some v
      → id ≢ j
      → hash ≢ key
      → resolve invalid_token (drop_hash index hash) (put users id u) key ≡ ok v
  unfolding resolve
  resolve-kept index hash key ne j v named found other differs = ground (
    arith,
    get-drop_hash (λ (w : User). w.id) index users hash key ne,
    eq_iff hash key,
    get-put users id j u,
    eq_iff id j,
    named,
  )

pub resolve-found :
    (failure : Error) (index : Dict String) (users : Dict User) (key : String) (u : User)
    → resolve failure index users key ≡ ok u
    → (id : String) × (get index key ≡ some id) × (get users id ≡ some u)
unfolding resolve
resolve-found failure index users key u e = elim (Option-cases (get index key)) [
  | inl missing ↦ absurd (ground (arith, missing))
  | inr (id, named) ↦ (id, named, ground (arith, named))
]

pub owned_self :
    (s : MemoryUserStore) (id : String) (u : User)
    → get s.by_id id ≡ some u
    → u.id ≡ id
    → owned s u.id u.tenant_id ≡ some u
unfolding owned
owned_self s id u found same = rw (same, owned) (ground (arith, found, eq_refl u.tenant_id))
