-- ===== src/SessionStore/Invariant.antt =====
-- The invariant of MemorySessionStore: ids are keys, and the index of hashes names exactly the
-- sessions that hold them.
use awesome_go_auth.Base.{
  ℕ, String, ◌≡◌, ◌≢◌, refl, sym, some, none, ◌==◌, eq_iff, arith, Option-cases, Bool-cases, inl,
  inr, ◌⊎◌, subst, if◌then◌else◌,
}
use awesome_go_auth.Base.Dict.{get, put, remove, get-put, get-remove, get-empty}
use awesome_go_auth.Base.Dict.Entries.{Distinct, Distinct-empty, Distinct-put}
use awesome_go_auth.Errors.{ok}
use awesome_go_auth.Models.{Session}
use awesome_go_auth.SessionStore.{
  MemorySessionStore, new_memory_session_store, create_session, update_session,
  revoke_session_by_id, move_hash, get_session_by_refresh_token_hash,
}

pub record IsIndexed (s : MemorySessionStore) : Type 0 where
  pub distinct : Distinct s.by_id.entries
  pub id_key : (k : String) (x : Session) → get s.by_id k ≡ some x → x.id ≡ k
  pub held :
      (hash id : String)
      → get s.by_token_hashed hash ≡ some id
      → (x : Session) × (get s.by_id id ≡ some x) × (x.refresh_token_hash ≡ hash)
  pub complete :
      (k : String) (x : Session)
      → get s.by_id k ≡ some x
      → get s.by_token_hashed x.refresh_token_hash ≡ some k

pub IsIndexed-new : IsIndexed new_memory_session_store
unfolding new_memory_session_store
IsIndexed-new = record {
  distinct = Distinct-empty Session;
  id_key = λ k x e. cc (get-empty {V = Session} k);
  held = λ hash id e. absurd (cc (get-empty {V = String} hash));
  complete = λ k x e. cc (get-empty {V = Session} k);
}

module _ {s : MemorySessionStore} (h : IsIndexed s) where
  -- A new session with an id and a hash that the store does not know.
  pub create_session-IsIndexed :
      (x : Session)
      → get s.by_id x.id ≡ none
      → get s.by_token_hashed x.refresh_token_hash ≡ none
      → IsIndexed (create_session x s).1
  unfolding create_session
  create_session-IsIndexed x fresh free = record {
    distinct = Distinct-put s.by_id x.id x h.distinct;
    id_key = λ k y e. ground (arith, get-put s.by_id x.id k x, eq_iff x.id k, h.id_key k y);
    held = λ hash id e.
        let wrote = get-put s.by_token_hashed x.refresh_token_hash hash x.id in
        elim (Bool-cases (x.refresh_token_hash == hash)) [
          | inl now ↦ (
            x,
            ground (arith, wrote, get-put s.by_id x.id id x, eq_iff x.id id),
            ground (arith, eq_iff x.refresh_token_hash hash),
          )
          | inr before ↦
              let (y, has, same) = h.held hash id (ground (arith, wrote)) in
              (y, ground (arith, get-put s.by_id x.id id x, eq_iff x.id id), same)
        ];
    complete = λ k y e. ground (
      arith,
      get-put s.by_id x.id k x,
      get-put s.by_token_hashed x.refresh_token_hash y.refresh_token_hash x.id,
      eq_iff x.id k,
      eq_iff x.refresh_token_hash y.refresh_token_hash,
      h.complete k y,
    );
  }

  module _ (x old : Session) (found : get s.by_id x.id ≡ some old) where
    keep_hash :
        old.refresh_token_hash ≡ x.refresh_token_hash
        → IsIndexed (record s { by_id = put s.by_id x.id x })
    keep_hash same = record {
      distinct = Distinct-put s.by_id x.id x h.distinct;
      id_key = λ k y e. ground (arith, get-put s.by_id x.id k x, eq_iff x.id k, h.id_key k y);
      held = λ hash id e.
          let (y, has, holds) = h.held hash id e in
          (
            if x.id == id then x else y,
            ground (arith, get-put s.by_id x.id id x, eq_iff x.id id),
            ground (arith, eq_iff x.id id),
          );
      complete = λ k y e. ground (
        arith,
        get-put s.by_id x.id k x,
        eq_iff x.id k,
        h.complete k y,
        h.complete x.id old found,
      );
    }

    change_hash :
        old.refresh_token_hash ≢ x.refresh_token_hash
        → get s.by_token_hashed x.refresh_token_hash ≡ none
        → IsIndexed (record {
          by_id = put s.by_id x.id x;
          by_token_hashed =
              put (remove s.by_token_hashed old.refresh_token_hash) x.refresh_token_hash x.id;
        })
    change_hash differs free = record {
      distinct = Distinct-put s.by_id x.id x h.distinct;
      id_key = λ k y e. ground (arith, get-put s.by_id x.id k x, eq_iff x.id k, h.id_key k y);
      held = λ hash id e.
          let rest = remove s.by_token_hashed old.refresh_token_hash in
          let wrote = get-put rest x.refresh_token_hash hash x.id in
          let dropped = get-remove s.by_token_hashed old.refresh_token_hash hash in
          elim (Bool-cases (x.refresh_token_hash == hash)) [
            | inl now ↦ (
              x,
              ground (arith, wrote, get-put s.by_id x.id id x, eq_iff x.id id),
              ground (arith, eq_iff x.refresh_token_hash hash),
            )
            | inr before ↦
                let (y, has, holds) = h.held hash id (ground (arith, wrote, dropped)) in
                (
                  y,
                  ground (
                    arith,
                    wrote,
                    dropped,
                    get-put s.by_id x.id id x,
                    eq_iff x.id id,
                    eq_iff old.refresh_token_hash hash,
                  ),
                  holds,
                )
          ];
      complete = λ k y e.
          let rest = remove s.by_token_hashed old.refresh_token_hash in
          ground (
            arith,
            get-put s.by_id x.id k x,
            get-put rest x.refresh_token_hash y.refresh_token_hash x.id,
            get-remove s.by_token_hashed old.refresh_token_hash y.refresh_token_hash,
            eq_iff x.id k,
            eq_iff x.refresh_token_hash y.refresh_token_hash,
            eq_iff old.refresh_token_hash y.refresh_token_hash,
            h.complete k y,
            h.complete x.id old found,
          );
    }

    -- An update keeps the hash, or changes it to one that the store does not know.
    pub update_session-IsIndexed :
        (old.refresh_token_hash ≡ x.refresh_token_hash)
          ⊎ (get s.by_token_hashed x.refresh_token_hash ≡ none)
        → IsIndexed (update_session x s).1
    unfolding update_session move_hash
    update_session-IsIndexed new =
        rw (found, update_session)
          (elim (Bool-cases (old.refresh_token_hash == x.refresh_token_hash)) [
            | inl same ↦ rw (same, move_hash) (keep_hash ((eq_iff _ _).0 same))
            | inr other ↦
                rw (other, move_hash)
                  (change_hash (ground (arith, eq_iff old.refresh_token_hash x.refresh_token_hash))
                    (ground (arith, eq_iff old.refresh_token_hash x.refresh_token_hash)))
          ])

  pub revoke_session_by_id-IsIndexed :
      (now : ℕ) (id : String) → IsIndexed (revoke_session_by_id now id s).1
  unfolding revoke_session_by_id
  revoke_session_by_id-IsIndexed now id = elim (Option-cases (get s.by_id id)) [
    | inl missing ↦ rw (missing, revoke_session_by_id) h
    | inr (x, found) ↦
        rw (found, revoke_session_by_id)
          (let self = h.id_key id x found in
            let x' = record x { revoked_at = some now } in
            subst (λ k. IsIndexed (record s { by_id = put s.by_id k x' })) self
              (keep_hash x' x (subst (λ k. get s.by_id k ≡ some x) (sym self) found) refl))
  ]

module _ (s : MemorySessionStore) (hash : String) (x : Session) where
  pub by_hash-found :
      get_session_by_refresh_token_hash hash s ≡ ok x
      → (id : String) × (get s.by_token_hashed hash ≡ some id) × (get s.by_id id ≡ some x)
  unfolding get_session_by_refresh_token_hash
  by_hash-found e = elim (Option-cases (get s.by_token_hashed hash)) [
    | inl missing ↦ absurd (ground (arith, missing))
    | inr (id, named) ↦ (id, named, ground (arith, named))
  ]

  pub by_hash-intro :
      (id : String)
      → get s.by_token_hashed hash ≡ some id
      → get s.by_id id ≡ some x
      → get_session_by_refresh_token_hash hash s ≡ ok x
  unfolding get_session_by_refresh_token_hash
  by_hash-intro id named found = ground (arith, named, found)
