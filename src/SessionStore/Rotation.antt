-- ===== src/SessionStore/Rotation.antt =====
-- MemorySessionStore: what the lookup by a token hash finds after a session is written again.
use awesome_go_auth.Base.{String, ◌≡◌, ◌≢◌, some, eq_iff, eq_refl, arith}
use awesome_go_auth.Base.Dict.{get, remove, get-put, get-remove}
use awesome_go_auth.Errors.{ok, err, session_not_found}
use awesome_go_auth.Models.{Session}
use awesome_go_auth.SessionStore.{
  MemorySessionStore, get_session_by_refresh_token_hash, move_hash, update_session,
}
use awesome_go_auth.SessionStore.Invariant.{IsIndexed, by_hash-found}

module _ (s : MemorySessionStore) (h : IsIndexed s) (hash : String) (old new : Session)
    (found : get_session_by_refresh_token_hash hash s ≡ ok old) (same_id : new.id ≡ old.id) where
  -- the id under which the session stands, and its hash
  pub stands :
      (get s.by_token_hashed hash ≡ some old.id)
      × (get s.by_id old.id ≡ some old)
      × (old.refresh_token_hash ≡ hash)
  stands =
      let (id, at, is) = by_hash-found s hash old found in
      let key = h.id_key id old is in
      let (x, is', hx) = h.held hash id at in (cc, cc, ground (arith))

  -- A write that keeps the hash: the hash finds what was written.
  pub by_hash-update_session_same :
      new.refresh_token_hash ≡ hash
      → get_session_by_refresh_token_hash hash (update_session new s).1 ≡ ok new
  unfolding update_session get_session_by_refresh_token_hash move_hash
  by_hash-update_session_same kept =
      let (at, is, its) = stands in
      ground (
        arith,
        get-put s.by_id new.id old.id new,
        eq_iff new.id old.id,
        eq_iff old.refresh_token_hash new.refresh_token_hash,
      )

  -- A write that changes the hash: the old one finds nothing, and the new one what was written.
  pub by_hash-update_session_old :
      new.refresh_token_hash ≢ hash
      → get_session_by_refresh_token_hash hash (update_session new s).1 ≡ err session_not_found
  unfolding update_session get_session_by_refresh_token_hash move_hash
  by_hash-update_session_old moved =
      let (at, is, its) = stands in
      ground (
        arith,
        get-put (remove s.by_token_hashed old.refresh_token_hash) new.refresh_token_hash hash
            new.id,
        get-remove s.by_token_hashed old.refresh_token_hash hash,
        eq_iff old.refresh_token_hash hash,
        eq_iff new.refresh_token_hash hash,
        eq_iff old.refresh_token_hash new.refresh_token_hash,
      )

  pub by_hash-update_session_new :
      get_session_by_refresh_token_hash new.refresh_token_hash (update_session new s).1 ≡ ok new
  unfolding update_session get_session_by_refresh_token_hash move_hash
  by_hash-update_session_new =
      let (at, is, its) = stands in
      ground (
        arith,
        get-put s.by_id new.id new.id new,
        get-put s.by_id new.id old.id new,
        eq_iff new.id old.id,
        eq_refl new.id,
        get-put (remove s.by_token_hashed old.refresh_token_hash) new.refresh_token_hash
            new.refresh_token_hash new.id,
        eq_refl new.refresh_token_hash,
        eq_iff old.refresh_token_hash new.refresh_token_hash,
      )
