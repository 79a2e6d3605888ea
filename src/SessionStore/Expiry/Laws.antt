-- ===== src/SessionStore/Expiry/Laws.antt =====
-- DeleteExpiredSessions deletes exactly the sessions that have expired, and their index entries.
use awesome_go_auth.Base.{
  ℕ, String, ◌≡◌, refl, sym, subst, ◌↔◌, some, none, arith, length, Bool-cases, inl, inr, ◌∙◌, ap,
  if◌then◌else◌, keep_if, false,
}
use awesome_go_auth.Base.Dict.{get}
use awesome_go_auth.Base.Dict.Entries.{Distinct, In-entries}
use awesome_go_auth.Errors.{ok}
use awesome_go_auth.Models.{Session}
use awesome_go_auth.SessionStore.{
  MemorySessionStore, delete_expired_sessions, get_session_by_refresh_token_hash,
}
use awesome_go_auth.SessionStore.Expiry.{
  expired, surviving, doomed_hash, by_id-expire_loop, hash-expire_loop, count-expire_loop,
  Distinct-expire_loop, doomed_hash-entry, doomed_hash-In,
}
use awesome_go_auth.SessionStore.Invariant.{IsIndexed, by_hash-found, by_hash-intro}

module _ (now : ℕ) {s : MemorySessionStore} (h : IsIndexed s) where
  -- In a consistent session store, the clean-up removes exactly the expired sessions from the table.
  pub by_id-delete_expired_sessions :
      (k : String) → get (delete_expired_sessions now s).1.by_id k ≡ surviving now (get s.by_id k)
  unfolding delete_expired_sessions get
  by_id-delete_expired_sessions k =
      by_id-expire_loop now s.by_id.entries s 0 k h.distinct ∙ ground arith

  -- In a consistent session store, the clean-up returns the number of expired sessions in the table.
  pub count-delete_expired_sessions :
      (delete_expired_sessions now s).0
      ≡ ok (length (keep_if (λ (e : String × Session). expired now e.1) s.by_id.entries))
  unfolding delete_expired_sessions
  count-delete_expired_sessions = ap ok (count-expire_loop now s.by_id.entries s 0 ∙ omega arith)

  -- the loop drops the hash of a session in the table exactly if the session has expired
  doomed_hash_lem :
      (hash id : String) (x : Session)
      → get s.by_token_hashed hash ≡ some id
      → get s.by_id id ≡ some x
      → x.refresh_token_hash ≡ hash
      → doomed_hash now hash s.by_id.entries ≡ expired now x
  doomed_hash_lem hash id x named found same =
      elim (Bool-cases (doomed_hash now hash s.by_id.entries)) [
        | inl dropped ↦
            let (j, y, i, gone, holds) = doomed_hash-entry now hash s.by_id.entries dropped in
            let there = (In-entries s.by_id j y h.distinct).0 i in
            let owner : get s.by_token_hashed hash ≡ some j =
              subst (λ k. get s.by_token_hashed k ≡ some j) holds (h.complete j y there) in
            let same_id : id ≡ j = cc in
            let same_session : x ≡ y = cc (ap (get s.by_id) same_id) in
            dropped ∙ sym gone ∙ ap (expired now) (sym same_session)
        | inr kept ↦ elim (Bool-cases (expired now x)) [
          | inl gone ↦
              let at = (In-entries s.by_id id x h.distinct).1 found in
              absurd (cc (doomed_hash-In now hash id x s.by_id.entries at gone same))
          | inr stays ↦ kept ∙ sym stays
        ]
      ]

  by_hash :
      (hash id : String) (x : Session)
      → get s.by_token_hashed hash ≡ some id
      → get s.by_id id ≡ some x
      → x.refresh_token_hash ≡ hash
      → get (delete_expired_sessions now s).1.by_token_hashed hash
        ≡ (if expired now x then none else some id)
  unfolding delete_expired_sessions
  by_hash hash id x named found same =
      hash-expire_loop now s.by_id.entries s 0 hash
      ∙ ground (arith, doomed_hash_lem hash id x named found same)

  was_named :
      (hash id : String)
      → get (delete_expired_sessions now s).1.by_token_hashed hash ≡ some id
      → get s.by_token_hashed hash ≡ some id
  unfolding delete_expired_sessions
  was_named hash id e = ground (arith, hash-expire_loop now s.by_id.entries s 0 hash)

  Distinct-delete_expired_sessions : Distinct (delete_expired_sessions now s).1.by_id.entries
  unfolding delete_expired_sessions
  Distinct-delete_expired_sessions = Distinct-expire_loop now s.by_id.entries s 0 h.distinct

  -- The clean-up keeps a consistent session store consistent: ids are keys, and the token index is
  -- exact.
  pub delete_expired_sessions-IsIndexed : IsIndexed (delete_expired_sessions now s).1
  delete_expired_sessions-IsIndexed =
      let t = (delete_expired_sessions now s).1 in
      record {
        distinct = Distinct-delete_expired_sessions;
        id_key = λ k y e. ground (arith, by_id-delete_expired_sessions k, h.id_key k y);
        held = λ hash id e.
            let (x, found, same) = h.held hash id (was_named hash id e) in
            (
              x,
              ground (
                arith,
                by_id-delete_expired_sessions id,
                by_hash hash id x (was_named hash id e) found same,
              ),
              same,
            );
        complete = λ k y e.
            let found : get s.by_id k ≡ some y = ground (arith, by_id-delete_expired_sessions k) in
            ground (
              arith,
              by_id-delete_expired_sessions k,
              by_hash y.refresh_token_hash k y (h.complete k y found) found refl,
            );
      }

  -- In a consistent session store, a refresh token is found after the clean-up exactly if it was
  -- found before and its session has not expired.
  pub get-delete_expired_sessions :
      (hash : String) (x : Session)
      → (get_session_by_refresh_token_hash hash (delete_expired_sessions now s).1 ≡ ok x)
        ↔ ((get_session_by_refresh_token_hash hash s ≡ ok x) × (expired now x ≡ false))
  get-delete_expired_sessions hash x = (
    λ e.
        let (id, named, found) = by_hash-found _ hash x e in
        let before : get s.by_id id ≡ some x = ground (arith, by_id-delete_expired_sessions id) in
        (
          by_hash-intro s hash x id (was_named hash id named) before,
          ground (arith, by_id-delete_expired_sessions id),
        ),
    λ (e, live).
        let (id, named, found) = by_hash-found s hash x e in
        let (y, has, same) = h.held hash id named in
        let one : y ≡ x = cc in
        let holds : x.refresh_token_hash ≡ hash =
          ap (λ (z : Session). z.refresh_token_hash) (sym one) ∙ same in
        by_hash-intro _ hash x id (by_hash hash id x named found holds ∙ ground arith)
          (by_id-delete_expired_sessions id ∙ ground arith),
  )
