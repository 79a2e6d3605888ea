-- ===== src/ApiKeys/Invariant.antt =====
-- What holds of a store of API keys between two calls, and that the calls keep it.
use awesome_go_auth.Base.{
  ℕ, String, ◌≡◌, ◌≢◌, refl, some, ◌==◌, eq_iff, arith, Option-cases, Bool-cases, inl, inr, false,
  List, [], ◌∷◌,
}
use awesome_go_auth.Base.Dict.{get, put, remove, get-put, get-remove, get-empty}
use awesome_go_auth.Errors.{err, api_key_not_found}
use awesome_go_auth.ApiKeys.{
  MemoryApiKeyStore, ApiKeyRecord, ApiKeyAuditEntry, new_memory_api_key_store, save, revoke,
  update_last_used, delete_key, log_usage, drop_previous, drop_own, find_by_prefix,
}

-- Ids are keys, and the index of prefixes names keys that have them.
pub record IsKeyed (s : MemoryApiKeyStore) : Type 0 where
  pub id_key : (k : String) (x : ApiKeyRecord) → get s.by_id k ≡ some x → x.id ≡ k
  pub held :
      (prefix id : String)
      → get s.by_prefix prefix ≡ some id
      → (x : ApiKeyRecord) × (get s.by_id id ≡ some x) × (x.prefix ≡ prefix)

pub IsKeyed-new : IsKeyed new_memory_api_key_store
unfolding new_memory_api_key_store
IsKeyed-new = record {
  id_key = λ k x e. cc (get-empty {V = ApiKeyRecord} k);
  held = λ prefix id e. absurd (cc (get-empty {V = String} prefix));
}

module _ {s : MemoryApiKeyStore} (h : IsKeyed s) where
  -- an entry of the index that a save leaves alone
  drop_previous-kept :
      (key : ApiKeyRecord) (prefix id : String)
      → get (drop_previous (get s.by_id key.id) key s.by_prefix) prefix ≡ some id
      → key.prefix ≢ prefix
      → (get s.by_prefix prefix ≡ some id) × (key.id ≢ id)
  unfolding drop_previous
  drop_previous-kept key prefix id e other = elim (Option-cases (get s.by_id key.id)) [
    | inl new ↦
        let kept : get s.by_prefix prefix ≡ some id = ground (arith, new) in
        let (x, has, same) = h.held prefix id kept in (kept, λ i. ground (arith, new, has, i))
    | inr (old, known) ↦
        let gone = get-remove s.by_prefix old.prefix prefix in
        let kept : get s.by_prefix prefix ≡ some id =
          ground (arith, known, gone, eq_iff old.prefix key.prefix) in
        let (x, has, same) = h.held prefix id kept in
        (
          kept,
          λ i. ground (
            arith,
            known,
            gone,
            has,
            same,
            i,
            eq_iff old.prefix key.prefix,
            eq_iff old.prefix prefix,
          ),
        )
  ]

  pub save-IsKeyed : (key : ApiKeyRecord) → IsKeyed (save key s).1
  unfolding save
  save-IsKeyed key = record {
    id_key = λ k x e. ground (arith, get-put s.by_id key.id k key, eq_iff key.id k, h.id_key k x);
    held = λ prefix id e.
        let index = drop_previous (get s.by_id key.id) key s.by_prefix in
        let wrote = get-put index key.prefix prefix key.id in
        elim (Bool-cases (key.prefix == prefix)) [
          | inl own ↦ (
            key,
            ground (arith, wrote, get-put s.by_id key.id id key, eq_iff key.id id),
            ground (arith, eq_iff key.prefix prefix),
          )
          | inr other ↦
              let (kept, differs) =
                drop_previous-kept key prefix id (ground (arith, wrote))
                  (ground (arith, eq_iff key.prefix prefix)) in
              let (x, has, same) = h.held prefix id kept in
              (x, ground (arith, get-put s.by_id key.id id key, eq_iff key.id id), same)
        ];
  }

  -- a record is written back with another state under the same id and prefix
  touch-IsKeyed :
      (id : String) (old new : ApiKeyRecord)
      → get s.by_id id ≡ some old
      → new.id ≡ old.id
      → new.prefix ≡ old.prefix
      → IsKeyed (record s { by_id = put s.by_id id new })
  touch-IsKeyed id old new known same_id same_prefix = record {
    id_key = λ k x e.
        ground (arith, get-put s.by_id id k new, eq_iff id k, h.id_key k x, h.id_key id old);
    held = λ prefix k e.
        let (x, has, same) = h.held prefix k e in
        elim (Bool-cases (id == k)) [
          | inl own ↦ (new, ground (arith, get-put s.by_id id k new), ground (arith, eq_iff id k))
          | inr other ↦ (x, ground (arith, get-put s.by_id id k new), same)
        ];
  }

  pub revoke-IsKeyed : (id : String) → IsKeyed (revoke id s).1
  unfolding revoke
  revoke-IsKeyed id = elim (Option-cases (get s.by_id id)) [
    | inl unknown ↦ rw (unknown, revoke) h
    | inr (x, known) ↦
        rw (known, revoke) (touch-IsKeyed id x (record x { is_active = false }) known refl refl)
  ]

  pub update_last_used-IsKeyed : (id : String) (at : ℕ) → IsKeyed (update_last_used id at s).1
  unfolding update_last_used
  update_last_used-IsKeyed id at = elim (Option-cases (get s.by_id id)) [
    | inl unknown ↦ rw (unknown, update_last_used) h
    | inr (x, known) ↦
        rw (known, update_last_used)
          (touch-IsKeyed id x (record x { last_used_at = some at }) known refl refl)
  ]

  -- an entry of the index that a deletion leaves alone
  drop_own-kept :
      (id : String) (key : ApiKeyRecord)
      → get s.by_id id ≡ some key
      → (prefix k : String) → get (drop_own id key s.by_prefix) prefix ≡ some k
      → (get s.by_prefix prefix ≡ some k) × (id ≢ k)
  unfolding drop_own
  drop_own-kept id key known prefix k e =
      let gone = get-remove s.by_prefix key.prefix prefix in
      elim (Option-cases (get s.by_prefix key.prefix)) [
        | inl free ↦
            let kept : get s.by_prefix prefix ≡ some k = ground (arith, free) in
            let (x, has, same) = h.held prefix k kept in
            (kept, λ i. ground (arith, free, has, same, i))
        | inr (owner, named) ↦
            let kept : get s.by_prefix prefix ≡ some k = ground (arith, named, gone) in
            let (x, has, same) = h.held prefix k kept in
            (
              kept,
              λ i.
                  ground
                    (arith, named, gone, has, same, i, eq_iff owner id, eq_iff key.prefix prefix),
            )
      ]

  pub delete_key-IsKeyed : (id : String) → IsKeyed (delete_key id s).1
  unfolding delete_key
  delete_key-IsKeyed id = elim (Option-cases (get s.by_id id)) [
    | inl unknown ↦ rw (unknown, delete_key) h
    | inr (x, known) ↦
        rw (known, delete_key)
          (record {
            id_key = λ k y e. ground (arith, get-remove s.by_id id k, eq_iff id k, h.id_key k y);
            held = λ prefix k e.
                let (kept, differs) = drop_own-kept id x known prefix k e in
                let (y, has, same) = h.held prefix k kept in
                (y, ground (arith, get-remove s.by_id id k, eq_iff id k), same);
          })
  ]

-- A call that writes to the store.
pub data Call : Type 0 where
  saved : ApiKeyRecord → Call
  revoked : String → Call
  used : String → ℕ → Call
  deleted : String → Call
  logged : ApiKeyAuditEntry → Call

unfoldable pub run : Call → MemoryApiKeyStore → MemoryApiKeyStore
run (saved key) s = (save key s).1
run (revoked id) s = (revoke id s).1
run (used id at) s = (update_last_used id at s).1
run (deleted id) s = (delete_key id s).1
run (logged entry) s = (log_usage entry s).1

unfoldable pub run_all : List Call → MemoryApiKeyStore → MemoryApiKeyStore
run_all [] s = s
run_all (c ∷ cs) s = run_all cs (run c s)

run-IsKeyed : {s : MemoryApiKeyStore} (c : Call) → IsKeyed s → IsKeyed (run c s)
unfolding run log_usage
run-IsKeyed (saved key) h = save-IsKeyed h key
run-IsKeyed (revoked id) h = revoke-IsKeyed h id
run-IsKeyed (used id at) h = update_last_used-IsKeyed h id at
run-IsKeyed (deleted id) h = delete_key-IsKeyed h id
run-IsKeyed (logged entry) h = record { id_key = h.id_key; held = h.held }

run_all-kept : {s : MemoryApiKeyStore} (cs : List Call) → IsKeyed s → IsKeyed (run_all cs s)
unfolding run_all
run_all-kept [] h = h
run_all-kept {s = s} (c ∷ cs) h = run_all-kept {s = run c s} cs (run-IsKeyed c h)

-- Whatever the calls, from an empty store: ids are keys, and the index of prefixes names keys that
-- have them.
pub run_all-IsKeyed : (cs : List Call) → IsKeyed (run_all cs new_memory_api_key_store)
run_all-IsKeyed cs = run_all-kept cs IsKeyed-new

-- A key that is saved again under another prefix frees its old one, also where the index gives the
-- old prefix to another key.
pub find_by_prefix-save_moved :
    (s : MemoryApiKeyStore) (key old : ApiKeyRecord)
    → get s.by_id key.id ≡ some old
    → old.prefix ≢ key.prefix
    → find_by_prefix old.prefix (save key s).1 ≡ err api_key_not_found
unfolding find_by_prefix save drop_previous
find_by_prefix-save_moved s key old known moved =
    let index = remove s.by_prefix old.prefix in
    ground (
      arith,
      known,
      get-put index key.prefix old.prefix key.id,
      get-remove s.by_prefix old.prefix old.prefix,
      eq_iff key.prefix old.prefix,
      eq_iff old.prefix key.prefix,
      eq_iff old.prefix old.prefix,
    )
