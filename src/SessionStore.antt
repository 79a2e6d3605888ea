-- ===== src/SessionStore.antt =====
-- memory_store.go, the second part: MemorySessionStore, its table of sessions and the index of the
-- hashes of their refresh tokens.
pub mod Invariant
pub mod Expiry
pub mod Rotation
use Prim.Native.String.{compare}
use text.Mathlib.Text.{is_lt}
use awesome_go_auth.Base.{
  ℕ, ◌+◌, String, Bool, ◌&&◌, Option, none, some, List, [], ◌∷◌, ◌==◌, ltb, if◌then◌else◌, map,
  keep_if, sort_by,
}
use awesome_go_auth.Base.Dict.{Dict, empty, get, put, remove, values}
use awesome_go_auth.Errors.{Result, ok, err, M, session_not_found}
use awesome_go_auth.Models.{Session}
use awesome_go_auth.Paging.{ℤ, page_of}

pub record MemorySessionStore : Type 0 where
  pub by_id : Dict Session
  pub by_token_hashed : Dict String

unfoldable pub new_memory_session_store : MemorySessionStore
new_memory_session_store = record { by_id = empty; by_token_hashed = empty }

unfoldable pub create_session : Session → M MemorySessionStore Session
create_session x s = (
  ok x,
  record {
    by_id = put s.by_id x.id x;
    by_token_hashed = put s.by_token_hashed x.refresh_token_hash x.id;
  },
)

unfoldable pub get_session_by_id : String → MemorySessionStore → Result Session
get_session_by_id session_id s = elim (get s.by_id session_id) [
  | none ↦ err session_not_found
  | some x ↦ ok x
]

unfoldable pub get_session_by_refresh_token_hash : String → MemorySessionStore → Result Session
get_session_by_refresh_token_hash token_hash s = elim (get s.by_token_hashed token_hash) [
  | none ↦ err session_not_found
  | some sid ↦ elim (get s.by_id sid) [ none ↦ err session_not_found | some x ↦ ok x ]
]

-- if current.RefreshTokenHash != session.RefreshTokenHash { delete(…); … = session.ID }
unfoldable pub move_hash : Dict String → String → Session → Dict String
move_hash index old x =
    if old == x.refresh_token_hash then index else put (remove index old) x.refresh_token_hash x.id

unfoldable pub update_session : Session → M MemorySessionStore (Unit {0})
update_session x s = elim (get s.by_id x.id) [
  | none ↦ (err session_not_found, s)
  | some current ↦ (
    ok tt,
    record {
      by_id = put s.by_id x.id x;
      by_token_hashed = move_hash s.by_token_hashed current.refresh_token_hash x;
    },
  )
]

-- all[i].ID < all[j].ID
abbrev pub by_session_id : Session → Session → Bool
by_session_id x y = is_lt (compare x.id y.id)

unfoldable pub list_sessions_for_user : String → String → MemorySessionStore → List Session
list_sessions_for_user user_id tenant_id s =
    sort_by by_session_id
      (keep_if (λ x. x.user_id == user_id && x.tenant_id == tenant_id) (values s.by_id))

unfoldable pub get_all_sessions : ℤ → ℤ → MemorySessionStore → List Session
get_all_sessions limit offset s = page_of (sort_by by_session_id (values s.by_id)) limit offset

unfoldable pub revoke_session_by_id : ℕ → String → M MemorySessionStore (Unit {0})
revoke_session_by_id now session_id s = elim (get s.by_id session_id) [
  | none ↦ (err session_not_found, s)
  | some x ↦
      (ok tt, record s { by_id = put s.by_id session_id (record x { revoked_at = some now }) })
]

-- The body of the loop over the table, for one entry.
unfoldable pub expire_one : ℕ → String → Session → MemorySessionStore × ℕ → MemorySessionStore × ℕ
expire_one now id x (s, deleted) =
    if ltb x.expires_at now
    then (
      record {
        by_id = remove s.by_id id;
        by_token_hashed = remove s.by_token_hashed x.refresh_token_hash;
      },
      deleted + 1,
    )
    else (s, deleted)

unfoldable pub expire_loop :
    ℕ → List (String × Session) → MemorySessionStore × ℕ → MemorySessionStore × ℕ
expire_loop now [] state = state
expire_loop now ((id, x) ∷ rest) state = expire_loop now rest (expire_one now id x state)

unfoldable pub delete_expired_sessions : ℕ → M MemorySessionStore ℕ
delete_expired_sessions now s =
    let (t, deleted) = expire_loop now s.by_id.entries (s, 0) in (ok deleted, t)
