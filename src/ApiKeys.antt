-- ===== src/ApiKeys.antt =====
-- memory_api_key_store.go: MemoryAPIKeyStore, the keys by id with an index of their prefixes, and
-- the log of their use. The service that mints and verifies keys is in the child Service.
pub mod Invariant
pub mod Listing
pub mod Service
use Prim.Native.String.{compare}
use text.Mathlib.Text.{is_lt}
use awesome_go_auth.Base.{
  ℕ, String, Bool, true, false, not, ◌&&◌, Option, none, some, List, [], ◌∷◌, ◌++◌, ◌==◌, eqb, ltb,
  leb, if◌then◌else◌, keep_if, sort_by, length,
}
use awesome_go_auth.Base.Dict.{Dict, empty, get, put, remove, values}
use awesome_go_auth.Errors.{Result, ok, err, M, api_key_not_found}
use awesome_go_auth.Paging.{ℤ, pos, add_int64, nat_or_zero, slice_to}

-- api_keys.go
pub record ApiKeyRecord : Type 0 where
  pub id : String
  pub prefix : String
  pub name : String
  pub service_id : String
  pub key_hash : String
  pub scopes : List String
  pub allowed_ips : List String
  pub is_active : Bool
  pub expires_at : Option ℕ
  pub created_at : ℕ
  pub last_used_at : Option ℕ

-- api_keys.go
pub record ApiKeyAuditEntry : Type 0 where
  pub key_id : String
  pub timestamp : ℕ
  pub ip : String
  pub user_agent : String
  pub path : String
  pub method : String
  pub success : Bool
  pub failure_reason : String

pub record MemoryApiKeyStore : Type 0 where
  pub by_id : Dict ApiKeyRecord
  pub by_prefix : Dict String
  pub usage : List ApiKeyAuditEntry

unfoldable pub new_memory_api_key_store : MemoryApiKeyStore
new_memory_api_key_store = record { by_id = empty; by_prefix = empty; usage = [] }

-- if previous, ok := s.byID[key.ID]; ok && previous.Prefix != key.Prefix { delete(…) }
unfoldable pub drop_previous : Option ApiKeyRecord → ApiKeyRecord → Dict String → Dict String
drop_previous none key index = index
drop_previous (some previous) key index =
    if previous.prefix == key.prefix then index else remove index previous.prefix

unfoldable pub save : ApiKeyRecord → M MemoryApiKeyStore (Unit {0})
save key s = (
  ok tt,
  record s {
    by_id = put s.by_id key.id key;
    by_prefix = put (drop_previous (get s.by_id key.id) key s.by_prefix) key.prefix key.id;
  },
)

-- if !ok || !record.IsActive { return APIKeyRecord{}, ErrAPIKeyNotFound }
abbrev pub active_or_missing : Option ApiKeyRecord → Result ApiKeyRecord
active_or_missing none = err api_key_not_found
active_or_missing (some key) = if key.is_active then ok key else err api_key_not_found

unfoldable pub find_by_prefix : String → MemoryApiKeyStore → Result ApiKeyRecord
find_by_prefix prefix s = elim (get s.by_prefix prefix) [
  | none ↦ err api_key_not_found
  | some id ↦ active_or_missing (get s.by_id id)
]

unfoldable pub find_by_id : String → MemoryApiKeyStore → Result ApiKeyRecord
find_by_id id s = elim (get s.by_id id) [ none ↦ err api_key_not_found | some key ↦ ok key ]

-- an id that matches nothing is not an error
unfoldable pub revoke : String → M MemoryApiKeyStore (Unit {0})
revoke id s = elim (get s.by_id id) [
  | none ↦ (ok tt, s)
  | some key ↦ (ok tt, record s { by_id = put s.by_id id (record key { is_active = false }) })
]

unfoldable pub update_last_used : String → ℕ → M MemoryApiKeyStore (Unit {0})
update_last_used id at s = elim (get s.by_id id) [
  | none ↦ (ok tt, s)
  | some key ↦ (ok tt, record s { by_id = put s.by_id id (record key { last_used_at = some at }) })
]

-- if indexed, ok := s.byPrefix[record.Prefix]; ok && indexed == id { delete(…) }
unfoldable pub drop_own : String → ApiKeyRecord → Dict String → Dict String
drop_own id key index = elim (get index key.prefix) [
  | none ↦ index
  | some indexed ↦ if indexed == id then remove index key.prefix else index
]

unfoldable pub delete_key : String → M MemoryApiKeyStore (Unit {0})
delete_key id s = elim (get s.by_id id) [
  | none ↦ (ok tt, s)
  | some key ↦
      (ok tt, record s { by_id = remove s.by_id id; by_prefix = drop_own id key s.by_prefix })
]

-- sortAPIKeyRecords: newest first, ties by id
abbrev pub newest_first : ApiKeyRecord → ApiKeyRecord → Bool
newest_first x y =
    if eqb x.created_at y.created_at
    then is_lt (compare x.id y.id)
    else ltb y.created_at x.created_at

unfoldable pub snapshot : (ApiKeyRecord → Bool) → MemoryApiKeyStore → List ApiKeyRecord
snapshot keep s = sort_by newest_first (keep_if keep (values s.by_id))

unfoldable pub list_all : ℤ → ℤ → MemoryApiKeyStore → Option (List ApiKeyRecord)
list_all limit offset s =
    let records = snapshot (λ _. true) s in
    let start = nat_or_zero offset in
    if leb (length records) start
    then some []
    else slice_to records start (add_int64 (pos start) (pos (nat_or_zero limit)))

unfoldable pub list_by_service_id : String → MemoryApiKeyStore → List ApiKeyRecord
list_by_service_id service_id s = snapshot (λ key. key.service_id == service_id) s

unfoldable pub log_usage : ApiKeyAuditEntry → M MemoryApiKeyStore (Unit {0})
log_usage entry s = (ok tt, record s { usage = s.usage ++ entry ∷ [] })
