-- ===== src/AuthCodes.antt =====
-- feature_stores.go: MemoryAuthCodeStore, the authorization codes of the identity provider by the hash
-- of the code; the record is that of store.go.
pub mod Laws
use awesome_go_auth.Base.{ℕ, String, Option, none, some, List, [], ◌∷◌, ltb, if◌then◌else◌}
use awesome_go_auth.Base.Dict.{Dict, empty, get, put, remove}
use awesome_go_auth.Errors.{Result, ok, err, M, invalid_code}

pub record AuthCode : Type 0 where
  pub code_hash : String
  pub user_id : String
  pub tenant_id : String
  pub client_id : String
  pub nonce : String
  pub redirect_uri : String
  pub code_challenge : String
  pub code_challenge_method : String
  pub scope : String
  pub expires_at : ℕ

pub record MemoryAuthCodeStore : Type 0 where
  pub codes : Dict AuthCode

unfoldable pub new_memory_auth_code_store : MemoryAuthCodeStore
new_memory_auth_code_store = record { codes = empty }

-- for hash, existing := range s.codes { if now.After(existing.ExpiresAt) { delete(s.codes, hash) } }
unfoldable pub prune : ℕ → List (String × AuthCode) → Dict AuthCode → Dict AuthCode
prune now [] codes = codes
prune now ((hash, existing) ∷ rest) codes =
    prune now rest (if ltb existing.expires_at now then remove codes hash else codes)

unfoldable pub save_code : ℕ → AuthCode → M MemoryAuthCodeStore (Unit {0})
save_code now code s =
    (ok tt, record { codes = put (prune now s.codes.entries s.codes) code.code_hash code })

-- The code goes before its expiry is looked at.
unfoldable pub consume_code : ℕ → String → M MemoryAuthCodeStore AuthCode
consume_code now code_hash s = elim (get s.codes code_hash) [
  | none ↦ (err invalid_code, s)
  | some code ↦ (
    if ltb code.expires_at now then err invalid_code else ok code,
    record { codes = remove s.codes code_hash },
  )
]
