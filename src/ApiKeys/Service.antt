-- ===== src/ApiKeys/Service.antt =====
-- api_keys.go: APIKeyService mints keys and verifies them, and the scopes and addresses that a key is
-- bound to. A store is always given.
pub mod Conditions
pub mod Access
pub mod RoundTrip
use Prim.Native.Nat.{zero}
use Prim.Native.Char.{Char, code}
use Prim.Native.String.{[], ◌∷◌, ◌++◌ as cat}
use awesome_go_auth.Base.{
  ℕ, suc, ◌-◌, String, Bool, true, false, not, ◌&&◌, ◌||◌, Option, none, some, List, ◌==◌, ltb, leb,
  eqb, if◌then◌else◌,
}
use mathlib.Core.List.{[] as nil, ◌∷◌ as cons}
use awesome_go_auth.Base.Strings.{byte_len, byte_width}
use awesome_go_auth.Errors.{
  Error, Result, ok, err, M, ◌>>=◌, ◌>>◌, return, fail, then_run, external, invalid_credentials,
}
use awesome_go_auth.ApiKeys.{
  ApiKeyRecord, MemoryApiKeyStore, save, find_by_prefix, update_last_used,
}
use awesome_go_auth.Platform.{Platform}
use awesome_go_auth.Roles.{contains}
use awesome_go_auth.Service.{
  World, Action, now, new_id, random_token, hash_password, verify_password,
}

unfoldable pub on_api_keys : {A : Type 0} → M MemoryApiKeyStore A → Action A
on_api_keys m w = let (r, s) = m w.api_keys in (r, record w { api_keys = s })

-- Package net. An address that parses has one form of sixteen bytes, which Equal compares, and a
-- network is what it contains; `none` is the error.
pub record Net : Type 0 where
  pub parse_ip : String → Option String
  pub parse_cidr : String → Option (String → Bool)

-- [a-zA-Z0-9]
abbrev pub is_alphanumeric : Char → Bool
is_alphanumeric c =
    let n = code c in (leb 97 n && leb n 122) || (leb 65 n && leb n 90) || (leb 48 n && leb n 57)

-- apiKeyBodySanitizer.ReplaceAllString(s, "")
unfoldable pub sanitize : String → String
sanitize [] = ""
sanitize (c ∷ s) = if is_alphanumeric c then c ∷ sanitize s else sanitize s

-- s[:n], where every character of s is one byte
unfoldable pub first_chars : ℕ → String → String
first_chars zero s = ""
first_chars (suc n) [] = ""
first_chars (suc n) (c ∷ s) = c ∷ first_chars n s

abbrev put_first : Char → Option String → Option String
put_first c none = none
put_first c (some s) = some (c ∷ s)

-- s[:n] for any text. A cut inside a character is no text, and then no stored prefix equals it.
unfoldable pub cut : ℕ → String → Option String
cut n [] = if eqb n 0 then some "" else none
cut n (c ∷ s) =
    let width = byte_width (code c) in
    let rest = cut (n - width) s in
    if eqb n 0 then some "" else if leb width n then put_first c rest else none

-- strings.HasPrefix(s, "ak_")
unfoldable pub has_key_prefix : String → Bool
has_key_prefix (a ∷ b ∷ c ∷ s) = eqb (code a) b'a' && eqb (code b) b'k' && eqb (code c) b'_'
has_key_prefix _ = false

-- for _, s := range required { if _, ok := set[s]; !ok { return false } }
unfoldable pub has_scopes : List String → List String → Bool
has_scopes got nil = true
has_scopes got (cons scope rest) = contains scope got && has_scopes got rest

-- strings.Contains(v, "/")
unfoldable pub has_slash : String → Bool
has_slash [] = false
has_slash (c ∷ s) = eqb (code c) b'/' || has_slash s

module _ (net : Net) where
  -- one entry of the list of allowed addresses, against an address that has parsed
  unfoldable pub admits : String → String → Bool
  admits parsed v =
      if has_slash v
      then elim (net.parse_cidr v) [ none ↦ false | some contains ↦ contains parsed ]
      else elim (net.parse_ip v) [ none ↦ false | some other ↦ parsed == other ]

  unfoldable pub any_admits : String → List String → Bool
  any_admits parsed nil = false
  any_admits parsed (cons v rest) = admits parsed v || any_admits parsed rest

  unfoldable pub ip_allowed : String → List String → Bool
  ip_allowed ip nil = true
  ip_allowed ip (cons v rest) = elim (net.parse_ip ip) [
    | none ↦ false
    | some parsed ↦ any_admits parsed (cons v rest)
  ]

-- record.ExpiresAt != nil && time.Now().After(*record.ExpiresAt)
abbrev pub is_expired : ℕ → Option ℕ → Bool
is_expired t none = false
is_expired t (some expiry) = ltb expiry t

-- store.FindByPrefix(ctx, rawKey[:11])
unfoldable pub find_key : String → MemoryApiKeyStore → Result ApiKeyRecord
find_key raw_key s = elim (cut 11 raw_key) [
  | none ↦ err invalid_credentials
  | some prefix ↦ find_by_prefix prefix s
]

-- the record that Create saves
unfoldable pub minted_key :
    String
    → String
    → String
    → String
    → String
    → List String
    → List String
    → Option ℕ
    → ℕ
    → ApiKeyRecord
minted_key raw_key id hash name service_id scopes allowed_ips expires_at t = record {
  id = id;
  prefix = first_chars 11 raw_key;
  name = name;
  service_id = service_id;
  key_hash = hash;
  scopes = scopes;
  allowed_ips = allowed_ips;
  is_active = true;
  expires_at = expires_at;
  created_at = t;
  last_used_at = none;
}

module _ (p : Platform) where
  -- for i := 0; b.Len() < 48 && i < 4; i++ { … }, on the rounds that are left
  unfoldable pub fill : ℕ → String → Action String
  fill zero body = return body
  fill (suc rounds) body =
      if ltb (byte_len body) 48
      then (do fallback ← random_token p 48; fill rounds (cat body (sanitize fallback)))
      else return body

  -- the raw key: 48 letters and digits after the mark
  unfoldable pub mint : Action String
  mint = do
    raw_body ← random_token p 36
    body ← fill 4 (sanitize raw_body)
    if ltb (byte_len body) 48
        then fail (external "auth: api key entropy generation failed")
        else return (cat "ak_" (first_chars 48 body))

  unfoldable pub create_key :
      ℕ → String → String → List String → List String → Option ℕ → Action (String × ApiKeyRecord)
  create_key bcrypt_cost name service_id scopes allowed_ips expires_at = do
    raw_key ← mint
    key_id ← new_id p "key"
    hash ← hash_password p raw_key bcrypt_cost
    t ← now
    let created = minted_key raw_key key_id hash name service_id scopes allowed_ips expires_at t
    on_api_keys (save created)
    return (raw_key, created)

  unfoldable pub verify_key : Net → String → String → List String → Action ApiKeyRecord
  verify_key net raw_key ip required_scopes w =
      if not (has_key_prefix raw_key) || ltb (byte_len raw_key) 11
      then (err invalid_credentials, w)
      else elim (find_key raw_key w.api_keys) [
        | err _ ↦ (err invalid_credentials, w)
        | ok key ↦
            if not (verify_password p raw_key key.key_hash)
            then (err invalid_credentials, w)
            else if not key.is_active
            then (err invalid_credentials, w)
            else if is_expired w.clock key.expires_at
            then (err invalid_credentials, w)
            else if not (ip_allowed net ip key.allowed_ips)
            then (err invalid_credentials, w)
            else if not (has_scopes key.scopes required_scopes)
            then (err invalid_credentials, w)
            else (ok key, (on_api_keys (update_last_used key.id w.clock) w).1)
      ]
