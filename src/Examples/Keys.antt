-- ===== src/Examples/Keys.antt =====
-- An API key that is made and presented on the toy platform, revocation, and listing past the end.
use awesome_go_auth.Base.{
  ℕ, String, ◌≡◌, ◌≢◌, ◌↔◌, refl, true, false, none, some, List, [], ◌∷◌, arith, ◌<◌, ◌&&◌, ◌+◌,
  ◌^◌, length, take, drop, if◌then◌else◌, ltb, leb,
}
use awesome_go_auth.Base.Dict.{get, put, empty}
use awesome_go_auth.Base.Strings.{byte_len}
use awesome_go_auth.ApiKeys.{
  ApiKeyRecord, MemoryApiKeyStore, new_memory_api_key_store, save, find_by_prefix, revoke, list_all,
  drop_previous, newest_first, snapshot,
}
use awesome_go_auth.ApiKeys.Invariant.{IsKeyed, IsKeyed-new, save-IsKeyed}
use awesome_go_auth.ApiKeys.Listing.{newest, list_all_lem}
use awesome_go_auth.ApiKeys.Service.{
  Net, sanitize, first_chars, cut, has_key_prefix, has_scopes, ip_allowed, find_key, minted_key,
  fill, mint, create_key, verify_key, on_api_keys,
}
use awesome_go_auth.ApiKeys.Service.Access.{Admitted, verify_key_iff, verify_key-revoke}
use awesome_go_auth.ApiKeys.Service.RoundTrip.{verify_key-create_key}
use awesome_go_auth.Errors.{Result, ok, err}
use awesome_go_auth.Paging.{pos, nat_or_zero}
use awesome_go_auth.Service.{World, draw, new_id, random_token, hash_password, verify_password}
use awesome_go_auth.Examples.Lawful.{toy, toy-IsLawful}
use awesome_go_auth.Examples.Runs.{start}

-- addresses are read as they are, and no range is one
abbrev plain_net : Net
plain_net = record { parse_ip = λ ip. some ip; parse_cidr = λ v. none }

abbrev blank_key : ApiKeyRecord
blank_key = record {
  id = "";
  prefix = "";
  name = "";
  service_id = "";
  key_hash = "";
  scopes = [];
  allowed_ips = [];
  is_active = true;
  expires_at = none;
  created_at = 0;
  last_used_at = none;
}

-- a world in which thirty draws were made: the toy's draws grow
abbrev later_start : World
later_start = record start { draws = 30 }

abbrev made : Result (String × ApiKeyRecord) × World
made = create_key toy 10 "n" "s" ("read" ∷ []) ("::1" ∷ []) (some 9) later_start

abbrev key_of : Result (String × ApiKeyRecord) → String × ApiKeyRecord
key_of (ok k) = k
key_of (err e) = ("", blank_key)

abbrev raw : String
raw = (key_of made.0).0

abbrev key : ApiKeyRecord
key = (key_of made.0).1

made_lem : made ≡ (ok (raw, key), made.1)
unfolding create_key mint fill random_token new_id draw toy byte_len sanitize start hash_password
    first_chars on_api_keys save drop_previous get put empty minted_key new_memory_api_key_store
made_lem = refl

verify_key-create_key_example :
    (verify_key toy plain_net raw "::1" ("read" ∷ []) (record made.1 { clock = 9 })).0 ≡ ok key
unfolding ip_allowed has_scopes awesome_go_auth.ApiKeys.Service.any_admits
    awesome_go_auth.ApiKeys.Service.admits awesome_go_auth.ApiKeys.Service.has_slash
    awesome_go_auth.Roles.contains
verify_key-create_key_example =
    verify_key-create_key toy 10 "n" "s" ("read" ∷ []) ("::1" ∷ []) (some 9) plain_net raw "::1"
      ("read" ∷ []) key 9 later_start made.1 toy-IsLawful made_lem refl refl refl

verify_key_iff_example :
    ((verify_key toy plain_net raw "::1" ("read" ∷ []) made.1).0 ≡ ok key)
    ↔ Admitted toy plain_net made.1 raw "::1" ("read" ∷ []) key
verify_key_iff_example = verify_key_iff toy plain_net made.1 raw "::1" ("read" ∷ []) key

-- a store that holds the key and another one
abbrev two_keys : MemoryApiKeyStore
two_keys =
    (save key
      (save (record blank_key { id = "old"; prefix = "ak_0" }) new_memory_api_key_store).1).1

two_keys-IsKeyed : IsKeyed two_keys
two_keys-IsKeyed = save-IsKeyed (save-IsKeyed IsKeyed-new _) key

abbrev keyed : World
keyed = record later_start { api_keys = two_keys }

still_lets_in :
    (verify_key toy plain_net raw "::1"
      ("read" ∷ [])
      (record keyed { api_keys = (revoke "old" two_keys).1 })).0
    ≡ ok key
unfolding verify_key has_key_prefix create_key mint random_token draw toy fill byte_len sanitize
    start new_id hash_password on_api_keys save first_chars find_key cut revoke find_by_prefix
    awesome_go_auth.ApiKeys.Service.admits awesome_go_auth.ApiKeys.Service.any_admits has_scopes
    awesome_go_auth.ApiKeys.Service.has_slash ip_allowed minted_key drop_previous
    awesome_go_auth.ApiKeys.update_last_used get empty put awesome_go_auth.Base.Dict.remove
    awesome_go_auth.Roles.contains verify_password new_memory_api_key_store
still_lets_in = refl

verify_key-revoke_example : key.id ≢ "old"
verify_key-revoke_example =
    verify_key-revoke toy plain_net keyed "old" raw "::1" ("read" ∷ []) key two_keys-IsKeyed
      still_lets_in

abbrev old_keys : MemoryApiKeyStore
old_keys =
    (save (record blank_key { id = "new"; prefix = "ak_1"; created_at = 1 })
      (save (record blank_key { id = "old"; prefix = "ak_0" }) new_memory_api_key_store).1).1

old_keys_count : length (newest old_keys) ≡ 2
unfolding snapshot save put get empty new_memory_api_key_store drop_previous
old_keys_count = refl

-- the sum of the bounds overflows
list_all_lem_example : list_all (pos 9223372036854775807) (pos 1) old_keys ≡ (
    let first = nat_or_zero (pos 1) in
    let size = nat_or_zero (pos 9223372036854775807) in
    if ltb first (length (newest old_keys)) && leb (2 ^ 63) (first + size)
    then none
    else some (take size (drop first (newest old_keys))))
list_all_lem_example =
    list_all_lem old_keys (pos 9223372036854775807) (pos 1) (omega (arith, old_keys_count))
      (omega arith) (omega arith)
