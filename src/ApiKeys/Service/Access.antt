-- ===== src/ApiKeys/Service/Access.antt =====
-- Who is let in by Verify: the conditions on the key, the address and the scopes.
use Prim.Native.String.{◌++◌ as cat}
use awesome_go_auth.Base.{
  String, true, false, some, List, ◌≡◌, ◌≢◌, ◌↔◌, ◌≤◌, inl, inr, arith, eq_iff, Option-cases, subst,
  ap, ◌∙◌,
}
use awesome_go_auth.Base.Dict.{get, get-put}
use awesome_go_auth.Base.Strings.{byte_len}
use awesome_go_auth.Errors.{Error, ok, err, Result-cases, invalid_credentials}
use awesome_go_auth.ApiKeys.{ApiKeyRecord, MemoryApiKeyStore, find_by_prefix, revoke}
use awesome_go_auth.ApiKeys.Invariant.{IsKeyed}
use awesome_go_auth.Platform.{Platform}
use awesome_go_auth.Service.{World, verify_password}
use awesome_go_auth.ApiKeys.Service.{
  Net, cut, has_key_prefix, has_scopes, ip_allowed, is_expired, find_key, verify_key,
}
use awesome_go_auth.ApiKeys.Service.Conditions.{
  Covers, MayUse, NotPast, has_scopes_iff, ip_allowed_iff, is_expired_iff, has_key_prefix_iff,
  cut_iff, find_by_prefix_iff, byte_len-cat,
}

find_by_prefix-revoke :
    (s : MemoryApiKeyStore)
    → IsKeyed s
    → (id prefix : String) (key : ApiKeyRecord) → find_by_prefix prefix (revoke id s).1 ≡ ok key
    → key.id ≢ id
unfolding find_by_prefix revoke
find_by_prefix-revoke s h id prefix key e same = elim (Option-cases (get s.by_id id)) [
  | inl unknown ↦ elim (Option-cases (get s.by_prefix prefix)) [
    | inl missing ↦ ground (arith, unknown, missing)
    | inr (k, named) ↦ elim (Option-cases (get s.by_id k)) [
      | inl gone ↦ ground (arith, unknown, named, gone)
      | inr (x, has) ↦ ground (arith, unknown, named, has, h.id_key k x)
    ]
  ]
  | inr (old, known) ↦ elim (Option-cases (get s.by_prefix prefix)) [
    | inl missing ↦ ground (arith, known, missing)
    | inr (k, named) ↦
        let wrote = get-put s.by_id id k (record old { is_active = false }) in
        elim (Option-cases (get s.by_id k)) [
          | inl gone ↦ ground (arith, known, named, gone, wrote, eq_iff id k)
          | inr (x, has) ↦ ground (arith, known, named, has, wrote, eq_iff id k, h.id_key k x)
        ]
  ]
]

module _ (p : Platform) (net : Net) (w : World) where
  -- the gates of the code, and what has passed them
  pub record Gates (raw_key ip : String) (required : List String) (key : ApiKeyRecord)
      : Type 0 where
    pub marked : has_key_prefix raw_key ≡ true
    pub long : 11 ≤ byte_len raw_key
    pub prefix : String
    pub cut_off : cut 11 raw_key ≡ some prefix
    pub found : find_by_prefix prefix w.api_keys ≡ ok key
    pub matches : verify_password p raw_key key.key_hash ≡ true
    pub in_time : is_expired w.clock key.expires_at ≡ false
    pub address : ip_allowed net ip key.allowed_ips ≡ true
    pub scoped : has_scopes key.scopes required ≡ true

  -- What has to hold for a raw key to be accepted as a record: its text is the mark and more, its
  -- first eleven bytes name an active record in the index, bcrypt matches it with the record's
  -- hash, the record's expiry is not past, the address may use it, and the scopes that are asked
  -- for are all among its own.
  pub record Admitted (raw_key ip : String) (required : List String) (key : ApiKeyRecord)
      : Type 0 where
    pub marked : (body : String) × (raw_key ≡ cat "ak_" body)
    pub prefix : String
    pub split : (rest : String) × (raw_key ≡ cat prefix rest) × (byte_len prefix ≡ 11)
    pub named :
        (id : String) × (get w.api_keys.by_prefix prefix ≡ some id)
        × (get w.api_keys.by_id id ≡ some key)
        × (key.is_active ≡ true)
    pub matches : p.bcrypt_matches key.key_hash raw_key ≡ true
    pub in_time : NotPast w.clock key.expires_at
    pub address : MayUse net ip key.allowed_ips
    pub scoped : Covers key.scopes required

  find_by_prefix-is_active :
      (prefix : String) (key : ApiKeyRecord)
      → find_by_prefix prefix w.api_keys ≡ ok key
      → key.is_active ≡ true
  unfolding find_by_prefix
  find_by_prefix-is_active prefix key e = elim (Option-cases (get w.api_keys.by_prefix prefix)) [
    | inl missing ↦ absurd (ground (arith, missing))
    | inr (id, named) ↦ elim (Option-cases (get w.api_keys.by_id id)) [
      | inl missing ↦ absurd (ground (arith, named, missing))
      | inr (k, has) ↦ ground (arith, named, has)
    ]
  ]

  find_key-found :
      (raw_key : String) (key : ApiKeyRecord)
      → find_key raw_key w.api_keys ≡ ok key
      → (prefix : String) × (cut 11 raw_key ≡ some prefix)
        × (find_by_prefix prefix w.api_keys ≡ ok key)
  unfolding find_key
  find_key-found raw_key key e = elim (Option-cases (cut 11 raw_key)) [
    | inl bad ↦ absurd (ground (arith, bad))
    | inr (prefix, good) ↦ (prefix, good, ground (arith, good))
  ]

  find_key-intro :
      (raw_key prefix : String) (key : ApiKeyRecord)
      → cut 11 raw_key ≡ some prefix
      → find_by_prefix prefix w.api_keys ≡ ok key
      → find_key raw_key w.api_keys ≡ ok key
  unfolding find_key
  find_key-intro raw_key prefix key cut_off found = ground (arith, cut_off, found)

  module _ (raw_key ip : String) (required : List String) where
    pub verify_key-Gates :
        (key : ApiKeyRecord)
        → ((verify_key p net raw_key ip required w).0 ≡ ok key) ↔ Gates raw_key ip required key
    unfolding verify_key
    verify_key-Gates key = (
      λ e. elim (Result-cases (find_key raw_key w.api_keys)) [
        | inl (_, lost) ↦ absurd (ground (arith, lost))
        | inr (k, have) ↦
            let same : k ≡ key = ground (arith, have) in
            let (prefix, cut_off, found) =
              find_key-found raw_key key
                (subst (λ x. find_key raw_key w.api_keys ≡ ok x) same have) in
            record {
              marked = ground (arith, have);
              long = ground (arith, have);
              prefix = prefix;
              cut_off = cut_off;
              found = found;
              matches = ground (arith, have, same);
              in_time = ground (arith, have, same);
              address = ground (arith, have, same);
              scoped = ground (arith, have, same);
            }
      ],
      λ a.
          let have = find_key-intro raw_key a.prefix key a.cut_off a.found in
          let live = find_by_prefix-is_active a.prefix key a.found in ground (arith, have, live),
    )

    Gates-Admitted :
        (key : ApiKeyRecord) → Gates raw_key ip required key → Admitted raw_key ip required key
    unfolding verify_password
    Gates-Admitted key g = record {
      marked = (has_key_prefix_iff raw_key).0 g.marked;
      prefix = g.prefix;
      split = (cut_iff 11 raw_key g.prefix).0 g.cut_off;
      named = (find_by_prefix_iff g.prefix key w.api_keys).0 g.found;
      matches = g.matches;
      in_time = (is_expired_iff w.clock key.expires_at).0 g.in_time;
      address = (ip_allowed_iff net ip key.allowed_ips).0 g.address;
      scoped = (has_scopes_iff key.scopes required).0 g.scoped;
    }

    Admitted-Gates :
        (key : ApiKeyRecord) → Admitted raw_key ip required key → Gates raw_key ip required key
    unfolding verify_password
    Admitted-Gates key a =
        let (rest, split, size) = a.split in
        let width = ap byte_len split ∙ byte_len-cat a.prefix rest in
        record {
          marked = (has_key_prefix_iff raw_key).1 a.marked;
          long = omega (arith, size, width);
          prefix = a.prefix;
          cut_off = (cut_iff 11 raw_key a.prefix).1 a.split;
          found = (find_by_prefix_iff a.prefix key w.api_keys).1 a.named;
          matches = a.matches;
          in_time = (is_expired_iff w.clock key.expires_at).1 a.in_time;
          address = (ip_allowed_iff net ip key.allowed_ips).1 a.address;
          scoped = (has_scopes_iff key.scopes required).1 a.scoped;
        }

    -- A raw key is accepted as a record exactly if it is "ak_" and more, its first eleven bytes name
    -- in the index the id of that record, which is active, bcrypt matches it with the record's hash,
    -- the record's expiry is not past, the record lists no address or the address parses and an
    -- entry of the list is a network that contains it or the address itself, and every scope that is
    -- asked for is among the record's.
    pub verify_key_iff :
        (key : ApiKeyRecord)
        → ((verify_key p net raw_key ip required w).0 ≡ ok key) ↔ Admitted raw_key ip required key
    verify_key_iff key = (
      λ e. Gates-Admitted key ((verify_key-Gates key).0 e),
      λ a. (verify_key-Gates key).1 (Admitted-Gates key a),
    )

    -- Every refusal is of one kind and changes nothing.
    pub verify_key-refused :
        (e : Error) (w' : World)
        → verify_key p net raw_key ip required w ≡ (err e, w')
        → (e ≡ invalid_credentials) × (w' ≡ w)
    unfolding verify_key
    verify_key-refused e w' h = elim (Result-cases (find_key raw_key w.api_keys)) [
      | inl (_, lost) ↦ ground (arith, lost)
      | inr (k, have) ↦ ground (arith, have)
    ]

-- In a key store whose index is consistent, after an id is revoked no raw key is accepted as a key
-- of that id, from any address and for any scopes.
pub verify_key-revoke :
    (p : Platform) (net : Net) (w : World) (id raw_key ip : String) (required : List String)
    (key : ApiKeyRecord)
    → IsKeyed w.api_keys
    → (verify_key p net raw_key ip required (record w { api_keys = (revoke id w.api_keys).1 })).0
      ≡ ok key
    → key.id ≢ id
verify_key-revoke p net w id raw_key ip required key h e =
    let after = record w { api_keys = (revoke id w.api_keys).1 } in
    let g = (verify_key-Gates p net after raw_key ip required key).0 e in
    find_by_prefix-revoke w.api_keys h id g.prefix key g.found
