-- ===== src/ApiKeys/Service/RoundTrip.antt =====
-- A key that Create hands back is accepted by Verify: the raw key is letters and digits, so its cut at
-- eleven bytes is the prefix under which the record was saved.
use Prim.Native.Nat.{zero}
use Prim.Native.Char.{code}
use Prim.Native.String.{[], ◌∷◌, ◌++◌ as cat}
use text.Mathlib.TextLemmas.{nil-append, cons-append}
use awesome_go_auth.Base.{
  ℕ, suc, String, List, Option, true, false, some, ◌≡◌, ◌≤◌, ◌<◌, ltb, refl, arith, inl, inr,
  eq_refl, Bool-cases, subst, sym, ◌∙◌,
}
use awesome_go_auth.Base.Dict.{get, get-put}
use awesome_go_auth.Base.Strings.{byte_len}
use awesome_go_auth.Errors.{ok, run-cases}
use awesome_go_auth.ApiKeys.{ApiKeyRecord, MemoryApiKeyStore, save, find_by_prefix, drop_previous}
use awesome_go_auth.Platform.{Platform, IsLawful}
use awesome_go_auth.Service.{World, new_id, random_token, hash_password, verify_password}
use awesome_go_auth.Service.Accounts.Passwords.{hash_password-bcrypt}
use awesome_go_auth.ApiKeys.Service.{
  Net, sanitize, first_chars, cut, has_key_prefix, has_scopes, ip_allowed, is_expired, fill, mint,
  minted_key, on_api_keys, create_key, verify_key,
}
use awesome_go_auth.ApiKeys.Service.Access.{verify_key-Gates}
use awesome_go_auth.ApiKeys.Service.Conditions.{mark-append}

-- every character is one byte
abbrev IsAscii : String → Type 0
IsAscii [] = Unit
IsAscii (c ∷ s) = (code c < 128) × IsAscii s

IsAscii-cat : (a b : String) → IsAscii a → IsAscii b → IsAscii (cat a b)
IsAscii-cat [] b h k = rw nil-append k
IsAscii-cat (c ∷ a) b (n, h) k = rw cons-append (n, IsAscii-cat a b h k)

sanitize-IsAscii : (s : String) → IsAscii (sanitize s)
unfolding sanitize
sanitize-IsAscii [] = tt
sanitize-IsAscii (c ∷ s) = ground (arith, sanitize-IsAscii s)

byte_len-first_chars :
    (n : ℕ) (s : String) → IsAscii s → n ≤ byte_len s → byte_len (first_chars n s) ≡ n
unfolding byte_len first_chars
byte_len-first_chars zero s h k = refl
byte_len-first_chars (suc n) [] h k = ground (arith)
byte_len-first_chars (suc n) (c ∷ s) (m, h) k =
    ground (arith, byte_len-first_chars n s h (ground (arith)))

first_chars-IsAscii : (n : ℕ) (s : String) → IsAscii s → IsAscii (first_chars n s)
unfolding first_chars
first_chars-IsAscii zero s h = tt
first_chars-IsAscii (suc n) [] h = tt
first_chars-IsAscii (suc n) (c ∷ s) (m, h) = (m, first_chars-IsAscii n s h)

cut-first_chars :
    (n : ℕ) (s : String) → IsAscii s → n ≤ byte_len s → cut n s ≡ some (first_chars n s)
unfolding byte_len first_chars cut
cut-first_chars zero [] h k = refl
cut-first_chars zero (c ∷ s) h k = refl
cut-first_chars (suc n) [] h k = ground (arith)
cut-first_chars (suc n) (c ∷ s) (m, h) k = ground (arith, cut-first_chars n s h (ground (arith)))

module _ (p : Platform) where
  fill-IsAscii :
      (rounds : ℕ) (body made : String) (w w' : World)
      → IsAscii body
      → fill p rounds body w ≡ (ok made, w')
      → IsAscii made
  unfolding fill
  fill-IsAscii zero body made w w' h e = subst IsAscii (ground (arith)) h
  fill-IsAscii (suc rounds) body made w w' h e = elim (Bool-cases (ltb (byte_len body) 48)) [
    | inl short ↦ elim (run-cases (random_token p 48 w)) [
      | inl (_, _, failed) ↦ absurd (ground (arith, short, failed))
      | inr (more, w1, drawn) ↦
          fill-IsAscii rounds (cat body (sanitize more)) made w1 w'
            (IsAscii-cat body (sanitize more) h (sanitize-IsAscii more))
            (ground (arith, short, drawn))
    ]
    | inr long ↦ subst IsAscii (ground (arith, long)) h
  ]

  -- the raw key that is minted
  mint_lem :
      (raw_key : String) (w w' : World)
      → mint p w ≡ (ok raw_key, w')
      → (body : String) × IsAscii body
        × (48 ≤ byte_len body)
        × (raw_key ≡ cat "ak_" (first_chars 48 body))
  unfolding mint
  mint_lem raw_key w w' e = elim (run-cases (random_token p 36 w)) [
    | inl (_, _, failed) ↦ absurd (ground (arith, failed))
    | inr (raw, w1, drawn) ↦ elim (run-cases (fill p 4 (sanitize raw) w1)) [
      | inl (_, _, failed) ↦ absurd (ground (arith, drawn, failed))
      | inr (body, w2, filled) ↦ (
        body,
        fill-IsAscii 4 (sanitize raw) body w1 w2 (sanitize-IsAscii raw) filled,
        ground (arith, drawn, filled),
        ground (arith, drawn, filled),
      )
    ]
  ]

  -- the raw key passes the first gate, and its cut is the prefix of its record
  mint-cut :
      (raw_key : String) (w w' : World)
      → mint p w ≡ (ok raw_key, w')
      → (has_key_prefix raw_key ≡ true)
        × (byte_len raw_key ≡ 51)
        × (cut 11 raw_key ≡ some (first_chars 11 raw_key))
  unfolding has_key_prefix byte_len
  mint-cut raw_key w w' e =
      let (body, ascii, long, same) = mint_lem raw_key w w' e in
      let taken = first_chars 48 body in
      let marked : String = "a" ∷ "k" ∷ "_" ∷ taken in
      let width : byte_len marked ≡ 51 = ground (arith, byte_len-first_chars 48 body ascii long) in
      let all : IsAscii marked = ground (arith, first_chars-IsAscii 48 body ascii) in
      subst
        (λ r. (has_key_prefix r ≡ true) × (byte_len r ≡ 51) × (cut 11 r ≡ some (first_chars 11 r)))
        (sym (same ∙ mark-append taken))
        (refl, width, cut-first_chars 11 marked all (omega (arith, width)))

  module _ (cost : ℕ) (name service_id : String) (scopes allowed_ips : List String)
      (expiry : Option ℕ) where
    -- what is done for a key that is handed back
    record Made (raw_key : String) (key : ApiKeyRecord) (w w' : World) : Type 0 where
      minted : (w1 : World) × (mint p w ≡ (ok raw_key, w1))
      id : String
      hash : String
      hashed : (c draw : ℕ) × (p.bcrypt c draw raw_key ≡ some hash)
      at : ℕ
      is_key : key ≡ minted_key raw_key id hash name service_id scopes allowed_ips expiry at
      before : MemoryApiKeyStore
      stored : w'.api_keys ≡ (save key before).1

    create_key-Made :
        (raw_key : String) (key : ApiKeyRecord) (w w' : World)
        → create_key p cost name service_id scopes allowed_ips expiry w ≡ (ok (raw_key, key), w')
        → Made raw_key key w w'
    unfolding create_key on_api_keys save
    create_key-Made raw_key key w w' e = elim (run-cases (mint p w)) [
      | inl (_, _, failed) ↦ absurd (ground (arith, failed))
      | inr (raw, w1, made) ↦ elim (run-cases (new_id p "key" w1)) [
        | inl (_, _, failed) ↦ absurd (ground (arith, made, failed))
        | inr (id, w2, named) ↦ elim (run-cases (hash_password p raw cost w2)) [
          | inl (_, _, failed) ↦ absurd (ground (arith, made, named, failed))
          | inr (hash, w3, hashed) ↦
              let same : raw ≡ raw_key = ground (arith, made, named, hashed) in
              let (c, n, computed, _, _) = hash_password-bcrypt p raw cost w2 w3 hash hashed in
              record {
                minted = (w1, ground (arith, made, same));
                id = id;
                hash = hash;
                hashed = (c, n, ground (arith, computed, same));
                at = w3.clock;
                is_key = ground (arith, made, named, hashed);
                before = w3.api_keys;
                stored = ground (arith, made, named, hashed);
              }
        ]
      ]
    ]

    found-save :
        (key : ApiKeyRecord) (s : MemoryApiKeyStore)
        → key.is_active ≡ true
        → find_by_prefix key.prefix (save key s).1 ≡ ok key
    unfolding find_by_prefix save
    found-save key s live =
        let index = drop_previous (get s.by_id key.id) key s.by_prefix in
        ground (
          arith,
          live,
          get-put index key.prefix key.prefix key.id,
          get-put s.by_id key.id key.id key,
          eq_refl key.id,
          eq_refl key.prefix,
        )

    -- On a lawful platform, a key that Create handed back is accepted by Verify as its record, in
    -- the world that its creation left, at a time that its expiry allows, from an address and for
    -- scopes that it was made for.
    pub verify_key-create_key :
        (net : Net) (raw_key ip : String) (required : List String) (key : ApiKeyRecord) (t : ℕ)
        (w w' : World)
        → IsLawful p
        → create_key p cost name service_id scopes allowed_ips expiry w ≡ (ok (raw_key, key), w')
        → is_expired t expiry ≡ false
        → ip_allowed net ip allowed_ips ≡ true
        → has_scopes scopes required ≡ true
        → (verify_key p net raw_key ip required (record w' { clock = t })).0 ≡ ok key
    unfolding minted_key verify_password
    verify_key-create_key net raw_key ip required key t w w' law e in_time address scoped =
        let m = create_key-Made raw_key key w w' e in
        let (marked, width, cut_off) = mint-cut raw_key w m.minted.0 m.minted.1 in
        let (c, n, computed) = m.hashed in
        (verify_key-Gates p net (record w' { clock = t }) raw_key ip required key).1 (record {
          marked = marked;
          long = omega (arith, width);
          prefix = key.prefix;
          cut_off = ground (arith, cut_off, m.is_key);
          found = rw m.stored (found-save key m.before (ground (arith, m.is_key)));
          matches = ground (arith, m.is_key, law.bcrypt-matches c n raw_key m.hash computed);
          in_time = ground (arith, m.is_key);
          address = ground (arith, m.is_key);
          scoped = ground (arith, m.is_key);
        })
