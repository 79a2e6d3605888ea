-- ===== src/SessionStore/Expiry.antt =====
-- The loop of DeleteExpiredSessions, round by round.
pub mod Laws
use awesome_go_auth.Base.{
  ℕ, suc, ◌+◌, String, Bool, ◌≡◌, ◌≢◌, refl, sym, some, none, Option, List, [], ◌∷◌, ◌==◌, eq_iff,
  arith, ltb, length, In, Option-cases, Bool-cases, inl, inr, ◌∙◌, ap, if◌then◌else◌, ◌||◌, ◌&&◌,
  keep_if, false, true,
}
use awesome_go_auth.Base.Dict.{Dict, lookup, get, put, remove, get-put, get-remove}
use awesome_go_auth.Base.Dict.Entries.{Distinct, Distinct-remove}
use awesome_go_auth.Errors.{ok, err}
use awesome_go_auth.Models.{Session}
use awesome_go_auth.SessionStore.{
  MemorySessionStore, expire_one, expire_loop, delete_expired_sessions,
}
use awesome_go_auth.SessionStore.Invariant.{IsIndexed}

module _ (now : ℕ) where
  abbrev pub expired : Session → Bool
  expired x = ltb x.expires_at now

  -- what is left of a lookup in the table
  abbrev pub surviving : Option Session → Option Session
  surviving none = none
  surviving (some x) = if expired x then none else some x

  abbrev pub doomed : Option Session → Bool
  doomed none = false
  doomed (some x) = expired x

  abbrev pub doomed_hash : String → List (String × Session) → Bool
  doomed_hash hash [] = false
  doomed_hash hash ((id, x) ∷ rest) =
      (expired x && (x.refresh_token_hash == hash)) || doomed_hash hash rest

  pub by_id-expire_loop :
      (es : List (String × Session)) (s : MemorySessionStore) (n : ℕ) (k : String)
      → Distinct es
      → get (expire_loop now es (s, n)).0.by_id k
        ≡ (if doomed (lookup k es) then none else get s.by_id k)
  unfolding expire_loop expire_one lookup
  by_id-expire_loop [] s n k d = refl
  by_id-expire_loop ((id, x) ∷ rest) s n k d =
      let (t, m) = expire_one now id x (s, n) in
      ground (arith, by_id-expire_loop rest t m k d.1, get-remove s.by_id id k, eq_iff id k)

  pub hash-expire_loop :
      (es : List (String × Session)) (s : MemorySessionStore) (n : ℕ) (hash : String)
      → get (expire_loop now es (s, n)).0.by_token_hashed hash
        ≡ (if doomed_hash hash es then none else get s.by_token_hashed hash)
  unfolding expire_loop expire_one
  hash-expire_loop [] s n hash = refl
  hash-expire_loop ((id, x) ∷ rest) s n hash =
      let (t, m) = expire_one now id x (s, n) in
      ground (
        arith,
        hash-expire_loop rest t m hash,
        get-remove s.by_token_hashed x.refresh_token_hash hash,
        eq_iff x.refresh_token_hash hash,
      )

  pub count-expire_loop :
      (es : List (String × Session)) (s : MemorySessionStore) (n : ℕ)
      → (expire_loop now es (s, n)).1
        ≡ n + length (keep_if (λ (e : String × Session). expired e.1) es)
  unfolding expire_loop expire_one
  count-expire_loop [] s n = omega arith
  count-expire_loop ((id, x) ∷ rest) s n =
      let (t, m) = expire_one now id x (s, n) in ground (arith, count-expire_loop rest t m)

  Distinct-expire_one :
      (id : String) (x : Session) (s : MemorySessionStore) (n : ℕ)
      → Distinct s.by_id.entries
      → Distinct (expire_one now id x (s, n)).0.by_id.entries
  unfolding expire_one
  Distinct-expire_one id x s n d = ground (arith, Distinct-remove s.by_id id d)

  pub Distinct-expire_loop :
      (es : List (String × Session)) (s : MemorySessionStore) (n : ℕ)
      → Distinct s.by_id.entries
      → Distinct (expire_loop now es (s, n)).0.by_id.entries
  unfolding expire_loop
  Distinct-expire_loop [] s n d = d
  Distinct-expire_loop ((id, x) ∷ rest) s n d =
      let (t, m) = expire_one now id x (s, n) in
      Distinct-expire_loop rest t m (Distinct-expire_one id x s n d)

  -- an entry is doomed by its hash only if it holds it and has expired
  pub doomed_hash-entry :
      (hash : String) (es : List (String × Session))
      → doomed_hash hash es ≡ true
      → (id : String) × (x : Session) × In (id, x) es
        × (expired x ≡ true)
        × (x.refresh_token_hash ≡ hash)
  doomed_hash-entry hash [] e = absurd (ground arith)
  doomed_hash-entry hash ((id, x) ∷ rest) e =
      elim (Bool-cases (expired x && (x.refresh_token_hash == hash))) [
        | inl here ↦
            (id, x, inl refl, ground arith, ground (arith, eq_iff x.refresh_token_hash hash))
        | inr later ↦
            let (j, y, i, gone, same) = doomed_hash-entry hash rest (ground (arith, later)) in
            (j, y, inr i, gone, same)
      ]

  pub doomed_hash-In :
      (hash id : String) (x : Session) (es : List (String × Session))
      → In (id, x) es
      → expired x ≡ true
      → x.refresh_token_hash ≡ hash
      → doomed_hash hash es ≡ true
  doomed_hash-In hash id x [] i gone same = elim i [ ]
  doomed_hash-In hash id x ((j, y) ∷ rest) (inl e) gone same =
      let here : x ≡ y = ap (λ (e : String × Session). e.1) e in
      rw (← here) (ground (arith, eq_iff x.refresh_token_hash hash))
  doomed_hash-In hash id x ((j, y) ∷ rest) (inr i) gone same =
      ground (arith, doomed_hash-In hash id x rest i gone same)
