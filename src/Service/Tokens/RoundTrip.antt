-- ===== src/Service/Tokens/RoundTrip.antt =====
-- A token that issueToken minted is read back by parseToken, and names what it was minted for.
use Prim.Native.Char.{Char}
use Prim.Native.String.{[], ◌∷◌, ◌++◌ as cat}
use text.Mathlib.TextLemmas.{nil-append, cons-append, append_assoc}
use awesome_go_auth.Base.{
  ℕ, ◌+◌, ◌*◌, ◌/◌, ◌≤◌, String, ◌≡◌, ◌≢◌, refl, ap, ◌∙◌, some, [], ◌∷◌, eq_iff, eq_refl, arith,
  Option-cases, inl, inr, ◌<◌, ◌⊎◌, ◌^◌, true,
}
use awesome_go_auth.Base.Dict.{Dict, get, get-put}
use awesome_go_auth.Errors.{ok, err, invalid_token}
use awesome_go_auth.Models.{Any, str, User}
use awesome_go_auth.Platform.{Platform, TokenClaims, NoDot, Carries, IsLawful, plain_claims}
use awesome_go_auth.Service.Tokens.Plain.{plain_claims-reserve}
use awesome_go_auth.Service.{Config, World, draw, new_id}
use awesome_go_auth.Service.Tokens.{
  second, split_dots, three, split_token, sign, reserve, user_claims, build_hs256_jwt, issue_token,
  check_claims, read_parts, parse_token,
}

abbrev dot : Char
dot = "."

dot-append : (x : String) → cat "." x ≡ dot ∷ x
dot-append x = cons-append dot [] x ∙ ap (λ t. dot ∷ t) (nil-append x)

split_dots-plain : (a : String) → NoDot a → split_dots a ≡ a ∷ []
unfolding split_dots
split_dots-plain [] h = refl
split_dots-plain (c ∷ s) h = ground (arith, split_dots-plain s h.1)

split_dots-append :
    (a rest : String) → NoDot a → split_dots (cat a (dot ∷ rest)) ≡ a ∷ split_dots rest
unfolding split_dots
split_dots-append [] rest h = rw nil-append refl
split_dots-append (c ∷ s) rest h = rw cons-append (ground (arith, split_dots-append s rest h.1))

split_token_lem :
    (a b c : String)
    → NoDot a
    → NoDot b
    → NoDot c
    → split_token (cat (cat (cat (cat a ".") b) ".") c) ≡ some (a, b, c)
unfolding split_token
split_token_lem a b c ha hb hc =
    let flat : cat (cat (cat (cat a ".") b) ".") c ≡ cat a (dot ∷ cat b (dot ∷ c)) =
      simp (append_assoc, dot-append, cons-append) in
    ap (λ s. three (split_dots s)) flat
    ∙ ap three (split_dots-append a _ ha)
    ∙ ap (λ l. three (a ∷ l)) (split_dots-append b c hb)
    ∙ ap (λ l. three (a ∷ b ∷ l)) (split_dots-plain c hc)

-- The reserved claims are what they were set to, whatever was there before.
reserve-Carries :
    (c : Config) (u : User) (sid typ jti sub : String) (iat exp : ℕ) (d : Dict Any)
    → get d "sub" ≡ some (str sub)
    → Carries (reserve c u sid typ jti iat exp d) (record {
      sub = sub;
      sid = sid;
      tid = u.tenant_id;
      jti = jti;
      typ = typ;
      iss = c.issuer;
      iat = iat;
      exp = exp;
    })
unfolding reserve
reserve-Carries c u sid typ jti sub iat exp d h = record {
  sub = simp get-put h;
  sid = simp get-put;
  tid = simp get-put;
  jti = simp get-put;
  typ = simp get-put;
  iss = simp get-put;
  iat = simp get-put;
  exp = simp get-put;
}

module _ (p : Platform) (law : IsLawful p) (c : Config) where
  abbrev header : String
  header = p.encode64 (p.marshal_header "HS256" "JWT")

  abbrev signed : String → String → String
  signed h payload =
      cat (cat (cat (cat h ".") payload) ".") (sign p (cat (cat h ".") payload) c.secret)

  -- The three parts of a token that was signed here pass every check before the claims.
  read_parts-signed :
      (expected : String) (t : ℕ) (bytes : String) (claims : TokenClaims)
      → p.unmarshal_claims bytes ≡ some claims
      → let payload = p.encode64 bytes in
        read_parts p c expected t (header, payload, sign p (cat (cat header ".") payload) c.secret)
        ≡ check_claims p c expected t claims
  unfolding read_parts
  read_parts-signed expected t bytes claims h =
      rw (read_parts, law.decode-encode, law.header_alg-marshal, eq_refl, law.decode-encode, h) refl

  parse-signed :
      (expected : String) (t : ℕ) (bytes : String) (claims : TokenClaims)
      → p.unmarshal_claims bytes ≡ some claims
      → parse_token p c (signed header (p.encode64 bytes)) expected t
        ≡ check_claims p c expected t claims
  unfolding parse_token sign
  parse-signed expected t bytes claims h =
      rw
        (
          parse_token,
          split_token_lem header (p.encode64 bytes)
              (p.encode64 (p.hmac_sha256 c.secret (cat (cat header ".") (p.encode64 bytes))))
              (law.encode_dot _) (law.encode_dot _) (law.encode_dot _),
        )
        (read_parts-signed expected t bytes claims h)

  build-signed :
      (d : Dict Any) (token bytes : String)
      → p.marshal_claims d ≡ some bytes
      → build_hs256_jwt p d c.secret ≡ ok token
      → token ≡ signed header (p.encode64 bytes)
  unfolding build_hs256_jwt
  build-signed d token bytes e built = ground (arith)

  -- what a signed map is read back as, before the claims are checked
  read-build :
      (expected : String) (t : ℕ) (d : Dict Any) (token : String) (claims : TokenClaims)
      → plain_claims p.fold d.entries ≡ true
      → claims.iat < 2 ^ 63
      → claims.exp < 2 ^ 63
      → Carries d claims
      → build_hs256_jwt p d c.secret ≡ ok token
      → parse_token p c token expected t ≡ check_claims p c expected t claims
  unfolding build_hs256_jwt
  read-build expected t d token claims plain begun ends carries built =
      elim (Option-cases (p.marshal_claims d)) [
        | inl e ↦ ground (arith)
        | inr (bytes, e) ↦
            ap (λ x. parse_token p c x expected t) (build-signed d token bytes e built)
            ∙ parse-signed expected t bytes claims
                (law.unmarshal-marshal d bytes claims e plain begun ends carries)
      ]

  -- the claims that a token of issueToken carries
  abbrev pub minted : User → String → String → String → ℕ → ℕ → TokenClaims
  minted u sid typ jti at expires = record {
    sub = u.id;
    sid = sid;
    tid = u.tenant_id;
    jti = jti;
    typ = typ;
    iss = c.issuer;
    iat = at / second;
    exp = expires / second;
  }

  -- what a run of issueToken that returns has built
  pub issue_token-built :
      (u : User) (sid typ : String) (ttl : ℕ) (w w' : World) (claims : Dict Any) (token : String)
      (exp : ℕ)
      → user_claims c u ≡ ok claims
      → issue_token p c u sid typ ttl w ≡ (ok (token, exp), w')
      → (exp ≡ w.clock + ttl)
        × (jti : String) × (build_hs256_jwt p
              (reserve c u sid typ jti (w.clock / second) (exp / second) claims)
              c.secret
            ≡ ok token)
  unfolding issue_token new_id draw
  issue_token-built u sid typ ttl w w' claims token exp hc run =
      elim (Option-cases (p.rand_read w.draws 16)) [
        | inl e ↦ ground (arith)
        | inr (b, e) ↦ (ground (arith), cat (cat "jti" "_") (p.hex b), ground (arith))
      ]

  issue-read :
      (u : User) (sid typ : String) (ttl : ℕ) (w w' : World) (claims : Dict Any) (token : String)
      (exp : ℕ) (expected : String) (t : ℕ)
      → user_claims c u ≡ ok claims
      → get claims "sub" ≡ some (str u.id)
      → plain_claims p.fold claims.entries ≡ true
      → (w.clock + ttl) / second < 2 ^ 63
      → issue_token p c u sid typ ttl w ≡ (ok (token, exp), w')
      → (exp ≡ w.clock + ttl)
        × (jti : String) × (parse_token p c token expected t
            ≡ check_claims p c expected t (minted u sid typ jti w.clock exp))
  issue-read u sid typ ttl w w' claims token exp expected t hc hs plain fits run =
      let (at, jti, built) = issue_token-built u sid typ ttl w w' claims token exp hc run in
      (
        at,
        jti,
        read-build expected t _ token _
            (plain_claims-reserve p law c u sid typ jti (w.clock / second) (exp / second) claims
              plain)
            (omega (arith, fits)) (ground (arith, at, fits))
            (reserve-Carries c u sid typ jti u.id (w.clock / second) (exp / second) claims hs)
            built,
      )

  -- On a lawful platform, where the claims hook keeps the subject and sets no claim under a name
  -- that folds to that of a claim that is read and is not it (as "Exp" folds to "exp"), and the
  -- expiry in seconds is below 2 to the 63, a minted token is accepted as a token of its type until
  -- its expiry in whole seconds plus the skew, and is read back as the user, session and tenant it
  -- was minted for.
  pub parse_token-issue_token :
      (u : User) (sid typ : String) (ttl : ℕ) (w w' : World) (claims : Dict Any) (token : String)
      (exp t : ℕ)
      → user_claims c u ≡ ok claims
      → get claims "sub" ≡ some (str u.id)
      → plain_claims p.fold claims.entries ≡ true
      → (w.clock + ttl) / second < 2 ^ 63
      → issue_token p c u sid typ ttl w ≡ (ok (token, exp), w')
      → t ≤ (w.clock + ttl) / second * second + c.clock_skew
      → (jti : String) × (parse_token p c token typ t
          ≡ ok (minted u sid typ jti w.clock (w.clock + ttl)))
  unfolding check_claims
  parse_token-issue_token u sid typ ttl w w' claims token exp t hc hs plain fits run early =
      let (at, jti, read) =
        issue-read u sid typ ttl w w' claims token exp typ t hc hs plain fits run in
      (jti, ground (arith, eq_refl c.issuer, eq_refl typ))

  -- On a lawful platform, where the claims hook keeps the subject and sets no claim under a name
  -- that folds to that of a claim that is read and is not it (as "Exp" folds to "exp"), and the
  -- expiry in seconds is below 2 to the 63, a minted token is refused as a token of any other type,
  -- and after its expiry plus the skew.
  pub parse_token-issue_token_refused :
      (u : User) (sid typ expected : String) (ttl : ℕ) (w w' : World) (claims : Dict Any)
      (token : String) (exp t : ℕ)
      → user_claims c u ≡ ok claims
      → get claims "sub" ≡ some (str u.id)
      → plain_claims p.fold claims.entries ≡ true
      → (w.clock + ttl) / second < 2 ^ 63
      → issue_token p c u sid typ ttl w ≡ (ok (token, exp), w')
      → (typ ≢ expected) ⊎ ((w.clock + ttl) / second * second + c.clock_skew < t)
      → parse_token p c token expected t ≡ err invalid_token
  unfolding check_claims
  parse_token-issue_token_refused u sid typ expected ttl w w' claims token exp t hc hs plain fits
        run late =
      let (at, jti, read) =
        issue-read u sid typ ttl w w' claims token exp expected t hc hs plain fits run in
      elim late [ inl other ↦ ground (arith, eq_iff typ expected) | inr after ↦ ground (arith) ]
