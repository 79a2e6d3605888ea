-- ===== src/Admin/Token.antt =====
-- admin.go: the token of the administration: where it stands in a request, its signature, its type
-- and its expiry.
use Prim.Native.String.{◌++◌ as cat}
use awesome_go_auth.Base.{
  ℕ, ◌+◌, ◌*◌, ◌≤◌, String, false, not, ◌||◌, Option, none, some, ◌==◌, eq_iff, ltb, ◌≡◌, ◌⊎◌,
  arith, inl, inr, if◌then◌else◌, Option-cases, Bool-cases,
}
use awesome_go_auth.Base.Strings.{trim_space}
use awesome_go_auth.Admin.Guard.{AdminClaims, AdminGuard}
use awesome_go_auth.Csrf.{Request, bearer_token, cookie_value}
use awesome_go_auth.Platform.{Platform}
use awesome_go_auth.Service.{Config}
use awesome_go_auth.Service.Tokens.{second, split_token, sign}

-- adminClaims as it is decoded, with what verifyToken checks
pub record AdminToken : Type 0 where
  pub claims : AdminClaims
  pub typ : String
  pub iss : String
  pub exp : ℕ

module _ (p : Platform) (c : Config) (unmarshal : String → Option AdminToken) where
  -- the checks of verifyToken on the claims that it decoded, at a time
  unfoldable pub check_admin_claims : ℕ → AdminToken → Option AdminClaims
  check_admin_claims t token =
      if not (token.typ == "admin" || token.typ == "access")
      then none
      else if not (token.iss == c.issuer)
      then none
      else if ltb (token.exp * second + c.clock_skew) t
      then none
      else if token.typ == "admin"
      then some token.claims
      else some (record (token.claims) { is_root = false })

  -- the algorithm, the signature, then the claims
  unfoldable pub verify_parts : String → ℕ → String × String × String → Option AdminClaims
  verify_parts secret t (header, payload, sig) = elim (p.decode64 header) [
    | none ↦ none
    | some raw_header ↦ elim (p.header_alg raw_header) [
      | none ↦ none
      | some alg ↦
          if not (alg == "HS256")
          then none
          else if not (sign p (cat (cat header ".") payload) secret == sig)
          then none
          else elim (p.decode64 payload) [
            | none ↦ none
            | some raw ↦ elim (unmarshal raw) [
              | none ↦ none
              | some token ↦ check_admin_claims t token
            ]
          ]
    ]
  ]

  -- verifyToken
  unfoldable pub verify_token : String → ℕ → String → Option AdminClaims
  verify_token secret t raw = elim (split_token raw) [
    | none ↦ none
    | some parts ↦ verify_parts secret t parts
  ]

  -- the text that readToken finds in a request, with the configured prefix of the cookie
  unfoldable pub admin_token_text : Option String → Request → String
  admin_token_text cookie_prefix r =
      let bearer = bearer_token p (r.header "Authorization") in
      if not (bearer == "") then bearer else elim cookie_prefix [
        | none ↦ cookie_value r "accessToken"
        | some prefix ↦ elim (r.cookie (cat prefix "accessToken")) [
          | none ↦ ""
          | some value ↦ trim_space value
        ]
      ]

  -- readToken
  unfoldable pub read_token : AdminGuard → Option String → ℕ → Request → Option AdminClaims
  read_token g cookie_prefix t r =
      let raw = admin_token_text cookie_prefix r in
      if g.jwt_secret == "" || raw == "" then none else verify_token g.jwt_secret t raw

  check_admin_claims_lem :
      (t : ℕ) (token : AdminToken) (claims : AdminClaims)
      → check_admin_claims t token ≡ some claims
      → (token.iss ≡ c.issuer)
        × (t ≤ token.exp * second + c.clock_skew)
        × (((token.typ ≡ "admin") × (claims ≡ token.claims))
            ⊎ ((token.typ ≡ "access") × (claims.is_root ≡ false)))
  unfolding check_admin_claims
  check_admin_claims_lem t token claims e = elim (Bool-cases (token.typ == "admin")) [
    | inl own ↦ (
      ground (arith, own, eq_iff token.iss c.issuer),
      ground (arith, own),
      inl (ground (arith, own, eq_iff token.typ "admin"), ground (arith, own)),
    )
    | inr other ↦ (
      ground (arith, other, eq_iff token.iss c.issuer),
      ground (arith, other),
      inr (ground (arith, other, eq_iff token.typ "access"), ground (arith, other)),
    )
  ]

  -- What has to hold for a token to be verified as claims.
  pub record Verified (secret raw : String) (t : ℕ) (claims : AdminClaims) : Type 0 where
    pub header : String
    pub payload : String
    pub body : String
    pub token : AdminToken
    pub split :
        split_token raw ≡ some (header, payload, sign p (cat (cat header ".") payload) secret)
    pub decoded : p.decode64 payload ≡ some body
    pub read : unmarshal body ≡ some token
    pub issued : token.iss ≡ c.issuer
    pub in_time : t ≤ token.exp * second + c.clock_skew
    pub typed :
        ((token.typ ≡ "admin") × (claims ≡ token.claims))
        ⊎ ((token.typ ≡ "access") × (claims.is_root ≡ false))

  -- A token that is verified for the administration has three parts of which the last is the
  -- signature of the others under the secret, and its decoded claims are of the configured issuer,
  -- in time but for the skew, and of one of two types; a root claim counts only on the type that the
  -- login of the administration mints.
  pub verify_token-Verified :
      (secret raw : String) (t : ℕ) (claims : AdminClaims)
      → verify_token secret t raw ≡ some claims
      → Verified secret raw t claims
  unfolding verify_token verify_parts
  verify_token-Verified secret raw t claims e = elim (Option-cases (split_token raw)) [
    | inl whole ↦ absurd (ground (arith, whole))
    | inr (parts, split) ↦
        let (header, payload, sig) = parts in
        elim (Option-cases (p.decode64 header)) [
          | inl bad ↦ absurd (ground (arith, split, bad))
          | inr (raw_header, head) ↦ elim (Option-cases (p.header_alg raw_header)) [
            | inl bad ↦ absurd (ground (arith, split, head, bad))
            | inr (alg, named) ↦ elim (Option-cases (p.decode64 payload)) [
              | inl bad ↦ absurd (ground (arith, split, head, named, bad))
              | inr (body, decoded) ↦ elim (Option-cases (unmarshal body)) [
                | inl bad ↦ absurd (ground (arith, split, head, named, decoded, bad))
                | inr (token, read) ↦
                    let input = cat (cat header ".") payload in
                    let checked : check_admin_claims t token ≡ some claims =
                      ground (arith, split, head, named, decoded, read) in
                    let (issued, in_time, typed) = check_admin_claims_lem t token claims checked in
                    let signed : sign p input secret ≡ sig =
                      ground (arith, split, head, named, eq_iff (sign p input secret) sig) in
                    record {
                      header = header;
                      payload = payload;
                      body = body;
                      token = token;
                      split = rw signed split;
                      decoded = decoded;
                      read = read;
                      issued = issued;
                      in_time = in_time;
                      typed = typed;
                    }
              ]
            ]
          ]
        ]
  ]
