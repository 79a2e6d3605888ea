-- ===== src/Service/Tokens.antt =====
-- token.go and splitToken of security.go: minting and verifying the signed tokens.
pub mod Plain
pub mod RoundTrip
pub mod Frame
use Prim.Native.Char.{Char, code}
use Prim.Native.String.{[], ◌∷◌, ◌++◌ as cat}
use awesome_go_auth.Base.{
  ℕ, ◌+◌, ◌*◌, ◌/◌, String, Bool, ◌||◌, not, Option, none, some, List, [], ◌∷◌, ◌==◌, ltb, eqb,
  if◌then◌else◌,
}
use awesome_go_auth.Base.Dict.{Dict, empty, put}
use awesome_go_auth.Errors.{
  Error, Result, ok, err, M, ◌>>=◌, ◌>>◌, return, fail, then_run, external, invalid_token, wrapped,
  map_error,
}
use awesome_go_auth.Models.{Any, str, flag, int, User, login_provider_or_local}
use awesome_go_auth.Platform.{Platform, TokenClaims}
use awesome_go_auth.Service.{
  Config, World, Action, now, lift, ask, new_id, mode_of, require, refuse,
}

abbrev pub second : ℕ
second = 1000000000

abbrev prepend : Char → List String → List String
prepend c [] = (c ∷ []) ∷ []
prepend c (s ∷ rest) = (c ∷ s) ∷ rest

-- strings.Split(s, ".")
unfoldable pub split_dots : String → List String
split_dots [] = "" ∷ []
split_dots (c ∷ s) = if eqb (code c) b'.' then "" ∷ split_dots s else prepend c (split_dots s)

-- splitToken: header, payload and signature
abbrev three : List String → Option (String × String × String)
three (header ∷ payload ∷ sig ∷ []) = some (header, payload, sig)
three _ = none

unfoldable pub split_token : String → Option (String × String × String)
unfolding split_dots
split_token token = three (split_dots token)

-- sign
unfoldable pub sign : Platform → String → String → String
sign p input secret = p.encode64 (p.hmac_sha256 secret input)

-- The six claims that a hook may override.
unfoldable pub base_claims : User → Dict Any
base_claims u =
    put
      (put
        (put (put (put (put empty "sub" (str u.id)) "email" (str u.email)) "role" (str u.role))
          "loginProvider" (str (login_provider_or_local u)))
        "isEmailVerified" (flag u.is_email_verified))
      "isTotpEnabled" (flag u.is_totp_enabled)

-- for key, value := range customClaims { payloadClaims[key] = value }
unfoldable pub spread : List (String × Any) → Dict Any → Dict Any
spread [] d = d
spread ((k, v) ∷ m) d = put (spread m d) k v

-- The claims that are written after the merge, whatever the hook returned.
unfoldable pub reserve : Config → User → String → String → String → ℕ → ℕ → Dict Any → Dict Any
reserve c u sid typ jti iat exp d =
    let d1 = put d "sid" (str sid) in
    let d2 = put d1 "tid" (str u.tenant_id) in
    let d3 = put d2 "jti" (str jti) in
    let d4 = put d3 "typ" (str typ) in
    let d5 = put d4 "iss" (str c.issuer) in
    let d6 = put d5 "iat" (int iat) in put d6 "exp" (int exp)

-- the claims of the user, with what the configured hook adds or replaces
unfoldable pub user_claims : Config → User → Result (Dict Any)
user_claims c u = elim c.build_token_claims [
  | none ↦ ok (base_claims u)
  | some hook ↦ elim (hook u) [
    | err e ↦ err (wrapped "auth: build token claims" e)
    | ok custom ↦ ok (spread custom.entries (base_claims u))
  ]
]

-- buildHS256JWT
unfoldable pub build_hs256_jwt : Platform → Dict Any → String → Result String
build_hs256_jwt p claims secret = elim (p.marshal_claims claims) [
  | none ↦ err (external "auth: marshal claims")
  | some bytes ↦
      let input = cat (cat (p.encode64 (p.marshal_header "HS256" "JWT")) ".") (p.encode64 bytes) in
      ok (cat (cat input ".") (sign p input secret))
]

module _ (p : Platform) (c : Config) where
  -- issueToken: the token and its expiry
  unfoldable pub issue_token : User → String → String → ℕ → Action (String × ℕ)
  issue_token u sid typ ttl = do
    t ← now
    let expires_at = t + ttl
    jti ← new_id p "jti"
    claims ← lift (user_claims c u)
    let payload = reserve c u sid typ jti (t / second) (expires_at / second) claims
    token ← lift (build_hs256_jwt p payload c.secret)
    return (token, expires_at)

  -- The checks of parseToken on the claims that it read, at a time.
  unfoldable pub check_claims : String → ℕ → TokenClaims → Result TokenClaims
  check_claims expected t claims =
      if not (claims.iss == c.issuer) || not (claims.typ == expected)
      then err invalid_token
      else if ltb (claims.exp * second + c.clock_skew) t
      then err invalid_token
      else ok claims

  -- The part of parseToken after the split: the algorithm, the signature, then the claims.
  unfoldable pub read_parts : String → ℕ → String × String × String → Result TokenClaims
  read_parts expected t (header, payload, sig) = elim (p.decode64 header) [
    | none ↦ err invalid_token
    | some raw_header ↦ elim (p.header_alg raw_header) [
      | none ↦ err invalid_token
      | some alg ↦
          if not (alg == "HS256")
          then err invalid_token
          else if not (sign p (cat (cat header ".") payload) c.secret == sig)
          then err invalid_token
          else elim (p.decode64 payload) [
            | none ↦ err invalid_token
            | some raw ↦ elim (p.unmarshal_claims raw) [
              | none ↦ err invalid_token
              | some claims ↦ check_claims expected t claims
            ]
          ]
    ]
  ]

  -- parseToken
  unfoldable pub parse_token : String → String → ℕ → Result TokenClaims
  parse_token token expected t = elim (split_token token) [
    | none ↦ err invalid_token
    | some parts ↦ read_parts expected t parts
  ]
