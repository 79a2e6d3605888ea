-- ===== src/Claims.antt =====
-- claims.go, token.go: the builders of the claims that a deployment adds to its tokens.
use awesome_go_auth.Base.{
  String, Bool, true, Option, none, some, List, [], ◌∷◌, ◌==◌, ◌||◌, ◌≡◌, arith, eq_iff,
  if◌then◌else◌, Option-cases, Bool-cases, inl, inr, subst,
}
use awesome_go_auth.Base.Dict.{Dict, empty, get, put, get-put, get-empty}
use awesome_go_auth.Base.Strings.{trim_space}
use awesome_go_auth.Errors.{Result, ok, err, external, Result-cases}
use awesome_go_auth.Metadata.{assign_all}
use awesome_go_auth.Models.{Any, str, flag, User, login_provider_or_local}

-- token.go, isReservedClaim
unfoldable pub is_reserved_claim : String → Bool
is_reserved_claim name =
    name == "sid"
    || name == "tid"
    || name == "jti"
    || name == "typ"
    || name == "iss"
    || name == "iat"
    || name == "exp"

-- userClaimFields
unfoldable pub read_field : String → Option (User → Any)
read_field field =
    if field == "id"
    then some (λ u. str u.id)
    else if field == "email"
    then some (λ u. str u.email)
    else if field == "role"
    then some (λ u. str u.role)
    else if field == "tenantId"
    then some (λ u. str u.tenant_id)
    else if field == "firstName"
    then some (λ u. str u.first_name)
    else if field == "lastName"
    then some (λ u. str u.last_name)
    else if field == "phoneNumber"
    then some (λ u. str u.phone_number)
    else if field == "isEmailVerified"
    then some (λ u. flag u.is_email_verified)
    else if field == "isTotpEnabled"
    then some (λ u. flag u.is_totp_enabled)
    else if field == "loginProvider"
    then some (λ u. str (login_provider_or_local u))
    else none

-- the readers of UserFieldClaims, over the entries of the map
unfoldable pub compile_fields : List (String × String) → Result (Dict (User → Any))
compile_fields [] = ok empty
compile_fields ((claim, field) ∷ rest) =
    let later = compile_fields rest in
    if trim_space claim == ""
    then err (external "auth: user field claims: empty claim name")
    else if is_reserved_claim claim
    then err (external "auth: user field claims: reserved session claim")
    else elim (read_field field) [
      | none ↦ err (external "auth: user field claims: unknown user field")
      | some read ↦ elim later [ err e ↦ err e | ok readers ↦ ok (put readers claim read) ]
    ]

-- ChainClaims: the builders one after the other, a later one over an earlier
unfoldable pub chain_claims : List (User → Result (Dict Any)) → User → Dict Any → Result (Dict Any)
chain_claims [] user merged = ok merged
chain_claims (build ∷ builders) user merged = elim (build user) [
  | err e ↦ err e
  | ok claims ↦ chain_claims builders user (assign_all claims.entries merged)
]

-- User field claims that compile set no claim whose name is reserved for the session.
pub compile_fields-unreserved :
    (fields : List (String × String)) (readers : Dict (User → Any)) (claim : String)
    → compile_fields fields ≡ ok readers
    → is_reserved_claim claim ≡ true
    → get readers claim ≡ none
unfolding compile_fields
compile_fields-unreserved [] readers claim e reserved =
    ground (arith, get-empty {V = User → Any} claim)
compile_fields-unreserved ((name, field) ∷ rest) readers claim e reserved =
    elim (Bool-cases (is_reserved_claim name)) [
      | inl bad ↦ absurd (ground (arith, bad))
      | inr good ↦ elim (Option-cases (read_field field)) [
        | inl unknown ↦ absurd (ground (arith, good, unknown))
        | inr (read, known) ↦ elim (Result-cases (compile_fields rest)) [
          | inl (_, failed) ↦ absurd (ground (arith, good, known, failed))
          | inr (later, compiled) ↦
              let ih = compile_fields-unreserved rest later claim compiled reserved in
              let same : put later name read ≡ readers = ground (arith, good, known, compiled) in
              subst (λ d. get d claim ≡ none) same
                (ground
                  (arith, get-put later name claim read, eq_iff name claim, good, reserved, ih))
        ]
      ]
    ]
