-- ===== src/Service/Tokens/Plain.antt =====
-- The seven claims that issueToken writes last keep a map free of members that fold to a claim.
use awesome_go_auth.Base.{ℕ, String, true, ◌≡◌, List, [], ◌∷◌, In, eq_iff, arith, inl, inr, refl}
use awesome_go_auth.Base.Dict.{Dict, put, without}
use awesome_go_auth.Models.{Any, User}
use awesome_go_auth.Platform.{Platform, IsLawful, claim_names, plain_name, plain_claims}
use awesome_go_auth.Service.{Config}
use awesome_go_auth.Service.Tokens.{reserve}

module _ (p : Platform) (law : IsLawful p) where
  plain_name-claim :
      (key : String) (names : List String)
      → In key claim_names
      → ((name : String) → In name names → In name claim_names)
      → plain_name p.fold key names ≡ true
  unfolding plain_name
  plain_name-claim key [] own inside = refl
  plain_name-claim key (name ∷ names) own inside =
      let rest = plain_name-claim key names own (λ n i. inside n (inr i)) in
      let same = law.fold-claim key name own (inside name (inl refl)) in
      ground (arith, rest, same, eq_iff (p.fold key) (p.fold name), eq_iff key name)

  plain_claims-without :
      (key : String) (members : List (String × Any))
      → plain_claims p.fold members ≡ true
      → plain_claims p.fold (without key members) ≡ true
  unfolding plain_claims without
  plain_claims-without key [] h = refl
  plain_claims-without key ((k, v) ∷ members) h =
      ground (arith, plain_claims-without key members (ground arith))

  plain_claims-put :
      (d : Dict Any) (key : String) (value : Any)
      → In key claim_names
      → plain_claims p.fold d.entries ≡ true
      → plain_claims p.fold (put d key value).entries ≡ true
  unfolding plain_claims put
  plain_claims-put d key value own h =
      ground (
        arith,
        plain_name-claim key claim_names own (λ n i. i),
        plain_claims-without key d.entries h,
      )

  -- whatever the reserved claims are
  pub plain_claims-reserve :
      (c : Config) (u : User) (sid typ jti : String) (iat exp : ℕ) (d : Dict Any)
      → plain_claims p.fold d.entries ≡ true
      → plain_claims p.fold (reserve c u sid typ jti iat exp d).entries ≡ true
  unfolding reserve
  plain_claims-reserve c u sid typ jti iat exp d h =
      plain_claims-put _ "exp" _ (inr (inr (inr (inr (inr (inr (inr (inl refl)))))))) (
        plain_claims-put _ "iat" _ (inr (inr (inr (inr (inr (inr (inl refl))))))) (
          plain_claims-put _ "iss" _ (inr (inr (inr (inr (inr (inl refl)))))) (
            plain_claims-put _ "typ" _ (inr (inr (inr (inr (inl refl))))) (
              plain_claims-put _ "jti" _ (inr (inr (inr (inl refl)))) (
                plain_claims-put _ "tid" _ (inr (inr (inl refl)))
                  (plain_claims-put d "sid" _ (inr (inl refl)) h))))))
