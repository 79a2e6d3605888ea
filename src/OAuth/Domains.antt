-- ===== src/OAuth/Domains.antt =====
-- oauth_provisioning.go: which addresses the list of domains admits.
use Prim.Native.Char.{Char}
use awesome_go_auth.Base.{
  String, true, not, ◌&&◌, some, List, [], ◌∷◌, In, ◌==◌, ◌≡◌, ◌≢◌, ◌↔◌, inl, inr, refl, arith,
  eq_iff, Option-cases, Bool-cases,
}
use awesome_go_auth.Base.Strings.{trim_space, to_lower}
use awesome_go_auth.OAuth.{
  after_last_at, normalize_email_domain, domain_among, email_domain_allowed,
}

module _ (lower : Char → Char) where
  domain_among_iff :
      (got : String) (domains : List String)
      → (domain_among lower got domains ≡ true) ↔ (
          (domain : String) × In domain domains
          × (normalize_email_domain lower domain ≢ "")
          × (normalize_email_domain lower domain ≡ got))
  unfolding domain_among
  domain_among_iff got [] = (λ h. absurd (ground (arith)), λ (_, i, _, _). elim i [ ])
  domain_among_iff got (d ∷ ds) =
      let this = normalize_email_domain lower d in
      let ih = domain_among_iff got ds in
      elim (Bool-cases (not (this == "") && this == got)) [
        | inl fits ↦ (
          λ h. (
            d,
            inl refl,
            ground (arith, fits, eq_iff this ""),
            ground (arith, fits, eq_iff this got),
          ),
          λ h. ground (arith, fits),
        )
        | inr fails ↦ (
          λ h. let (x, i, n, e) = ih.0 (ground (arith, fails)) in (x, inr i, n, e),
          λ (x, i, n, e). elim i [
            | inl same ↦ ground (arith, fails, n, e, same, eq_iff this "", eq_iff this got)
            | inr later ↦ ground (arith, ih.1 (x, later, n, e))
          ],
        )
      ]

  -- Where domains are listed, an address is allowed exactly if what follows its last at sign,
  -- trimmed and in lower case, is one of the listed domains, normalised, that is not empty.
  pub email_domain_allowed_iff :
      (email : String) (domains : List String)
      → domains ≢ []
      → (email_domain_allowed lower email domains ≡ true) ↔ (
          (rest domain : String) × (after_last_at email ≡ some rest)
          × (rest ≢ "")
          × In domain domains
          × (normalize_email_domain lower domain ≢ "")
          × (normalize_email_domain lower domain ≡ to_lower lower (trim_space rest)))
  unfolding email_domain_allowed
  email_domain_allowed_iff email [] listed = absurd (listed refl)
  email_domain_allowed_iff email (d ∷ ds) listed = elim (Option-cases (after_last_at email)) [
    | inl bare ↦
        (λ h. absurd (ground (arith, bare)), λ (r, x, e, n, i, m, k). ground (arith, bare, e))
    | inr (rest, has) ↦
        let among = domain_among_iff (to_lower lower (trim_space rest)) (d ∷ ds) in
        (
          λ h.
              let (x, i, n, e) = among.0 (ground (arith, has)) in
              (rest, x, has, ground (arith, has, eq_iff rest ""), i, n, e),
          λ (r, x, e, n, i, m, k).
              let same : rest ≡ r = ground (arith, has, e) in
              ground (arith, has, e, n, eq_iff rest "", among.1 (x, i, m, ground (arith, k, same))),
        )
  ]
