-- ===== src/Service/Login/Gates.antt =====
-- The password login: what is checked before a session exists, and what a challenge stands for.
use awesome_go_auth.Base.{
  String, ◌≡◌, subst, sym, Bool, true, false, ◌⊎◌, ◌↔◌, none, some, eq_iff, arith, inl, inr,
  Bool-cases, Option-cases,
}
use awesome_go_auth.Errors.{Result, ok, run-cases, Result-cases}
use awesome_go_auth.Models.{User, AuthTokens}
use awesome_go_auth.Platform.{Platform}
use awesome_go_auth.Service.{
  Config, World, on_users, publish, hash_password, verify_password, email_verification_mode,
}
use awesome_go_auth.Service.Login.{
  LoginInput, LoginResult, TwoFactorChallenge, zero_tokens, requires_two_factor, login_failed,
  refused_as, adopt, verify_through_password_verifier, check_password, login_password,
  complete_local_login, login, login_with_challenge, two_factor_challenge, issue_temp_token,
}
use awesome_go_auth.Service.Tokens.Frame.{issue_token-Frame}
use awesome_go_auth.Service.Sessions.{issue_session}
use awesome_go_auth.UserStore.{normalize_email, get_user_by_email}

module _ (p : Platform) (c : Config) where
  verifier_sessions :
      (user : User) (password : String) (w : World)
      → (verify_through_password_verifier p c user password w).1.sessions ≡ w.sessions
  unfolding verify_through_password_verifier adopt hash_password on_users
  verifier_sessions user password w = ground (arith)

  check_password_sessions :
      (submitted : String) (user : User) (password : String) (w : World)
      → (check_password p c submitted user password w).1.sessions ≡ w.sessions
  unfolding check_password refused_as login_failed publish
  check_password_sessions submitted user password w =
      ground (arith, verifier_sessions user password w)

  login_password_sessions :
      (i : LoginInput) (w : World) → (login_password p c i w).1.sessions ≡ w.sessions
  unfolding login_password login_failed publish
  login_password_sessions i w =
      elim (Result-cases
        (get_user_by_email p.lower (normalize_email p.lower i.email) i.tenant_id w.users)) [
          | inl (e, missing) ↦ ground (arith)
          | inr (found, known) ↦ ground (arith, check_password_sessions i.email found i.password w)
        ]

  -- what a password check that returns has established
  abbrev pub IsProved : User → String → Type 0
  IsProved user password =
      (verify_password p password user.password_hash ≡ true)
      ⊎ ((verify : User → String → Result (Bool × Bool)) × (migrated : Bool) × (c.password_verifier
            ≡ some verify)
          × (verify user password ≡ ok (true, migrated)))

  check_password-IsProved :
      (submitted password : String) (found user : User) (w w' : World)
      → check_password p c submitted found password w ≡ (ok user, w')
      → IsProved found password
        × (user.id ≡ found.id)
        × (user.tenant_id ≡ found.tenant_id)
        × (user.is_email_verified ≡ found.is_email_verified)
  unfolding check_password refused_as verify_through_password_verifier adopt hash_password on_users
      login_failed
  check_password-IsProved submitted password found user w w' e =
      elim (Bool-cases (verify_password p password found.password_hash)) [
        | inl right ↦ (inl right, ground (arith), ground (arith), ground (arith))
        | inr wrong ↦ elim (Option-cases c.password_verifier) [
          | inl absent ↦ ground (arith)
          | inr (verify, present) ↦ elim (Result-cases (verify found password)) [
            | inl (e1, bad) ↦ ground (arith)
            | inr ((verified, migrated), answered) ↦
                let yes : verified ≡ true = ground (arith) in
                (
                  inr (verify, migrated, present, cc),
                  ground (arith),
                  ground (arith),
                  ground (arith),
                )
          ]
        ]
      ]

  -- what a password login that passes has established of the user
  pub record Passed (i : LoginInput) (w : World) (user : User) : Type 0 where
    pub found : User
    pub known :
        get_user_by_email p.lower (normalize_email p.lower i.email) i.tenant_id w.users ≡ ok found
    pub proved : IsProved found i.password
    pub same : user.id ≡ found.id
    pub same_tenant : user.tenant_id ≡ found.tenant_id
    pub verified : (found.is_email_verified ≡ true) ⊎ (email_verification_mode p c ≡ "lazy")

  -- Whoever passes the password login is the user that the lookup of the address in the tenant
  -- finds, gave the stored password or one that the configured verifier vouched for, and has a
  -- verified address unless verification is lazy; the second factor is due as requires_two_factor
  -- says, and no session was touched.
  pub login_password-Passed :
      (i : LoginInput) (w w' : World) (user : User) (second : Bool)
      → login_password p c i w ≡ (ok (user, second), w')
      → Passed i w user × (second ≡ requires_two_factor c user) × (w'.sessions ≡ w.sessions)
  unfolding login_password login_failed
  login_password-Passed i w w' user second e =
      elim (Result-cases
        (get_user_by_email p.lower (normalize_email p.lower i.email) i.tenant_id w.users)) [
          | inl (e1, missing) ↦ ground (arith)
          | inr (found, known) ↦ elim (run-cases (check_password p c i.email found i.password w)) [
            | inl (e2, w1, bad) ↦ ground (arith)
            | inr (u, w1, good) ↦
                let (proved, id, tenant, flag) =
                  check_password-IsProved i.email i.password found u w w1 good in
                let frame = login_password_sessions i w in
                (
                  record {
                    found = found;
                    known = known;
                    proved = proved;
                    same = ground (arith);
                    same_tenant = ground (arith);
                    verified = elim (Bool-cases found.is_email_verified) [
                      | inl set ↦ inl set
                      | inr unset ↦
                          inr (ground (arith, eq_iff (email_verification_mode p c) "lazy"))
                    ];
                  },
                  ground (arith),
                  ground (arith, check_password_sessions i.email found i.password w),
                )
          ]
        ]

  two_factor_challenge_sessions :
      (user : User) (w : World) → (two_factor_challenge p c user w).1.sessions ≡ w.sessions
  unfolding two_factor_challenge issue_temp_token
  two_factor_challenge_sessions user w =
      let f = issue_token-Frame p c user "" "temp" c.temp_token_ttl w in ground (arith, f.sessions)

  -- A login answered with a challenge has created no session and carries no tokens, and the user is
  -- one for whom a second factor is due; any other login issued a session of a user for whom none
  -- is.
  pub login_with_challenge-outcome :
      (i : LoginInput) (w w' : World) (r : LoginResult)
      → login_with_challenge p c i w ≡ (ok r, w')
      → Passed i w r.user
        × (((requires_two_factor c r.user ≡ true)
              × (r.tokens ≡ zero_tokens)
              × (w'.sessions ≡ w.sessions)
              × (challenge : TwoFactorChallenge) × (r.challenge ≡ some challenge))
            ⊎ ((requires_two_factor c r.user ≡ false)
                × (r.challenge ≡ none)
                × (w1 w2 : World) × (session_id : String) × (issue_session p c r.user w1
                    ≡ (ok (r.tokens, session_id), w2))
                × (w'.sessions ≡ w2.sessions)))
  unfolding login_with_challenge complete_local_login publish
  login_with_challenge-outcome i w w' r e = elim (run-cases (login_password p c i w)) [
    | inl (e1, w1, bad) ↦ ground (arith)
    | inr ((user, second), w1, good) ↦
        let (passed, due, same) = login_password-Passed i w w1 user second good in
        elim (Bool-cases second) [
          | inl on ↦ elim (run-cases (two_factor_challenge p c user w1)) [
            | inl (e2, w2, bad) ↦ ground (arith)
            | inr (challenge, w2, minted) ↦
                let frame = two_factor_challenge_sessions user w1 in
                let u : r.user ≡ user = ground (arith) in
                (
                  subst (λ x. Passed i w x) (sym u) passed,
                  inl (ground (arith), ground (arith), ground (arith), challenge, ground (arith)),
                )
          ]
          | inr off ↦ elim (run-cases (issue_session p c user w1)) [
            | inl (e2, w2, bad) ↦ ground (arith)
            | inr ((tokens, sid), w2, issued) ↦
                let u : r.user ≡ user = ground (arith) in
                (
                  subst (λ x. Passed i w x) (sym u) passed,
                  inr (ground (arith), ground (arith), w1, w2, sid, ground (arith), ground (arith)),
                )
          ]
        ]
  ]

  -- Login returns a user and tokens in a state exactly if LoginWithChallenge returns them there
  -- without a challenge.
  pub login-login_with_challenge :
      (i : LoginInput) (w w' : World) (user : User) (tokens : AuthTokens)
      → (login p c i w ≡ (ok (user, tokens), w')) ↔ (
          login_with_challenge p c i w
          ≡ (ok (record { user = user; tokens = tokens; challenge = none }), w'))
  unfolding login login_with_challenge
  login-login_with_challenge i w w' user tokens = (λ h. ground (arith), λ h. ground (arith))
