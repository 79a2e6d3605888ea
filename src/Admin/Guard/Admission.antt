-- ===== src/Admin/Guard/Admission.antt =====
-- Who is admitted to a guarded route of the administration.
use awesome_go_auth.Base.{
  String, true, false, ◌≡◌, ◌≢◌, ◌⊎◌, eq_iff, Option, none, some, arith, inl, inr, Option-cases,
  Bool-cases,
}
use awesome_go_auth.Admin.Guard.{
  AdminAccessPolicy, AdminGuard, AdminClaims, granted, is_open, evaluate, root_user,
  unauthenticated, admit_claims, authorise, protect,
}
use awesome_go_auth.Csrf.{Request, bearer_token}
use awesome_go_auth.Errors.{ok, Result-cases}
use awesome_go_auth.Models.{User}
use awesome_go_auth.Platform.{Platform}
use awesome_go_auth.Service.{Config, World}
use awesome_go_auth.UserStore.{get_user_by_id}

module _ (c : Config) (policy : AdminAccessPolicy) (w : World) where
  -- The claims name a user: the one of a root token, or one of the store whom the policy grants.
  abbrev pub Principal : AdminClaims → User → Type 0
  Principal claims user =
      (claims.sub ≢ "")
      × (((claims.is_root ≡ true) × (user ≡ root_user claims))
          ⊎ ((claims.is_root ≡ false)
              × (get_user_by_id claims.sub claims.tid w.users ≡ ok user)
              × (evaluate c policy user w ≡ (true, false))))

  admit_claims-Principal :
      (claims : AdminClaims) (user : User)
      → admit_claims c policy claims w ≡ granted (some user)
      → Principal claims user
  unfolding admit_claims
  admit_claims-Principal claims user e = elim (Bool-cases claims.is_root) [
    | inl root ↦ (ground (arith, root, eq_iff claims.sub ""), inl (root, ground (arith, root)))
    | inr other ↦ elim (Result-cases (get_user_by_id claims.sub claims.tid w.users)) [
      | inl (_, lost) ↦ absurd (ground (arith, other, lost))
      | inr (u, found) ↦
          let same : u ≡ user = ground (arith, other, found) in
          (
            ground (arith, other, found, eq_iff claims.sub ""),
            inr (other, ground (arith, found, same), ground (arith, other, found, same)),
          )
    ]
  ]

  admit_claims-somebody : (claims : AdminClaims) → admit_claims c policy claims w ≢ granted none
  unfolding admit_claims
  admit_claims-somebody claims e = elim (Bool-cases claims.is_root) [
    | inl root ↦ ground (arith, root)
    | inr other ↦ elim (Result-cases (get_user_by_id claims.sub claims.tid w.users)) [
      | inl (_, lost) ↦ ground (arith, other, lost)
      | inr (u, found) ↦ ground (arith, other, found)
    ]
  ]

module _ (p : Platform) (c : Config) (g : AdminGuard) (r : Request) (here : String) where
  -- The request carries the configured secret, or the policy is open, or claims were read that name
  -- a principal.
  abbrev pub LetIn : Option AdminClaims → Option User → World → Type 0
  LetIn claims who w =
      ((g.policy ≡ none)
        × (who ≡ none)
        × (bearer_token p (r.header "Authorization") ≢ "")
        × (bearer_token p (r.header "Authorization") ≡ g.secret))
      ⊎ ((policy : AdminAccessPolicy) × (g.policy ≡ some policy)
          × (((is_open policy ≡ true) × (who ≡ none))
              ⊎ ((read : AdminClaims) × (user : User) × (claims ≡ some read)
                  × (who ≡ some user)
                  × Principal c policy w read user)))

  -- A request that a guarded route of the administration lets through carries the configured secret,
  -- or the policy is open, or claims were read of it that name a subject and are those of a root
  -- token or name a user of the store whom the policy grants.
  pub protect-granted :
      (claims : Option AdminClaims) (who : Option User) (w : World)
      → protect p c g r here claims w ≡ granted who
      → LetIn claims who w
  unfolding protect authorise unauthenticated
  protect-granted claims who w e =
      let token = bearer_token p (r.header "Authorization") in
      elim (Option-cases g.policy) [
        | inl legacy ↦ inl (
          legacy,
          ground (arith, legacy),
          ground (arith, legacy, eq_iff token ""),
          ground (arith, legacy, eq_iff token g.secret),
        )
        | inr (policy, guarded) ↦ elim (Bool-cases (is_open policy)) [
          | inl free ↦ inr (policy, guarded, inl (free, ground (arith, guarded, free)))
          | inr closed ↦ elim (Option-cases claims) [
            | inl unread ↦ absurd (ground (arith, guarded, closed, unread))
            | inr (read, carried) ↦
                let let_in : admit_claims c policy read w ≡ granted who =
                  ground (arith, guarded, closed, carried) in
                elim (Option-cases who) [
                  | inl nobody ↦
                      absurd
                        (admit_claims-somebody c policy w read (ground (arith, nobody, let_in)))
                  | inr (user, is_user) ↦ inr (
                    policy,
                    guarded,
                    inr (
                      read,
                      user,
                      carried,
                      is_user,
                      admit_claims-Principal c policy w read user (ground (arith, is_user, let_in)),
                    ),
                  )
                ]
          ]
        ]
      ]
