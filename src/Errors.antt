-- ===== src/Errors.antt =====
-- errors.go: the sentinels, the other errors the modelled code returns, and results.
use awesome_go_auth.Base.{String, ◌≡◌, refl, ◌⊎◌, inl, inr}

pub data Error : Type 0 where
  invalid_credentials user_exists invalid_token session_not_found session_revoked : Error
  weak_password feature_not_supported email_not_verified invalid_code two_factor_required : Error
  already_exists tenant_not_found role_not_found invalid_input : Error
  email_not_configured sms_not_configured magic_link_owner_mismatch api_key_not_found : Error
  -- oauth_wire.go
  oauth_email_not_verified oauth_email_domain_not_allowed oauth_user_not_provisioned : Error
  -- OAuthAccountConflictError: the provider, the address and the provider's account
  oauth_account_conflict : String → String → String → Error
  -- errors.New("user not found")
  user_not_found : Error
  -- an error of code outside the repository: random source, bcrypt, a sender, a claims hook
  external : String → Error
  -- fmt.Errorf("…: %w", err)
  wrapped : String → Error → Error
  -- fmt.Errorf("…: %w: %w", ErrDeliveryFailed, err)
  delivery_failed : Error → Error

pub data Result {ℓ} (A : Type ℓ) : Type ℓ where
  ok : A → Result A
  err : Error → Result A

-- An operation on a state: it may fail, and what it had already written stays written.
abbrev pub M : Type 0 → Type 0 → Type 0
M S A = S → Result A × S

abbrev pub then_run : {S A B : Type 0} → Result A × S → (A → M S B) → Result B × S
then_run (ok a, s) f = f a s
then_run (err e, s) f = (err e, s)

infixl 5 ◌>>=◌ ◌>>◌
abbrev pub ◌>>=◌ : {S A B : Type 0} → M S A → (A → M S B) → M S B
◌>>=◌ m f s = then_run (m s) f

abbrev pub ◌>>◌ : {S B : Type 0} → M S (Unit {0}) → M S B → M S B
◌>>◌ m k s = then_run (m s) (λ _. k)

abbrev pub return : {S A : Type 0} → A → M S A
return a s = (ok a, s)

abbrev pub fail : {S A : Type 0} → Error → M S A
fail e s = (err e, s)

-- if err != nil { return fmt.Errorf("…: %w", err) }
abbrev pub map_error : {A : Type 0} → (Error → Error) → Result A → Result A
map_error f (ok a) = ok a
map_error f (err e) = err (f e)

abbrev pub rewrap : {S A : Type 0} → (Error → Error) → M S A → M S A
rewrap f m s = let (r, t) = m s in (map_error f r, t)

-- what a run gave, as an equation
pub run-cases :
    {S A : Type 0} (r : Result A × S)
    → ((e : Error) × (s : S) × (r ≡ (err e, s))) ⊎ ((a : A) × (s : S) × (r ≡ (ok a, s)))
run-cases (ok a, s) = inr (a, s, refl)
run-cases (err e, s) = inl (e, s, refl)

pub Result-cases :
    {A : Type 0} (r : Result A) → ((e : Error) × (r ≡ err e)) ⊎ ((a : A) × (r ≡ ok a))
Result-cases (ok a) = inr (a, refl)
Result-cases (err e) = inl (e, refl)
