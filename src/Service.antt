-- ===== src/Service.antt =====
-- service.go, config.go: the service's configuration and its state, and the small actions that its
-- methods are made of. The methods are in the children.
pub mod Tokens
pub mod Sessions
pub mod Login
pub mod Accounts
pub mod Passwordless
pub mod SecondFactor
pub mod Delegations
use Prim.Native.String.{◌++◌ as cat}
use awesome_go_auth.Base.{
  ℕ, ◌+◌, String, Bool, true, false, Option, none, some, List, [], ◌∷◌, ◌++◌, ◌==◌, eqb,
  if◌then◌else◌,
}
use awesome_go_auth.Base.Strings.{trim_space, to_lower}
use awesome_go_auth.Base.Dict.{Dict}
use awesome_go_auth.Errors.{
  Error, Result, ok, err, M, ◌>>=◌, ◌>>◌, return, fail, then_run, external, feature_not_supported,
  delivery_failed, rewrap,
}
use awesome_go_auth.Models.{Any, User, Session}
use awesome_go_auth.ApiKeys.{MemoryApiKeyStore}
use awesome_go_auth.Webhooks.{MemoryWebhookStore}
use awesome_go_auth.AuthCodes.{MemoryAuthCodeStore}
use awesome_go_auth.LinkedAccounts.{MemoryLinkedAccounts}
use awesome_go_auth.Metadata.{MemoryMetadataStore}
use awesome_go_auth.Platform.{Platform}
use awesome_go_auth.Roles.{MemoryRolesPermissionsStore}
use awesome_go_auth.SessionStore.{MemorySessionStore}
use awesome_go_auth.Tenants.{MemoryTenantStore}
use awesome_go_auth.UserStore.{MemoryUserStore}

-- A message handed to one of the configured senders.
pub record Delivery : Type 0 where
  pub channel : String
  pub user_id : String
  pub tenant_id : String
  pub to : String
  pub secret : String
  pub expires_at : ℕ
  pub link_base : String
  pub lang : String

-- A sender: `none` is success, and `some` the error it answers with.
abbrev pub Sender : Type 0
Sender = Delivery → Option String

-- The optional store interfaces that the configured stores implement: the outcome of each type
-- assertion `s.users.(…)` and `s.sessions.(…)`.
pub record Capabilities : Type 0 where
  pub password : Bool
  pub magic_link : Bool
  pub sms : Bool
  pub totp : Bool
  pub email_verification : Bool
  pub email_change : Bool
  pub account : Bool
  pub phone : Bool
  pub session_lookup : Bool
  pub session_admin : Bool
  pub user_admin : Bool
  pub two_factor_policy : Bool
  pub admin_flag : Bool

pub record Config : Type 0 where
  pub secret : String
  pub issuer : String
  pub access_token_ttl : ℕ
  pub refresh_token_ttl : ℕ
  pub session_check_on : String
  pub clock_skew : ℕ
  pub min_password_len : ℕ
  pub bcrypt_cost : ℕ
  pub reset_token_ttl : ℕ
  pub magic_link_ttl : ℕ
  pub sms_code_ttl : ℕ
  pub email_verification_ttl : ℕ
  pub email_verification_mode : String
  pub email_change_ttl : ℕ
  pub temp_token_ttl : ℕ
  pub require_2fa : Bool
  -- an error, or the claims
  pub build_token_claims : Option (User → Result (Dict Any))
  -- an error, or (ok, migrated)
  pub password_verifier : Option (User → String → Result (Bool × Bool))
  pub send_magic_link : Option Sender
  pub send_sms_code : Option Sender
  pub send_password_reset : Option Sender
  pub send_email_verification : Option Sender
  pub send_email_change : Option Sender
  pub send_email_changed : Option Sender
  -- whether an event bus is configured
  pub events : Bool
  pub stores : Capabilities

pub record Event : Type 0 where
  pub name : String
  pub user_id : String
  pub session_id : String
  pub info : List (String × String)

-- The clock stands still while one method runs; `draws` counts the reads of the random source.
pub record World : Type 0 where
  pub users : MemoryUserStore
  pub sessions : MemorySessionStore
  pub rbac : Option MemoryRolesPermissionsStore
  pub metadata : Option MemoryMetadataStore
  pub tenants : Option MemoryTenantStore
  pub api_keys : MemoryApiKeyStore
  pub webhooks : MemoryWebhookStore
  pub links : MemoryLinkedAccounts
  pub codes : MemoryAuthCodeStore
  pub clock : ℕ
  pub draws : ℕ
  pub events : List Event
  pub outbox : List Delivery

-- An action of a method: the stores, the clock and the random source, and what it sends.
abbrev pub Action : Type 0 → Type 0
Action A = M World A

-- s.now()
abbrev pub now : Action ℕ
now w = (ok w.clock, w)

unfoldable pub on_users : {A : Type 0} → M MemoryUserStore A → Action A
on_users m w = let (r, s) = m w.users in (r, record w { users = s })

unfoldable pub on_sessions : {A : Type 0} → M MemorySessionStore A → Action A
on_sessions m w = let (r, s) = m w.sessions in (r, record w { sessions = s })

abbrev pub ask : {A : Type 0} → (World → Result A) → Action A
ask f w = (f w, w)

abbrev pub lift : {A : Type 0} → Result A → Action A
lift r w = (r, w)

-- if err != nil { return e }
abbrev pub or_error : {A : Type 0} → Error → Result A → Result A
or_error e (ok a) = ok a
or_error e (err _) = err e

-- a guard: `if !b { return e }`
abbrev pub require : Bool → Error → Action (Unit {0})
require b e w = (if b then ok tt else err e, w)

-- a guard: `if b { return e }`
abbrev pub refuse : Bool → Error → Action (Unit {0})
refuse b e w = (if b then err e else ok tt, w)

module _ (p : Platform) where
  -- rand.Read into a buffer of the length
  unfoldable pub draw : ℕ → Action String
  draw len w = elim (p.rand_read w.draws len) [
    | none ↦ (err (external "rand"), record w { draws = w.draws + 1 })
    | some bytes ↦ (ok bytes, record w { draws = w.draws + 1 })
  ]

  -- security.go, newID
  unfoldable pub new_id : String → Action String
  new_id prefix = do b ← draw 16; return (cat (cat prefix "_") (p.hex b))

  -- security.go, randomToken
  unfoldable pub random_token : ℕ → Action String
  random_token len = do b ← draw len; return (p.encode64 b)

  -- security.go, hashToken
  unfoldable pub hash_token : String → String
  hash_token token = p.hex (p.sha256 token)

  -- security.go, hashPassword: a zero cost is bcrypt.DefaultCost
  unfoldable pub hash_password : String → ℕ → Action String
  hash_password password cost w =
      let cost' = if eqb cost 0 then 10 else cost in
      elim (p.bcrypt cost' w.draws password) [
        | none ↦ (err (external "bcrypt"), record w { draws = w.draws + 1 })
        | some h ↦ (ok h, record w { draws = w.draws + 1 })
      ]

  -- security.go, verifyPassword
  unfoldable pub verify_password : String → String → Bool
  verify_password password hash = p.bcrypt_matches hash password

  -- strings.ToLower(strings.TrimSpace(s)), as the configured modes are read
  unfoldable pub mode_of : String → String
  mode_of s = to_lower p.lower (trim_space s)

  -- emailVerificationMode
  unfoldable pub email_verification_mode : Config → String
  email_verification_mode c =
      let mode = mode_of c.email_verification_mode in if mode == "" then "none" else mode

-- publish: nothing without a bus
unfoldable pub publish : Config → Event → Action (Unit {0})
publish c e w = (ok tt, if c.events then record w { events = w.events ++ e ∷ [] } else w)

-- A call of a configured sender, which records what it was handed; its error is wrapped.
unfoldable pub send_with : Sender → Delivery → Action (Unit {0})
send_with send d w =
    let w' = record w { outbox = w.outbox ++ d ∷ [] } in
    elim (send d) [ none ↦ (ok tt, w') | some e ↦ (err (external e), w') ]

-- deliverPasswordReset and its siblings: silence where no sender is configured
unfoldable pub deliver : Option Sender → Delivery → Action (Unit {0})
deliver none d w = (ok tt, w)
deliver (some send) d w = rewrap delivery_failed (send_with send d) w
