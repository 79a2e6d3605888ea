-- ===== src/Lib.antt =====
-- A verification library for the core package of awesome-go-auth, an authentication library in Go.
--
-- The program. `service.go` and its neighbours hold the service: it registers and signs in users, mints
-- and checks signed tokens, rotates sessions, and issues one-time credentials. It keeps no state of its
-- own; users, sessions, roles, tenants and metadata stand in stores, and it sends what it publishes to a
-- bus and to configured senders. The stores in memory (`memory_store.go`, `feature_stores.go`) are
-- tables with indexes, each method under one lock, so that a call is one step.
--
-- Where what is modelled:
--   Base              tests, lists, maps (Base.Dict: an association list for a Go map), strings
--   Errors            errors.go and the results of fallible actions, with do notation
--   Models            models.go: User, Session, Tenant, AuthTokens
--   Paging            memory_store.go, pageOf, on 64-bit integers
--   UserStore         memory_store.go and account.go, MemoryUserStore; Credentials has the methods on
--                     tokens and codes; Invariant, Indexes, Membership, Preserved and Calls the
--                     consistency of the indexes; OneTime the contract of one-time credentials;
--                     Addresses what the address index means
--   SessionStore      memory_store.go, MemorySessionStore; Invariant, Rotation, Expiry
--   Roles, Tenants, Metadata   feature_stores.go, the stores of those names
--   Platform          what the code calls outside the repository, and its documented behaviour
--   Service           the configuration, the state (World), and the small actions of the methods
--   Service.Tokens    token.go, security.go: issueToken, parseToken, buildHS256JWT
--   Service.Sessions  service.go: issueSession, Refresh, Logout, Authenticate, Me
--   Service.Login     login_2fa.go, password_verifier.go, service.go: the password login
--   Service.Accounts  service.go, account.go: registration, passwords, profile, deletion
--   Service.Passwordless   service.go: magic links, SMS codes, address verification and change
--   Service.SecondFactor   totp.go, service.go: enrolment and use of one-time codes; Totp the codes
--   Service.Delegations    service.go, account.go: the calls that forward to a configured store
--   ApiKeys           memory_api_key_store.go; ApiKeys.Service is api_keys.go: Create and Verify
--   Webhooks          webhook_store.go; Webhooks.Sender is webhook_sender.go: the delivery loop
--   AuthCodes, Idp    feature_stores.go and idp.go: authorisation codes and their redemption
--   LinkedAccounts, OAuth  oauth.go, oauth_provisioning.go: links, admission, and the callback
--   Admin             admin_write.go, admin_promote.go, admin_read.go: the writing routes; Admin.Listings
--                     the reading ones; Admin.Guard and
--                     Admin.Token admin.go, the admission to them
--   Wire              wire.go: error tables, cookies, the tokens of a request
--   Csrf              csrf.go: the double-submit check
--   Events, Streams   events.go, telemetry.go, auth_tools.go: the bus, the records, the topics
--   Settings, Claims, Configuration   settings_store.go, template_store.go, claims.go, config.go
--   Examples          concrete states, a concrete platform, and the theorems applied at them
--
-- How the code is read. A method is a function from a state to a result and a state; what was written
-- before an error stays written. A Go map is a list of pairs with distinct keys, in the order of the
-- writes; no result depends on that order except through a sort. Times are numbers of nanoseconds, and
-- one call reads one time. A configured store interface that a store may not implement is a flag of
-- Capabilities. The random source is a function of a counter. A text is a sequence of characters; `len`
-- of a text is the length of its UTF-8 encoding. Loops are structural, except for the walk of
-- the administration over pages of users, which runs on fuel: one round for each hundred users and one
-- more are enough for it to end.
--
-- Outside the model: HTTP and its adapters, the exchange of codes with an OAuth provider, key sets and
-- the resource server, uploads and generated documents; logging;
-- concurrent calls, since each store method holds the store's lock, while a service method that makes
-- several calls is modelled as run without interference. `bcrypt`, SHA-256, HMAC, base64, base32, JSON,
-- the folding under which `encoding/json` compares the name of a member with that of a field,
-- `net.ParseIP`, RS256, the delivery of a webhook and `unicode.ToLower` are parameters. A request is
-- what its handler reads of it, and an answer is what is written, less the headers.
pub mod Admin
pub mod ApiKeys
pub mod AuthCodes
pub mod LinkedAccounts
pub mod OAuth
pub mod Idp
pub mod Base
pub mod Settings
pub mod Streams
pub mod Claims
pub mod Configuration
pub mod Csrf
pub mod Events
pub mod Errors
pub mod Models
pub mod Paging
pub mod SessionStore
pub mod Roles
pub mod Platform
pub mod Metadata
pub mod Tenants
pub mod Service
pub mod Totp
pub mod UserStore
pub mod Webhooks
pub mod Examples
pub mod Wire
