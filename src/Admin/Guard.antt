-- ===== src/Admin/Guard.antt =====
-- admin.go: the admission of a request to the administration, after its token is read: AdminGuard,
-- authorise, evaluate and Protect. ProtectShell lets the outcome of authorise stand.
pub mod Admission
use Prim.Native.String.{◌++◌ as cat}
use awesome_go_auth.Base.{
  ℕ, String, Bool, true, false, not, ◌&&◌, Option, none, some, List, [], ◌∷◌, ◌==◌, is_some,
  if◌then◌else◌,
}
use awesome_go_auth.Base.Strings.{trim_space}
use awesome_go_auth.Admin.Listings.{contains_text}
use awesome_go_auth.Csrf.{Request, bearer_token}
use awesome_go_auth.Errors.{Result, ok, err}
use awesome_go_auth.Models.{User, zero_user}
use awesome_go_auth.Paging.{pos}
use awesome_go_auth.Platform.{Platform}
use awesome_go_auth.Roles.{MemoryRolesPermissionsStore}
use awesome_go_auth.Service.{Config, World}
use awesome_go_auth.UserStore.{get_user_by_id, list_users}

pub record AdminAccessPolicy : Type 0 where
  pub kind : String
  pub predicate : Option (User → Option MemoryRolesPermissionsStore → Result Bool)

-- AdminOptions, as far as the guard reads them
pub record AdminOptions : Type 0 where
  pub access_policy : Option AdminAccessPolicy
  pub secret : String
  pub jwt_secret : String
  pub login_path : String

pub record AdminGuard : Type 0 where
  pub policy : Option AdminAccessPolicy
  pub secret : String
  pub jwt_secret : String
  pub session_based : Bool
  pub login_path : String

-- g.policy.Predicate == nil && g.policy.Kind == AdminPolicyOpen
unfoldable pub is_open : AdminAccessPolicy → Bool
is_open policy = not (is_some policy.predicate) && policy.kind == "open"

-- Auth.AdminGuard
unfoldable pub admin_guard : Config → AdminOptions → AdminGuard
admin_guard c opts =
    let written = trim_space opts.jwt_secret in
    let jwt_secret = if written == "" then c.secret else written in
    elim opts.access_policy [
      | some policy ↦ record {
        policy = some policy;
        secret = "";
        jwt_secret = jwt_secret;
        session_based = not (is_open policy);
        login_path = opts.login_path;
      }
      | none ↦ record {
        policy = none;
        secret = trim_space opts.secret;
        jwt_secret = jwt_secret;
        session_based = false;
        login_path = opts.login_path;
      }
    ]

unfoldable pub login_routes_mounted : AdminGuard → Bool
login_routes_mounted g = g.session_based && not (g.jwt_secret == "")

pub record AdminClaims : Type 0 where
  pub sub : String
  pub email : String
  pub tid : String
  pub is_root : Bool

pub data AdminOutcome : Type 0 where
  -- the request may proceed, as a user where one is established
  granted : Option User → AdminOutcome
  needs_login_form : AdminOutcome
  refused : ℕ → String → AdminOutcome
  redirected : String → AdminOutcome

-- the first of listUsers(1, 0), where there is one
unfoldable pub is_first : User → List User → Bool
is_first user [] = false
is_first user (first ∷ rest) = first.id == user.id

-- evaluate: granted, and whether a capability is missing
unfoldable pub evaluate : Config → AdminAccessPolicy → User → World → Bool × Bool
evaluate c policy user w = elim policy.predicate [
  | some decide ↦ elim (decide user w.rbac) [
    | ok allowed ↦ (allowed, false)
    | err _ ↦ (false, false)
  ]
  | none ↦
      if policy.kind == "is-admin-flag"
      then (user.is_admin, false)
      else if policy.kind == "first-user"
      then (if not c.stores.user_admin
          then (false, true)
          else (is_first user (list_users "" (pos 1) (pos 0) w.users), false))
      else (false, false)
]

-- the user of a root token
unfoldable pub root_user : AdminClaims → User
root_user claims = record zero_user {
  id = claims.sub;
  email = if claims.email == "" then "root@admin" else claims.email;
  is_admin = true;
}

-- the answer to a request without a token that is read; `here` is the escaped place of the request
unfoldable pub unauthenticated : AdminGuard → Request → String → AdminOutcome
unauthenticated g r here =
    if not (contains_text "text/html" (r.header "Accept"))
    then refused 401 "Unauthorized"
    else if not (trim_space g.login_path == "")
    then redirected (cat (trim_space g.login_path) (cat "?redirect=" here))
    else if r.method == "GET"
    then needs_login_form
    else refused 401 "Unauthorized"

-- the principal of a token, and the policy on it
unfoldable pub admit_claims : Config → AdminAccessPolicy → AdminClaims → World → AdminOutcome
admit_claims c policy claims w =
    if claims.sub == ""
    then refused 401 "Unauthorized"
    else if claims.is_root
    then granted (some (root_user claims))
    else elim (get_user_by_id claims.sub claims.tid w.users) [
      | err _ ↦ refused 401 "Unauthorized"
      | ok user ↦
          let (allowed, missing) = evaluate c policy user w in
          if missing
          then refused 500
              "accessPolicy: first-user requires IUserStore.listUsers to be implemented"
          else if allowed
          then granted (some user)
          else refused 403 "Forbidden"
    ]

-- authorise; `claims` is what readToken reads of the request
unfoldable pub authorise :
    Platform → Config → AdminGuard → Request → String → Option AdminClaims → World → AdminOutcome
authorise p c g r here claims w = elim g.policy [
  | none ↦
      let token = bearer_token p (r.header "Authorization") in
      if token == ""
      then refused 401 "Unauthorized"
      else if token == g.secret
      then granted none
      else refused 403 "Forbidden"
  | some policy ↦ if is_open policy then granted none else elim claims [
    | none ↦ unauthenticated g r here
    | some read ↦ admit_claims c policy read w
  ]
]

-- Protect: no login form for any route but the shell
unfoldable pub protect :
    Platform → Config → AdminGuard → Request → String → Option AdminClaims → World → AdminOutcome
protect p c g r here claims w = elim (authorise p c g r here claims w) [
  | granted user ↦ granted user
  | needs_login_form ↦ refused 401 "Unauthorized"
  | refused status message ↦ refused status message
  | redirected target ↦ redirected target
]
