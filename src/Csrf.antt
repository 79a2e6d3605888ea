-- ===== src/Csrf.antt =====
-- csrf.go, and the readers of a request in wire.go: the double submit of a token by cookie and header.
pub mod Paths
pub mod Enforcement
use Prim.Native.Char.{Char, code}
use Prim.Native.String.{[] as no_chars, ◌∷◌ as char_cons, ◌++◌ as cat}
use awesome_go_auth.Base.{
  ℕ, String, Bool, true, false, not, ◌&&◌, ◌||◌, Option, none, some, List, [], ◌∷◌, ◌==◌, eqb,
  if◌then◌else◌,
}
use awesome_go_auth.Base.Strings.{trim_space, to_lower}
use awesome_go_auth.Errors.{Result, ok, err, ◌>>=◌, return, then_run}
use awesome_go_auth.Platform.{Platform}
use awesome_go_auth.Service.{Action, World, draw}

-- What the middleware reads of a request: a header is empty where it is absent.
pub record Request : Type 0 where
  pub method : String
  pub path : String
  pub header : String → String
  pub cookie : String → Option String

-- The next handler runs, with the cookie that is set for the client where one is; or a refusal.
pub data Outcome : Type 0 where
  passed : Option String → Outcome
  refused : Option String → Outcome
  failed : Outcome

unfoldable pub first_value : Request → List String → String
first_value r [] = ""
first_value r (name ∷ names) = elim (r.cookie name) [
  | none ↦ first_value r names
  | some raw ↦ if trim_space raw == "" then first_value r names else trim_space raw
]

-- CookieValue
unfoldable pub cookie_value : Request → String → String
cookie_value r base = first_value r (cat "__Host-" base ∷ cat "__Secure-" base ∷ base ∷ [])

-- strings.Cut(s, " ")
unfoldable pub cut_space : String → Option (String × String)
cut_space no_chars = none
cut_space (char_cons c s) = if eqb (code c) b' ' then some ("", s) else elim (cut_space s) [
  | none ↦ none
  | some (before, after) ↦ some (char_cons c before, after)
]

-- BearerToken; strings.EqualFold is equality in lower case, for the scheme is ASCII
unfoldable pub bearer_token : Platform → String → String
bearer_token p raw = elim (cut_space (trim_space raw)) [
  | none ↦ ""
  | some (scheme, token) ↦ if to_lower p.lower scheme == "bearer" then trim_space token else ""
]

unfoldable pub using_bearer_credential : Platform → Request → Bool
using_bearer_credential p r = not (bearer_token p (r.header "Authorization") == "")

unfoldable pub is_bearer_client : Platform → Request → Bool
is_bearer_client p r = r.header "X-Auth-Strategy" == "bearer" || using_bearer_credential p r

unfoldable pub is_mutating_method : String → Bool
is_mutating_method method = not (method == "GET" || method == "HEAD" || method == "OPTIONS")

-- strings.TrimSuffix(s, "/")
unfoldable pub trim_slash : String → String
trim_slash no_chars = ""
trim_slash (char_cons c s) = if eqb (code c) b'/' && s == "" then "" else char_cons c (trim_slash s)

-- strings.CutPrefix(s, prefix)
unfoldable pub cut_prefix : String → String → Option String
cut_prefix no_chars s = some s
cut_prefix (char_cons a prefix) no_chars = none
cut_prefix (char_cons a prefix) (char_cons c s) =
    if eqb (code a) (code c) then cut_prefix prefix s else none

-- rest == "" || strings.HasPrefix(rest, "/")
unfoldable pub at_boundary : String → Bool
at_boundary no_chars = true
at_boundary (char_cons c s) = eqb (code c) b'/'

-- the loop over the occurrences of the prefix, one position after the other
unfoldable pub occurrences : String → String → List String
occurrences prefix no_chars = []
occurrences prefix (char_cons c s) =
    let later = occurrences prefix s in
    elim (cut_prefix prefix (char_cons c s)) [
      | none ↦ later
      | some rest ↦ if at_boundary rest then trim_slash rest ∷ later else later
    ]

unfoldable pub csrf_relative_paths : String → String → List String
csrf_relative_paths path prefix =
    if prefix == "" || prefix == "/" then trim_slash path ∷ [] else occurrences prefix path

-- csrfManualCheckRoutes
unfoldable pub is_manual_check : String → String → Bool
is_manual_check method rel = method == "POST" && rel == "/link-request"

unfoldable pub one_of : String → List String → Bool
one_of s [] = false
one_of s (x ∷ xs) = x == s || one_of s xs

-- csrfExemptRoutes
unfoldable pub is_exempt : String → String → Bool
is_exempt method rel =
    (method == "POST"
      && one_of rel (
          "/login" ∷ "/register" ∷ "/refresh" ∷ "/logout" ∷ "/forgot-password" ∷ "/reset-password"
          ∷ "/change-email/confirm" ∷ "/magic-link/send" ∷ "/magic-link/verify" ∷ "/sms/send"
          ∷ "/sms/verify" ∷ "/2fa/verify" ∷ "/link-verify" ∷ "/sessions/cleanup" ∷ []))
    || (method == "GET" && rel == "/verify-email")

unfoldable pub any_manual_check : String → List String → Bool
any_manual_check method [] = false
any_manual_check method (rel ∷ rels) = is_manual_check method rel || any_manual_check method rels

unfoldable pub csrf_enforced : Request → String → Bool
csrf_enforced r prefix =
    if not (is_mutating_method r.method) then false else elim (csrf_relative_paths r.path prefix) [
      | [] ↦ false
      | first ∷ later ↦
          if any_manual_check r.method (first ∷ later)
          then true
          else if is_exempt r.method first
          then false
          else not (cookie_value r "accessToken" == "")
    ]

-- randomHex
unfoldable pub random_hex : Platform → ℕ → Action String
random_hex p n = do b ← draw p n; return (p.hex b)

-- a token for a client that has none and is not a bearer client, and whether it is set
unfoldable pub csrf_token : Platform → Request → String → Action (String × Option String)
csrf_token p r cookie_name =
    let token = cookie_value r cookie_name in
    if token == "" && not (is_bearer_client p r)
    then (do fresh ← random_hex p 16; return (fresh, some fresh))
    else return (token, none)

-- the comparison of header and token
unfoldable pub submitted : Request → String → String → Bool
submitted r header_name token =
    let header_token = trim_space (r.header header_name) in
    not (header_token == "") && header_token == token

-- CSRFMiddleware, where it is enabled
unfoldable pub csrf_middleware : Platform → Request → String → String → String → Action Outcome
csrf_middleware p r prefix cookie_name header_name w =
    let (made, w') = csrf_token p r cookie_name w in
    elim made [
      | err _ ↦ (ok failed, w')
      | ok (token, fresh) ↦ (
        ok (
            if using_bearer_credential p r || not (csrf_enforced r prefix)
            then passed fresh
            else if submitted r header_name token
            then passed fresh
            else refused fresh),
        w',
      )
    ]
