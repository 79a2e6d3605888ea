-- ===== src/Csrf/Enforcement.antt =====
-- csrf.go: a forged request does not pass.
use awesome_go_auth.Base.{String, true, false, ◌≡◌, ◌≢◌, none, List, ◌∷◌, eq_iff, arith}
use awesome_go_auth.Base.Strings.{trim_space}
use awesome_go_auth.Errors.{ok}
use awesome_go_auth.Platform.{Platform}
use awesome_go_auth.Service.{World}
use awesome_go_auth.Csrf.{
  Request, refused, cookie_value, using_bearer_credential, is_mutating_method, csrf_relative_paths,
  is_exempt, csrf_enforced, csrf_token, submitted, csrf_middleware,
}

module _ (p : Platform) (r : Request) (prefix cookie_name header_name : String) (w : World) where
  -- A request without a bearer token that would change state, on a path below the prefix that is not
  -- exempt, with a cookie of access and a cookie of the token whose value its header does not have,
  -- is refused, and no token is drawn.
  pub csrf_middleware-forged :
      (first : String) (later : List String)
      → using_bearer_credential p r ≡ false
      → is_mutating_method r.method ≡ true
      → csrf_relative_paths r.path prefix ≡ first ∷ later
      → is_exempt r.method first ≡ false
      → cookie_value r "accessToken" ≢ ""
      → cookie_value r cookie_name ≢ ""
      → trim_space (r.header header_name) ≢ cookie_value r cookie_name
      → csrf_middleware p r prefix cookie_name header_name w ≡ (ok (refused none), w)
  unfolding csrf_middleware csrf_token csrf_enforced submitted
  csrf_middleware-forged first later no_bearer changes read guarded session token differs = ground (
    arith,
    no_bearer,
    changes,
    read,
    guarded,
    eq_iff (cookie_value r "accessToken") "",
    eq_iff (cookie_value r cookie_name) "",
    eq_iff (trim_space (r.header header_name)) (cookie_value r cookie_name),
  )
