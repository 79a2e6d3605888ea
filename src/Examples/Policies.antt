-- ===== src/Examples/Policies.antt =====
-- Roles by their calls, the second-factor policy, a forged request, claims over user fields, cookies, a
-- listing, and the admission of an administrator.
use Prim.Native.String.{◌++◌ as cat}
use awesome_go_auth.Base.{
  In, length, take, drop, String, ◌≡◌, ◌≢◌, ◌↔◌, ◌+◌, ◌/◌, refl, true, false, none, some, Option,
  List, [], ◌∷◌, ◌==◌, eq_iff, if◌then◌else◌, arith,
}
use awesome_go_auth.Base.Dict.{Dict, get, put, empty, get-put, get-empty}
use awesome_go_auth.Base.Dict.Entries.{Distinct-put}
use awesome_go_auth.Base.Strings.{trim_space, to_lower}
use awesome_go_auth.UserStore.{new_memory_user_store, get_user_by_id, owned}
use awesome_go_auth.Admin.{updated, admin_set_two_fa_policy}
use awesome_go_auth.Admin.TwoFactorPolicy.{IsKeyed, count_users, admin_set_two_fa_policy-updated}
use awesome_go_auth.Admin.Guard.{
  AdminGuard, AdminClaims, granted, is_open, evaluate, admit_claims, authorise, protect,
}
use awesome_go_auth.Admin.Guard.Admission.{LetIn, protect-granted}
use awesome_go_auth.Admin.Token.{
  AdminToken, check_admin_claims, verify_parts, verify_token, Verified, verify_token-Verified,
}
use awesome_go_auth.Service.Tokens.{sign, split_token, split_dots}
use awesome_go_auth.Admin.Listings.{
  Query, users, filter_of, clamp_limit, admin_query_int, admin_list_users,
}
use awesome_go_auth.Admin.Listings.Pages.{from_start}
use awesome_go_auth.Admin.Listings.Users.{matched_users, admin_list_users_lem}
use awesome_go_auth.Paging.{pos, negsuc, nat_or_zero}
use awesome_go_auth.Wire.{
  CookieOptions, Cookie, default_cookie_options, cookie, cookie_name, clear_variants,
}
use awesome_go_auth.Wire.Expiry.{clear_variants-cookie}
use awesome_go_auth.Claims.{
  is_reserved_claim, read_field, compile_fields, compile_fields-unreserved,
}
use awesome_go_auth.Csrf.{
  Request, refused, using_bearer_credential, is_mutating_method, csrf_relative_paths, is_exempt,
  cookie_value, first_value, bearer_token, cut_space, occurrences, cut_prefix, at_boundary,
  trim_slash, one_of, csrf_middleware,
}
use awesome_go_auth.Csrf.Enforcement.{csrf_middleware-forged}
use awesome_go_auth.Errors.{ok}
use awesome_go_auth.Models.{Any, str, User}
use awesome_go_auth.Roles.{new_memory_roles_permissions_store, user_has_permission}
use awesome_go_auth.Roles.Calls.{Call, add_role, create, run_all}
use awesome_go_auth.Roles.Refinement.{no_policy, replay, user_has_permission-run_all}
use awesome_go_auth.Service.{World}
use awesome_go_auth.Examples.Lawful.{toy}
use awesome_go_auth.Examples.Runs.{start, config, ada}

abbrev calls : List Call
calls = create "r" ("p" ∷ []) ∷ add_role "u" "r" "t" ∷ []

user_has_permission-run_all_example :
    (user_has_permission "u" "p" "t" (run_all calls new_memory_roles_permissions_store) ≡ true) ↔ (
      (role : String) × ((replay calls no_policy).holds "u" "t" role ≡ true)
      × ((replay calls no_policy).grants role "p" ≡ true))
user_has_permission-run_all_example = user_has_permission-run_all calls "u" "p" "t"

-- a world with one user
abbrev few : World
few = record start { users = record new_memory_user_store { by_id = put empty "u" ada } }

one_user : count_users few.users ≡ 1
unfolding count_users put empty
one_user = refl

few-IsKeyed : IsKeyed few.users
unfolding empty
few-IsKeyed = record {
  distinct = Distinct-put empty "u" ada tt;
  id_key = λ k u e. ground (arith, get-put empty "u" k ada, get-empty {V = User} k, eq_iff "u" k);
}

admin_set_two_fa_policy-updated_example :
    (admin_set_two_fa_policy config (count_users few.users / 100 + 1) (some true) few).0
    ≡ ok (updated (count_users few.users))
admin_set_two_fa_policy-updated_example =
    admin_set_two_fa_policy-updated config true few few-IsKeyed (omega (arith, one_user)) refl refl

-- a request that carries the cookies of a signed-in browser and a wrong token in its header
abbrev forged_header : String → String
forged_header name = if name == "X-CSRF-Token" then "guess" else ""

abbrev browser_cookie : String → Option String
browser_cookie name =
    if name == "accessToken"
    then some "access"
    else if name == "csrf-token"
    then some "secret"
    else none

abbrev forged : Request
forged = record {
  method = "POST";
  path = "/auth/profile";
  header = forged_header;
  cookie = browser_cookie;
}

apart : (a b : String) → (a == b) ≡ false → a ≢ b
apart a b h = ground (arith, eq_iff a b)

access_cookie : cookie_value forged "accessToken" ≢ ""
unfolding cookie_value first_value trim_space
access_cookie = apart "access" "" refl

csrf_cookie : cookie_value forged "csrf-token" ≡ "secret"
unfolding cookie_value first_value trim_space
csrf_cookie = refl

csrf_middleware-forged_example :
    csrf_middleware toy forged "/auth" "csrf-token" "X-CSRF-Token" start
    ≡ (ok (refused none), start)
unfolding using_bearer_credential bearer_token is_mutating_method is_exempt csrf_relative_paths
    cut_space trim_space occurrences cut_prefix at_boundary trim_slash one_of
csrf_middleware-forged_example =
    csrf_middleware-forged toy forged "/auth" "csrf-token" "X-CSRF-Token" start "/profile" [] refl
      refl refl refl access_cookie (rw csrf_cookie (apart "secret" "" refl))
      (rw csrf_cookie (apart "guess" "secret" refl))

abbrev role_reader : Dict (User → Any)
role_reader = put empty "plan" (λ (u : User). str u.role)

compile_fields-unreserved_example : get role_reader "sid" ≡ none
unfolding compile_fields read_field is_reserved_claim trim_space
compile_fields-unreserved_example =
    compile_fields-unreserved (("plan", "role") ∷ []) role_reader "sid" refl refl

clear_variants-cookie_example :
    let bare : CookieOptions = record default_cookie_options { secure = false } in
    let written = cookie bare (cookie_name bare "accessToken") "v" "/" 0 true in
    (c : Cookie) × In c (clear_variants default_cookie_options "accessToken" "/" true)
    × (c.name ≡ written.name)
    × (c.path ≡ written.path)
    × (c.domain ≡ written.domain)
    × (c.max_age ≡ negsuc 0)
clear_variants-cookie_example =
    clear_variants-cookie default_cookie_options false "accessToken" "v" "/" 0 true

-- the last one of the users whose address or id has an "a"
abbrev asked : Query
asked = record { limit = "1"; offset = "-1"; filter = "a" }

asked_filter : filter_of toy asked ≡ "a"
unfolding filter_of to_lower trim_space toy
asked_filter = refl

admin_list_users_lem_example :
    let matched = matched_users toy asked few in
    admin_list_users toy config asked few
    ≡ users
        (take
          (nat_or_zero (clamp_limit (admin_query_int "1" (pos 20))))
          (drop (from_start (admin_query_int "-1" (pos 0)) (length matched)) matched))
        (pos (length matched))
admin_list_users_lem_example =
    admin_list_users_lem toy asked few config refl (rw asked_filter (apart "a" "" refl))
      (omega (arith, one_user))

-- an administrator by the flag, whose token is read
abbrev eve : User
eve = record ada { is_admin = true; tenant_id = "t" }

abbrev staffed : World
staffed = record start { users = record new_memory_user_store { by_id = put empty "u" eve } }

abbrev guard : AdminGuard
guard = record {
  policy = some (record { kind = "is-admin-flag"; predicate = none });
  secret = "";
  jwt_secret = "s";
  session_based = true;
  login_path = "";
}

abbrev eve_claims : AdminClaims
eve_claims = record { sub = "u"; email = ""; tid = "t"; is_root = false }

let_in : protect toy config guard forged "" (some eve_claims) staffed ≡ granted (some eve)
unfolding protect authorise admit_claims evaluate is_open get_user_by_id owned get put empty
let_in = refl

protect-granted_example : LetIn toy config guard forged "" (some eve_claims) (some eve) staffed
protect-granted_example =
    protect-granted toy config guard forged "" (some eve_claims) (some eve) staffed let_in

-- a token of the administration, signed under its secret
abbrev token_input : String
token_input = cat (cat (toy.encode64 (toy.marshal_header "HS256" "JWT")) ".") (toy.encode64 "x")

abbrev admin_token : String
admin_token = cat (cat token_input ".") (sign toy token_input "k")

abbrev decoded_token : AdminToken
decoded_token = record {
  claims = record { sub = "root"; email = ""; tid = ""; is_root = true };
  typ = "admin";
  iss = "i";
  exp = 9;
}

abbrev decoder : String → Option AdminToken
decoder body = some decoded_token

token_read : verify_token toy config decoder "k" 5 admin_token ≡ some decoded_token.claims
unfolding verify_token verify_parts check_admin_claims toy sign split_token split_dots
token_read = refl

verify_token-Verified_example : Verified toy config decoder "k" admin_token 5 decoded_token.claims
verify_token-Verified_example =
    verify_token-Verified toy config decoder "k" admin_token 5 decoded_token.claims token_read
