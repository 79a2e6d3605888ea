-- ===== src/Admin/Listings.antt =====
-- admin_read.go: the listings of the administration, from the query to the rows that are answered.
pub mod Pages
pub mod Users
use Prim.Native.Nat.{zero}
use Prim.Native.Char.{Char, code}
use Prim.Native.String.{[] as no_chars, ◌∷◌ as char_cons}
use awesome_go_auth.Base.{
  ℕ, suc, ◌+◌, ◌-◌, ◌*◌, ◌^◌, String, Bool, true, false, not, ◌&&◌, ◌||◌, Option, none, some, List,
  [], ◌∷◌, ◌==◌, eqb, ltb, leb, if◌then◌else◌, length, take, drop, keep_if, map, is_some,
}
use awesome_go_auth.Base.Strings.{trim_space, to_lower}
use awesome_go_auth.Admin.{Answer, admin_slice_bounds}
use awesome_go_auth.Csrf.{cut_prefix}
use awesome_go_auth.Errors.{Result, ok, err}
use awesome_go_auth.Models.{User, Session, Tenant}
use awesome_go_auth.Paging.{ℤ, pos, negsuc, add_int64}
use awesome_go_auth.Platform.{Platform}
use awesome_go_auth.Roles.{get_all_roles, get_permissions_for_role, get_roles_for_user}
use awesome_go_auth.Service.{Config, World}
use awesome_go_auth.SessionStore.{get_all_sessions}
use awesome_go_auth.Tenants.{get_all_tenants, get_tenants_for_user, get_users_for_tenant}
use awesome_go_auth.UserStore.{list_users, get_user_by_id}

-- The query of a listing, as it is written.
pub record Query : Type 0 where
  pub limit : String
  pub offset : String
  pub filter : String

pub record AdminUserRow : Type 0 where
  pub id : String
  pub email : String
  pub role : String
  pub is_email_verified : Bool
  pub is_totp_enabled : Bool
  pub require_2fa : Bool
  pub phone_number : String
  pub created_at : Option ℕ

-- newAdminUserRow; the zero time is 0
unfoldable pub new_admin_user_row : User → AdminUserRow
new_admin_user_row user = record {
  id = user.id;
  email = user.email;
  role = user.role;
  is_email_verified = user.is_email_verified;
  is_totp_enabled = user.is_totp_enabled;
  require_2fa = user.require_2fa;
  phone_number = user.phone_number;
  created_at = if eqb user.created_at 0 then none else some user.created_at;
}

-- the digits at the front of a text, by their values
unfoldable pub leading_digits : String → List ℕ
leading_digits no_chars = []
leading_digits (char_cons c s) =
    let rest = leading_digits s in
    if leb 48 (code c) && leb (code c) 57 then (code c - 48) ∷ rest else []

unfoldable pub value_of : ℕ → List ℕ → ℕ
value_of acc [] = acc
value_of acc (d ∷ ds) = value_of (acc * 10 + d) ds

-- the sign at the front, and what follows it
unfoldable pub signed : String → Bool × String
signed no_chars = (false, "")
signed (char_cons c s) =
    if eqb (code c) b'-'
    then (true, s)
    else if eqb (code c) b'+'
    then (false, s)
    else (false, char_cons c s)

-- strconv.Atoi of digits with a sign; what does not fit in 64 bits is an error
unfoldable pub atoi : Bool → ℕ → Option ℤ
atoi false n = if ltb n (2 ^ 63) then some (pos n) else none
atoi true n =
    if eqb n 0 then some (pos 0) else if leb n (2 ^ 63) then some (negsuc (n - 1)) else none

-- adminQueryInt
unfoldable pub admin_query_int : String → ℤ → ℤ
admin_query_int raw default =
    let (negative, rest) = signed (trim_space raw) in
    elim (leading_digits rest) [
      | [] ↦ default
      | d ∷ ds ↦ elim (atoi negative (value_of 0 (d ∷ ds))) [ none ↦ default | some n ↦ n ]
    ]

-- if limit > 100 { limit = 100 }
unfoldable pub clamp_limit : ℤ → ℤ
clamp_limit (pos n) = if ltb 100 n then pos 100 else pos n
clamp_limit (negsuc n) = negsuc n

unfoldable pub is_int : ℕ → ℤ → Bool
is_int n (pos m) = eqb n m
is_int n (negsuc m) = false

-- strings.Contains
unfoldable pub contains_text : String → String → Bool
contains_text part no_chars = is_some (cut_prefix part "")
contains_text part (char_cons c s) =
    is_some (cut_prefix part (char_cons c s)) || contains_text part s

-- the rows that are answered with their total: a filtered batch is cut in memory, and a page of the
-- store is counted as if one more followed where it is full
unfoldable pub page_answer : {A : Type 0} → String → (A → Bool) → ℤ → ℤ → List A → List A × ℤ
page_answer filter matches limit offset rows =
    if filter == ""
    then (
      rows,
      (let total = add_int64 (pos (length rows)) offset in
          if is_int (length rows) limit then add_int64 total (pos 1) else total),
    )
    else (let matched = keep_if matches rows in
        let (low, high) = admin_slice_bounds (length matched) offset limit in
        (take (high - low) (drop low matched), pos (length matched)))

-- What is answered: an error with its status, or what the route lists.
pub data Listing : Type 0 where
  refused : ℕ → String → Listing
  users : List AdminUserRow → ℤ → Listing
  sessions : List Session → ℤ → Listing
  roles : List (String × List String) → Listing
  names : List String → Listing
  tenants : List Tenant → Listing
  user : User → Listing

module _ (p : Platform) where
  -- strings.TrimSpace(strings.ToLower(…))
  unfoldable pub filter_of : Query → String
  filter_of q = trim_space (to_lower p.lower q.filter)

  unfoldable pub user_matches : String → AdminUserRow → Bool
  user_matches filter row =
      contains_text filter (to_lower p.lower row.email)
      || contains_text filter (to_lower p.lower row.id)

  unfoldable pub session_matches : String → Session → Bool
  session_matches filter session = contains_text filter (to_lower p.lower session.user_id)

  -- adminListUsers
  unfoldable pub admin_list_users : Config → Query → World → Listing
  admin_list_users c q w =
      let limit = clamp_limit (admin_query_int q.limit (pos 20)) in
      let offset = admin_query_int q.offset (pos 0) in
      let filter = filter_of q in
      let batch =
        if filter == ""
        then list_users "" limit offset w.users
        else list_users "" (pos 500) (pos 0) w.users in
      let (rows, total) =
        page_answer filter (user_matches filter) limit offset (map new_admin_user_row batch) in
      if not c.stores.user_admin
      then refused 501 "IUserStore.listUsers is not implemented"
      else users rows total

  -- adminListSessions; `lists` tells whether the session store is a SessionLister
  unfoldable pub admin_list_sessions : Bool → Query → World → Listing
  admin_list_sessions lists q w =
      let limit = clamp_limit (admin_query_int q.limit (pos 20)) in
      let offset = admin_query_int q.offset (pos 0) in
      let filter = filter_of q in
      let batch =
        if filter == ""
        then get_all_sessions limit offset w.sessions
        else get_all_sessions (pos 500) (pos 0) w.sessions in
      let (rows, total) = page_answer filter (session_matches filter) limit offset batch in
      if not lists
      then refused 501 "ISessionStore.getAllSessions is not implemented"
      else sessions rows total

-- adminGetUser
unfoldable pub admin_get_user : String → World → Listing
admin_get_user id w = elim (get_user_by_id id "" w.users) [
  | err _ ↦ refused 404 "User not found"
  | ok found ↦ user found
]

-- adminListRoles
unfoldable pub admin_list_roles : World → Listing
admin_list_roles w = elim w.rbac [
  | none ↦ refused 404 "RBAC store not configured"
  | some rbac ↦
      roles
        (map (λ (name : String). (name, get_permissions_for_role name rbac)) (get_all_roles rbac))
]

-- adminGetUserRoles
unfoldable pub admin_get_user_roles : String → World → Listing
admin_get_user_roles id w = elim w.rbac [
  | none ↦ refused 404 "RBAC store not configured"
  | some rbac ↦ names (get_roles_for_user id "" rbac)
]

-- adminGetUserTenants
unfoldable pub admin_get_user_tenants : String → World → Listing
admin_get_user_tenants id w = elim w.tenants [
  | none ↦ refused 404 "Tenant store not configured"
  | some store ↦ names (map (λ (t : Tenant). t.id) (get_tenants_for_user id store))
]

-- adminListTenants
unfoldable pub admin_list_tenants : World → Listing
admin_list_tenants w = elim w.tenants [
  | none ↦ refused 404 "Tenant store not configured"
  | some store ↦ tenants (get_all_tenants store)
]

-- adminListTenantUsers, where url.PathUnescape is `unescape`
unfoldable pub admin_list_tenant_users : (String → Option String) → String → World → Listing
admin_list_tenant_users unescape id w = elim w.tenants [
  | none ↦ refused 404 "Tenant store not configured"
  | some store ↦ elim (unescape id) [
    | none ↦ refused 500 "Internal server error"
    | some tenant_id ↦ names (get_users_for_tenant tenant_id store)
  ]
]
