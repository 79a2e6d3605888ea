-- ===== src/Examples/Stores.antt =====
-- The theorems on the stores, applied at small concrete stores.
use Prim.Native.Char.{Char}
use Prim.Native.String.{◌∷◌, ◌++◌ as cat}
use awesome_go_auth.Base.{
  ℕ, String, ◌≡◌, ◌≢◌, ◌↔◌, refl, true, false, none, some, List, [], ◌∷◌, arith, eq_iff, ◌<◌,
  length, drop, take,
}
use awesome_go_auth.Base.Strings.{trim_space, to_lower}
use awesome_go_auth.Base.Dict.{get, put, empty}
use awesome_go_auth.Errors.{ok, err, invalid_token}
use awesome_go_auth.Models.{User, Session, Tenant, zero_user}
use awesome_go_auth.Paging.{pos, page_of}
use awesome_go_auth.Paging.Laws.{page_of_lem}
use awesome_go_auth.Roles.{
  MemoryRolesPermissionsStore, new_memory_roles_permissions_store, create_role, add_role_to_user,
}
use awesome_go_auth.Roles.Deletion.{run_all-IsDefined, IsDefined}
use awesome_go_auth.Roles.Calls.{
  Call as RoleCall, create as define, add_role as grant, run_all as run_role_calls,
}
use awesome_go_auth.SessionStore.{
  MemorySessionStore, new_memory_session_store, create_session, delete_expired_sessions,
  get_session_by_refresh_token_hash,
}
use awesome_go_auth.SessionStore.Invariant.{IsIndexed-new, create_session-IsIndexed}
use awesome_go_auth.SessionStore.Invariant.{IsIndexed as SessionsIndexed}
use awesome_go_auth.SessionStore.Expiry.{expired}
use awesome_go_auth.SessionStore.Expiry.Laws.{get-delete_expired_sessions}
use awesome_go_auth.Tenants.{new_memory_tenant_store}
use awesome_go_auth.Tenants.Membership.{AgreesOn, run_all-AgreesOn}
use awesome_go_auth.Tenants.Membership.{
  Call as TenantCall, create as found, associate, run_all as run_tenant_calls,
}
use awesome_go_auth.UserStore.Credentials.{update_reset_token, get_user_by_reset_token_hash}
use awesome_go_auth.UserStore.{
  MemoryUserStore, new_memory_user_store, create_user, get_user_by_email, normalize_email, owned,
  on_user, resolve,
}
use awesome_go_auth.UserStore.Addresses.{colon, cross_tenant}
use awesome_go_auth.UserStore.Calls.{Call, create, give, run, run_all, run_all-IsIndexed}
use awesome_go_auth.UserStore.Invariant.{IsIndexed}
use awesome_go_auth.UserStore.OneTime.{reset, issue, clear, redeem}
use awesome_go_auth.UserStore.OneTime.Laws.{redeem-clear}

-- Paging: three items, a limit whose sum with the offset overflows.
abbrev items : List ℕ
items = 1 ∷ 2 ∷ 3 ∷ []

abbrev largest : ℕ
largest = 9223372036854775807

page_of_lem_example : page_of items (pos largest) (pos 1) ≡ take largest (drop 1 items)
page_of_lem_example = page_of_lem items (pos largest) (pos 1) (omega arith) (omega arith)

short_page : length (page_of items (pos 2) (pos 2)) < 2
unfolding page_of
short_page = omega arith

-- Users: one user, and a reset token.
abbrev same_case : Char → Char
same_case c = c

abbrev ann : User
ann = record zero_user { id = "u"; email = "a@b"; tenant_id = "t" }

abbrev calls : List Call
calls = create ann ∷ give reset "u" "t" "h" 5 ∷ []

abbrev one_user : MemoryUserStore
one_user = run_all same_case calls new_memory_user_store

run_all-IsIndexed_example : IsIndexed same_case one_user
run_all-IsIndexed_example = run_all-IsIndexed same_case calls

abbrev holder : User
holder = record ann { reset_token_hash = "h"; reset_token_expires_at = some 5 }

has_holder : get one_user.by_id "u" ≡ some holder
unfolding run_all run new_memory_user_store create_user get issue update_reset_token on_user owned
    empty put
has_holder = refl

owns_holder : owned one_user "u" "t" ≡ some holder
unfolding run_all run new_memory_user_store create_user get issue update_reset_token on_user owned
    empty put
owns_holder = refl

redeems : redeem reset "h" one_user ≡ ok holder
unfolding run_all run new_memory_user_store create_user get issue update_reset_token on_user owned
    empty put redeem get_user_by_reset_token_hash resolve
redeems = refl

some_hash : ◌≢◌ {A = String} "h" ""
some_hash = ground (arith, eq_iff "h" "")

redeem-clear_example : redeem reset "h" (clear reset "u" "t" one_user).1 ≡ err invalid_token
redeem-clear_example =
    redeem-clear same_case reset one_user "h" holder run_all-IsIndexed_example some_hash redeems

created : (create_user same_case ann new_memory_user_store).0 ≡ ok ann
unfolding create_user new_memory_user_store get empty
created = refl

same_address : normalize_email same_case " a@b" ≡ normalize_email same_case "a@b"
unfolding normalize_email trim_space to_lower
same_address = refl

-- A tenant "t", a user of it under "x:c", and the tenant "t:x".
abbrev eve : User
eve = record zero_user { id = "e"; email = "x:c"; tenant_id = "t" }

created_eve : (create_user same_case eve new_memory_user_store).0 ≡ ok eve
unfolding create_user new_memory_user_store get empty
created_eve = refl

split_address : normalize_email same_case "x:c" ≡ cat "x" (colon ∷ normalize_email same_case "c")
unfolding normalize_email trim_space to_lower
split_address = refl

cross_tenant_example :
    get_user_by_email same_case "c" "t:x" (create_user same_case eve new_memory_user_store).1
    ≡ ok eve
cross_tenant_example =
    cross_tenant same_case new_memory_user_store "t" "x" "c" eve eve refl split_address created_eve

-- Sessions: one that has expired and one that has not.
abbrev old_session : Session
old_session = record {
  id = "o";
  user_id = "u";
  tenant_id = "t";
  refresh_token_hash = "ho";
  created_at = 0;
  expires_at = 1;
  revoked_at = none;
}

abbrev new_session : Session
new_session = record {
  id = "n";
  user_id = "u";
  tenant_id = "t";
  refresh_token_hash = "hn";
  created_at = 0;
  expires_at = 9;
  revoked_at = none;
}

abbrev first_session : MemorySessionStore
first_session = (create_session old_session new_memory_session_store).1

abbrev two_sessions : MemorySessionStore
two_sessions = (create_session new_session first_session).1

two_sessions-IsIndexed : SessionsIndexed two_sessions
unfolding create_session new_memory_session_store get empty put
two_sessions-IsIndexed =
    create_session-IsIndexed (create_session-IsIndexed IsIndexed-new old_session refl refl)
      new_session refl refl

get-delete_expired_sessions_example :
    (get_session_by_refresh_token_hash "hn" (delete_expired_sessions 5 two_sessions).1
      ≡ ok new_session)
    ↔ ((get_session_by_refresh_token_hash "hn" two_sessions ≡ ok new_session)
        × (expired 5 new_session ≡ false))
get-delete_expired_sessions_example =
    get-delete_expired_sessions 5 two_sessions-IsIndexed "hn" new_session

-- Roles: one role with one permission, held by one user.
abbrev roles : MemoryRolesPermissionsStore
roles =
    (add_role_to_user "u" "r" "t"
      (create_role "r" ("p" ∷ []) new_memory_roles_permissions_store).1).1

abbrev role_calls : List RoleCall
role_calls = define "r" ("p" ∷ []) ∷ grant "u" "r" "t" ∷ []

run_all-IsDefined_example : IsDefined (run_role_calls role_calls new_memory_roles_permissions_store)
run_all-IsDefined_example = run_all-IsDefined role_calls

-- Tenants: one tenant and one member.
abbrev tenant : Tenant
tenant = record { id = "t"; name = "n"; is_active = true; config = empty; created_at = 0 }

abbrev tenant_calls : List TenantCall
tenant_calls = found tenant ∷ associate "u" "t" ∷ []

run_all-AgreesOn_example : AgreesOn (run_tenant_calls tenant_calls new_memory_tenant_store) "u" "t"
run_all-AgreesOn_example = run_all-AgreesOn tenant_calls "u" "t"
