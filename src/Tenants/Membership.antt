-- ===== src/Tenants/Membership.antt =====
-- MemoryTenantStore: the two sides of the membership agree after any sequence of operations.
use awesome_go_auth.Base.{
  String, ◌≡◌, Option, none, List, [], ◌∷◌, ◌==◌, ◌&&◌, eq_iff, arith, if◌then◌else◌, Option-cases,
  inl, inr,
}
use awesome_go_auth.Base.Dict.{Dict, get, put, remove, get-put, get-remove, get-empty}
use awesome_go_auth.Base.Dict.Entries.{get-map_values}
use awesome_go_auth.Models.{Tenant}
use awesome_go_auth.Roles.{StringSet, inner}
use awesome_go_auth.Tenants.{
  MemoryTenantStore, new_memory_tenant_store, create_tenant, update_tenant, delete_tenant,
  associate_user_with_tenant, delete_inner, disassociate_user_from_tenant,
}

-- a call of the store that changes it
pub data Call : Type 0 where
  create : Tenant → Call
  update : String → Tenant → Call
  delete : String → Call
  associate disassociate : String → String → Call

unfoldable pub run : Call → MemoryTenantStore → MemoryTenantStore
run (create t) s = (create_tenant t s).1
run (update id t) s = (update_tenant id t s).1
run (delete id) s = (delete_tenant id s).1
run (associate u t) s = (associate_user_with_tenant u t s).1
run (disassociate u t) s = (disassociate_user_from_tenant u t s).1

unfoldable pub run_all : List Call → MemoryTenantStore → MemoryTenantStore
run_all [] s = s
run_all (c ∷ cs) s = run_all cs (run c s)

-- what a removal from one inner map leaves
get-delete_inner :
    (m : Dict StringSet) (k x j y : String)
    → get (inner (delete_inner m k x) j) y
      ≡ (if (k == j) && (x == y) then none else get (inner m j) y)
unfolding delete_inner
get-delete_inner m k x j y = elim (Option-cases (get m k)) [
  | inl missing ↦ ground (arith, missing, eq_iff k j, get-empty {V = Unit {0}} y)
  | inr (members, found) ↦
      ground (arith, found, get-put m k j (remove members x), get-remove members x y, eq_iff k j)
]

-- what the two maps say of a user and a tenant
abbrev of_user : MemoryTenantStore → String → String → Option (Unit {0})
of_user s u t = get (inner s.user_tenants u) t

abbrev of_tenant : MemoryTenantStore → String → String → Option (Unit {0})
of_tenant s u t = get (inner s.tenant_users t) u

abbrev pub AgreesOn : MemoryTenantStore → String → String → Type 0
AgreesOn s u t = of_user s u t ≡ of_tenant s u t

associate-AgreesOn :
    (s : MemoryTenantStore) (u t u' t' : String)
    → AgreesOn s u t
    → AgreesOn (associate_user_with_tenant u' t' s).1 u t
unfolding associate_user_with_tenant
associate-AgreesOn s u t u' t' h = ground (
  arith,
  h,
  get-put s.user_tenants u' u (put (inner s.user_tenants u') t' tt),
  get-put s.tenant_users t' t (put (inner s.tenant_users t') u' tt),
  get-put (inner s.user_tenants u') t' t tt,
  get-put (inner s.tenant_users t') u' u tt,
  eq_iff u' u,
  eq_iff t' t,
)

disassociate-AgreesOn :
    (s : MemoryTenantStore) (u t u' t' : String)
    → AgreesOn s u t
    → AgreesOn (disassociate_user_from_tenant u' t' s).1 u t
unfolding disassociate_user_from_tenant delete_inner
disassociate-AgreesOn s u t u' t' h =
    ground (
      arith,
      h,
      get-delete_inner s.user_tenants u' t' u t,
      get-delete_inner s.tenant_users t' u' t u,
    )

delete-AgreesOn :
    (s : MemoryTenantStore) (u t id : String) → AgreesOn s u t → AgreesOn (delete_tenant id s).1 u t
unfolding delete_tenant
delete-AgreesOn s u t id h = elim (Option-cases (get s.user_tenants u)) [
  | inl missing ↦ ground (
    arith,
    h,
    missing,
    get-map_values (λ tenants. remove tenants id) s.user_tenants u,
    get-remove s.tenant_users id t,
    get-empty {V = Unit {0}} t,
    get-empty {V = Unit {0}} u,
  )
  | inr (tenants, found) ↦ ground (
    arith,
    h,
    found,
    get-map_values (λ tenants. remove tenants id) s.user_tenants u,
    get-remove s.tenant_users id t,
    get-remove tenants id t,
    get-empty {V = Unit {0}} u,
  )
]

-- Every call keeps the agreement.
run-AgreesOn :
    (c : Call) (s : MemoryTenantStore)
    → ((u t : String) → AgreesOn s u t)
    → (u t : String) → AgreesOn (run c s) u t
unfolding run create_tenant update_tenant
run-AgreesOn (create tenant) s h u t = ground (arith, h u t)
run-AgreesOn (update id tenant) s h u t = ground (arith, h u t)
run-AgreesOn (delete id) s h u t = delete-AgreesOn s u t id (h u t)
run-AgreesOn (associate u' t') s h u t = associate-AgreesOn s u t u' t' (h u t)
run-AgreesOn (disassociate u' t') s h u t = disassociate-AgreesOn s u t u' t' (h u t)

run_all-keeps :
    (cs : List Call) (s : MemoryTenantStore)
    → ((u t : String) → AgreesOn s u t)
    → (u t : String) → AgreesOn (run_all cs s) u t
unfolding run_all
run_all-keeps [] s h = h
run_all-keeps (c ∷ cs) s h = run_all-keeps cs (run c s) (run-AgreesOn c s h)

-- Whatever the calls, from an empty store: a tenant is among a user's tenants exactly when the user
-- is among the tenant's users.
pub run_all-AgreesOn :
    (cs : List Call) (u t : String) → AgreesOn (run_all cs new_memory_tenant_store) u t
unfolding new_memory_tenant_store
run_all-AgreesOn cs = run_all-keeps cs new_memory_tenant_store λ u t. ground (
  arith,
  get-empty {V = StringSet} u,
  get-empty {V = StringSet} t,
  get-empty {V = Unit {0}} u,
  get-empty {V = Unit {0}} t,
)
