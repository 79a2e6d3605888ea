-- ===== src/Roles/Refinement.antt =====
-- The roles store against its abstract specification: a policy is a relation of users, tenants and
-- roles, and one of roles and permissions, and forgets how the maps are laid out.
use awesome_go_auth.Base.{
  String, Bool, true, false, not, ◌&&◌, ◌||◌, ◌≡◌, ◌↔◌, List, [], ◌∷◌, ◌==◌, eq_iff, arith,
  if◌then◌else◌, Option-cases, Bool-cases, is_some, inl, inr, refl,
}
use awesome_go_auth.Base.Dict.{Dict, empty, get, put, remove, get-empty, get-put, get-remove}
use awesome_go_auth.Roles.{
  StringSet, MemoryRolesPermissionsStore, new_memory_roles_permissions_store, inner, delete_role,
  add_role_to_user, remove_role_from_user, create_role, add_permission_to_role, contains,
  remove_permission_from_role, user_has_permission, to_set,
}
use awesome_go_auth.Roles.Calls.{
  Call, add_role, remove_role, create, delete, add_permission, remove_permission, run, run_all,
  assigned,
}
use awesome_go_auth.Roles.Deletion.{user_roles-delete_role}
use awesome_go_auth.Roles.Laws.{user_has_permission_iff}

pub record Policy : Type 0 where
  pub holds : String → String → String → Bool
  pub grants : String → String → Bool
  pub defined : String → Bool

unfoldable pub no_policy : Policy
no_policy = record {
  holds = λ user_id tenant_id role. false;
  grants = λ role permission. false;
  defined = λ role. false;
}

-- what each call means
unfoldable pub step : Call → Policy → Policy
step (add_role user role tenant) a =
    if a.defined role
    then record a { holds = λ u t r. (user == u && tenant == t && role == r) || a.holds u t r }
    else a
step (remove_role user role tenant) a = record a {
  holds = λ u t r. not (user == u && tenant == t && role == r) && a.holds u t r;
}
step (create role permissions) a = record a {
  grants = λ r p. if role == r then contains p permissions else a.grants r p;
  defined = λ r. role == r || a.defined r;
}
step (delete role) a = record {
  holds = λ u t r. not (role == r) && a.holds u t r;
  grants = λ r p. not (role == r) && a.grants r p;
  defined = λ r. not (role == r) && a.defined r;
}
step (add_permission role permission) a = record a {
  grants = λ r p. (role == r && permission == p) || a.grants r p;
  defined = λ r. role == r || a.defined r;
}
step (remove_permission role permission) a = record a {
  grants = λ r p. not (role == r && permission == p) && a.grants r p;
}

unfoldable pub replay : List Call → Policy → Policy
replay [] a = a
replay (c ∷ cs) a = replay cs (step c a)

-- The store shows the policy.
pub record Shows (s : MemoryRolesPermissionsStore) (a : Policy) : Type 0 where
  pub holds : (u t r : String) → is_some (get (inner (inner s.user_roles u) t) r) ≡ a.holds u t r
  pub grants : (r p : String) → is_some (get (inner s.role_permissions r) p) ≡ a.grants r p
  pub defined : (r : String) → is_some (get s.role_permissions r) ≡ a.defined r

to_set_lem :
    (p : String) (ps : List String) (set : StringSet)
    → is_some (get (to_set ps set) p) ≡ (contains p ps || is_some (get set p))
unfolding to_set contains
to_set_lem p [] set = refl
to_set_lem p (q ∷ qs) set = ground (arith, to_set_lem p qs (put set q tt), get-put set q p tt)

module _ {s : MemoryRolesPermissionsStore} {a : Policy} (h : Shows s a) where
  step-add_role :
      (user role tenant : String)
      → Shows (run (add_role user role tenant) s) (step (add_role user role tenant) a)
  unfolding run step add_role_to_user
  step-add_role user role tenant = elim (Bool-cases (a.defined role)) [
    | inl known ↦
        let old = inner (inner s.user_roles user) tenant in
        record {
          holds = λ u t r. ground (
            arith,
            known,
            h.defined role,
            h.holds u t r,
            assigned s.user_roles user tenant (put old role tt) u t r,
            get-put old role r tt,
            eq_iff user u,
            eq_iff tenant t,
          );
          grants = λ r p. ground (arith, known, h.defined role, h.grants r p);
          defined = λ r. ground (arith, known, h.defined role, h.defined r);
        }
    | inr unknown ↦ record {
      holds = λ u t r. ground (arith, unknown, h.defined role, h.holds u t r);
      grants = λ r p. ground (arith, unknown, h.defined role, h.grants r p);
      defined = λ r. ground (arith, unknown, h.defined role, h.defined r);
    }
  ]

  step-remove_role :
      (user role tenant : String)
      → Shows (run (remove_role user role tenant) s) (step (remove_role user role tenant) a)
  unfolding run step remove_role_from_user
  step-remove_role user role tenant =
      let old = inner (inner s.user_roles user) tenant in
      record {
        holds = λ u t r. ground (
          arith,
          h.holds u t r,
          assigned s.user_roles user tenant (remove old role) u t r,
          get-remove old role r,
          get-empty {V = StringSet} tenant,
          get-empty {V = Unit {0}} r,
          eq_iff user u,
          eq_iff tenant t,
        );
        grants = λ r p. ground (arith, h.grants r p);
        defined = λ r. ground (arith, h.defined r);
      }

  step-create :
      (role : String) (ps : List String) → Shows (run (create role ps) s) (step (create role ps) a)
  unfolding run step create_role
  step-create role ps =
      let made = to_set ps empty in
      record {
        holds = h.holds;
        grants = λ r p. ground (
          arith,
          h.grants r p,
          get-put s.role_permissions role r made,
          to_set_lem p ps empty,
          get-empty {V = Unit {0}} p,
        );
        defined = λ r. ground (arith, h.defined r, get-put s.role_permissions role r made);
      }

  step-delete : (role : String) → Shows (run (delete role) s) (step (delete role) a)
  unfolding run step delete_role
  step-delete role = record {
    holds = λ u t r. ground (arith, h.holds u t r, user_roles-delete_role role s u t r);
    grants = λ r p.
        ground
          (arith, h.grants r p, get-remove s.role_permissions role r, get-empty {V = Unit {0}} p);
    defined = λ r. ground (arith, h.defined r, get-remove s.role_permissions role r);
  }

  step-add_permission :
      (role permission : String)
      → Shows (run (add_permission role permission) s) (step (add_permission role permission) a)
  unfolding run step add_permission_to_role
  step-add_permission role permission =
      let old = inner s.role_permissions role in
      let new = put old permission tt in
      record {
        holds = h.holds;
        grants = λ r p. ground (
          arith,
          h.grants r p,
          get-put s.role_permissions role r new,
          get-put old permission p tt,
          eq_iff role r,
        );
        defined = λ r. ground (arith, h.defined r, get-put s.role_permissions role r new);
      }

  step-remove_permission :
      (role permission : String)
      → Shows
          (run (remove_permission role permission) s)
          (step (remove_permission role permission) a)
  unfolding run step remove_permission_from_role
  step-remove_permission role permission = elim (Option-cases (get s.role_permissions role)) [
    | inl missing ↦ record {
      holds = λ u t r. ground (arith, missing, h.holds u t r);
      grants =
          λ r p. ground (arith, missing, h.grants r p, get-empty {V = Unit {0}} p, eq_iff role r);
      defined = λ r. ground (arith, missing, h.defined r);
    }
    | inr (old, found) ↦
        let new = remove old permission in
        record {
          holds = λ u t r. ground (arith, found, h.holds u t r);
          grants = λ r p. ground (
            arith,
            found,
            h.grants r p,
            get-put s.role_permissions role r new,
            get-remove old permission p,
            eq_iff role r,
          );
          defined = λ r.
              ground
                (arith, found, h.defined r, get-put s.role_permissions role r new, eq_iff role r);
        }
  ]

step-Shows :
    (c : Call) {s : MemoryRolesPermissionsStore} {a : Policy}
    → Shows s a
    → Shows (run c s) (step c a)
step-Shows (add_role user role tenant) h = step-add_role h user role tenant
step-Shows (remove_role user role tenant) h = step-remove_role h user role tenant
step-Shows (create role ps) h = step-create h role ps
step-Shows (delete role) h = step-delete h role
step-Shows (add_permission role permission) h = step-add_permission h role permission
step-Shows (remove_permission role permission) h = step-remove_permission h role permission

run_all-Shows :
    (cs : List Call) (s : MemoryRolesPermissionsStore) (a : Policy)
    → Shows s a
    → Shows (run_all cs s) (replay cs a)
unfolding run_all replay
run_all-Shows [] s a h = h
run_all-Shows (c ∷ cs) s a h = run_all-Shows cs (run c s) (step c a) (step-Shows c h)

new-Shows : Shows new_memory_roles_permissions_store no_policy
unfolding new_memory_roles_permissions_store no_policy
new-Shows = record {
  holds = λ u t r. ground (
    arith,
    get-empty {V = Dict StringSet} u,
    get-empty {V = StringSet} t,
    get-empty {V = Unit {0}} r,
  );
  grants = λ r p. ground (arith, get-empty {V = StringSet} r, get-empty {V = Unit {0}} p);
  defined = λ r. ground (arith, get-empty {V = StringSet} r);
}

-- After any sequence of writes to an empty store, the store grants a user a permission in a tenant
-- exactly if the abstract policy, which replays the writes as relations of users, tenants, roles and
-- permissions, gives him a role there that has it.
pub user_has_permission-run_all :
    (cs : List Call) (user_id permission tenant_id : String)
    → (user_has_permission user_id permission tenant_id
          (run_all cs new_memory_roles_permissions_store)
        ≡ true)
      ↔ ((role : String) × ((replay cs no_policy).holds user_id tenant_id role ≡ true)
          × ((replay cs no_policy).grants role permission ≡ true))
user_has_permission-run_all cs user_id permission tenant_id =
    let s = run_all cs new_memory_roles_permissions_store in
    let h = run_all-Shows cs new_memory_roles_permissions_store no_policy new-Shows in
    let iff = user_has_permission_iff s user_id permission tenant_id in
    (
      λ e.
          let (r, held, g) = iff.0 e in
          (
            r,
            ground (arith, held, h.holds user_id tenant_id r),
            ground (arith, g, h.grants r permission),
          ),
      λ (r, held, g). iff.1 (
        r,
        ground (arith, held, h.holds user_id tenant_id r),
        ground (arith, g, h.grants r permission),
      ),
    )
