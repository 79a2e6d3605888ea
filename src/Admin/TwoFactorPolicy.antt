-- ===== src/Admin/TwoFactorPolicy.antt =====
-- admin_write.go, adminSetTwoFAPolicy: the loop over the batches of users ends, and counts every user.
use Prim.Native.Nat.{zero, min}
use awesome_go_auth.Base.{
  In-take, In-drop, ℕ, suc, ◌+◌, ◌-◌, ◌*◌, ◌/◌, ◌^◌, ◌<◌, ◌≤◌, String, Bool, true, ◌≡◌, refl, sym,
  subst, ap, ◌∙◌, some, List, [], ◌∷◌, In, ◌==◌, eq_iff, arith, ltb, eqb, length, take, drop,
  keep_if, sort_by, map, length-take, length-drop, length-sort_by, In-sort_by, Bool-cases, inl, inr,
}
use awesome_go_auth.Base.Dict.{get, put, values, get-put}
use awesome_go_auth.Base.Dict.Entries.{Distinct, Distinct-put, In-values_key, length-put}
use awesome_go_auth.Errors.{ok}
use awesome_go_auth.Models.{User}
use awesome_go_auth.Paging.{pos}
use awesome_go_auth.Paging.Laws.{page_of_lem}
use awesome_go_auth.Service.{Config, World, on_users}
use awesome_go_auth.Admin.{updated, or_internal, update_batch, policy_loop, admin_set_two_fa_policy}
use awesome_go_auth.UserStore.{
  MemoryUserStore, list_users, by_user_id, update_require_2fa, on_user, owned, store_user,
}

-- Keys stand once, and are the ids of their users.
pub record IsKeyed (s : MemoryUserStore) : Type 0 where
  pub distinct : Distinct s.by_id.entries
  pub id_key : (k : String) (u : User) → get s.by_id k ≡ some u → u.id ≡ k

unfoldable pub count_users : MemoryUserStore → ℕ
count_users s = length s.by_id.entries

-- a user of the id and the tenant is there
Present : MemoryUserStore → User → Type 0
Present s u = (v : User) × (get s.by_id u.id ≡ some v) × (v.tenant_id ≡ u.tenant_id)

keep_every :
    {A : Type 0} (keep : A → Bool)
    → ((a : A) → keep a ≡ true)
    → (xs : List A) → keep_if keep xs ≡ xs
keep_every keep every [] = refl
keep_every keep every (x ∷ xs) = rw (every x, keep_every keep every xs) refl

pub length-map : {A B : Type 0} (f : A → B) (xs : List A) → length (map f xs) ≡ length xs
length-map f [] = refl
length-map f (x ∷ xs) = ap suc (length-map f xs)

-- the batch of a size at an offset
pub batch_lem :
    (s : MemoryUserStore) (n o : ℕ)
    → count_users s < 2 ^ 63
    → n < 2 ^ 63
    → list_users "" (pos n) (pos o) s ≡ take n (drop o (sort_by by_user_id (values s.by_id)))
unfolding list_users count_users
batch_lem s n o h k = rw (keep_every (λ (u : User). true) (λ u. refl) (values s.by_id)) (
    page_of_lem (sort_by by_user_id (values s.by_id)) (pos n) (pos o)
      (omega (
        arith,
        length-sort_by by_user_id (values s.by_id),
        length-map (λ (e : String × User). e.1) s.by_id.entries,
        h,
      ))
      k)

length-batch :
    (s : MemoryUserStore) (o : ℕ)
    → count_users s < 2 ^ 63
    → length (list_users "" (pos 100) (pos o) s) ≡ min 100 (count_users s - o)
unfolding count_users
length-batch s o h =
    let sorted = sort_by by_user_id (values s.by_id) in
    omega (
      arith,
      ap length (batch_lem s 100 o h (omega arith)),
      length-take 100 (drop o sorted),
      length-drop o sorted,
      length-sort_by by_user_id (values s.by_id),
      length-map (λ (e : String × User). e.1) s.by_id.entries,
    )

batch-Present :
    (s : MemoryUserStore) (o : ℕ)
    → count_users s < 2 ^ 63
    → IsKeyed s
    → (u : User) → In u (list_users "" (pos 100) (pos o) s)
    → Present s u
unfolding Present
batch-Present s o h k u i =
    let sorted = sort_by by_user_id (values s.by_id) in
    let j = subst (λ us. In u us) (batch_lem s 100 o h (omega arith)) i in
    let inside =
      (In-sort_by u by_user_id (values s.by_id)).0
        (In-drop u o sorted (In-take u 100 (drop o sorted) j)) in
    let (key, has) = In-values_key s.by_id u k.distinct inside in
    (u, subst (λ x. get s.by_id x ≡ some u) (sym (k.id_key key u has)) has, refl)

-- what one update leaves
update_one :
    (required : Bool) (s : MemoryUserStore) (u : User)
    → IsKeyed s
    → Present s u
    → (t : MemoryUserStore) × (update_require_2fa u.id u.tenant_id required s ≡ (ok tt, t))
      × IsKeyed t
      × (count_users t ≡ count_users s)
      × ((v : User) → Present s v → Present t v)
unfolding update_require_2fa on_user owned store_user count_users Present
update_one required s u k (old, has, same) =
    let new : User = record old { require_2fa = required } in
    let wrote = λ (j : String). get-put s.by_id u.id j new in
    (
      record s { by_id = put s.by_id u.id new },
      ground (arith, has, same, eq_iff old.tenant_id u.tenant_id),
      record {
        distinct = Distinct-put s.by_id u.id new k.distinct;
        id_key = λ j x e. ground (arith, wrote j, eq_iff u.id j, k.id_key j x, k.id_key u.id old);
      },
      length-put s.by_id u.id old new k.distinct has,
      λ v (w, there, tenant). elim (Bool-cases (u.id == v.id)) [
        | inl own ↦ (
          new,
          ground (arith, wrote v.id, own),
          ground (arith, has, there, tenant, own, eq_iff u.id v.id),
        )
        | inr other ↦ (w, ground (arith, wrote v.id, other, there), tenant)
      ],
    )

update_all :
    (required : Bool) (us : List User) (s : MemoryUserStore)
    → IsKeyed s
    → ((u : User) → In u us → Present s u)
    → (t : MemoryUserStore) × (update_batch required us s ≡ (ok tt, t))
      × IsKeyed t
      × (count_users t ≡ count_users s)
unfolding update_batch
update_all required [] s k there = (s, refl, k, refl)
update_all required (u ∷ us) s k there =
    let (s1, wrote, k1, same1, keeps) = update_one required s u k (there u (inl refl)) in
    let (s2, rest, k2, same2) = update_all required us s1 k1 (λ v i. keeps v (there v (inr i))) in
    (s2, ground (arith, wrote, rest), k2, same2 ∙ same1)

policy_loop-updated :
    (rounds : ℕ) (required : Bool) (o n : ℕ) (w : World)
    → IsKeyed w.users
    → count_users w.users < 2 ^ 63
    → o ≤ count_users w.users
    → count_users w.users < o + rounds * 100
    → (policy_loop rounds required o n w).0 ≡ ok (updated (n + (count_users w.users - o)))
unfolding policy_loop or_internal on_users
policy_loop-updated zero required o n w k h inside enough = absurd (omega arith)
policy_loop-updated (suc rounds) required o n w k h inside enough =
    let batch = list_users "" (pos 100) (pos o) w.users in
    let size = length-batch w.users o h in
    let (t, wrote, k1, same) = update_all required batch w.users k (batch-Present w.users o h k) in
    elim (Bool-cases (ltb (length batch) 100)) [
      | inl short ↦ elim (Bool-cases (eqb (length batch) 0)) [
        | inl nobody ↦ ground (arith, size, nobody)
        | inr somebody ↦ ground (arith, size, wrote, short, somebody)
      ]
      | inr full ↦
          let next =
            policy_loop-updated rounds required (o + 100) (n + length batch)
              (record w { users = t }) k1 (omega (arith, same, h))
              (ground (arith, same, size, full)) (omega (arith, same, enough)) in
          ground (arith, size, wrote, same, full, next)
    ]

-- In a store with ids as keys and fewer than 2 to the 63 users that supports the listing and the
-- policy, one round for each hundred users and one more are enough for the walk to end, without an
-- error and with every user counted once.
pub admin_set_two_fa_policy-updated :
    (c : Config) (required : Bool) (w : World)
    → IsKeyed w.users
    → count_users w.users < 2 ^ 63
    → c.stores.two_factor_policy ≡ true
    → c.stores.user_admin ≡ true
    → (admin_set_two_fa_policy c (count_users w.users / 100 + 1) (some required) w).0
      ≡ ok (updated (count_users w.users))
unfolding admin_set_two_fa_policy
admin_set_two_fa_policy-updated c required w k h policy admin =
    let n = count_users w.users in
    ground (
      arith,
      policy,
      admin,
      policy_loop-updated (n / 100 + 1) required 0 0 w k h (omega arith) (omega arith),
    )
