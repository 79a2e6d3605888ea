-- ===== src/Service/Accounts/Deletion.antt =====
-- DeleteAccount: the user is gone, and every session of his is revoked.
use awesome_go_auth.Base.{
  ℕ, String, ◌≡◌, refl, sym, ap, ◌∙◌, Bool, true, some, List, [], ◌∷◌, ◌==◌, ◌&&◌, eq_iff, arith,
  inl, inr, Option-cases, Bool-cases, keep_if, In, In-sort_by, In-keep_if, is_some,
}
use awesome_go_auth.Base.Dict.{get, get-put, get-remove_self, values}
use awesome_go_auth.Base.Dict.Entries.{In-values_of_get}
use awesome_go_auth.Errors.{ok, err, user_not_found}
use awesome_go_auth.Models.{Session}
use awesome_go_auth.Platform.{Platform}
use awesome_go_auth.Service.{Config, World, on_users, publish}
use awesome_go_auth.Service.Accounts.{revoke_each, delete_account}
use awesome_go_auth.SessionStore.{
  MemorySessionStore, by_session_id, list_sessions_for_user, revoke_session_by_id,
}
use awesome_go_auth.SessionStore.Invariant.{IsIndexed}
use awesome_go_auth.UserStore.{delete_user, get_user_by_id, owned, on_user}

-- how a session of a table came about from one of an earlier table
record From (s : MemorySessionStore) (k : String) (x : Session) : Type 0 where
  before : Session
  stood : get s.by_id k ≡ some before
  same_id : x.id ≡ before.id
  same_user : x.user_id ≡ before.user_id
  same_tenant : x.tenant_id ≡ before.tenant_id
  stays : is_some before.revoked_at ≡ true → is_some x.revoked_at ≡ true

revoke-From :
    (now : ℕ) (id : String) (s : MemorySessionStore) (k : String) (x : Session)
    → get (revoke_session_by_id now id s).1.by_id k ≡ some x
    → From s k x × (id ≡ k → is_some x.revoked_at ≡ true)
unfolding revoke_session_by_id
revoke-From now id s k x e = elim (Option-cases (get s.by_id id)) [
  | inl missing ↦
      let same : get s.by_id k ≡ some x = ground (arith) in
      (
        record {
          before = x;
          stood = same;
          same_id = refl;
          same_user = refl;
          same_tenant = refl;
          stays = λ h. h;
        },
        λ is. ground (arith),
      )
  | inr (y, found) ↦
      let write = get-put s.by_id id k (record y { revoked_at = some now }) in
      elim (Bool-cases (id == k)) [
        | inl hit ↦ (
          record {
            before = y;
            stood = ground (arith, eq_iff id k);
            same_id = ground (arith);
            same_user = ground (arith);
            same_tenant = ground (arith);
            stays = λ h. ground (arith);
          },
          λ is. ground (arith),
        )
        | inr miss ↦ (
          record {
            before = x;
            stood = ground (arith);
            same_id = refl;
            same_user = refl;
            same_tenant = refl;
            stays = λ h. h;
          },
          λ is. ground (arith, eq_iff id k),
        )
      ]
]

revoke_each-From :
    (now : ℕ) (xs : List Session) (s : MemorySessionStore) (k : String) (x : Session)
    → get (revoke_each now xs s).by_id k ≡ some x
    → From s k x × ((z : Session) → In z xs → z.id ≡ k → is_some x.revoked_at ≡ true)
unfolding revoke_each
revoke_each-From now [] s k x e = (
  record {
    before = x;
    stood = e;
    same_id = refl;
    same_user = refl;
    same_tenant = refl;
    stays = λ h. h;
  },
  λ z i same. absurd i,
)
revoke_each-From now (y ∷ ys) s k x e =
    let (r, hit) = revoke_each-From now ys (revoke_session_by_id now y.id s).1 k x e in
    let (f, done) = revoke-From now y.id s k r.before r.stood in
    (
      record {
        before = f.before;
        stood = f.stood;
        same_id = r.same_id ∙ f.same_id;
        same_user = r.same_user ∙ f.same_user;
        same_tenant = r.same_tenant ∙ f.same_tenant;
        stays = λ h. r.stays (f.stays h);
      },
      λ z i same. elim i [
        | inl is ↦ r.stays (done (ap (λ v. v.id) (sym is) ∙ same))
        | inr rest ↦ hit z rest same
      ],
    )

module _ (p : Platform) (c : Config) (user_id tenant_id : String) (w w' : World)
    (deleted : delete_account p c user_id tenant_id w ≡ (ok tt, w')) where
  -- After a deletion of an account that returns, the lookup of the user by id in that tenant fails.
  pub delete_account-get_user_by_id : get_user_by_id user_id tenant_id w'.users ≡ err user_not_found
  unfolding delete_account on_users publish delete_user on_user get_user_by_id owned
  delete_account-get_user_by_id = ground (arith, get-remove_self w.users.by_id user_id)

  sessions_lem :
      c.stores.session_admin ≡ true
      → w'.sessions
        ≡ revoke_each w.clock (list_sessions_for_user user_id tenant_id w.sessions) w.sessions
  unfolding delete_account on_users publish
  sessions_lem admin = ground (arith)

  -- With a consistent session store that lists sessions, after a deletion of an account that returns
  -- every session of that user in that tenant is revoked.
  pub delete_account-revoke_session_by_id :
      (k : String) (x : Session)
      → IsIndexed w.sessions
      → c.stores.session_admin ≡ true
      → get w'.sessions.by_id k ≡ some x
      → x.user_id ≡ user_id
      → x.tenant_id ≡ tenant_id
      → is_some x.revoked_at ≡ true
  unfolding list_sessions_for_user
  delete_account-revoke_session_by_id k x indexed admin found his there =
      let listed = list_sessions_for_user user_id tenant_id w.sessions in
      let stands : get (revoke_each w.clock listed w.sessions).by_id k ≡ some x =
        cc (sessions_lem admin) in
      let (f, hit) = revoke_each-From w.clock listed w.sessions k x stands in
      let keep : Session → Bool = λ y. y.user_id == user_id && y.tenant_id == tenant_id in
      let kept : keep f.before ≡ true = ground (
        arith,
        f.same_user,
        f.same_tenant,
        eq_iff f.before.user_id user_id,
        eq_iff f.before.tenant_id tenant_id,
      ) in
      let in_table = In-values_of_get w.sessions.by_id k f.before indexed.distinct f.stood in
      let member =
        (In-sort_by f.before by_session_id (keep_if keep (values w.sessions.by_id))).1
          ((In-keep_if f.before keep (values w.sessions.by_id)).1 (in_table, kept)) in
      hit f.before member (indexed.id_key k f.before f.stood)
