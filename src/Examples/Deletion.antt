-- ===== src/Examples/Deletion.antt =====
-- The theorems on the deletion of an account, applied at a world with one user and his session.
use awesome_go_auth.Base.{◌≡◌, refl, true, none, some, is_some}
use awesome_go_auth.Base.Dict.{get, put, empty, remove}
use awesome_go_auth.Errors.{ok}
use awesome_go_auth.Examples.Lawful.{toy}
use awesome_go_auth.Examples.Runs.{config, start}
use awesome_go_auth.Models.{Session}
use awesome_go_auth.Service.{World, on_users, publish}
use awesome_go_auth.Service.Accounts.{delete_account, revoke_each}
use awesome_go_auth.Service.Accounts.Deletion.{delete_account-revoke_session_by_id}
use awesome_go_auth.SessionStore.{
  MemorySessionStore, new_memory_session_store, create_session, list_sessions_for_user,
  revoke_session_by_id,
}
use awesome_go_auth.SessionStore.Invariant.{IsIndexed, IsIndexed-new, create_session-IsIndexed}
use awesome_go_auth.UserStore.{new_memory_user_store, create_user, delete_user, on_user, owned}

abbrev session : Session
session = record {
  id = "s";
  user_id = "u";
  tenant_id = "t";
  refresh_token_hash = "h";
  created_at = 0;
  expires_at = 9;
  revoked_at = none;
}

abbrev revoked : Session
revoked = record session { revoked_at = some 0 }

abbrev store : MemorySessionStore
store = (create_session session new_memory_session_store).1

store-IsIndexed : IsIndexed store
unfolding create_session new_memory_session_store get empty
store-IsIndexed = create_session-IsIndexed IsIndexed-new session refl refl

abbrev world : World
world = record start { sessions = store }

abbrev emptied : World
emptied = (delete_account toy config "u" "t" world).1

deleted : delete_account toy config "u" "t" world ≡ (ok tt, emptied)
unfolding delete_account on_users publish delete_user on_user owned start create_user
    new_memory_user_store get put empty remove toy
deleted = refl

still_there : get emptied.sessions.by_id "s" ≡ some revoked
unfolding delete_account on_users publish delete_user on_user owned start create_user
    new_memory_user_store get put empty remove toy revoke_each list_sessions_for_user
    revoke_session_by_id create_session new_memory_session_store
still_there = refl

delete_account-revoke_session_by_id_example : is_some revoked.revoked_at ≡ true
delete_account-revoke_session_by_id_example =
    delete_account-revoke_session_by_id toy config "u" "t" world emptied deleted "s" revoked
      store-IsIndexed refl still_there refl refl
