-- ===== src/Examples/Accounts.antt =====
-- The theorems on logins, links, passwords and registration, applied at runs on the toy platform.
use awesome_go_auth.Base.{
  String, ◌≡◌, ◌≢◌, ◌⊎◌, refl, true, false, none, some, List, [], ◌∷◌, arith, eq_iff, ◌==◌, ◌≤◌,
  ◌<◌,
}
use awesome_go_auth.Base.Strings.{trim_space, to_lower}
use awesome_go_auth.SessionStore.{create_session}
use awesome_go_auth.Service.Tokens.{
  issue_token, user_claims, base_claims, reserve, build_hs256_jwt, sign,
}
use awesome_go_auth.Base.Dict.{empty, get, put}
use awesome_go_auth.Errors.{Result, ok, err, invalid_token}
use awesome_go_auth.Examples.Lawful.{toy, toy-IsLawful}
use awesome_go_auth.Examples.Runs.{config, ada, start}
use awesome_go_auth.Models.{User, AuthTokens}
use awesome_go_auth.Service.{
  World, hash_password, hash_token, verify_password, email_verification_mode, mode_of, on_users,
  on_sessions, publish, draw, new_id,
}
use awesome_go_auth.Service.Accounts.{
  change_password, RegisterInput, register, reset_password, is_ok, is_spent,
}
use awesome_go_auth.Base.Strings.{byte_len}
use awesome_go_auth.Service.Accounts.Change.{change_password-verify_password}
use awesome_go_auth.Service.Accounts.Passwords.{reset_password-reset_password}
use awesome_go_auth.Service.Accounts.Registration.{address, register-get_user}
use awesome_go_auth.Service.Login.{
  LoginInput, LoginResult, TwoFactorChallenge, zero_tokens, login_with_challenge, login_password,
  requires_two_factor, check_password, complete_local_login,
}
use awesome_go_auth.Service.Login.Gates.{
  Passed, login_password-Passed, login_with_challenge-outcome,
}
use awesome_go_auth.Service.Passwordless.{verify_magic_link}
use awesome_go_auth.Service.Passwordless.Spent.{verify_magic_link-verify_magic_link}
use awesome_go_auth.Service.Sessions.{issue_session, new_session_tokens}
use awesome_go_auth.UserStore.{
  MemoryUserStore, new_memory_user_store, create_user, get_user_by_email, get_user_by_id,
  normalize_email, user_email_key, owned, on_user, resolve, update_password, store_user,
}
use awesome_go_auth.UserStore.Calls.{Call, create, give, run, run_all, run_all-IsIndexed}
use awesome_go_auth.UserStore.Credentials.{
  update_reset_token, get_user_by_reset_token_hash, clear_reset_token, update_magic_link_token,
  get_user_by_magic_link_token_hash,
}
use awesome_go_auth.UserStore.Invariant.{IsIndexed}
use awesome_go_auth.UserStore.OneTime.{reset, magic, issue}

-- a world in which ada has a reset token and a magic link, whose hashes are the tokens themselves
abbrev calls : List Call
calls = create ada ∷ give reset "u" "t" "r" 5 ∷ give magic "u" "t" "m" 5 ∷ []

abbrev store : MemoryUserStore
store = run_all toy.lower calls new_memory_user_store

store-IsIndexed : IsIndexed toy.lower store
store-IsIndexed = run_all-IsIndexed toy.lower calls

abbrev world : World
world = record start { users = store }

abbrev holder : User
holder = record ada {
  reset_token_hash = "r";
  reset_token_expires_at = some 5;
  magic_link_token_hash = "m";
  magic_link_token_expires_at = some 5;
}

apart : (a b : String) → (a == b) ≡ false → a ≢ b
apart a b h = ground (arith, eq_iff a b)

marked_link : hash_token toy "m" ≢ ""
unfolding hash_token toy
marked_link = apart "m" "" refl

link_found : get_user_by_magic_link_token_hash (hash_token toy "m") store ≡ ok holder
unfolding hash_token toy run_all run new_memory_user_store create_user get issue update_reset_token
    update_magic_link_token on_user owned empty put get_user_by_magic_link_token_hash resolve
link_found = refl

in_time : is_spent config world.clock (some 5) ≡ false
unfolding start
in_time = refl

verify_magic_link-verify_magic_link_example :
    (verify_magic_link toy config "m" "" (verify_magic_link toy config "m" "v" world).1).0
    ≡ err invalid_token
verify_magic_link-verify_magic_link_example =
    verify_magic_link-verify_magic_link toy config "m" world holder store-IsIndexed marked_link refl
      link_found in_time "v" ""

marked_reset : hash_token toy "r" ≢ ""
unfolding hash_token toy
marked_reset = apart "r" "" refl

reset_done :
    reset_password toy config "r" "newpass" world
    ≡ (ok tt, (reset_password toy config "r" "newpass" world).1)
unfolding hash_token toy run_all run new_memory_user_store create_user get issue update_reset_token
    update_magic_link_token on_user owned empty put get_user_by_reset_token_hash resolve
    reset_password on_users hash_password update_password store_user clear_reset_token byte_len
    start
reset_done = refl

long : 3 ≤ byte_len "other"
unfolding byte_len
long = omega arith

reset_password-reset_password_example :
    ((reset_password toy config "r" "other" (reset_password toy config "r" "newpass" world).1).0
      ≡ err invalid_token)
    × (user changed : User) × (get_user_by_reset_token_hash (hash_token toy "r") store ≡ ok user)
    × (get_user_by_id user.id user.tenant_id (reset_password toy config "r" "newpass" world).1.users
        ≡ ok changed)
    × (verify_password toy "newpass" changed.password_hash ≡ true)
reset_password-reset_password_example =
    reset_password-reset_password toy config toy-IsLawful "r" "newpass" "other" world
      (reset_password toy config "r" "newpass" world).1 store-IsIndexed marked_reset reset_done long

abbrev entry : LoginInput
entry = record { email = " a@b"; password = "pass"; tenant_id = "t" }

password_right : login_password toy config entry world ≡ (ok (holder, false), world)
unfolding toy get put empty run_all run new_memory_user_store create_user issue update_reset_token
    update_magic_link_token on_user owned start login_password check_password verify_password
    get_user_by_email resolve normalize_email user_email_key trim_space to_lower requires_two_factor
    email_verification_mode mode_of
password_right = refl

login_password-Passed_example :
    Passed toy config entry world holder
    × (false ≡ requires_two_factor config holder)
    × (world.sessions ≡ world.sessions)
login_password-Passed_example =
    login_password-Passed toy config entry world world holder false password_right

-- the outcome of a full login
abbrev logged_in : Result LoginResult × World
logged_in = login_with_challenge toy config entry world

abbrev result_of : Result LoginResult → LoginResult
result_of (ok r) = r
result_of (err e) = record { user = ada; tokens = zero_tokens; challenge = none }

login_done : logged_in ≡ (ok (result_of logged_in.0), logged_in.1)
unfolding toy new_id draw issue_token user_claims base_claims reserve build_hs256_jwt sign
    on_sessions on_users hash_token get put empty run_all run new_memory_user_store create_user
    issue update_reset_token update_magic_link_token on_user owned start login_password
    check_password verify_password get_user_by_email resolve normalize_email user_email_key
    trim_space to_lower requires_two_factor email_verification_mode mode_of login_with_challenge
    complete_local_login issue_session create_session publish
login_done = refl

login_with_challenge-outcome_example :
    Passed toy config entry world (result_of logged_in.0).user
    × (((requires_two_factor config (result_of logged_in.0).user ≡ true)
          × ((result_of logged_in.0).tokens ≡ zero_tokens)
          × (logged_in.1.sessions ≡ world.sessions)
          × (challenge : TwoFactorChallenge) × ((result_of logged_in.0).challenge ≡ some challenge))
        ⊎ ((requires_two_factor config (result_of logged_in.0).user ≡ false)
            × ((result_of logged_in.0).challenge ≡ none)
            × (w1 w2 : World) × (session_id : String) × (issue_session toy config
                  (result_of logged_in.0).user
                  w1
                ≡ (ok ((result_of logged_in.0).tokens, session_id), w2))
            × (logged_in.1.sessions ≡ w2.sessions)))
login_with_challenge-outcome_example =
    login_with_challenge-outcome toy config entry world logged_in.1 (result_of logged_in.0)
      login_done

abbrev form : RegisterInput
form = record { email = "New@b"; password = "secret"; tenant_id = "t" }

abbrev registration : Result (User × AuthTokens) × World
registration = register toy config form world

abbrev registered_or_ada : Result (User × AuthTokens) → User × AuthTokens
registered_or_ada (ok r) = r
registered_or_ada (err e) = (ada, zero_tokens)

registration_done : registration ≡ (
  ok ((registered_or_ada registration.0).0, (registered_or_ada registration.0).1),
  registration.1,
)
unfolding toy new_id draw issue_token user_claims base_claims reserve build_hs256_jwt sign
    on_sessions on_users hash_token get put empty run_all run new_memory_user_store create_user
    issue update_reset_token update_magic_link_token on_user owned start register byte_len
    hash_password get_user_by_email resolve normalize_email user_email_key trim_space to_lower
    email_verification_mode mode_of new_session_tokens issue_session create_session publish
registration_done = refl

register-get_user_example :
    (address toy config form world ≢ "")
    × (3 ≤ byte_len "secret")
    × (is_ok (get_user_by_email toy.lower (address toy config form world) "t" store) ≡ false)
    × ((registered_or_ada registration.0).0.email ≡ address toy config form world)
    × ((registered_or_ada registration.0).0.tenant_id ≡ "t")
    × ((registered_or_ada registration.0).0.is_email_verified
        ≡ (email_verification_mode toy config == "none"))
    × (verify_password toy "secret" (registered_or_ada registration.0).0.password_hash ≡ true)
    × (get_user_by_email toy.lower
          (registered_or_ada registration.0).0.email
          "t"
          registration.1.users
        ≡ ok (registered_or_ada registration.0).0)
    × (get_user_by_id (registered_or_ada registration.0).0.id "t" registration.1.users
        ≡ ok (registered_or_ada registration.0).0)
register-get_user_example =
    register-get_user toy config form world toy-IsLawful (registered_or_ada registration.0).0
      (registered_or_ada registration.0).1 registration.1 registration_done

abbrev weak_form : RegisterInput
weak_form = record { email = "c@d"; password = "x"; tenant_id = "t" }

has_address : address toy config weak_form world ≢ ""
unfolding normalize_email trim_space to_lower toy
has_address = apart "c@d" "" refl

too_short : byte_len "x" < 3
unfolding byte_len
too_short = omega arith

store_keyed : (k : String) (u : User) → get store.by_id k ≡ some u → u.id ≡ k
store_keyed = store-IsIndexed.id_key

change_done :
    change_password toy config "u" "t" "pass" "newpass" world
    ≡ (ok tt, (change_password toy config "u" "t" "pass" "newpass" world).1)
unfolding toy run_all run new_memory_user_store create_user get issue update_reset_token
    update_magic_link_token on_user owned empty put change_password get_user_by_id verify_password
    publish on_users hash_password update_password store_user byte_len start
change_done = refl

change_password-verify_password_example :
    (3 ≤ byte_len "newpass")
    × (user : User) × (get_user_by_id "u" "t" store ≡ ok user)
    × (verify_password toy "pass" user.password_hash ≡ true)
    × (hash : String) × (verify_password toy "newpass" hash ≡ true)
    × ((change_password toy config "u" "t" "pass" "newpass" world).1.users
        ≡ record store { by_id = put store.by_id "u" (record user { password_hash = hash }) })
change_password-verify_password_example =
    change_password-verify_password toy toy-IsLawful config "u" "t" "pass" "newpass" world
      (change_password toy config "u" "t" "pass" "newpass" world).1 store_keyed change_done
