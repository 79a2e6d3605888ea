-- ===== src/Examples/Hooks.antt =====
-- Subscriptions to webhooks, deliveries to a receiver that accepts the second attempt, and one-time
-- codes.
use Prim.Native.Nat.{min}
use awesome_go_auth.Base.{
  ℕ, String, ◌≡◌, ◌↔◌, ◌≤◌, refl, true, none, some, Option, In, [], ◌∷◌, arith, ◌+◌, ◌*◌, ◌^◌,
  length, if◌then◌else◌, eqb,
}
use awesome_go_auth.Base.Dict.{get, put, empty}
use awesome_go_auth.Models.{str}
use awesome_go_auth.Errors.{Error, ok, err, external, invalid_credentials}
use awesome_go_auth.Paging.{pos}
use awesome_go_auth.Service.{World}
use awesome_go_auth.Service.SecondFactor.{verify_totp, disable_totp}
use awesome_go_auth.Service.SecondFactor.Enrolment.{verify_totp-disable_totp}
use awesome_go_auth.Totp.{generate_totp_code, validate_totp_code, time_step}
use awesome_go_auth.Totp.Window.{validate_totp_code-generate_totp_code}
use awesome_go_auth.Webhooks.{
  WebhookConfig, zero_config, MemoryWebhookStore, new_memory_webhook_store, insert_webhook,
  find_by_event, matches, retries,
}
use awesome_go_auth.Webhooks.Invariant.{Reachable, start as start_empty, added}
use awesome_go_auth.Webhooks.Subscriptions.{find_by_event_iff}
use awesome_go_auth.Webhooks.Sender.{
  OutgoingWebhookEvent, WebhookAttempt, Outside, Progress, webhook_backoff, send,
}
use awesome_go_auth.Webhooks.Sender.Attempts.{send-accepted}
use awesome_go_auth.Webhooks.Sender.Backoff.{webhook_backoff_lem}
use awesome_go_auth.Examples.Lawful.{toy, copies}
use awesome_go_auth.Examples.Runs.{start, config}

abbrev hook : WebhookConfig
hook = record zero_config {
  id = "h";
  url = "u";
  events = "*" ∷ [];
  max_retries = some (pos 2);
  retry_delay_ms = some (pos 1);
}

abbrev hooks : MemoryWebhookStore
hooks = (insert_webhook "h" hook new_memory_webhook_store).1

hooks-Reachable : Reachable hooks
unfolding new_memory_webhook_store get empty
hooks-Reachable = added "h" hook refl start_empty

find_by_event_iff_example :
    In hook (find_by_event "e" "" hooks)
    ↔ ((id : String) × (get hooks.by_id id ≡ some hook) × (matches hook "e" "" ≡ true))
find_by_event_iff_example = find_by_event_iff hooks "e" "" hook hooks-Reachable

webhook_backoff_lem_example :
    webhook_backoff (pos 1000) 70 ≡ pos (if eqb 70 0 then 1000 else min (1000 * 2 ^ 70) (2 ^ 62))
webhook_backoff_lem_example = webhook_backoff_lem 1000 70 (omega arith) (omega arith)

-- a receiver that accepts the attempt numbered one
abbrev second_time : ℕ → Option Error
second_time n = if eqb n 1 then none else some (external "refused")

abbrev outside : Outside
outside = record {
  marshal = λ e. some "{}";
  deliver = λ (a : WebhookAttempt). second_time a.attempt;
  sleep = λ d. none;
}

abbrev sent_event : OutgoingWebhookEvent
sent_event = record { event = "e"; version = "1"; timestamp = "t"; info = str ""; metadata = empty }

abbrev unsent : Progress
unsent = record { draws = 0; attempts = []; waits = [] }

toy_draws : (n : ℕ) → (b : String) × (toy.rand_read n 16 ≡ some b)
unfolding toy
toy_draws n = (copies n, refl)

accepts_second : (a : WebhookAttempt) → a.attempt ≡ 1 → outside.deliver a ≡ none
accepts_second a e = rw e refl

retries-hook : retries hook ≡ pos 2
unfolding retries
retries-hook = refl

send-accepted_example :
    ((send toy outside hook sent_event unsent).0 ≡ ok tt)
    × (length (send toy outside hook sent_event unsent).1.attempts ≤ 0 + (1 + 1))
send-accepted_example =
    send-accepted toy outside hook sent_event toy_draws (λ d. refl) 1 accepts_second 2 "{}" unsent
      refl retries-hook (omega arith)

abbrev code_now : Option String
code_now = generate_totp_code toy "12345678901234567890" (time_step 60000000000)

abbrev text_or_empty : Option String → String
text_or_empty none = ""
text_or_empty (some s) = s

code_now_lem : code_now ≡ some (text_or_empty code_now)
unfolding generate_totp_code toy
code_now_lem = refl

validate_totp_code-generate_totp_code_example :
    validate_totp_code toy "12345678901234567890" (text_or_empty code_now) 90000000000 ≡ true
validate_totp_code-generate_totp_code_example =
    validate_totp_code-generate_totp_code toy "12345678901234567890" (text_or_empty code_now)
      60000000000 90000000000 (omega arith) (omega arith) (omega arith) code_now_lem

abbrev disabled : World
disabled = (disable_totp config "u" "t" start).1

disabled_lem : disable_totp config "u" "t" start ≡ (ok tt, disabled)
unfolding disable_totp start awesome_go_auth.Service.on_users
    awesome_go_auth.UserStore.update_totp_secret awesome_go_auth.UserStore.on_user
    awesome_go_auth.UserStore.owned get empty put awesome_go_auth.UserStore.store_user
    awesome_go_auth.Service.publish
disabled_lem = refl

verify_totp-disable_totp_example :
    (verify_totp toy config "u" "t" "000000" (record disabled { clock = 5 })).0
    ≡ err invalid_credentials
verify_totp-disable_totp_example =
    verify_totp-disable_totp toy config "u" "t" "000000" 5 start disabled disabled_lem
