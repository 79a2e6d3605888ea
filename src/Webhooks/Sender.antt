-- ===== src/Webhooks/Sender.antt =====
-- webhook_sender.go: WebhookSender.Send with its attempts and waits, and the signature of a body. The
-- deliverer, the wait and the JSON encoder are outside.
pub mod Backoff
pub mod Attempts
pub mod Signature
use Prim.Native.Nat.{zero}
use Prim.Native.Char.{Char, code}
use Prim.Native.String.{◌++◌ as cat, ◌∷◌ as char_cons, [] as no_chars}
use awesome_go_auth.Base.{
  ℕ, suc, ◌+◌, ◌-◌, ◌*◌, ◌/◌, ◌%◌, ◌^◌, String, Bool, true, false, not, ◌||◌, Option, none, some,
  List, [], ◌∷◌, ◌++◌, ◌==◌, ltb, leb, if◌then◌else◌, take, drop,
}
use awesome_go_auth.Base.Dict.{Dict}
use awesome_go_auth.Errors.{
  Error, Result, ok, err, M, ◌>>=◌, ◌>>◌, return, fail, then_run, external, wrapped, rewrap,
}
use awesome_go_auth.Models.{Any}
use awesome_go_auth.Paging.{ℤ, pos, negsuc}
use awesome_go_auth.Platform.{Platform}
use awesome_go_auth.Webhooks.{WebhookConfig, retries, retry_delay}

-- webhook_store.go
pub record OutgoingWebhookEvent : Type 0 where
  pub event : String
  pub version : String
  pub timestamp : String
  pub info : Any
  pub metadata : Dict Any

pub record WebhookAttempt : Type 0 where
  pub config_id : String
  pub url : String
  pub event : String
  pub delivery_id : String
  pub attempt : ℕ
  pub remaining : ℕ
  pub headers : List (String × String)
  pub body : String

-- json.Marshal of an event, WebhookDeliverer.DeliverWebhook and the sender's sleep; `none` is the error
-- of the first, and success of the others.
pub record Outside : Type 0 where
  pub marshal : OutgoingWebhookEvent → Option String
  pub deliver : WebhookAttempt → Option Error
  pub sleep : ℤ → Option Error

-- What a run of the sender has done: its reads of the random source, its attempts and its waits.
pub record Progress : Type 0 where
  pub draws : ℕ
  pub attempts : List WebhookAttempt
  pub waits : List ℤ

-- time.Duration(1) << 62
abbrev pub ceiling : ℕ
ceiling = 2 ^ 62

-- for i := 0; i < attempt; i++ { if d > ceiling/2 { return ceiling }; d *= 2 }
unfoldable pub doubled : ℕ → ℕ → ℕ
doubled zero d = d
doubled (suc i) d = let rest = doubled i (d * 2) in if ltb (ceiling / 2) d then ceiling else rest

-- base <= 0 has no wait
unfoldable pub webhook_backoff : ℤ → ℕ → ℤ
webhook_backoff (negsuc base) attempt = pos 0
webhook_backoff (pos base) attempt = if leb base 0 then pos 0 else pos (doubled attempt base)

-- the bytes of a text of bytes
unfoldable pub bytes_of : String → List ℕ
bytes_of no_chars = []
bytes_of (char_cons c s) = code c ∷ bytes_of s

-- %x of one half of a byte
unfoldable pub hex_digit : ℕ → String
hex_digit n = elim (drop n hex_digits) [ [] ↦ "" | d ∷ _ ↦ d ]
  where
    hex_digits : List String
    hex_digits =
        "0" ∷ "1" ∷ "2" ∷ "3" ∷ "4" ∷ "5" ∷ "6" ∷ "7" ∷ "8" ∷ "9" ∷ "a" ∷ "b" ∷ "c" ∷ "d" ∷ "e"
        ∷ "f" ∷ []

-- %x
unfoldable pub hex_bytes : List ℕ → String
hex_bytes [] = ""
hex_bytes (b ∷ bs) = cat (cat (hex_digit (b / 16)) (hex_digit (b % 16))) (hex_bytes bs)

unfoldable pub set_at : ℕ → (ℕ → ℕ) → List ℕ → List ℕ
set_at n f [] = []
set_at zero f (b ∷ bs) = f b ∷ bs
set_at (suc n) f (b ∷ bs) = b ∷ set_at n f bs

-- newUUIDv4, from sixteen random bytes
unfoldable pub uuid_of : List ℕ → String
uuid_of random =
    let b = set_at 8 (λ x. x % 64 + 128) (set_at 6 (λ x. x % 16 + 64) random) in
    let part : ℕ → ℕ → String = λ from len. hex_bytes (take len (drop from b)) in
    cat (part 0 4) (
      cat "-" (
        cat (part 4 2) (cat "-" (cat (part 6 2) (cat "-" (cat (part 8 2) (cat "-" (part 10 6))))))))

module _ (p : Platform) where
  unfoldable pub new_uuid_v4 : M Progress String
  new_uuid_v4 s = elim (p.rand_read s.draws 16) [
    | none ↦ (err (wrapped "auth: random uuid" (external "rand")), record s { draws = s.draws + 1 })
    | some b ↦ (ok (uuid_of (bytes_of b)), record s { draws = s.draws + 1 })
  ]

  unfoldable pub sign_webhook_body : String → String → String
  sign_webhook_body secret body = cat "sha256=" (p.hex (p.hmac_sha256 secret body))

  -- the five headers of one attempt
  unfoldable pub headers_of :
      WebhookConfig → OutgoingWebhookEvent → String → String → List (String × String)
  headers_of config event delivery_id body =
      ("Content-Type", "application/json")
      ∷ ("X-Webhook-Event", event.event)
      ∷ ("X-Webhook-Delivery", delivery_id)
      ∷ ("X-Webhook-Timestamp", event.timestamp)
      ∷ (if config.secret == ""
          then []
          else ("X-Webhook-Signature", sign_webhook_body config.secret body) ∷ [])

  unfoldable pub attempt_of :
      WebhookConfig → OutgoingWebhookEvent → ℕ → ℕ → String → String → WebhookAttempt
  attempt_of config event retry_count attempt delivery_id body = record {
    config_id = config.id;
    url = config.url;
    event = event.event;
    delivery_id = delivery_id;
    attempt = attempt;
    remaining = retry_count - attempt;
    headers = headers_of config event delivery_id body;
    body = body;
  }

  module _ (o : Outside) (config : WebhookConfig) (event : OutgoingWebhookEvent) where
    -- where := event.Event, and config.ID
    unfoldable pub where_to : String
    where_to =
        cat "auth: webhook "
          (if config.id == "" then event.event else cat event.event (cat " to " config.id))

    -- deliverer.DeliverWebhook, which is handed the attempt
    unfoldable pub hand_over : WebhookAttempt → M Progress (Option Error)
    hand_over a s = (ok (o.deliver a), record s { attempts = s.attempts ++ a ∷ [] })

    unfoldable pub wait : ℤ → M Progress (Unit {0})
    wait d s =
        let t = record s { waits = s.waits ++ d ∷ [] } in
        elim (o.sleep d) [ none ↦ (ok tt, t) | some e ↦ (err (wrapped where_to e), t) ]

    -- one attempt: the identifier of the delivery, and what the deliverer answers
    unfoldable pub try_once : ℕ → ℕ → String → M Progress (Option Error)
    try_once retry_count attempt body = do
      delivery_id ← rewrap (wrapped where_to) new_uuid_v4
      hand_over (attempt_of config event retry_count attempt delivery_id body)

    -- for attempt := …; attempt <= retries; attempt++ { … }, on the rounds that are left
    unfoldable pub attempt_loop : ℕ → ℕ → ℕ → String → M Progress (Unit {0})
    attempt_loop zero retry_count attempt body = return tt
    attempt_loop (suc rounds) retry_count attempt body = do
      answer ← try_once retry_count attempt body
      elim answer [
        | none ↦ return tt
        | some e ↦
            if leb retry_count attempt then fail (wrapped (cat where_to ": gave up") e) else (do
              wait (webhook_backoff (retry_delay config) attempt)
              attempt_loop rounds retry_count (suc attempt) body)
      ]

    -- Send. A negative number of retries enters no round.
    unfoldable pub send : M Progress (Unit {0})
    send s = elim (o.marshal event) [
      | none ↦ (err (wrapped where_to (external "encode")), s)
      | some body ↦ elim (retries config) [
        | negsuc _ ↦ (ok tt, s)
        | pos n ↦ attempt_loop (suc n) n 0 body s
      ]
    ]

-- sigHeader[:7] != "sha256="
unfoldable pub after_mark : String → Option String
after_mark
      (char_cons a
        (char_cons b (char_cons c (char_cons d (char_cons e (char_cons f (char_cons g rest))))))) =
    if (char_cons a
        (char_cons b (char_cons c (char_cons d (char_cons e (char_cons f (char_cons g no_chars))))))
      == "sha256=")
    then some rest
    else none
after_mark _ = none

module _ (p : Platform) where
  -- `unhex` is hex.DecodeString; hmac.Equal is equality
  unfoldable pub verify_webhook_signature :
      (String → Option String) → String → String → String → Result (Unit {0})
  verify_webhook_signature unhex secret body sig_header = elim (after_mark sig_header) [
    | none ↦ err (external "auth: invalid signature header format")
    | some digits ↦ elim (unhex digits) [
      | none ↦ err (wrapped "auth: invalid signature hex" (external "hex"))
      | some got ↦
          if got == p.hmac_sha256 secret body
          then ok tt
          else err (external "auth: signature mismatch")
    ]
  ]
