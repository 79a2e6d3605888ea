-- ===== src/Webhooks/Sender/Attempts.antt =====
-- How often WebhookSender.Send tries, and when it succeeds.
use Prim.Native.Nat.{zero}
use Prim.Native.String.{◌++◌ as cat}
use awesome_go_auth.Base.{
  ℕ, suc, ◌+◌, ◌-◌, ◌<◌, ◌≤◌, String, ◌≡◌, refl, List, [], ◌∷◌, ◌++◌, some, none, leb, length,
  arith, Option-cases, inl, inr, Bool-cases,
}
use awesome_go_auth.Errors.{Error, ok, err, wrapped, run-cases}
use awesome_go_auth.Paging.{ℤ, pos}
use awesome_go_auth.Platform.{Platform}
use awesome_go_auth.Webhooks.{WebhookConfig, retries, retry_delay}
use awesome_go_auth.Webhooks.Sender.{
  OutgoingWebhookEvent, WebhookAttempt, Outside, Progress, webhook_backoff, new_uuid_v4, uuid_of,
  bytes_of, attempt_of, hand_over, wait, try_once, attempt_loop, send, where_to,
}

length-append : {A : Type 0} (xs : List A) (x : A) → length (xs ++ x ∷ []) ≡ length xs + 1
length-append [] x = refl
length-append (y ∷ ys) x = omega (arith, length-append ys x)

module _ (p : Platform) (o : Outside) (config : WebhookConfig) (event : OutgoingWebhookEvent) where
  -- one attempt at most is made in a round
  try_once-attempts :
      (n k : ℕ) (body : String) (s : Progress)
      → length (try_once p o config event n k body s).1.attempts ≤ length s.attempts + 1
  unfolding try_once new_uuid_v4 hand_over
  try_once-attempts n k body s = elim (Option-cases (p.rand_read s.draws 16)) [
    | inl failed ↦ ground (arith, failed)
    | inr (b, drawn) ↦
        let a = attempt_of p config event n k (uuid_of (bytes_of b)) body in
        ground (arith, drawn, length-append s.attempts a)
  ]

  wait-attempts : (d : ℤ) (s : Progress) → (wait p o config event d s).1.attempts ≡ s.attempts
  unfolding wait
  wait-attempts d s = elim (Option-cases (o.sleep d)) [
    | inl slept ↦ ground (arith, slept)
    | inr (e, woken) ↦ ground (arith, woken)
  ]

  attempt_loop-attempts :
      (rounds n k : ℕ) (body : String) (s : Progress)
      → length (attempt_loop p o config event rounds n k body s).1.attempts
        ≤ length s.attempts + rounds
  unfolding attempt_loop
  attempt_loop-attempts zero n k body s = ground (arith)
  attempt_loop-attempts (suc rounds) n k body s =
      let once = try_once-attempts n k body s in
      elim (run-cases (try_once p o config event n k body s)) [
        | inl (e, s1, failed) ↦ ground (arith, failed, once)
        | inr (none, s1, tried) ↦ ground (arith, tried, once)
        | inr (some e, s1, tried) ↦ elim (Bool-cases (leb n k)) [
          | inl last ↦ ground (arith, tried, once, last)
          | inr more ↦
              let d = webhook_backoff (retry_delay config) k in
              let still = wait-attempts d s1 in
              elim (run-cases (wait p o config event d s1)) [
                | inl (e', s2, woken) ↦ ground (arith, tried, once, more, woken, still)
                | inr (_, s2, slept) ↦ ground (
                  arith,
                  tried,
                  once,
                  more,
                  slept,
                  still,
                  attempt_loop-attempts rounds n (suc k) body s2,
                )
              ]
        ]
      ]

  -- A run makes at most one attempt more than the retries of the subscription.
  pub send-attempts :
      (n : ℕ) (s : Progress)
      → retries config ≡ pos n
      → length (send p o config event s).1.attempts ≤ length s.attempts + (n + 1)
  unfolding send
  send-attempts n s count = elim (Option-cases (o.marshal event)) [
    | inl bad ↦ ground (arith, bad)
    | inr (body, encoded) ↦ ground (arith, encoded, count, attempt_loop-attempts (suc n) n 0 body s)
  ]

  -- The random source and the waits never fail.
  module _ (drawn : (n : ℕ) → (b : String) × (p.rand_read n 16 ≡ some b))
      (slept : (d : ℤ) → o.sleep d ≡ none) where
    -- the attempt that a round makes
    try_once-made :
        (n k : ℕ) (body : String) (s : Progress)
        → (a : WebhookAttempt) × (a.attempt ≡ k)
          × (try_once p o config event n k body s ≡ (
            ok (o.deliver a),
            record { draws = s.draws + 1; attempts = s.attempts ++ a ∷ []; waits = s.waits },
          ))
    unfolding try_once new_uuid_v4 hand_over attempt_of
    try_once-made n k body s =
        let (b, e) = drawn s.draws in
        let a = attempt_of p config event n k (uuid_of (bytes_of b)) body in
        (a, refl, ground (arith, e))

    wait-over :
        (d : ℤ) (s : Progress)
        → wait p o config event d s ≡ (ok tt, record s { waits = s.waits ++ d ∷ [] })
    unfolding wait
    wait-over d s = ground (arith, slept d)

    module _ (lucky : ℕ)
        (accepts : (a : WebhookAttempt) → a.attempt ≡ lucky → o.deliver a ≡ none) where
      attempt_loop-accepted :
          (rounds n k : ℕ) (body : String) (s : Progress)
          → k ≤ lucky
          → lucky ≤ n
          → rounds ≡ n + 1 - k
          → ((attempt_loop p o config event rounds n k body s).0 ≡ ok tt)
            × (length (attempt_loop p o config event rounds n k body s).1.attempts
                ≤ length s.attempts + (lucky + 1 - k))
      unfolding attempt_loop
      attempt_loop-accepted zero n k body s before within full = absurd (omega arith)
      attempt_loop-accepted (suc rounds) n k body s before within full =
          let (a, numbered, made) = try_once-made n k body s in
          let longer = length-append s.attempts a in
          elim (Option-cases (o.deliver a)) [
            | inl taken ↦ (ground (arith, made, taken), ground (arith, made, taken, longer))
            | inr (e, refused) ↦
                let later : k < lucky = ground (arith, accepts a, numbered, refused) in
                let d = webhook_backoff (retry_delay config) k in
                let s1 : Progress = record {
                  draws = s.draws + 1;
                  attempts = s.attempts ++ a ∷ [];
                  waits = s.waits;
                } in
                let over = wait-over d s1 in
                let s2 : Progress = record s1 { waits = s1.waits ++ d ∷ [] } in
                let (done, few) =
                  attempt_loop-accepted rounds n (suc k) body s2 (omega arith) within
                    (omega arith) in
                (
                  ground (arith, made, refused, later, over, done),
                  ground (arith, made, refused, later, over, few, longer),
                )
          ]

      -- Where an id can be drawn, no wait is broken off, the event is encoded and the receiver
      -- accepts the attempt of a number within the retries, a delivery succeeds, after at most that
      -- many attempts and one more.
      pub send-accepted :
          (n : ℕ) (body : String) (s : Progress)
          → o.marshal event ≡ some body
          → retries config ≡ pos n
          → lucky ≤ n
          → ((send p o config event s).0 ≡ ok tt)
            × (length (send p o config event s).1.attempts ≤ length s.attempts + (lucky + 1))
      unfolding send
      send-accepted n body s encoded count within =
          let (done, few) =
            attempt_loop-accepted (suc n) n 0 body s (omega arith) within (omega arith) in
          (ground (arith, encoded, count, done), ground (arith, encoded, count, few))

    module _ (refuses : (a : WebhookAttempt) → (e : Error) × (o.deliver a ≡ some e)) where
      attempt_loop-refused :
          (rounds n k : ℕ) (body : String) (s : Progress)
          → k ≤ n
          → rounds ≡ n + 1 - k
          → ((e : Error) × ((attempt_loop p o config event rounds n k body s).0 ≡ err e))
            × (length (attempt_loop p o config event rounds n k body s).1.attempts
                ≡ length s.attempts + rounds)
      unfolding attempt_loop
      attempt_loop-refused zero n k body s within full = absurd (omega arith)
      attempt_loop-refused (suc rounds) n k body s within full =
          let (a, numbered, made) = try_once-made n k body s in
          let longer = length-append s.attempts a in
          let (e, refused) = refuses a in
          elim (Bool-cases (leb n k)) [
            | inl last ↦ (
              (
                wrapped (cat (where_to p o config event) ": gave up") e,
                ground (arith, made, refused, last),
              ),
              ground (arith, made, refused, last, longer),
            )
            | inr more ↦
                let d = webhook_backoff (retry_delay config) k in
                let s1 : Progress = record {
                  draws = s.draws + 1;
                  attempts = s.attempts ++ a ∷ [];
                  waits = s.waits;
                } in
                let over = wait-over d s1 in
                let s2 : Progress = record s1 { waits = s1.waits ++ d ∷ [] } in
                let ((e', failed), all) =
                  attempt_loop-refused rounds n (suc k) body s2 (ground (arith, more))
                    (omega arith) in
                (
                  (e', ground (arith, made, refused, more, over, failed)),
                  ground (arith, made, refused, more, over, all, longer),
                )
          ]

      -- With a random source and waits that do not fail, a run whose every attempt is refused fails
      -- after exactly one attempt more than its retries.
      pub send-refused :
          (n : ℕ) (body : String) (s : Progress)
          → o.marshal event ≡ some body
          → retries config ≡ pos n
          → ((e : Error) × ((send p o config event s).0 ≡ err e))
            × (length (send p o config event s).1.attempts ≡ length s.attempts + (n + 1))
      unfolding send
      send-refused n body s encoded count =
          let ((e, failed), all) =
            attempt_loop-refused (suc n) n 0 body s (omega arith) (omega arith) in
          ((e, ground (arith, encoded, count, failed)), ground (arith, encoded, count, all))
