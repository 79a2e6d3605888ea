-- ===== src/Webhooks/Sender/Signature.antt =====
-- The signature of a webhook body and its check.
use Prim.Native.String.{◌++◌ as cat}
use text.Mathlib.TextLemmas.{nil-append, cons-append}
use awesome_go_auth.Base.{String, Option, some, ◌≡◌, ◌↔◌, refl, arith, eq_iff}
use awesome_go_auth.Errors.{ok}
use awesome_go_auth.Platform.{Platform}
use awesome_go_auth.Webhooks.Sender.{after_mark, sign_webhook_body, verify_webhook_signature}

after_mark-append : (s : String) → after_mark (cat "sha256=" s) ≡ some s
unfolding after_mark
after_mark-append s =
    rw
      (
        cons-append "s" "ha256=" s,
        cons-append "h" "a256=" s,
        cons-append "a" "256=" s,
        cons-append "2" "56=" s,
        cons-append "5" "6=" s,
        cons-append "6" "=" s,
        cons-append "=" "" s,
        nil-append,
      )
      refl

module _ (p : Platform) (unhex : String → Option String)
    (hexed : (s : String) → unhex (p.hex s) ≡ some s) where
  -- What signWebhookBody writes for a body is accepted for another body exactly if both have the
  -- same authentication code under the secrets used; in particular for the same body and secret.
  pub verify_webhook_signature-sign_webhook_body :
      (secret body other_secret other : String)
      → (verify_webhook_signature p unhex other_secret other (sign_webhook_body p secret body)
          ≡ ok tt)
        ↔ (p.hmac_sha256 secret body ≡ p.hmac_sha256 other_secret other)
  unfolding verify_webhook_signature sign_webhook_body
  verify_webhook_signature-sign_webhook_body secret body other_secret other =
      let code = p.hmac_sha256 secret body in
      let marked = after_mark-append (p.hex code) in
      let same = eq_iff code (p.hmac_sha256 other_secret other) in
      (λ e. ground (arith, marked, hexed code, same), λ e. ground (arith, marked, hexed code, same))
