-- ===== src/Webhooks/Sender/Backoff.antt =====
-- webhookBackoff against its formula: the base doubled once per failure, up to the ceiling.
use Prim.Native.Nat.{zero, min}
use awesome_go_auth.Base.{
  ℕ, suc, ◌*◌, ◌^◌, ◌<◌, ◌≤◌, ◌≡◌, arith, eqb, ltb, leb, if◌then◌else◌, Bool-cases, inl, inr,
}
use awesome_go_auth.Paging.{pos}
use awesome_go_auth.Webhooks.Sender.{ceiling, doubled, webhook_backoff}

shift : (n d : ℕ) → d * 2 * 2 ^ n ≡ d * 2 ^ suc n
shift n d = grind arith

grows : (n d : ℕ) → d ≤ d * 2 ^ n
grows zero d = omega arith
grows (suc n) d = grind (arith, grows n d, shift n d)

doubled_lem : (n d : ℕ) → d ≤ ceiling → doubled n d ≡ min (d * 2 ^ n) ceiling
unfolding doubled
doubled_lem zero d h = ground arith
doubled_lem (suc n) d h = elim (Bool-cases (ltb (2 ^ 61) d)) [
  | inl large ↦ rw large (ground (arith, grows n (d * 2), shift n d))
  | inr small ↦ rw small (ground (arith, doubled_lem n (d * 2) (ground (arith)), shift n d))
]

-- For a positive delay below 2 to the 63 the wait after attempt n is the delay at n = 0, and from
-- then on the delay times 2 to the n, cut at 2 to the 62 nanoseconds.
pub webhook_backoff_lem :
    (base n : ℕ)
    → 0 < base
    → base < 2 ^ 63
    → webhook_backoff (pos base) n ≡ pos (if eqb n 0 then base else min (base * 2 ^ n) (2 ^ 62))
unfolding webhook_backoff doubled
webhook_backoff_lem base zero h k = ground (arith)
webhook_backoff_lem base (suc n) h k = elim (Bool-cases (leb base ceiling)) [
  | inl within ↦ ground (arith, within, doubled_lem (suc n) base (ground (arith, within)))
  | inr above ↦ ground (arith, above, grows (suc n) base)
]
