-- ===== src/Events/Telemetry.antt =====
-- telemetry.go: a query against its description by filter, offset and limit.
use awesome_go_auth.Base.{
  ℕ, zero, suc, ◌+◌, ◌-◌, ◌<◌, ◌≡◌, ◌⊎◌, refl, ap, List, [], ◌∷◌, ltb, leb, take, drop, keep_if,
  arith, if◌then◌else◌, Bool-cases, inl, inr, eqb,
}
use awesome_go_auth.Paging.{ℤ, nat_or_zero, is_positive}
use awesome_go_auth.Events.{TelemetryEvent, TelemetryFilter, selected, query_loop, query}

-- the events of a page: no limit is a limit of zero or less
unfoldable pub page : ℤ → ℕ → List TelemetryEvent → List TelemetryEvent
page limit taken events =
    if is_positive limit then take (nat_or_zero limit - taken) events else events

drop_nil : (n : ℕ) → drop {A = TelemetryEvent} n [] ≡ []
drop_nil zero = refl
drop_nil (suc n) = refl

take_nil : (n : ℕ) → take {A = TelemetryEvent} n [] ≡ []
take_nil zero = refl
take_nil (suc n) = refl

drop_one :
    (n m : ℕ) (e : TelemetryEvent) (es : List TelemetryEvent)
    → n ≡ suc m
    → drop n (e ∷ es) ≡ drop m es
drop_one n m e es h = ap (λ k. drop k (e ∷ es)) h

take_one :
    (n m : ℕ) (e : TelemetryEvent) (es : List TelemetryEvent)
    → n ≡ suc m
    → take n (e ∷ es) ≡ e ∷ take m es
take_one n m e es h = ap (λ k. take k (e ∷ es)) h

drop_zero : (n : ℕ) (es : List TelemetryEvent) → n ≡ 0 → drop n es ≡ es
drop_zero n es h = ap (λ k. drop k es) h

query_loop_lem :
    (f : TelemetryFilter) (skipped taken : ℕ) (es : List TelemetryEvent)
    → (taken < nat_or_zero f.limit) ⊎ (nat_or_zero f.limit ≡ 0)
    → query_loop f skipped taken es
      ≡ page f.limit taken (drop (nat_or_zero f.offset - skipped) (keep_if (selected f) es))
unfolding query_loop page
query_loop_lem f skipped taken [] room =
    ground
      (arith, drop_nil (nat_or_zero f.offset - skipped), take_nil (nat_or_zero f.limit - taken))
query_loop_lem f skipped taken (e ∷ es) room =
    let rest = keep_if (selected f) es in
    elim (Bool-cases (selected f e)) [
      | inr passed ↦ ground (arith, passed, query_loop_lem f skipped taken es room)
      | inl wanted ↦ elim (Bool-cases (ltb skipped (nat_or_zero f.offset))) [
        | inl skips ↦
            let o = nat_or_zero f.offset in
            ground (
              arith,
              wanted,
              skips,
              query_loop_lem f (skipped + 1) taken es room,
              drop_one (o - skipped) (o - (skipped + 1)) e rest (ground (arith, skips)),
            )
        | inr takes ↦
            let l = nat_or_zero f.limit in
            let here =
              drop_zero (nat_or_zero f.offset - skipped) (e ∷ rest) (ground (arith, takes)) in
            elim (Bool-cases (eqb l 0)) [
              | inl endless ↦
                  let later =
                    query_loop_lem f skipped (taken + 1) es (inr (ground (arith, endless))) in
                  let here_after =
                    drop_zero (nat_or_zero f.offset - skipped) rest (ground (arith, takes)) in
                  ground (arith, wanted, takes, endless, here, here_after, later)
              | inr limited ↦ elim (Bool-cases (leb l (taken + 1))) [
                | inl full ↦
                    let last = take_one (l - taken) 0 e rest (ground (arith, limited, full)) in
                    ground (arith, wanted, takes, limited, full, here, last)
                | inr more ↦
                    let later =
                      query_loop_lem f skipped (taken + 1) es (inl (ground (arith, more))) in
                    let here_after =
                      drop_zero (nat_or_zero f.offset - skipped) rest (ground (arith, takes)) in
                    let next =
                      take_one (l - taken) (l - (taken + 1)) e rest (ground (arith, more)) in
                    ground (arith, wanted, takes, limited, more, here, here_after, next, later)
              ]
            ]
      ]
    ]

-- A query returns the events that the filter selects, in the order in which they were recorded, less
-- as many as the offset says, and cut at the limit if that is positive.
pub query_lem :
    (f : TelemetryFilter) (events : List TelemetryEvent)
    → query f events ≡ (
        let rest = drop (nat_or_zero f.offset) (keep_if (selected f) events) in
        if is_positive f.limit then take (nat_or_zero f.limit) rest else rest)
unfolding query page
query_lem f events =
    let whole : (n : ℕ) → n - 0 ≡ n = λ n. omega arith in
    let full : query_loop f 0 0 events
        ≡ page f.limit 0 (drop (nat_or_zero f.offset - 0) (keep_if (selected f) events)) =
      elim (Bool-cases (ltb 0 (nat_or_zero f.limit))) [
        | inl limited ↦ query_loop_lem f 0 0 events (inl (ground (arith, limited)))
        | inr endless ↦ query_loop_lem f 0 0 events (inr (ground (arith, endless)))
      ] in
    rw (← whole (nat_or_zero f.offset), ← whole (nat_or_zero f.limit)) full
