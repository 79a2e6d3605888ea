-- ===== src/Webhooks/Subscriptions.antt =====
-- webhook_store.go: what a dispatch finds, what a listing returns, and the minting of a new
-- subscription.
use Prim.Native.Nat.{zero, suc}
use awesome_go_auth.Base.{
  ℕ, ◌+◌, ◌^◌, ◌<◌, ◌≤◌, String, ◌&&◌, ◌≡◌, ◌↔◌, refl, sym, ◌∙◌, subst, ap, Option, some, none,
  List, [], ◌∷◌, In, arith, Bool-cases, inl, inr, true, leb, ltb, length, take, drop, if◌then◌else◌,
}
use awesome_go_auth.Base.Dict.{Dict, get}
use awesome_go_auth.Errors.{M, ◌>>=◌}
use awesome_go_auth.Paging.{ℤ, pos, negsuc, nat_or_zero, slice_to, add_int64}
use awesome_go_auth.Paging.Laws.{InInt64, slice_to_lem, drop_all, take_all, nat_or_zero_bound}
use awesome_go_auth.Platform.{Platform}
use awesome_go_auth.Service.{Action, new_id}
use awesome_go_auth.Webhooks.{
  WebhookConfig, MemoryWebhookStore, insert_webhook, matches, matching, find_by_event, config_at,
  configs_of, list_webhooks,
}
use awesome_go_auth.Webhooks.Invariant.{Reachable, Reachable-IsOrdered}

unfoldable pub on_webhooks : {A : Type 0} → M MemoryWebhookStore A → Action A
on_webhooks m w = let (r, s) = m w.webhooks in (r, record w { webhooks = s })

-- AddWebhook
unfoldable pub add_webhook : Platform → WebhookConfig → Action WebhookConfig
add_webhook p config = do id ← new_id p "whk"; on_webhooks (insert_webhook id config)

module _ (by_id : Dict WebhookConfig) where
  config_at_lem : (id : String) (x : WebhookConfig) → get by_id id ≡ some x → config_at by_id id ≡ x
  unfolding config_at
  config_at_lem id x e = ground (arith, e)

  In-matching :
      (event tenant_id : String) (x : WebhookConfig) (ids : List String)
      → In x (matching event tenant_id by_id ids) ↔ (
          (id : String) × In id ids × (x ≡ config_at by_id id) × (matches x event tenant_id ≡ true))
  unfolding matching
  In-matching event tenant_id x [] = (λ i. elim i [ ], λ (id, i, _, _). elim i [ ])
  In-matching event tenant_id x (id ∷ ids) =
      let ih = In-matching event tenant_id x ids in
      let here = config_at by_id id in
      elim (Bool-cases (matches here event tenant_id)) [
        | inl fits ↦
            rw (fits, matching)
              (
                λ i. elim i [
                  | inl e ↦
                      (id, inl refl, e, subst (λ c. matches c event tenant_id ≡ true) (sym e) fits)
                  | inr later ↦ let (j, inside, e, m) = ih.0 later in (j, inr inside, e, m)
                ],
                λ (j, i, e, m). elim i [
                  | inl same ↦ inl (subst (λ k. x ≡ config_at by_id k) same e)
                  | inr later ↦ inr (ih.1 (j, later, e, m))
                ],
              )
        | inr fails ↦
            rw (fails, matching)
              (
                λ i. let (j, inside, e, m) = ih.0 i in (j, inr inside, e, m),
                λ (j, i, e, m). elim i [
                  | inl same ↦ ground (arith, fails, m, e, same)
                  | inr later ↦ ih.1 (j, later, e, m)
                ],
              )
      ]

-- In a subscription store that additions, updates and removals made, the subscriptions found for an
-- event and a tenant are exactly those in the table that match them.
pub find_by_event_iff :
    (s : MemoryWebhookStore) (event tenant_id : String) (x : WebhookConfig)
    → Reachable s
    → In x (find_by_event event tenant_id s)
      ↔ ((id : String) × (get s.by_id id ≡ some x) × (matches x event tenant_id ≡ true))
unfolding find_by_event
find_by_event_iff s event tenant_id x r =
    let h = Reachable-IsOrdered r in
    (
      λ i.
          let (id, inside, e, m) = (In-matching s.by_id event tenant_id x s.order).0 i in
          let (y, has) = h.kept id inside in
          let same = config_at_lem s.by_id id y has in (id, ground (arith, has, same, e), m),
      λ (id, has, m).
          (In-matching s.by_id event tenant_id x s.order).1
            (id, h.listed id x has, sym (config_at_lem s.by_id id x has), m),
    )

configs_of-take :
    (by_id : Dict WebhookConfig) (n : ℕ) (ids : List String)
    → configs_of by_id (take n ids) ≡ take n (configs_of by_id ids)
unfolding configs_of
configs_of-take by_id zero ids = refl
configs_of-take by_id (suc n) [] = refl
configs_of-take by_id (suc n) (id ∷ ids) =
    ap (λ cs. config_at by_id id ∷ cs) (configs_of-take by_id n ids)

configs_of-drop :
    (by_id : Dict WebhookConfig) (n : ℕ) (ids : List String)
    → configs_of by_id (drop n ids) ≡ drop n (configs_of by_id ids)
unfolding configs_of
configs_of-drop by_id zero ids = refl
configs_of-drop by_id (suc n) [] = refl
configs_of-drop by_id (suc n) (id ∷ ids) = configs_of-drop by_id n ids

configs_of-page :
    (by_id : Dict WebhookConfig) (n o : ℕ) (ids : List String)
    → configs_of by_id (take n (drop o ids)) ≡ take n (drop o (configs_of by_id ids))
configs_of-page by_id n o ids =
    configs_of-take by_id n (drop o ids) ∙ ap (take n) (configs_of-drop by_id o ids)

page_of_configs : MemoryWebhookStore → ℕ → ℕ → Option (List WebhookConfig)
page_of_configs s l o = elim (slice_to s.order o (add_int64 (pos o) (pos l))) [
  | none ↦ none
  | some page ↦ some (configs_of s.by_id page)
]

page_inside :
    (s : MemoryWebhookStore) (l o : ℕ)
    → o < length s.order
    → length s.order < 2 ^ 63
    → l < 2 ^ 63
    → page_of_configs s l o
      ≡ (if leb (2 ^ 63) (o + l) then none else some (take l (drop o (configs_of s.by_id s.order))))
unfolding page_of_configs
page_inside s l o inside n h =
    ground (arith, slice_to_lem s.order o l inside n h, configs_of-page s.by_id l o s.order)

page_past :
    (s : MemoryWebhookStore) (l o : ℕ)
    → length s.order ≤ o
    → take l (drop o (configs_of s.by_id s.order)) ≡ []
unfolding configs_of
page_past s l o past =
    let nothing : List String = [] in
    let gone : take l (drop o s.order) ≡ [] =
      ap (take l) (drop_all o s.order past) ∙ take_all l nothing (omega arith) in
    sym (configs_of-page s.by_id l o s.order) ∙ ap (configs_of s.by_id) gone

page_empty :
    (s : MemoryWebhookStore) (l : ℕ)
    → length s.order ≡ 0
    → l < 2 ^ 63
    → page_of_configs s l 0 ≡ some []
unfolding page_of_configs slice_to add_int64 configs_of
page_empty s l none_stored h = ground (arith)

-- For fewer than 2 to the 63 subscriptions and a 64-bit limit and offset, ListWebhooks returns what
-- follows the offset cut at the limit, both read as zero where negative, except that it panics where
-- the limit is positive, the offset is inside the list and their sum overflows.
pub list_webhooks_lem :
    (s : MemoryWebhookStore) (limit offset : ℤ)
    → length s.order < 2 ^ 63
    → InInt64 limit
    → InInt64 offset
    → list_webhooks limit offset s ≡ (
        let start = nat_or_zero offset in
        let size = nat_or_zero limit in
        if ltb start (length s.order) && leb (2 ^ 63) (start + size)
        then none
        else some (take size (drop start (configs_of s.by_id s.order))))
unfolding list_webhooks page_of_configs
list_webhooks_lem s (negsuc l) offset n h k = ground (arith, nat_or_zero_bound offset k)
list_webhooks_lem s (pos zero) offset n h k = ground (arith, nat_or_zero_bound offset k)
list_webhooks_lem s (pos (suc l)) (negsuc o) n h k = elim (Bool-cases (ltb 0 (length s.order))) [
  | inl inside ↦ ground (arith, inside, page_inside s (suc l) 0 (ground (arith, inside)) n h)
  | inr outside ↦ ground (
    arith,
    outside,
    page_empty s (suc l) (ground (arith, outside)) h,
    page_past s (suc l) 0 (ground (arith, outside)),
  )
]
list_webhooks_lem s (pos (suc l)) (pos o) n h k = elim (Bool-cases (ltb o (length s.order))) [
  | inl inside ↦ ground (arith, inside, page_inside s (suc l) o (ground (arith, inside)) n h)
  | inr outside ↦ ground (arith, outside, page_past s (suc l) o (ground (arith, outside)))
]
