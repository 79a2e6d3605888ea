-- ===== src/Webhooks/Invariant.antt =====
-- webhook_store.go: the order of creation and the table name the same subscriptions, so that a
-- dispatch finds each of them once.
use awesome_go_auth.Base.{
  String, ◌≡◌, ◌≢◌, ◌↔◌, ◌∙◌, sym, subst, some, none, List, [], ◌∷◌, ◌++◌, In, ◌==◌, eq_iff, arith,
  Option-cases, Bool-cases, inl, inr, if◌then◌else◌,
}
use awesome_go_auth.Base.Dict.{get, get-put, get-remove, get-empty}
use awesome_go_auth.Roles.Laws.{In-append}
use awesome_go_auth.Webhooks.{
  MemoryWebhookStore, WebhookConfig, WebhookPatch, new_memory_webhook_store, insert_webhook,
  update_webhook, remove_webhook, delete_first, apply_to,
}

-- no id stands twice
abbrev pub Unique : List String → Type 0
Unique [] = Unit
Unique (x ∷ xs) = (In x xs → ⊥) × Unique xs

pub record IsOrdered (s : MemoryWebhookStore) : Type 0 where
  pub unique : Unique s.order
  pub listed : (id : String) (x : WebhookConfig) → get s.by_id id ≡ some x → In id s.order
  pub kept : (id : String) → In id s.order → (x : WebhookConfig) × (get s.by_id id ≡ some x)

-- The stores that the operations lead to, where the id of a new subscription is one that the store
-- does not know.
pub data Reachable : MemoryWebhookStore → Type 0 where
  start : Reachable new_memory_webhook_store
  added :
      {s : MemoryWebhookStore} (id : String) (config : WebhookConfig)
      → get s.by_id id ≡ none
      → Reachable s
      → Reachable (insert_webhook id config s).1
  updated :
      {s : MemoryWebhookStore} (id : String) (patch : WebhookPatch)
      → Reachable s
      → Reachable (update_webhook id patch s).1
  removed : {s : MemoryWebhookStore} (id : String) → Reachable s → Reachable (remove_webhook id s).1

Unique-append : (xs : List String) (x : String) → Unique xs → (In x xs → ⊥) → Unique (xs ++ x ∷ [])
Unique-append [] x u new = (λ i. elim i [ ], tt)
Unique-append (y ∷ ys) x (u, us) new = (
  λ i. elim ((In-append y ys (x ∷ [])).0 i) [
    | inl old ↦ u old
    | inr last ↦ elim last [ inl e ↦ new (inl (sym e)) | inr no_more ↦ elim no_more [ ] ]
  ],
  Unique-append ys x us (λ i. new (inr i)),
)

In-delete_first :
    (id x : String) (xs : List String)
    → Unique xs
    → In x (delete_first id xs) ↔ (In x xs × (id ≢ x))
unfolding delete_first
In-delete_first id x [] u = (λ i. elim i [ ], λ h. h.0)
In-delete_first id x (y ∷ ys) (u, us) = elim (Bool-cases (y == id)) [
  | inl own ↦
      let same : y ≡ id = (eq_iff y id).0 own in
      rw (own, delete_first)
        (
          λ i. (inr i, λ e. u (subst (λ z. In z ys) (sym (same ∙ e)) i)),
          λ (i, other). elim i [ inl e ↦ absurd (other (sym (e ∙ same))) | inr later ↦ later ],
        )
  | inr other ↦
      rw (other, delete_first)
        (
          λ i. elim i [
            | inl e ↦ (inl e, λ f. ground (arith, other, e, f, eq_iff y id))
            | inr later ↦ let (j, d) = (In-delete_first id x ys us).0 later in (inr j, d)
          ],
          λ (i, d). elim i [
            | inl e ↦ inl e
            | inr later ↦ inr ((In-delete_first id x ys us).1 (later, d))
          ],
        )
]

Unique-delete_first : (id : String) (xs : List String) → Unique xs → Unique (delete_first id xs)
unfolding delete_first
Unique-delete_first id [] u = tt
Unique-delete_first id (y ∷ ys) (u, us) = elim (Bool-cases (y == id)) [
  | inl own ↦ rw (own, delete_first) us
  | inr other ↦
      rw (other, delete_first)
        (λ i. u ((In-delete_first id y ys us).0 i).0, Unique-delete_first id ys us)
]

IsOrdered-new : IsOrdered new_memory_webhook_store
unfolding new_memory_webhook_store
IsOrdered-new = record {
  unique = tt;
  listed = λ id x e. absurd (cc (get-empty {V = WebhookConfig} id));
  kept = λ id i. elim i [ ];
}

module _ {s : MemoryWebhookStore} (h : IsOrdered s) where
  insert_webhook-IsOrdered :
      (id : String) (config : WebhookConfig)
      → get s.by_id id ≡ none
      → IsOrdered (insert_webhook id config s).1
  unfolding insert_webhook
  insert_webhook-IsOrdered id config new =
      let stored : WebhookConfig = record config { id = id } in
      let wrote = λ (k : String). get-put s.by_id id k stored in
      record {
        unique =
            Unique-append s.order id h.unique
              (λ i. let (x, has) = h.kept id i in ground (arith, new, has));
        listed = λ k x e. elim (Bool-cases (id == k)) [
          | inl own ↦ (In-append k s.order (id ∷ [])).1 (inr (inl (sym ((eq_iff id k).0 own))))
          | inr other ↦
              (In-append k s.order (id ∷ [])).1
                (inl (h.listed k x (ground (arith, wrote k, other))))
        ];
        kept = λ k i. elim ((In-append k s.order (id ∷ [])).0 i) [
          | inl old ↦
              let (x, has) = h.kept k old in
              (if id == k then stored else x, ground (arith, wrote k))
          | inr last ↦ (
            stored,
            elim last [
              | inl e ↦ ground (arith, wrote k, e, eq_iff id k)
              | inr no_more ↦ elim no_more [ ]
            ],
          )
        ];
      }

  update_webhook-IsOrdered :
      (id : String) (patch : WebhookPatch) → IsOrdered (update_webhook id patch s).1
  unfolding update_webhook
  update_webhook-IsOrdered id patch = elim (Option-cases (get s.by_id id)) [
    | inl unknown ↦ rw (unknown, update_webhook) h
    | inr (old, known) ↦
        let new : WebhookConfig = record (apply_to patch old) { id = id } in
        rw (known, update_webhook)
          (record {
            unique = h.unique;
            listed = λ k x e. elim (Bool-cases (id == k)) [
              | inl own ↦ subst (λ j. In j s.order) ((eq_iff id k).0 own) (h.listed id old known)
              | inr other ↦ h.listed k x (ground (arith, get-put s.by_id id k new, other))
            ];
            kept = λ k i.
                let (x, has) = h.kept k i in
                (if id == k then new else x, ground (arith, get-put s.by_id id k new));
          })
  ]

  remove_webhook-IsOrdered : (id : String) → IsOrdered (remove_webhook id s).1
  unfolding remove_webhook
  remove_webhook-IsOrdered id = elim (Option-cases (get s.by_id id)) [
    | inl unknown ↦ rw (unknown, remove_webhook) h
    | inr (old, known) ↦
        rw (known, remove_webhook)
          (record {
            unique = Unique-delete_first id s.order h.unique;
            listed = λ k x e.
                let gone = get-remove s.by_id id k in
                (In-delete_first id k s.order h.unique).1 (
                  h.listed k x (ground (arith, gone)),
                  λ same. ground (arith, gone, same, eq_iff id k),
                );
            kept = λ k i.
                let (j, differs) = (In-delete_first id k s.order h.unique).0 i in
                let (x, has) = h.kept k j in
                (x, ground (arith, get-remove s.by_id id k, eq_iff id k));
          })
  ]

-- In every store that the operations lead to, the order names each subscription of the table once,
-- and nothing else.
pub Reachable-IsOrdered : {s : MemoryWebhookStore} → Reachable s → IsOrdered s
Reachable-IsOrdered start = IsOrdered-new
Reachable-IsOrdered (added id config new r) =
    insert_webhook-IsOrdered (Reachable-IsOrdered r) id config new
Reachable-IsOrdered (updated id patch r) = update_webhook-IsOrdered (Reachable-IsOrdered r) id patch
Reachable-IsOrdered (removed id r) = remove_webhook-IsOrdered (Reachable-IsOrdered r) id
