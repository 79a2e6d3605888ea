-- ===== src/Events/Bus.antt =====
-- events.go: a cancelled subscription leaves no trace.
use awesome_go_auth.Base.{
  ℕ, String, true, false, ◌≡◌, refl, List, [], ◌∷◌, ◌++◌, eq_iff, eq_refl, arith, eqb, length,
  Bool-cases, inl, inr,
}
use awesome_go_auth.Base.Dict.{get-put, get-remove}
use awesome_go_auth.Events.{EventBus, subscribe, unsubscribe, subscribed, has_id, drop_id, called}

module _ {H : Type 0} (id : ℕ) (h : H) where
  has_id-last : (subs : List (ℕ × H)) → has_id id (subs ++ (id, h) ∷ []) ≡ true
  unfolding has_id
  has_id-last [] = ground (arith)
  has_id-last ((i, g) ∷ subs) = ground (arith, has_id-last subs)

  drop_id-last :
      (subs : List (ℕ × H)) → has_id id subs ≡ false → drop_id id (subs ++ (id, h) ∷ []) ≡ subs
  unfolding has_id drop_id
  drop_id-last [] e = ground (arith)
  drop_id-last ((i, g) ∷ subs) e = ground (arith, drop_id-last subs)

  length-last : (subs : List (ℕ × H)) → eqb (length (subs ++ (id, h) ∷ [])) 1 ≡ true → subs ≡ []
  length-last [] e = refl
  length-last ((i, g) ∷ []) e = absurd (ground (arith))
  length-last ((i, g) ∷ j ∷ subs) e = absurd (ground (arith))

module _ {H : Type 0} (b : EventBus H) (event : String) (handler : H) where
  subscribed-unsubscribe :
      let (id, after) = subscribe event handler b in
      has_id id (subscribed b event) ≡ false
      → (e : String) → subscribed (unsubscribe event id after) e ≡ subscribed b e
  unfolding unsubscribe subscribe
  subscribed-unsubscribe fresh e =
      let (id, after) = subscribe event handler b in
      let subs = subscribed b event in
      let longer = subs ++ (id, handler) ∷ [] in
      let wrote = get-put b.subscribers event event longer in
      let there = has_id-last id handler subs in
      let back = drop_id-last id handler subs fresh in
      elim (Bool-cases (eqb (length longer) 1)) [
        | inl only ↦
            let none_before = length-last id handler subs only in
            ground (
              arith,
              wrote,
              eq_refl event,
              there,
              only,
              none_before,
              get-remove after.subscribers event e,
              get-put b.subscribers event e longer,
              eq_iff event e,
            )
        | inr more ↦ ground (
          arith,
          wrote,
          eq_refl event,
          there,
          more,
          back,
          get-put after.subscribers event e subs,
          get-put b.subscribers event e longer,
          eq_iff event e,
        )
      ]

  -- After a subscription, with an id that the event's subscriptions do not have, is cancelled, the
  -- handlers that an event calls are those of before.
  pub called-unsubscribe :
      (other : String)
      → has_id (subscribe event handler b).0 (subscribed b event) ≡ false
      → called other (unsubscribe event (subscribe event handler b).0 (subscribe event handler b).1)
        ≡ called other b
  unfolding called
  called-unsubscribe other fresh =
      rw (subscribed-unsubscribe fresh other, subscribed-unsubscribe fresh "*") refl
