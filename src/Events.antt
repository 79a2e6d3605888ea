-- ===== src/Events.antt =====
-- events.go, telemetry.go: the bus that hands an event to the handlers of its name and then to those
-- of every event, and the store that records events and answers queries.
pub mod Bus
pub mod Telemetry
use mathlib.Core.Option.{get_or}
use awesome_go_auth.Base.{
  ℕ, suc, ◌+◌, ◌-◌, ◌%◌, ◌^◌, String, Bool, true, false, not, ◌&&◌, Option, none, some, List, [],
  ◌∷◌, ◌++◌, ◌==◌, eqb, ltb, leb, if◌then◌else◌, length,
}
use awesome_go_auth.Base.Dict.{Dict, empty, get, put, remove}
use awesome_go_auth.Paging.{ℤ, pos, negsuc}

pub record EventBus (H : Type 0) : Type 0 where
  pub next_id : ℕ
  pub subscribers : Dict (List (ℕ × H))

module _ {H : Type 0} where
  unfoldable pub new_event_bus : EventBus H
  new_event_bus = record { next_id = 0; subscribers = empty }

  -- b.subscribers[event], empty on a missing key
  abbrev pub subscribed : EventBus H → String → List (ℕ × H)
  subscribed b event = get_or (get b.subscribers event) []

  -- the id, which the returned cancel keeps, is a uint64
  unfoldable pub subscribe : String → H → EventBus H → ℕ × EventBus H
  subscribe event handler b =
      let id = (b.next_id + 1) % 2 ^ 64 in
      (
        id,
        record {
          next_id = id;
          subscribers = put b.subscribers event (subscribed b event ++ (id, handler) ∷ []);
        },
      )

  unfoldable pub has_id : ℕ → List (ℕ × H) → Bool
  has_id id [] = false
  has_id id ((i, _) ∷ subs) = let later = has_id id subs in if eqb i id then true else later

  -- the first subscription of the id goes
  unfoldable pub drop_id : ℕ → List (ℕ × H) → List (ℕ × H)
  drop_id id [] = []
  drop_id id ((i, h) ∷ subs) =
      let rest = drop_id id subs in if eqb i id then subs else (i, h) ∷ rest

  unfoldable pub unsubscribe : String → ℕ → EventBus H → EventBus H
  unsubscribe event id b =
      let subs = subscribed b event in
      if has_id id subs
      then record b {
        subscribers =
            if eqb (length subs) 1
            then remove b.subscribers event
            else put b.subscribers event (drop_id id subs);
      }
      else b

  handlers_of : List (ℕ × H) → List H
  handlers_of [] = []
  handlers_of ((_, h) ∷ subs) = h ∷ handlers_of subs

  -- Publish: the handlers that are called, in the order in which they are
  unfoldable pub called : String → EventBus H → List H
  unfolding handlers_of
  called event b = handlers_of (subscribed b event) ++ handlers_of (subscribed b "*")

pub record TelemetryEvent : Type 0 where
  pub id : String
  pub event_name : String
  pub user_id : String
  pub tenant_id : String
  pub session_id : String
  pub correlation_id : String
  pub ip : String
  pub user_agent : String
  pub success : Bool
  pub error : String
  pub timestamp : ℕ

-- A zero time is `none`.
pub record TelemetryFilter : Type 0 where
  pub user_id : String
  pub tenant_id : String
  pub session_id : String
  pub event_name : String
  pub since : Option ℕ
  pub until : Option ℕ
  pub limit : ℤ
  pub offset : ℤ

-- f.X != "" && e.X != f.X
abbrev fits : String → String → Bool
fits wanted has = if wanted == "" then true else has == wanted

abbrev not_before : Option ℕ → ℕ → Bool
not_before none t = true
not_before (some since) t = leb since t

abbrev not_after : Option ℕ → ℕ → Bool
not_after none t = true
not_after (some until) t = leb t until

-- none of the seven reasons to go on
unfoldable pub selected : TelemetryFilter → TelemetryEvent → Bool
selected f e =
    fits f.user_id e.user_id
    && fits f.tenant_id e.tenant_id
    && fits f.session_id e.session_id
    && fits f.event_name e.event_name
    && not_before f.since e.timestamp
    && not_after f.until e.timestamp

-- skipped < f.Offset
abbrev still_skipping : ℕ → ℤ → Bool
still_skipping skipped (pos offset) = ltb skipped offset
still_skipping skipped (negsuc _) = false

-- f.Limit > 0 && len(out) >= f.Limit
abbrev is_full : ℤ → ℕ → Bool
is_full (pos limit) n = ltb 0 limit && leb limit n
is_full (negsuc _) n = false

-- the loop of Query, with the events skipped and the events taken so far
unfoldable pub query_loop : TelemetryFilter → ℕ → ℕ → List TelemetryEvent → List TelemetryEvent
query_loop f skipped taken [] = []
query_loop f skipped taken (e ∷ es) =
    let passed_by = query_loop f skipped taken es in
    let skips = query_loop f (skipped + 1) taken es in
    let takes = query_loop f skipped (taken + 1) es in
    if not (selected f e)
    then passed_by
    else if still_skipping skipped f.offset
    then skips
    else e ∷ (if is_full f.limit (taken + 1) then [] else takes)

-- Record
unfoldable pub record_event : TelemetryEvent → List TelemetryEvent → List TelemetryEvent
record_event e events = events ++ e ∷ []

-- Query
unfoldable pub query : TelemetryFilter → List TelemetryEvent → List TelemetryEvent
query f events = query_loop f 0 0 events
