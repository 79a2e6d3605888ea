-- ===== src/Webhooks.antt =====
-- webhook_store.go: the webhook subscriptions, what they match, and MemoryWebhookStore with its order
-- of creation. Minting an id for a new subscription and the sender are in the children.
pub mod Invariant
pub mod Sender
pub mod Subscriptions
use awesome_go_auth.Base.{
  ℕ, suc, ◌+◌, ◌-◌, ◌*◌, ◌%◌, ◌^◌, String, Bool, true, false, not, ◌&&◌, ◌||◌, Option, none, some,
  List, [], ◌∷◌, ◌++◌, ◌==◌, ltb, leb, if◌then◌else◌, length,
}
use awesome_go_auth.Base.Dict.{Dict, empty, get, put, remove}
use awesome_go_auth.Errors.{Result, ok, err, M}
use awesome_go_auth.Paging.{
  ℤ, pos, negsuc, add_int64, nat_or_zero, slice_to, wrap_int64, is_positive, at_least,
}

pub record WebhookConfig : Type 0 where
  pub id : String
  pub url : String
  pub events : List String
  pub secret : String
  pub is_active : Option Bool
  pub tenant_id : String
  pub max_retries : Option ℤ
  pub retry_delay_ms : Option ℤ
  pub provider : String
  pub allowed_actions : List String
  pub js_script : String

-- WebhookConfig{}
abbrev pub zero_config : WebhookConfig
zero_config = record {
  id = "";
  url = "";
  events = [];
  secret = "";
  is_active = none;
  tenant_id = "";
  max_retries = none;
  retry_delay_ms = none;
  provider = "";
  allowed_actions = [];
  js_script = "";
}

unfoldable pub active : WebhookConfig → Bool
active config = elim config.is_active [ none ↦ true | some b ↦ b ]

unfoldable pub retries : WebhookConfig → ℤ
retries config = elim config.max_retries [ none ↦ pos 3 | some n ↦ n ]

-- n * 10^6 on int64, from milliseconds to nanoseconds
unfoldable pub milliseconds : ℤ → ℤ
milliseconds (pos n) = wrap_int64 (n * 1000000 % 2 ^ 64)
milliseconds (negsuc n) = wrap_int64 ((2 ^ 64 - suc n * 1000000 % 2 ^ 64) % 2 ^ 64)

unfoldable pub retry_delay : WebhookConfig → ℤ
retry_delay config = elim config.retry_delay_ms [ none ↦ pos 1000000000 | some n ↦ milliseconds n ]

-- subscribed == WebhookEventWildcard || subscribed == event, for some subscribed
unfoldable pub subscribes : String → List String → Bool
subscribes event [] = false
subscribes event (e ∷ rest) = (e == "*" || e == event) || subscribes event rest

unfoldable pub matches : WebhookConfig → String → String → Bool
matches config event tenant_id =
    if not (active config)
    then false
    else if not (config.tenant_id == "") && not (config.tenant_id == tenant_id)
    then false
    else subscribes event config.events

-- A nil pointer or slice is `none`: a field to leave as it is.
pub record WebhookPatch : Type 0 where
  pub url : Option String
  pub events : Option (List String)
  pub secret : Option String
  pub is_active : Option Bool
  pub tenant_id : Option String
  pub max_retries : Option ℤ
  pub retry_delay_ms : Option ℤ
  pub provider : Option String
  pub allowed_actions : Option (List String)
  pub js_script : Option String

-- if p.X != nil { config.X = *p.X }, and for a field that is a pointer itself
abbrev patched : {A : Type 0} → Option A → A → A
patched none old = old
patched (some new) old = new

abbrev patched_pointer : {A : Type 0} → Option A → Option A → Option A
patched_pointer none old = old
patched_pointer (some new) old = some new

unfoldable pub apply_to : WebhookPatch → WebhookConfig → WebhookConfig
apply_to p config = record {
  id = config.id;
  url = patched p.url config.url;
  events = patched p.events config.events;
  secret = patched p.secret config.secret;
  is_active = patched_pointer p.is_active config.is_active;
  tenant_id = patched p.tenant_id config.tenant_id;
  max_retries = patched_pointer p.max_retries config.max_retries;
  retry_delay_ms = patched_pointer p.retry_delay_ms config.retry_delay_ms;
  provider = patched p.provider config.provider;
  allowed_actions = patched p.allowed_actions config.allowed_actions;
  js_script = patched p.js_script config.js_script;
}

pub record MemoryWebhookStore : Type 0 where
  pub by_id : Dict WebhookConfig
  pub order : List String

unfoldable pub new_memory_webhook_store : MemoryWebhookStore
new_memory_webhook_store = record { by_id = empty; order = [] }

-- s.byID[id], the zero value on a missing key
unfoldable pub config_at : Dict WebhookConfig → String → WebhookConfig
config_at by_id id = elim (get by_id id) [ none ↦ zero_config | some config ↦ config ]

-- the loop over the order, for the subscriptions that match
unfoldable pub matching : String → String → Dict WebhookConfig → List String → List WebhookConfig
matching event tenant_id by_id [] = []
matching event tenant_id by_id (id ∷ ids) =
    let config = config_at by_id id in
    let rest = matching event tenant_id by_id ids in
    if matches config event tenant_id then config ∷ rest else rest

unfoldable pub find_by_event : String → String → MemoryWebhookStore → List WebhookConfig
find_by_event event tenant_id s = matching event tenant_id s.by_id s.order

unfoldable pub configs_of : Dict WebhookConfig → List String → List WebhookConfig
configs_of by_id [] = []
configs_of by_id (id ∷ ids) = config_at by_id id ∷ configs_of by_id ids

-- `none` is the panic of a slice whose end precedes its start
unfoldable pub list_webhooks : ℤ → ℤ → MemoryWebhookStore → Option (List WebhookConfig)
list_webhooks limit offset s =
    if (if is_positive limit then false else true) || at_least offset (length s.order)
    then some []
    else (let start = nat_or_zero offset in
        elim (slice_to s.order start (add_int64 (pos start) limit)) [
          | none ↦ none
          | some page ↦ some (configs_of s.by_id page)
        ])

-- AddWebhook, once the id is minted
unfoldable pub insert_webhook : String → WebhookConfig → M MemoryWebhookStore WebhookConfig
insert_webhook id config s =
    let stored = record config { id = id } in
    (ok stored, record { by_id = put s.by_id id stored; order = s.order ++ id ∷ [] })

unfoldable pub update_webhook : String → WebhookPatch → M MemoryWebhookStore (Unit {0})
update_webhook id patch s = elim (get s.by_id id) [
  | none ↦ (ok tt, s)
  | some current ↦
      (ok tt, record s { by_id = put s.by_id id (record (apply_to patch current) { id = id }) })
]

-- the first occurrence goes, and the loop ends
unfoldable pub delete_first : String → List String → List String
delete_first id [] = []
delete_first id (x ∷ xs) = if x == id then xs else x ∷ delete_first id xs

unfoldable pub remove_webhook : String → M MemoryWebhookStore (Unit {0})
remove_webhook id s = elim (get s.by_id id) [
  | none ↦ (ok tt, s)
  | some _ ↦ (ok tt, record { by_id = remove s.by_id id; order = delete_first id s.order })
]

unfoldable pub first_of_provider : String → Dict WebhookConfig → List String → Option WebhookConfig
first_of_provider provider by_id [] = none
first_of_provider provider by_id (id ∷ ids) =
    let config = config_at by_id id in
    if config.provider == provider then some config else first_of_provider provider by_id ids

unfoldable pub find_by_provider : String → MemoryWebhookStore → Option WebhookConfig
find_by_provider provider s =
    if provider == "" then none else first_of_provider provider s.by_id s.order
