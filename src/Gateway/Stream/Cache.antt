-- ===== src/Gateway/Stream/Cache.antt =====
-- The hub of crates/gateway/src/state.rs and its cache of published events, which holds a set
-- beside a queue of the same identifiers.
pub mod Refines
use watt_gateway.Prelude.{
  ℕ, suc, String, Bool, true, false, ◌||◌, not, Option, none, some, List, [], ◌∷◌, ◌++◌, ltb, ◌==◌,
  str_eq, if◌then◌else◌, length,
}
use watt_gateway.Gateway.Contracts.Kinds.{DataKind, kind_beq}
use watt_gateway.Gateway.Stream.{GatewayUiEvent}

-- `PublishedEventCache`: the set has an order here, which nothing reads.
pub record PublishedEventCache : Type 0 where
  pub event_ids : List String
  pub order : List String

abbrev pub has : String → List String → Bool
has id [] = false
has id (x ∷ xs) = str_eq x id || has id xs

-- `HashSet::remove`
abbrev pub discard : String → List String → List String
discard id [] = []
discard id (x ∷ xs) = if str_eq x id then discard id xs else x ∷ discard id xs

-- `pop_front` with the removal of what it gave.
abbrev pub expire : List String → List String → PublishedEventCache
expire ids [] = record { event_ids = ids; order = [] }
expire ids (oldest ∷ rest) = record { event_ids = discard oldest ids; order = rest }

-- `UiStreamHub`: its cache, the events on the channel of all subscribers, and those on the channel
-- of each kind that has one.
pub record Hub : Type 0 where
  pub published : PublishedEventCache
  pub sent : List GatewayUiEvent
  pub filtered : List (DataKind × List GatewayUiEvent)

-- `subscribe`: the channel of a kind is made on its first subscription.
pub has_channel : DataKind → List (DataKind × List GatewayUiEvent) → Bool
has_channel kind [] = false
has_channel kind ((k, sent) ∷ channels) = kind_beq k kind || has_channel kind channels

pub subscribe : Option DataKind → Hub → Hub
subscribe none hub = hub
subscribe (some kind) hub =
    if has_channel kind hub.filtered
    then hub
    else record hub { filtered = (kind, []) ∷ hub.filtered }

pub send_filtered :
    GatewayUiEvent → List (DataKind × List GatewayUiEvent) → List (DataKind × List GatewayUiEvent)
send_filtered event [] = []
send_filtered event ((kind, sent) ∷ channels) =
    if kind_beq kind event.data_kind
    then (kind, sent ++ event ∷ []) ∷ channels
    else (kind, sent) ∷ send_filtered event channels

pub send_to_all : GatewayUiEvent → Hub → Hub
send_to_all event hub = record hub {
  sent = hub.sent ++ event ∷ [];
  filtered = send_filtered event hub.filtered;
}

-- The cache with one more identifier, by whether it is past its capacity.
abbrev pub pushed : String → PublishedEventCache → Bool → PublishedEventCache
pushed id cache true = expire (id ∷ cache.event_ids) (cache.order ++ id ∷ [])
pushed id cache false = record { event_ids = id ∷ cache.event_ids; order = cache.order ++ id ∷ [] }

abbrev pub remember_if : String → PublishedEventCache → Bool → Bool → PublishedEventCache × Bool
remember_if id cache past true = (cache, false)
remember_if id cache past false = (pushed id cache past, true)

module _ (capacity : ℕ) where
  pub remember : String → PublishedEventCache → PublishedEventCache × Bool
  remember id cache =
      remember_if id cache (ltb capacity (length (cache.order ++ id ∷ []))) (has id cache.event_ids)

  -- `UiStreamHub::publish`, where the event is serialized.
  pub publish : GatewayUiEvent → Hub → Hub
  publish event hub =
      if event.cursor == 0
      then send_to_all event hub
      else (let (cache, fresh) = remember event.event_id hub.published in
          let remembered = record hub { published = cache } in
          if fresh then send_to_all event remembered else remembered)
