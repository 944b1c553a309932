-- ===== src/Gateway/Space/Tests.antt =====
-- Presences that come out of order, and a space event (crates/gateway/src/space.rs).
use watt_gateway.Prelude.{
  ℕ, ◌≡◌, refl, String, true, Option, none, some, List, [], ◌∷◌, max, Result,
}
use watt_gateway.Gateway.Json.{Value, null}
use watt_gateway.Gateway.Contracts.Kinds.{public_data, never_before_confirmation, space_presence}
use watt_gateway.Gateway.UiEvents.{UiEventRow, OutboxRecord}
use watt_gateway.Gateway.NodeEvent.{SignedNodeEvent}
use watt_gateway.Gateway.Space.{
  SignedSpacePresence, WorldEvent, NodePresence, shown, heartbeat_is_current, PresenceKey,
}
use watt_gateway.Gateway.Space.Newest.{Brought, upsert_all, newest, stored_seq, upsert_keeps_newest}
use watt_gateway.Gateway.Space.Persist.{SpaceStore, PersistError, persist_event}
use watt_gateway.Gateway.Space.Persist.Atomic.{IsOutcome, persist_is_atomic}

abbrev presence_at : ℕ → SignedSpacePresence
presence_at seq = record {
  network_id = "net";
  space_id = "space";
  agent_did = "agent";
  seq = seq;
  entered = true;
  updated_at = 1;
  signature = "signature";
  space_version = "1";
  destination_place_id = "place";
  path = 85 ∷ [];
}

abbrev key : PresenceKey
key = ("net", ("space", "agent"))

abbrev brought : List Brought
brought =
    (presence_at 2, "node", none)
    ∷ (presence_at 5, "other", some "source")
    ∷ (presence_at 3, "node", none)
    ∷ (presence_at 5, "node", none)
    ∷ []

upsert_keeps_newest_example :
    stored_seq key (upsert_all brought []) ≡ max (newest key brought) (stored_seq key [])
upsert_keeps_newest_example = upsert_keeps_newest key brought []

abbrev heartbeat : NodePresence
heartbeat = record {
  node_id = "node";
  agent_did = "agent";
  last_heartbeat_ms = 1000;
  heartbeat_interval_sec = 10;
}

-- Three intervals are the limit.
shown_until :
    (shown 31000 (heartbeat ∷ []) ((presence_at 2, "node") ∷ (presence_at 2, "other") ∷ [])
      ≡ (presence_at 2, "node") ∷ [])
    × (shown 31001 (heartbeat ∷ []) ((presence_at 2, "node") ∷ []) ≡ [])
unfolding shown heartbeat_is_current
shown_until = (refl, refl)

abbrev event : SignedNodeEvent
event = record {
  event_id = "event";
  node_id = "node";
  signer_agent_did = "agent";
  data_kind = space_presence;
  event_kind = "space.presence.changed";
  visibility = public_data;
  provisional_policy = never_before_confirmation;
  scope = record { node_id = none; topic_id = none; organization_id = none; task_id = none };
  identity_key = none;
  timestamp = 1;
  seq = 2;
  payload = null;
}

abbrev presence_from : Value → Option SignedSpacePresence
presence_from payload = some (presence_at 2)

abbrev world_from : Value → Option (WorldEvent × String × String)
world_from payload = none

abbrev record_from : SignedNodeEvent → OutboxRecord
record_from event = record {
  dedupe_key = event.event_id;
  command_kind = "event";
  payload = event.payload;
}

abbrev empty_store : SpaceStore
empty_store = record {
  space_presence = [];
  space_events = [];
  events = record { ui_events = []; next_cursor = 1; outbox = []; next_outbox_id = 1; audit = [] };
}

abbrev ran : SpaceStore × Result PersistError (Option UiEventRow)
ran =
    persist_event presence_from world_from (λ kind. "space_presence") record_from event none true
      empty_store

persist_is_atomic_example :
    IsOutcome presence_from world_from
      (λ kind. "space_presence")
      record_from
      event
      none
      true
      empty_store
      ran.0
      ran.1
persist_is_atomic_example =
    persist_is_atomic presence_from world_from (λ kind. "space_presence") record_from event none
      true empty_store
