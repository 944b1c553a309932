-- ===== src/Gateway/Space/Persist.antt =====
-- `persist_event` of crates/gateway/src/space.rs: the record, the stored event and the outbox row of
-- a space event in one transaction. The readers of the payload and the writers of texts and of the
-- outbox's payload are arguments. A sequence is not rolled back.
pub mod Atomic
use watt_gateway.Prelude.{
  ℕ, suc, ◌*◌, ◌≡◌, refl, sym, ap, ◌∙◌, String, Bool, true, false, Option, none, some, List, [],
  ◌∷◌, ◌++◌, ltb, if◌then◌else◌, Result, err, ok, Table, string_eq, pair_eq, Bool-cases,
}
use watt_gateway.Gateway.Json.{Value}
use watt_gateway.Gateway.Contracts.Kinds.{DataKind, space_presence, world_event, kind_beq}
use watt_gateway.Gateway.Outbox.{OutboxRow}
use watt_gateway.Gateway.UiEvents.{
  UiEventRow, OutboxRecord, EventStore, get_ui_event_by_id, insert_outbox, with_cursor,
}
use watt_gateway.Gateway.NodeEvent.{SignedNodeEvent}
use watt_gateway.Gateway.Space.{
  SignedSpacePresence, WorldEvent, PresenceRow, PresenceKey, NodePresenceRow, WorldEventRow,
  upsert_presence, insert_world_event, world_row,
}

pub record SpaceStore : Type 0 where
  pub space_presence : Table PresenceKey PresenceRow
  pub space_events : Table (String × String) WorldEventRow
  pub events : EventStore

pub data PersistError : Type 0 where
  malformed_payload not_a_space_event : PersistError

-- `i64::try_from(seq).ok()`
abbrev pub as_i64 : ℕ → Option ℕ
as_i64 n = if ltb n 9223372036854775808 then some n else none

abbrev pub skip_cursor : SpaceStore → SpaceStore
skip_cursor st = record st { events = record st.events { next_cursor = suc st.events.next_cursor } }

-- `insert_ui_record`: the insert at the next cursor, and no audit entry.
abbrev pub add_event : UiEventRow → EventStore → EventStore
add_event row events = record events {
  ui_events = events.ui_events ++ with_cursor events.next_cursor row ∷ [];
  next_cursor = suc events.next_cursor;
}

module _ (presence_from : Value → Option SignedSpacePresence)
    (world_from : Value → Option (WorldEvent × String × String)) (kind_text : DataKind → String)
    (outbox_record : SignedNodeEvent → OutboxRecord) where
  abbrev pub event_row : SignedNodeEvent → Option String → UiEventRow
  event_row event source_id = record {
    cursor = 0;
    event_id = event.event_id;
    source_id = source_id;
    node_id = event.node_id;
    signer_agent_did = event.signer_agent_did;
    data_kind = kind_text event.data_kind;
    event_kind = event.event_kind;
    visibility = "public";
    provisional = false;
    topic_id = event.scope.topic_id;
    organization_id = event.scope.organization_id;
    task_id = event.scope.task_id;
    generated_at = event.timestamp * 1000;
    payload = event.payload;
    ingest_path = "event_push";
    source_cursor_or_seq = as_i64 event.seq;
  }

  abbrev pub with_presence :
      Option SignedSpacePresence
      → String
      → Option String
      → SpaceStore
      → Result PersistError (SpaceStore × Bool)
  with_presence none node_id source_id st = err malformed_payload
  with_presence (some p) node_id source_id st =
      let (table, accepted) = upsert_presence p node_id source_id st.space_presence in
      ok (record st { space_presence = table }, accepted)

  abbrev pub with_world :
      Option (WorldEvent × String × String)
      → Value
      → String
      → Option String
      → SpaceStore
      → Result PersistError (SpaceStore × Bool)
  with_world none payload node_id source_id st = err malformed_payload
  with_world (some (world, network_id, announcement_id)) payload node_id source_id st =
      let (table, accepted) =
        insert_world_event (network_id, announcement_id) (world_row world payload node_id source_id)
          st.space_events in
      ok (record st { space_events = table }, accepted)

  -- The record's table after the upsert, and whether it is accepted.
  pub accept :
      DataKind
      → SignedNodeEvent
      → Option String
      → SpaceStore
      → Result PersistError (SpaceStore × Bool)
  accept kind event source_id st =
      if kind_beq kind space_presence
      then with_presence (presence_from event.payload) event.node_id source_id st
      else if kind_beq kind world_event
      then with_world (world_from event.payload) event.payload event.node_id source_id st
      else err not_a_space_event

  abbrev pub announced : Bool → SignedNodeEvent → Option OutboxRecord
  announced true event = some (outbox_record event)
  announced false event = none

  -- The event's insert: where it is present, the transaction is rolled back.
  abbrev pub insert_event :
      Option UiEventRow
      → SignedNodeEvent
      → Option String
      → Bool
      → SpaceStore
      → SpaceStore
      → SpaceStore × Option UiEventRow
  insert_event (some present) event source_id announce_p2p before st = (skip_cursor before, none)
  insert_event none event source_id announce_p2p before st = (
    record st {
      events =
          insert_outbox (announced announce_p2p event)
            (add_event (event_row event source_id) st.events);
    },
    some (with_cursor st.events.next_cursor (event_row event source_id)),
  )

  abbrev pub finish :
      Result PersistError (SpaceStore × Bool)
      → SignedNodeEvent
      → Option String
      → Bool
      → SpaceStore
      → SpaceStore × Result PersistError (Option UiEventRow)
  finish (err e) event source_id announce_p2p before = (before, err e)
  finish (ok (st, false)) event source_id announce_p2p before = (before, ok none)
  finish (ok (st, true)) event source_id announce_p2p before =
      let (after, row) =
        insert_event (get_ui_event_by_id event.event_id st.events.ui_events) event source_id
          announce_p2p before st in
      (after, ok row)

  pub persist_event :
      SignedNodeEvent
      → Option String
      → Bool
      → SpaceStore
      → SpaceStore × Result PersistError (Option UiEventRow)
  persist_event event source_id announce_p2p st =
      finish (accept event.data_kind event source_id st) event source_id announce_p2p st
