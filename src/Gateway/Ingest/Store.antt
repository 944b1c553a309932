-- ===== src/Gateway/Ingest/Store.antt =====
-- The writes of an ingest, and the whole of it (crates/gateway/src/streaming.rs).
pub mod Verified
mod Tests
use watt_gateway.Prelude.{
  ℕ, String, Bool, true, false, Option, none, some, if◌then◌else◌, Result, err, ok, Table,
}
use watt_gateway.Gateway.Json.{Value}
use watt_gateway.Gateway.Contracts.Kinds.{DataKind}
use watt_gateway.Gateway.Stream.{GatewayUiEvent}
use watt_gateway.Gateway.UiEvents.{
  UiEventRow, OutboxRecord, EventStore, insert_ui_event, get_ui_event_by_id, try_from,
}
use watt_gateway.Gateway.NodeEvent.{SignedNodeEvent}
use watt_gateway.Gateway.Projection.Event.{event_projection, normalized_event_scope}
use watt_gateway.Gateway.Projection.Rows.{materialize_event_projection}
use watt_gateway.Gateway.Space.Valid.{is_ephemeral}
use watt_gateway.Gateway.Space.Persist.{SpaceStore, PersistError, persist_event, as_i64}
use watt_gateway.Gateway.Ingest.{
  IngestState, IngestError, malformed_row, not_persisted, IngestLibraries, is_provisional,
  is_space_event, announces, keep_events, with_projection_payload, used_source, check_event,
  backfill, publish_to_hub, ingest_ephemeral, projection_of,
}

abbrev pub announced : Bool → OutboxRecord → Option OutboxRecord
announced true r = some r
announced false r = none

abbrev pub with_store : SpaceStore → IngestState → IngestState
with_store store st = record st { store = store }

abbrev pub saved :
    IngestState
    → SpaceStore × Result PersistError (Option UiEventRow)
    → IngestState × Result IngestError (Option UiEventRow)
saved st (store, err e) = (with_store store st, err (not_persisted e))
saved st (store, ok row) = (with_store store st, ok row)

module _ (lib : IngestLibraries) (event : SignedNodeEvent) (source_id : Option String)
    (expected_signer : Option String) (announce_p2p : Bool) where
  abbrev pub source : Option String
  source = used_source lib event source_id expected_signer announce_p2p

  -- `InsertUiEventRecord`
  abbrev pub record_of : Option (DataKind × Value) → UiEventRow
  record_of projection =
      let scope = normalized_event_scope event in
      record {
        cursor = 0;
        event_id = event.event_id;
        source_id = source;
        node_id = event.node_id;
        signer_agent_did = event.signer_agent_did;
        data_kind = lib.kind_text event.data_kind;
        event_kind = event.event_kind;
        visibility = lib.visibility_text event.visibility;
        provisional = is_provisional event.provisional_policy;
        topic_id = scope.topic_id;
        organization_id = scope.organization_id;
        task_id = scope.task_id;
        generated_at = event.timestamp;
        payload = with_projection_payload event projection;
        ingest_path = "event_push";
        source_cursor_or_seq = as_i64 event.seq;
      }

  pub insert_record :
      Option (DataKind × Value) → IngestState → IngestState × Result IngestError (Option UiEventRow)
  insert_record projection st =
      if is_space_event event
      then saved st (
          persist_event lib.space.presence_from lib.world_from lib.kind_text lib.outbox_record event
            source (announces lib event source_id expected_signer announce_p2p) st.store)
      else (let (events, row) =
            insert_ui_event (record_of projection)
              (announced (announces lib event source_id expected_signer announce_p2p)
                (lib.outbox_record event))
              st.store.events in
          (keep_events events st, ok row))

  abbrev pub materialize : Option (DataKind × Value) → IngestState → IngestState
  materialize projection st = record st {
    projections =
        materialize_event_projection lib.kind_text lib.visibility_text event source
          (is_provisional event.provisional_policy) projection st.projections;
  }

  -- A row is published, and `cursor` is the answer.
  abbrev pub publish_row :
      Option GatewayUiEvent → Option ℕ → IngestState → IngestState × Result IngestError (Option ℕ)
  publish_row none cursor st = (st, err malformed_row)
  publish_row (some ui_event) cursor st =
      (publish_to_hub lib event source_id expected_signer announce_p2p ui_event st, ok cursor)

  abbrev pub publish_existing :
      Option UiEventRow → IngestState → IngestState × Result IngestError (Option ℕ)
  publish_existing none st = (st, ok none)
  publish_existing (some row) st =
      publish_row (try_from lib.data_kind_from lib.visibility_from row) none st

  pub after_insert :
      Option (DataKind × Value)
      → Option UiEventRow
      → IngestState
      → IngestState × Result IngestError (Option ℕ)
  after_insert projection none st =
      if is_space_event event
      then (st, ok none)
      else (let next = materialize projection st in
          publish_existing (get_ui_event_by_id event.event_id next.store.events.ui_events) next)
  after_insert projection (some row) st =
      publish_row (try_from lib.data_kind_from lib.visibility_from row) (some row.cursor)
        (materialize projection st)

  abbrev pub inserted :
      Option (DataKind × Value)
      → IngestState × Result IngestError (Option UiEventRow)
      → IngestState × Result IngestError (Option ℕ)
  inserted projection (st, err e) = (st, err e)
  inserted projection (st, ok row) = after_insert projection row st

  abbrev pub projected :
      Result IngestError (Option (DataKind × Value))
      → IngestState
      → IngestState × Result IngestError (Option ℕ)
  projected (err e) st = (st, err e)
  projected (ok projection) st = inserted projection (insert_record projection st)

  -- What follows the checks.
  pub ingest_checked : IngestState → IngestState × Result IngestError (Option ℕ)
  ingest_checked st =
      if is_ephemeral event.provisional_policy
      then ingest_ephemeral lib event source_id expected_signer announce_p2p st
      else projected
          (projection_of lib event source_id expected_signer announce_p2p (event_projection event))
          st

  abbrev pub after_checks :
      Result IngestError (Unit {0}) → IngestState → IngestState × Result IngestError (Option ℕ)
  after_checks (err e) st = (st, err e)
  after_checks (ok done) st =
      ingest_checked (backfill lib event source_id expected_signer announce_p2p st)

  -- `persist_signed_node_event_with_options`
  pub persist_signed_node_event : IngestState → IngestState × Result IngestError (Option ℕ)
  persist_signed_node_event st =
      after_checks (check_event lib event source_id expected_signer announce_p2p) st
