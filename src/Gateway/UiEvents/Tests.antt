-- ===== src/Gateway/UiEvents/Tests.antt =====
-- A store with two events, and a client of it (crates/gateway/src/db.rs).
use watt_gateway.Prelude.{suc, ◌≡◌, refl, String, true, false, Option, none, some, [], ◌∷◌}
use watt_gateway.Gateway.Json.{null}
use watt_gateway.Gateway.Contracts.Kinds.{DataKind, Visibility, task_round_update, public_data}
use watt_gateway.Gateway.Stream.{UiStreamQuery, lagged}
use watt_gateway.Gateway.Stream.Order.{event_cursors, IsIncreasing}
use watt_gateway.Gateway.UiEvents.{
  UiEventRow, OutboxRecord, EventStore, insert_ui_event, cursor_or_zero, stream_session,
}
use watt_gateway.Gateway.UiEvents.Order.{Reached, empty, inserted, stored_session_is_in_order}
use watt_gateway.Gateway.UiEvents.Once.{insert_is_once}

abbrev row_of : String → UiEventRow
row_of event_id = record {
  cursor = 0;
  event_id = event_id;
  source_id = none;
  node_id = "node";
  signer_agent_did = "did";
  data_kind = "task_round_update";
  event_kind = "task.round.updated";
  visibility = "public";
  provisional = false;
  topic_id = none;
  organization_id = none;
  task_id = none;
  generated_at = 1;
  payload = null;
  ingest_path = "direct";
  source_cursor_or_seq = some 1;
}

abbrev record_of : Option OutboxRecord
record_of = some (record { dedupe_key = "key"; command_kind = "ui_event"; payload = null })

abbrev no_events : EventStore
no_events = record { ui_events = []; next_cursor = 1; outbox = []; next_outbox_id = 1; audit = [] }

abbrev two_events : EventStore
two_events =
    (insert_ui_event (row_of "second") none
      (insert_ui_event (row_of "first") record_of no_events).0).0

two_events-Reached : Reached two_events
two_events-Reached = inserted _ _ _ (inserted _ _ _ (empty []))

abbrev kind_from : String → Option DataKind
kind_from name = some task_round_update

abbrev visibility_from : String → Option Visibility
visibility_from name = some public_data

abbrev query : UiStreamQuery
query = record {
  token = none;
  cursor = some 0;
  limit = none;
  data_kind = none;
  node_id = none;
  topic_id = none;
  organization_id = none;
  task_id = none;
}

insert_is_once_example :
    insert_ui_event (row_of "first") none (insert_ui_event (row_of "first") record_of no_events).0
    ≡ (
      record (insert_ui_event (row_of "first") record_of no_events).0 {
        next_cursor = suc (insert_ui_event (row_of "first") record_of no_events).0.next_cursor;
      },
      none,
    )
insert_is_once_example =
    insert_is_once (row_of "first") (row_of "first") record_of none no_events refl

stored_session_is_in_order_example :
    IsIncreasing
      (cursor_or_zero kind_from visibility_from
        (λ source_id. true)
        (λ kind. "task_round_update")
        query.cursor)
      (event_cursors
        (stream_session kind_from visibility_from
          (λ source_id. true)
          (λ kind. "task_round_update")
          query
          false
          two_events.ui_events
          9
          (lagged ∷ [])).frames)
stored_session_is_in_order_example =
    stored_session_is_in_order (λ source_id. true) kind_from visibility_from
      (λ kind. "task_round_update") query false two_events 9 (lagged ∷ []) two_events-Reached
