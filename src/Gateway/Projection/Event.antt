-- ===== src/Gateway/Projection/Event.antt =====
-- `event_projection` of crates/gateway/src/streaming.rs, with the normalizers of hives and boards.
pub mod Completes
mod Tests
use Prim.Native.String.{◌++◌ as join}
use watt_gateway.Prelude.{
  ℕ, String, Bool, true, false, ◌||◌, ◌&&◌, not, str_eq, Option, none, some, List, [], ◌∷◌,
  if◌then◌else◌, lookup, string_eq,
}
use watt_gateway.Gateway.Json.{Value, number, string, object, Map, from_map, as_object, get}
use watt_gateway.Gateway.Contracts.Kinds.{
  DataKind, kind_beq, mission_lifecycle, task_summary, hive_metadata, hive_activity,
  hive_message_posted, board_activity, ranking_projection,
}
use watt_gateway.Gateway.NodeEvent.{SignedNodeEvent}
use watt_gateway.Gateway.Stream.{EventScope}
use watt_gateway.Gateway.Projection.{
  as_text, or_else, unwrap_or, or_insert, object_string, insert_string_if_missing,
  merged_payload_object, normalize_generated_at_millis, map_object,
  normalized_ranking_projection_payload, mission_identity, with_mission_id, complete_mission,
  complete_status,
}

pub normalized_mission_lifecycle_payload : SignedNodeEvent → Option Value
normalized_mission_lifecycle_payload event =
    map_object
      (λ m.
        with_mission_id (mission_identity event.payload)
          (complete_status event (complete_mission event (join "node:" event.node_id) m)))
      (as_object event.payload)

abbrev pub with_topic : Option String → Map → Map
with_topic none m = m
with_topic (some topic) m =
    or_insert "hive_id" (string topic) (or_insert "topic_id" (string topic) m)

abbrev pub hive_topic : SignedNodeEvent → Map → Option String
hive_topic event m =
    or_else (object_string m "topic_id")
      (or_else (object_string m "hive_id") (or_else event.scope.topic_id event.identity_key))

-- The last fields, which the normalizers share.
abbrev pub with_source : SignedNodeEvent → Map → Map
with_source event m =
    or_insert "snapshot_generated_at" (number event.timestamp)
      (or_insert "source_node_id" (string event.node_id) m)

pub complete_hive_metadata : SignedNodeEvent → Map → Map
complete_hive_metadata event m = with_source event (
    insert_string_if_missing "mission_id" event.scope.task_id (
      insert_string_if_missing "organization_id" event.scope.organization_id
        (with_topic (hive_topic event m) m)))

pub normalized_hive_metadata_payload : SignedNodeEvent → Option Value
normalized_hive_metadata_payload event =
    map_object (complete_hive_metadata event)
      (merged_payload_object event.payload ("hive" ∷ "topic" ∷ []))

pub with_message_id : SignedNodeEvent → Map → Map
with_message_id event m =
    or_insert "message_id"
      (string
        (unwrap_or (or_else (object_string m "message_id") event.identity_key) event.event_id))
      m

abbrev pub with_topic_id : SignedNodeEvent → Map → Map
with_topic_id event m =
    insert_string_if_missing "topic_id" (or_else (object_string m "hive_id") event.scope.topic_id) m

abbrev pub with_hive_id : SignedNodeEvent → Map → Map
with_hive_id event m =
    insert_string_if_missing "hive_id" (or_else (object_string m "topic_id") event.scope.topic_id) m

abbrev pub with_author_id : Map → Map
with_author_id m =
    insert_string_if_missing "author_id"
      (or_else (object_string m "author_public_id") (
        or_else (object_string m "public_id")
          (or_else (object_string m "controller_id") (object_string m "author_node_id"))))
      m

abbrev pub with_times : SignedNodeEvent → ℕ → Map → Map
with_times event created_at m = or_insert "snapshot_generated_at" (number event.timestamp) (
    or_insert "created_at" (number created_at)
      (or_insert "source_node_id" (string event.node_id) m))

pub complete_hive_activity : SignedNodeEvent → Map → Map
complete_hive_activity event m = with_times event event.timestamp (
    with_author_id (
      insert_string_if_missing "organization_id" event.scope.organization_id
        (with_hive_id event (with_topic_id event (with_message_id event m)))))

pub normalized_hive_activity_payload : SignedNodeEvent → Option Value
normalized_hive_activity_payload event =
    map_object (complete_hive_activity event) (merged_payload_object event.payload ("message" ∷ []))

pub complete_board_activity : SignedNodeEvent → Map → Map
complete_board_activity event m =
    with_times event (normalize_generated_at_millis event.timestamp) (with_message_id event m)

pub normalized_board_activity_payload : SignedNodeEvent → Option Value
normalized_board_activity_payload event =
    map_object (complete_board_activity event)
      (merged_payload_object event.payload ("board_message" ∷ []))

abbrev pub as_kind : DataKind → Option Value → Option (DataKind × Value)
as_kind kind none = none
as_kind kind (some payload) = some (kind, payload)

pub event_projection : SignedNodeEvent → Option (DataKind × Value)
event_projection event =
    if kind_beq event.data_kind mission_lifecycle
    then as_kind task_summary (normalized_mission_lifecycle_payload event)
    else if kind_beq event.data_kind hive_metadata
    then as_kind hive_metadata (normalized_hive_metadata_payload event)
    else if kind_beq event.data_kind hive_activity || kind_beq event.data_kind hive_message_posted
    then as_kind hive_activity (normalized_hive_activity_payload event)
    else if kind_beq event.data_kind board_activity
    then as_kind board_activity (normalized_board_activity_payload event)
    else if kind_beq event.data_kind ranking_projection
    then as_kind ranking_projection (normalized_ranking_projection_payload event)
    else none

abbrev pub same_text : Option String → Option String → Bool
same_text none none = true
same_text (some a) (some b) = str_eq a b
same_text _ _ = false

abbrev pub is_other_than : String → Option String → Bool
is_other_than text none = false
is_other_than text (some found) = not (str_eq found text)

-- A mission whose publisher is no organization is in no organization's scope.
pub normalized_event_scope : SignedNodeEvent → EventScope
normalized_event_scope event =
    if kind_beq event.data_kind mission_lifecycle
      && same_text event.scope.organization_id (as_text (get "publisher" event.payload))
      && is_other_than "organization" (as_text (get "publisher_kind" event.payload))
    then record event.scope { organization_id = none }
    else event.scope
