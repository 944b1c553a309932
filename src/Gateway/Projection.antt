-- ===== src/Gateway/Projection.antt =====
-- What an event projects to: `event_projection` of crates/gateway/src/streaming.rs. Here is what
-- its normalizers share, and those of rankings and missions; Event has the others.
pub mod Event
pub mod Keeps
pub mod Merged
pub mod Rows
use watt_gateway.Prelude.{
  ℕ, ◌*◌, String, Bool, true, false, not, ◌&&◌, ◌||◌, Option, none, some, List, [], ◌∷◌, ◌++◌, leb,
  str_eq, if◌then◌else◌, any, is_blank, string_eq, lookup, insert,
}
use watt_gateway.Gateway.Json.{Value, number, string, object, Map, from_map, as_object, as_str, get}
use watt_gateway.Gateway.Contracts.Kinds.{
  DataKind, kind_beq, mission_lifecycle, task_summary, hive_metadata, hive_activity,
  hive_message_posted, board_activity, ranking_projection,
}
use watt_gateway.Gateway.NodeEvent.{SignedNodeEvent}

-- `or_else`
abbrev pub or_else : Option String → Option String → Option String
or_else none next = next
or_else (some text) next = some text

abbrev pub or_else_value : Option Value → Option Value → Option Value
or_else_value none next = next
or_else_value (some value) next = some value

abbrev pub unwrap_or : Option String → String → String
unwrap_or none default = default
unwrap_or (some text) default = text

-- `filter(|value| !value.trim().is_empty())`
abbrev pub non_blank : Option String → Option String
non_blank none = none
non_blank (some text) = if not (is_blank text) then some text else none

abbrev pub as_text : Option Value → Option String
as_text none = none
as_text (some value) = as_str value

-- `entry(key).or_insert(value)`
abbrev pub or_insert_at : Option Value → String → Value → Map → Map
or_insert_at (some present) key value m = m
or_insert_at none key value m = insert key value m

pub or_insert : String → Value → Map → Map
or_insert key value m = or_insert_at (lookup key m) key value m

pub object_string : Map → String → Option String
object_string m key = non_blank (as_text (lookup key m))

abbrev pub or_insert_some : String → Option String → Map → Map
or_insert_some key none m = m
or_insert_some key (some text) m = or_insert key (string text) m

pub insert_string_if_missing : String → Option String → Map → Map
insert_string_if_missing key value m = or_insert_some key (non_blank value) m

-- `find_map` of an object under one of the keys
abbrev pub or_else_map : Option Map → Option Map → Option Map
or_else_map none next = next
or_else_map (some m) next = some m

abbrev pub as_map : Option Value → Option Map
as_map none = none
as_map (some value) = as_object value

pub find_nested : List String → Value → Option Map
find_nested [] payload = none
find_nested (key ∷ keys) payload = or_else_map (as_map (get key payload)) (find_nested keys payload)

abbrev pub or_empty : Option Map → Map
or_empty none = []
or_empty (some m) = m

-- The fields of the payload beside the nested object, where that has no field of the name.
pub add_top_level : List String → Map → Map → Map
add_top_level nested_keys [] m = m
add_top_level nested_keys ((key, value) ∷ rest) m =
    let with_key = if any (str_eq key) nested_keys then m else or_insert key value m in
    add_top_level nested_keys rest with_key

abbrev pub non_empty : Map → Option Map
non_empty [] = none
non_empty (field ∷ rest) = some (field ∷ rest)

pub merged_payload_object : Value → List String → Option Map
merged_payload_object payload nested_keys = non_empty (
    add_top_level nested_keys (or_empty (as_object payload))
      (or_empty (find_nested nested_keys payload)))

-- `normalize_generated_at_millis`, for times from 1970 on.
pub normalize_generated_at_millis : ℕ → ℕ
normalize_generated_at_millis generated_at =
    if leb 100000000000 generated_at then generated_at else generated_at * 1000

abbrev pub map_object : (Map → Map) → Option Map → Option Value
map_object complete none = none
map_object complete (some m) = some (object (from_map (complete m)))

-- The completions of `normalized_ranking_projection_payload`, once the identity is found.
pub complete_ranking : SignedNodeEvent → String → Map → Map
complete_ranking event identity m = or_insert "snapshot_generated_at" (number event.timestamp) (
    or_insert "source_node_id" (string event.node_id) (
      or_insert "id" (string identity)
        (or_insert "agent_did" (string identity) (or_insert "public_id" (string identity) m))))

abbrev pub ranking_of : SignedNodeEvent → Option String → Map → Option Value
ranking_of event none m = none
ranking_of event (some identity) m = some (object (from_map (complete_ranking event identity m)))

abbrev pub ranking_from : SignedNodeEvent → Option Map → Option Value
ranking_from event none = none
ranking_from event (some m) =
    ranking_of event
      (or_else (object_string m "public_id")
        (or_else (object_string m "agent_did") (or_else (object_string m "id") event.identity_key)))
      m

pub normalized_ranking_projection_payload : SignedNodeEvent → Option Value
normalized_ranking_projection_payload event = ranking_from event (as_object event.payload)

pub status_from_mission_event_kind : String → String
status_from_mission_event_kind event_kind =
    if str_eq event_kind "mission.claimed"
    then "claimed"
    else if str_eq event_kind "mission.completed"
    then "completed"
    else if str_eq event_kind "mission.settled"
    then "settled"
    else "published"

abbrev pub normalized_status : Option String → Value → String → Value
normalized_status none status event_kind = string (status_from_mission_event_kind event_kind)
normalized_status (some text) status event_kind =
    if str_eq text "open" then string (status_from_mission_event_kind event_kind) else status

pub normalize_mission_event_status : Value → String → Value
normalize_mission_event_status status event_kind =
    normalized_status (as_str status) status event_kind

-- `and_modify` and `or_insert_with` on the status
abbrev pub with_status : Option Value → String → Map → Map
with_status none event_kind m =
    insert "status" (string (status_from_mission_event_kind event_kind)) m
with_status (some status) event_kind m =
    insert "status" (normalize_mission_event_status status event_kind) m

pub mission_identity : Value → Option String
mission_identity payload = non_blank (
    as_text (
      or_else_value (get "mission_id" payload)
        (or_else_value (get "task_id" payload) (get "id" payload))))

abbrev pub with_mission_id : Option String → Map → Map
with_mission_id none m = m
with_mission_id (some id) m =
    or_insert "id" (string id)
      (or_insert "task_id" (string id) (or_insert "mission_id" (string id) m))

-- What the mission's fields are completed by before the status.
pub complete_mission : SignedNodeEvent → String → Map → Map
complete_mission event scope_hint m = or_insert "mission_feed_key" (string "wattetheria.missions") (
    or_insert "mission_scope_hint" (string scope_hint) (
      or_insert "publisher_wattswarm_node_id" (string event.node_id) (
        or_insert "source_node_id" (string event.node_id)
          (or_insert "task_type" (string "wattetheria.mission") m))))

pub complete_status : SignedNodeEvent → Map → Map
complete_status event m = with_status (lookup "status" m) event.event_kind m
