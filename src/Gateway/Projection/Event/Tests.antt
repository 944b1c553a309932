-- ===== src/Gateway/Projection/Event/Tests.antt =====
-- The projection of a mission that is claimed (crates/gateway/src/streaming.rs).
use watt_gateway.Prelude.{◌≡◌, refl, none, some, [], ◌∷◌, lookup, insert, is_blank}
use watt_gateway.Gateway.Json.{Value, string, object, from_map, fields}
use watt_gateway.Gateway.Contracts.Kinds.{
  public_data, never_before_confirmation, mission_lifecycle, task_summary, kind_beq, kind_index,
}
use watt_gateway.Gateway.NodeEvent.{SignedNodeEvent}
use watt_gateway.Gateway.Projection.{
  or_insert, complete_mission, complete_status, mission_identity, status_from_mission_event_kind,
  normalize_mission_event_status,
}
use watt_gateway.Gateway.Projection.Event.{normalized_mission_lifecycle_payload, event_projection}
use watt_gateway.Gateway.Projection.Event.Completes.{
  IsCompleted, nested_keys_of, projection_completes,
}

abbrev claim : SignedNodeEvent
claim = record {
  event_id = "event";
  node_id = "node";
  signer_agent_did = "agent";
  data_kind = mission_lifecycle;
  event_kind = "mission.claimed";
  visibility = public_data;
  provisional_policy = never_before_confirmation;
  scope = record { node_id = none; topic_id = none; organization_id = none; task_id = none };
  identity_key = none;
  timestamp = 1;
  seq = 2;
  payload =
      object (
        from_map
          (("task_id", string "m") ∷ ("status", string "open") ∷ ("title", string "t") ∷ []));
}

abbrev summary : Value
summary = object (
    from_map (
      ("task_id", string "m")
      ∷ ("status", string "claimed")
      ∷ ("title", string "t")
      ∷ ("task_type", string "wattetheria.mission")
      ∷ ("source_node_id", string "node")
      ∷ ("publisher_wattswarm_node_id", string "node")
      ∷ ("mission_scope_hint", string "node:node")
      ∷ ("mission_feed_key", string "wattetheria.missions")
      ∷ ("mission_id", string "m")
      ∷ ("id", string "m")
      ∷ []))

claim_projects : event_projection claim ≡ some (task_summary, summary)
unfolding event_projection normalized_mission_lifecycle_payload complete_mission complete_status
    mission_identity status_from_mission_event_kind normalize_mission_event_status or_insert lookup
    insert is_blank from_map fields kind_beq kind_index
claim_projects = refl

projection_completes_example : IsCompleted claim (nested_keys_of claim.data_kind) summary
projection_completes_example = projection_completes claim task_summary summary claim_projects
