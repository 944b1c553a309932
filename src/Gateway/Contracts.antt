-- ===== src/Gateway/Contracts.antt =====
-- The data-kind catalogue of crates/gateway/src/contracts.rs, and what the gateway reads off it.
-- JSON is an argument: `get_str` is `value.get(key).and_then(Value::as_str)`.
pub mod Kinds
mod Constants
mod Product
mod Mechanism
mod Social
mod World
mod Every
mod Laws
mod Tests
use watt_gateway.Prelude.{
  String, Bool, true, false, ◌&&◌, not, Option, none, some, List, [], ◌∷◌, is_blank, if◌then◌else◌,
}
use watt_gateway.Gateway.Contracts.Kinds.{
  DataKind, space_presence, presence, identity, operator_profile, organization_summary,
  mission_lifecycle, task_summary, task_vote_signal, task_round_update, task_decision_finalized,
  governance_proposal, governance_vote, governance_decision, oracle_feed_update, settlement_event,
  reputation_update, ranking_projection, hive_metadata, hive_subscription, hive_message_posted,
  hive_activity, board_activity, friend_relationship, friend_request_pending, public_block,
  social_thread, dm_summary, dm_message, network_projection, travel_state, galaxy_event,
  world_event, DataKindMetadata, Visibility, public_data, protected_data, GatewayIngestMode,
  UiDeliveryMode, ws_stream, HybridSubtype,
}
use watt_gateway.Gateway.Contracts.Product.{
  space_presence_row, presence_row, identity_row, mission_lifecycle_row, task_summary_row,
  task_vote_signal_row, task_decision_finalized_row,
}
use watt_gateway.Gateway.Contracts.Mechanism.{
  governance_proposal_row, oracle_feed_update_row, settlement_event_row, ranking_projection_row,
}
use watt_gateway.Gateway.Contracts.Social.{
  hive_metadata_row, hive_subscription_row, hive_message_posted_row, hive_activity_row,
  board_activity_row, friend_relationship_row, social_thread_row, dm_message_row,
}
use watt_gateway.Gateway.Contracts.World.{
  network_projection_row, travel_state_row, galaxy_event_row,
}

pub data_kind_metadata : DataKind → DataKindMetadata
data_kind_metadata space_presence = space_presence_row
data_kind_metadata presence = presence_row
data_kind_metadata identity = identity_row identity
data_kind_metadata operator_profile = identity_row operator_profile
data_kind_metadata organization_summary = identity_row organization_summary
data_kind_metadata mission_lifecycle = mission_lifecycle_row
data_kind_metadata task_summary = task_summary_row
data_kind_metadata task_vote_signal = task_vote_signal_row task_vote_signal
data_kind_metadata task_round_update = task_vote_signal_row task_round_update
data_kind_metadata task_decision_finalized = task_decision_finalized_row
data_kind_metadata governance_proposal = governance_proposal_row governance_proposal
data_kind_metadata governance_vote = governance_proposal_row governance_vote
data_kind_metadata governance_decision = governance_proposal_row governance_decision
data_kind_metadata oracle_feed_update = oracle_feed_update_row
data_kind_metadata settlement_event = settlement_event_row settlement_event
data_kind_metadata reputation_update = settlement_event_row reputation_update
data_kind_metadata ranking_projection = ranking_projection_row
data_kind_metadata hive_metadata = hive_metadata_row
data_kind_metadata hive_subscription = hive_subscription_row
data_kind_metadata hive_message_posted = hive_message_posted_row
data_kind_metadata hive_activity = hive_activity_row
data_kind_metadata board_activity = board_activity_row
data_kind_metadata friend_relationship = friend_relationship_row friend_relationship
data_kind_metadata friend_request_pending = friend_relationship_row friend_request_pending
data_kind_metadata public_block = friend_relationship_row public_block
data_kind_metadata social_thread = social_thread_row social_thread
data_kind_metadata dm_summary = social_thread_row dm_summary
data_kind_metadata dm_message = dm_message_row
data_kind_metadata network_projection = network_projection_row
data_kind_metadata travel_state = travel_state_row
data_kind_metadata galaxy_event = galaxy_event_row galaxy_event
data_kind_metadata world_event = galaxy_event_row world_event

pub record DataKindPolicy : Type 0 where
  pub ingest_mode : GatewayIngestMode
  pub ui_delivery_mode : UiDeliveryMode
  pub hybrid_subtype : Option HybridSubtype
  pub visibility : Visibility

pub data_kind_policy : DataKind → DataKindPolicy
data_kind_policy kind =
    let metadata = data_kind_metadata kind in
    record {
      ingest_mode = metadata.ingest_mode;
      ui_delivery_mode = metadata.ui_delivery_mode;
      hybrid_subtype = metadata.hybrid_subtype;
      visibility = metadata.visibility;
    }

abbrev pub is_public : Visibility → Bool
is_public public_data = true
is_public protected_data = false

abbrev pub is_ws_stream : UiDeliveryMode → Bool
is_ws_stream ws_stream = true
is_ws_stream _ = false

pub allows_public_stream : DataKind → Bool
allows_public_stream kind =
    let metadata = data_kind_metadata kind in
    is_public metadata.visibility && is_ws_stream metadata.ui_delivery_mode

pub visibility_for_kind : DataKind → Visibility
visibility_for_kind kind = (data_kind_metadata kind).visibility

module _ {Value : Type 0} (get_str : Value → String → Option String) where
  abbrev or_next : Option String → Option String → Option String
  or_next none next = next
  or_next (some text) next = some text

  -- `find_map`
  pub find_text : List String → Value → Option String
  find_text [] value = none
  find_text (key ∷ keys) value = or_next (get_str value key) (find_text keys value)

  -- `filter` and `unwrap_or_else`
  abbrev non_blank_or : String → Option String → String
  non_blank_or fallback none = fallback
  non_blank_or fallback (some candidate) = if not (is_blank candidate) then candidate else fallback

  pub projection_identity_key : DataKind → Value → String → String
  projection_identity_key kind value fallback_source_node_id =
      non_blank_or fallback_source_node_id
        (find_text (data_kind_metadata kind).identity_fields value)
