-- ===== src/Gateway/Contracts/Every.antt =====
-- The kinds of the catalogue, and a test of all of them (crates/gateway/src/contracts.rs).
use watt_gateway.Prelude.{◌≡◌, Bool, true, List, [], ◌∷◌, all, arith}
use watt_gateway.Gateway.Contracts.Kinds.{
  DataKind, space_presence, presence, identity, operator_profile, organization_summary,
  mission_lifecycle, task_summary, task_vote_signal, task_round_update, task_decision_finalized,
  governance_proposal, governance_vote, governance_decision, oracle_feed_update, settlement_event,
  reputation_update, ranking_projection, hive_metadata, hive_subscription, hive_message_posted,
  hive_activity, board_activity, friend_relationship, friend_request_pending, public_block,
  social_thread, dm_summary, dm_message, network_projection, travel_state, galaxy_event,
  world_event,
}

-- The kinds that the tests of the catalogue go through.
abbrev pub all_data_kinds : List DataKind
all_data_kinds =
    space_presence ∷ presence ∷ identity ∷ operator_profile ∷ organization_summary
    ∷ mission_lifecycle ∷ task_summary ∷ task_vote_signal ∷ task_round_update
    ∷ task_decision_finalized ∷ governance_proposal ∷ governance_vote ∷ governance_decision
    ∷ oracle_feed_update ∷ settlement_event ∷ reputation_update ∷ ranking_projection ∷ hive_metadata
    ∷ hive_subscription ∷ hive_message_posted ∷ hive_activity ∷ board_activity ∷ friend_relationship
    ∷ friend_request_pending ∷ public_block ∷ social_thread ∷ dm_summary ∷ dm_message
    ∷ network_projection ∷ travel_state ∷ galaxy_event ∷ world_event ∷ []

-- What holds of each kind of the list holds of every kind.
pub every_kind :
    (p : DataKind → Bool) → all p all_data_kinds ≡ true → (kind : DataKind) → p kind ≡ true
every_kind p h space_presence = ground arith
every_kind p h presence = ground arith
every_kind p h identity = ground arith
every_kind p h operator_profile = ground arith
every_kind p h organization_summary = ground arith
every_kind p h mission_lifecycle = ground arith
every_kind p h task_summary = ground arith
every_kind p h task_vote_signal = ground arith
every_kind p h task_round_update = ground arith
every_kind p h task_decision_finalized = ground arith
every_kind p h governance_proposal = ground arith
every_kind p h governance_vote = ground arith
every_kind p h governance_decision = ground arith
every_kind p h oracle_feed_update = ground arith
every_kind p h settlement_event = ground arith
every_kind p h reputation_update = ground arith
every_kind p h ranking_projection = ground arith
every_kind p h hive_metadata = ground arith
every_kind p h hive_subscription = ground arith
every_kind p h hive_message_posted = ground arith
every_kind p h hive_activity = ground arith
every_kind p h board_activity = ground arith
every_kind p h friend_relationship = ground arith
every_kind p h friend_request_pending = ground arith
every_kind p h public_block = ground arith
every_kind p h social_thread = ground arith
every_kind p h dm_summary = ground arith
every_kind p h dm_message = ground arith
every_kind p h network_projection = ground arith
every_kind p h travel_state = ground arith
every_kind p h galaxy_event = ground arith
every_kind p h world_event = ground arith
