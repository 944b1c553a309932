-- ===== src/Gateway/Contracts/Kinds.antt =====
-- The types of the data-kind catalogue (crates/gateway/src/contracts.rs). `DataKind`, `Visibility`
-- and `ProvisionalExportPolicy` are wattetheria_gateway_contract's, with the cases that the
-- catalogue matches and uses.
use watt_gateway.Prelude.{ℕ, String, Bool, Option, List, ◌==◌}

pub data DataKind : Type 0 where
  space_presence presence identity operator_profile organization_summary mission_lifecycle :
      DataKind
  task_summary task_vote_signal task_round_update task_decision_finalized governance_proposal
        governance_vote :
      DataKind
  governance_decision oracle_feed_update settlement_event reputation_update ranking_projection
        hive_metadata :
      DataKind
  hive_subscription hive_message_posted hive_activity board_activity friend_relationship
        friend_request_pending :
      DataKind
  public_block social_thread dm_summary dm_message network_projection travel_state : DataKind
  galaxy_event world_event : DataKind

pub data Visibility : Type 0 where
  public_data protected_data : Visibility

pub data ProvisionalExportPolicy : Type 0 where
  never_before_confirmation ephemeral_only provisional_with_downgrade : ProvisionalExportPolicy

pub data SemanticDomain : Type 0 where
  product mechanism social governance network world : SemanticDomain

pub data DataStage : Type 0 where
  input mechanism_process mechanism_conclusion product_projection aggregated_summary : DataStage

pub data LatencyClass : Type 0 where
  hot warm cold : LatencyClass

pub data ConsistencyClass : Type 0 where
  local_commit eventual_mechanism confirmed_mechanism projection_after_confirmation
        snapshot_latest :
      ConsistencyClass

pub data RetentionPolicy : Type 0 where
  forever rolling_n_days overwrite_latest drop_after_conclusion : RetentionPolicy

pub data SourceSystem : Type 0 where
  wattetheria wattswarm hybrid : SourceSystem

pub data GatewayIngestMode : Type 0 where
  snapshot_push event_push gossip_subscribe iroh_direct_fetch pull_only derived_projection :
      GatewayIngestMode

pub data UiDeliveryMode : Type 0 where
  ws_stream rest_poll rest_snapshot_bootstrap rest_on_demand debug_only : UiDeliveryMode

pub data HybridSubtype : Type 0 where
  overlay merge semantic_wrap : HybridSubtype

pub record SlaTargets : Type 0 where
  pub hot_path_target_ms : Option ℕ
  pub max_staleness_sec : ℕ

pub record DataKindMetadata : Type 0 where
  pub kind : DataKind
  pub domain : SemanticDomain
  pub stage : DataStage
  pub visibility : Visibility
  pub signing_authority : String
  pub semantic_authority : String
  pub latency_class : LatencyClass
  pub consistency_class : ConsistencyClass
  pub storage_shape : String
  pub identity_fields : List String
  pub payload_version : ℕ
  pub provisional_export_policy : ProvisionalExportPolicy
  pub retention_policy : RetentionPolicy
  pub provenance_fields : List String
  pub sla_targets : SlaTargets
  pub primary_source : SourceSystem
  pub fallback_source : Option SourceSystem
  pub ingest_mode : GatewayIngestMode
  pub ui_delivery_mode : UiDeliveryMode
  pub hybrid_subtype : Option HybridSubtype
  pub game_client_stable : Bool
  pub pull_only_fallback_data : Bool

-- The position of a kind, by which two are compared.
unfoldable pub kind_index : DataKind → ℕ
kind_index space_presence = 0
kind_index presence = 1
kind_index identity = 2
kind_index operator_profile = 3
kind_index organization_summary = 4
kind_index mission_lifecycle = 5
kind_index task_summary = 6
kind_index task_vote_signal = 7
kind_index task_round_update = 8
kind_index task_decision_finalized = 9
kind_index governance_proposal = 10
kind_index governance_vote = 11
kind_index governance_decision = 12
kind_index oracle_feed_update = 13
kind_index settlement_event = 14
kind_index reputation_update = 15
kind_index ranking_projection = 16
kind_index hive_metadata = 17
kind_index hive_subscription = 18
kind_index hive_message_posted = 19
kind_index hive_activity = 20
kind_index board_activity = 21
kind_index friend_relationship = 22
kind_index friend_request_pending = 23
kind_index public_block = 24
kind_index social_thread = 25
kind_index dm_summary = 26
kind_index dm_message = 27
kind_index network_projection = 28
kind_index travel_state = 29
kind_index galaxy_event = 30
kind_index world_event = 31

unfoldable pub kind_beq : DataKind → DataKind → Bool
kind_beq a b = kind_index a == kind_index b
