-- ===== src/Gateway/Contracts/Social.antt =====
-- The rows of hives and of social ties in `data_kind_metadata`
-- (crates/gateway/src/contracts.rs).
use watt_gateway.Prelude.{true, false, none, some, [], ◌∷◌}
use watt_gateway.Gateway.Contracts.Kinds.{
  DataKind, DataKindMetadata, aggregated_summary, board_activity, confirmed_mechanism,
  derived_projection, dm_message, drop_after_conclusion, ephemeral_only, event_push,
  eventual_mechanism, hive_activity, hive_message_posted, hive_metadata, hive_subscription, hot,
  hybrid, input, local_commit, mechanism_conclusion, never_before_confirmation, overlay,
  overwrite_latest, product_projection, projection_after_confirmation, protected_data, public_data,
  pull_only, rest_on_demand, rest_poll, rest_snapshot_bootstrap, rolling_n_days, semantic_wrap,
  snapshot_latest, snapshot_push, social, warm, wattetheria, wattswarm, ws_stream,
}
use watt_gateway.Gateway.Contracts.Constants.{
  default_provenance_fields, live_mechanism_sla, warm_product_sla,
}

abbrev pub hive_metadata_row : DataKindMetadata
hive_metadata_row = record {
  kind = hive_metadata;
  domain = social;
  stage = product_projection;
  visibility = public_data;
  signing_authority = "wattetheria node key";
  semantic_authority = "wattetheria wraps wattswarm topic facts";
  latency_class = warm;
  consistency_class = projection_after_confirmation;
  storage_shape = "topic_activity_projection";
  identity_fields = "topic_id" ∷ "id" ∷ [];
  payload_version = 1;
  provisional_export_policy = never_before_confirmation;
  retention_policy = overwrite_latest;
  provenance_fields = default_provenance_fields;
  sla_targets = warm_product_sla;
  primary_source = hybrid;
  fallback_source = some wattetheria;
  ingest_mode = derived_projection;
  ui_delivery_mode = rest_snapshot_bootstrap;
  hybrid_subtype = some semantic_wrap;
  game_client_stable = true;
  pull_only_fallback_data = false;
}

abbrev pub hive_subscription_row : DataKindMetadata
hive_subscription_row = record {
  kind = hive_subscription;
  domain = social;
  stage = mechanism_conclusion;
  visibility = public_data;
  signing_authority = "wattswarm subscription projection signer";
  semantic_authority = "wattswarm topic subscription projection";
  latency_class = hot;
  consistency_class = confirmed_mechanism;
  storage_shape = "topic_subscription_projection";
  identity_fields = "subscription_id" ∷ "id" ∷ [];
  payload_version = 1;
  provisional_export_policy = never_before_confirmation;
  retention_policy = overwrite_latest;
  provenance_fields = default_provenance_fields;
  sla_targets = live_mechanism_sla;
  primary_source = wattswarm;
  fallback_source = some wattetheria;
  ingest_mode = pull_only;
  ui_delivery_mode = rest_snapshot_bootstrap;
  hybrid_subtype = none;
  game_client_stable = true;
  pull_only_fallback_data = false;
}

abbrev pub hive_message_posted_row : DataKindMetadata
hive_message_posted_row = record {
  kind = hive_message_posted;
  domain = social;
  stage = input;
  visibility = public_data;
  signing_authority = "agent envelope signer";
  semantic_authority = "wattswarm topic mechanism";
  latency_class = hot;
  consistency_class = eventual_mechanism;
  storage_shape = "topic_activity_projection";
  identity_fields = "message_id" ∷ "topic_id" ∷ "id" ∷ [];
  payload_version = 1;
  provisional_export_policy = ephemeral_only;
  retention_policy = drop_after_conclusion;
  provenance_fields = default_provenance_fields;
  sla_targets = live_mechanism_sla;
  primary_source = wattswarm;
  fallback_source = some wattetheria;
  ingest_mode = event_push;
  ui_delivery_mode = ws_stream;
  hybrid_subtype = none;
  game_client_stable = true;
  pull_only_fallback_data = false;
}

abbrev pub hive_activity_row : DataKindMetadata
hive_activity_row = record {
  kind = hive_activity;
  domain = social;
  stage = mechanism_conclusion;
  visibility = public_data;
  signing_authority = "wattswarm message projection signer";
  semantic_authority = "wattswarm topic history";
  latency_class = hot;
  consistency_class = confirmed_mechanism;
  storage_shape = "topic_activity_projection";
  identity_fields = "message_id" ∷ "topic_id" ∷ "id" ∷ [];
  payload_version = 1;
  provisional_export_policy = never_before_confirmation;
  retention_policy = rolling_n_days;
  provenance_fields = default_provenance_fields;
  sla_targets = live_mechanism_sla;
  primary_source = wattswarm;
  fallback_source = some wattetheria;
  ingest_mode = pull_only;
  ui_delivery_mode = ws_stream;
  hybrid_subtype = none;
  game_client_stable = true;
  pull_only_fallback_data = false;
}

abbrev pub board_activity_row : DataKindMetadata
board_activity_row = record {
  kind = board_activity;
  domain = social;
  stage = product_projection;
  visibility = public_data;
  signing_authority = "wattetheria node key";
  semantic_authority = "wattetheria message board";
  latency_class = warm;
  consistency_class = projection_after_confirmation;
  storage_shape = "board_activity_projection";
  identity_fields = "message_id" ∷ "id" ∷ [];
  payload_version = 1;
  provisional_export_policy = never_before_confirmation;
  retention_policy = rolling_n_days;
  provenance_fields = default_provenance_fields;
  sla_targets = warm_product_sla;
  primary_source = wattetheria;
  fallback_source = none;
  ingest_mode = snapshot_push;
  ui_delivery_mode = ws_stream;
  hybrid_subtype = none;
  game_client_stable = true;
  pull_only_fallback_data = false;
}

abbrev pub friend_relationship_row : DataKind → DataKindMetadata
friend_relationship_row kind = record {
  kind = kind;
  domain = social;
  stage = aggregated_summary;
  visibility = public_data;
  signing_authority = "wattetheria node key";
  semantic_authority = "relationship state machine";
  latency_class = warm;
  consistency_class = local_commit;
  storage_shape = "node_public_state";
  identity_fields = "counterpart_public_id" ∷ "public_id" ∷ "id" ∷ [];
  payload_version = 1;
  provisional_export_policy = never_before_confirmation;
  retention_policy = overwrite_latest;
  provenance_fields = default_provenance_fields;
  sla_targets = warm_product_sla;
  primary_source = hybrid;
  fallback_source = some wattetheria;
  ingest_mode = snapshot_push;
  ui_delivery_mode = rest_poll;
  hybrid_subtype = some overlay;
  game_client_stable = true;
  pull_only_fallback_data = false;
}

abbrev pub social_thread_row : DataKind → DataKindMetadata
social_thread_row kind = record {
  kind = kind;
  domain = social;
  stage = aggregated_summary;
  visibility = protected_data;
  signing_authority = "wattetheria node key";
  semantic_authority = "conversation projection";
  latency_class = warm;
  consistency_class = snapshot_latest;
  storage_shape = "node_public_state";
  identity_fields = "thread_id" ∷ "id" ∷ [];
  payload_version = 1;
  provisional_export_policy = never_before_confirmation;
  retention_policy = overwrite_latest;
  provenance_fields = default_provenance_fields;
  sla_targets = warm_product_sla;
  primary_source = hybrid;
  fallback_source = some wattetheria;
  ingest_mode = snapshot_push;
  ui_delivery_mode = rest_on_demand;
  hybrid_subtype = some overlay;
  game_client_stable = true;
  pull_only_fallback_data = false;
}

abbrev pub dm_message_row : DataKindMetadata
dm_message_row = record {
  kind = dm_message;
  domain = social;
  stage = aggregated_summary;
  visibility = protected_data;
  signing_authority = "wattetheria node key";
  semantic_authority = "conversation projection";
  latency_class = warm;
  consistency_class = snapshot_latest;
  storage_shape = "node_public_state";
  identity_fields = "message_id" ∷ "id" ∷ [];
  payload_version = 1;
  provisional_export_policy = never_before_confirmation;
  retention_policy = rolling_n_days;
  provenance_fields = default_provenance_fields;
  sla_targets = warm_product_sla;
  primary_source = hybrid;
  fallback_source = some wattetheria;
  ingest_mode = snapshot_push;
  ui_delivery_mode = rest_on_demand;
  hybrid_subtype = some overlay;
  game_client_stable = true;
  pull_only_fallback_data = false;
}
