-- ===== src/Gateway/Contracts/World.antt =====
-- The rows of the network and of the world in `data_kind_metadata`
-- (crates/gateway/src/contracts.rs).
use watt_gateway.Prelude.{Bool, true, false, none, some, [], ◌∷◌, if◌then◌else◌}
use watt_gateway.Gateway.Contracts.Kinds.{
  DataKind, DataKindMetadata, aggregated_summary, event_push, forever, galaxy_event, hot,
  local_commit, network, network_projection, never_before_confirmation, overwrite_latest,
  product_projection, projection_after_confirmation, public_data, pull_only, rest_poll,
  rest_snapshot_bootstrap, rolling_n_days, snapshot_push, travel_state, warm, wattetheria,
  wattswarm, world, world_event, ws_stream,
}
use watt_gateway.Gateway.Contracts.Constants.{
  always_public_sla, default_provenance_fields, live_mechanism_sla, warm_product_sla,
}

abbrev is_galaxy_event : DataKind → Bool
is_galaxy_event galaxy_event = true
is_galaxy_event _ = false

abbrev is_world_event : DataKind → Bool
is_world_event world_event = true
is_world_event _ = false

abbrev pub network_projection_row : DataKindMetadata
network_projection_row = record {
  kind = network_projection;
  domain = network;
  stage = aggregated_summary;
  visibility = public_data;
  signing_authority = "wattswarm network snapshot signer";
  semantic_authority = "shared-fact network view";
  latency_class = warm;
  consistency_class = projection_after_confirmation;
  storage_shape = "network_projection";
  identity_fields = "node_id" ∷ "network_id" ∷ "id" ∷ [];
  payload_version = 1;
  provisional_export_policy = never_before_confirmation;
  retention_policy = overwrite_latest;
  provenance_fields = default_provenance_fields;
  sla_targets = warm_product_sla;
  primary_source = wattswarm;
  fallback_source = some wattetheria;
  ingest_mode = pull_only;
  ui_delivery_mode = rest_poll;
  hybrid_subtype = none;
  game_client_stable = true;
  pull_only_fallback_data = false;
}

abbrev pub travel_state_row : DataKindMetadata
travel_state_row = record {
  kind = travel_state;
  domain = world;
  stage = product_projection;
  visibility = public_data;
  signing_authority = "wattetheria node key";
  semantic_authority = "travel state registry";
  latency_class = warm;
  consistency_class = local_commit;
  storage_shape = "node_public_state";
  identity_fields = "route_id" ∷ "public_id" ∷ "id" ∷ [];
  payload_version = 1;
  provisional_export_policy = never_before_confirmation;
  retention_policy = overwrite_latest;
  provenance_fields = default_provenance_fields;
  sla_targets = warm_product_sla;
  primary_source = wattetheria;
  fallback_source = none;
  ingest_mode = snapshot_push;
  ui_delivery_mode = rest_snapshot_bootstrap;
  hybrid_subtype = none;
  game_client_stable = true;
  pull_only_fallback_data = false;
}

abbrev pub galaxy_event_row : DataKind → DataKindMetadata
galaxy_event_row kind = record {
  kind = kind;
  domain = world;
  stage = product_projection;
  visibility = public_data;
  signing_authority =
      if is_world_event kind then "trusted Network Authority key" else "wattetheria node key";
  semantic_authority = "world rule engine";
  latency_class = if is_galaxy_event kind then hot else warm;
  consistency_class = local_commit;
  storage_shape = "task_conclusion_projection";
  identity_fields = "event_id" ∷ "id" ∷ [];
  payload_version = 1;
  provisional_export_policy = never_before_confirmation;
  retention_policy = if is_galaxy_event kind then rolling_n_days else forever;
  provenance_fields = default_provenance_fields;
  sla_targets = if is_galaxy_event kind then live_mechanism_sla else always_public_sla;
  primary_source = wattetheria;
  fallback_source = none;
  ingest_mode = event_push;
  ui_delivery_mode = ws_stream;
  hybrid_subtype = none;
  game_client_stable = true;
  pull_only_fallback_data = false;
}
