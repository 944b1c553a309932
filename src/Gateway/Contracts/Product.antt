-- ===== src/Gateway/Contracts/Product.antt =====
-- The rows of presence, of identities and of missions and tasks in `data_kind_metadata`
-- (crates/gateway/src/contracts.rs).
use watt_gateway.Prelude.{Bool, true, false, none, some, [], ◌∷◌, if◌then◌else◌}
use watt_gateway.Gateway.Contracts.Kinds.{
  DataKind, DataKindMetadata, aggregated_summary, confirmed_mechanism, derived_projection,
  ephemeral_only, event_push, eventual_mechanism, forever, hot, hybrid, input, local_commit,
  mechanism, mechanism_conclusion, mechanism_process, mission_lifecycle, never_before_confirmation,
  organization_summary, overlay, overwrite_latest, presence, product, product_projection,
  projection_after_confirmation, provisional_with_downgrade, public_data, rest_snapshot_bootstrap,
  rolling_n_days, semantic_wrap, snapshot_latest, snapshot_push, social, space_presence,
  task_decision_finalized, task_summary, task_vote_signal, warm, wattetheria, wattswarm, world,
  ws_stream,
}
use watt_gateway.Gateway.Contracts.Constants.{
  default_provenance_fields, live_mechanism_sla, warm_product_sla,
}

abbrev is_organization_summary : DataKind → Bool
is_organization_summary organization_summary = true
is_organization_summary _ = false

abbrev is_task_vote_signal : DataKind → Bool
is_task_vote_signal task_vote_signal = true
is_task_vote_signal _ = false

abbrev pub space_presence_row : DataKindMetadata
space_presence_row = record {
  kind = space_presence;
  domain = world;
  stage = product_projection;
  visibility = public_data;
  signing_authority = "agent identity key";
  semantic_authority = "wattetheria space presence";
  latency_class = warm;
  consistency_class = local_commit;
  storage_shape = "space_presence_latest";
  identity_fields = "space_id" ∷ "agent_did" ∷ [];
  payload_version = 1;
  provisional_export_policy = never_before_confirmation;
  retention_policy = overwrite_latest;
  provenance_fields = default_provenance_fields;
  sla_targets = warm_product_sla;
  primary_source = wattetheria;
  fallback_source = none;
  ingest_mode = event_push;
  ui_delivery_mode = ws_stream;
  hybrid_subtype = none;
  game_client_stable = true;
  pull_only_fallback_data = false;
}

abbrev pub presence_row : DataKindMetadata
presence_row = record {
  kind = presence;
  domain = social;
  stage = aggregated_summary;
  visibility = public_data;
  signing_authority = "wattetheria node key";
  semantic_authority = "wattetheria social projection";
  latency_class = warm;
  consistency_class = snapshot_latest;
  storage_shape = "node_public_state";
  identity_fields = "node_id" ∷ "public_id" ∷ "id" ∷ [];
  payload_version = 1;
  provisional_export_policy = never_before_confirmation;
  retention_policy = overwrite_latest;
  provenance_fields = default_provenance_fields;
  sla_targets = warm_product_sla;
  primary_source = hybrid;
  fallback_source = some wattetheria;
  ingest_mode = derived_projection;
  ui_delivery_mode = ws_stream;
  hybrid_subtype = some overlay;
  game_client_stable = true;
  pull_only_fallback_data = false;
}

abbrev pub identity_row : DataKind → DataKindMetadata
identity_row kind = record {
  kind = kind;
  domain = product;
  stage = product_projection;
  visibility = public_data;
  signing_authority = "wattetheria node key";
  semantic_authority = "wattetheria product rules";
  latency_class = warm;
  consistency_class = local_commit;
  storage_shape = "identity_projection";
  identity_fields =
      if is_organization_summary kind
      then "organization_id" ∷ "id" ∷ []
      else "agent_did" ∷ "public_id" ∷ "id" ∷ [];
  payload_version = 1;
  provisional_export_policy = never_before_confirmation;
  retention_policy = overwrite_latest;
  provenance_fields = default_provenance_fields;
  sla_targets = warm_product_sla;
  primary_source = wattetheria;
  fallback_source = none;
  ingest_mode = snapshot_push;
  ui_delivery_mode = rest_snapshot_bootstrap;
  hybrid_subtype = none;
  game_client_stable = true;
  pull_only_fallback_data = false;
}

abbrev pub mission_lifecycle_row : DataKindMetadata
mission_lifecycle_row = record {
  kind = mission_lifecycle;
  domain = product;
  stage = product_projection;
  visibility = public_data;
  signing_authority = "wattetheria node key";
  semantic_authority = "wattetheria mission board";
  latency_class = warm;
  consistency_class = projection_after_confirmation;
  storage_shape = "task_conclusion_projection";
  identity_fields = "mission_id" ∷ "task_id" ∷ "id" ∷ [];
  payload_version = 1;
  provisional_export_policy = never_before_confirmation;
  retention_policy = forever;
  provenance_fields = default_provenance_fields;
  sla_targets = warm_product_sla;
  primary_source = wattetheria;
  fallback_source = none;
  ingest_mode = snapshot_push;
  ui_delivery_mode = rest_snapshot_bootstrap;
  hybrid_subtype = some semantic_wrap;
  game_client_stable = true;
  pull_only_fallback_data = false;
}

abbrev pub task_summary_row : DataKindMetadata
task_summary_row = record {
  kind = task_summary;
  domain = product;
  stage = product_projection;
  visibility = public_data;
  signing_authority = "wattetheria node key";
  semantic_authority = "wattetheria mission/task projection";
  latency_class = warm;
  consistency_class = projection_after_confirmation;
  storage_shape = "task_conclusion_projection";
  identity_fields = "task_id" ∷ "mission_id" ∷ "id" ∷ [];
  payload_version = 1;
  provisional_export_policy = never_before_confirmation;
  retention_policy = overwrite_latest;
  provenance_fields = default_provenance_fields;
  sla_targets = warm_product_sla;
  primary_source = wattetheria;
  fallback_source = none;
  ingest_mode = snapshot_push;
  ui_delivery_mode = rest_snapshot_bootstrap;
  hybrid_subtype = some semantic_wrap;
  game_client_stable = true;
  pull_only_fallback_data = false;
}

abbrev pub task_vote_signal_row : DataKind → DataKindMetadata
task_vote_signal_row kind = record {
  kind = kind;
  domain = mechanism;
  stage = if is_task_vote_signal kind then input else mechanism_process;
  visibility = public_data;
  signing_authority = "agent or node key on each signed event";
  semantic_authority = "wattswarm decision process";
  latency_class = hot;
  consistency_class = eventual_mechanism;
  storage_shape = "task_process_projection";
  identity_fields = "task_id" ∷ "vote_id" ∷ "round_id" ∷ "id" ∷ [];
  payload_version = 1;
  provisional_export_policy =
      if is_task_vote_signal kind then ephemeral_only else provisional_with_downgrade;
  retention_policy = rolling_n_days;
  provenance_fields = default_provenance_fields;
  sla_targets = live_mechanism_sla;
  primary_source = wattswarm;
  fallback_source = some wattetheria;
  ingest_mode = event_push;
  ui_delivery_mode = ws_stream;
  hybrid_subtype = none;
  game_client_stable = true;
  pull_only_fallback_data = false;
}

abbrev pub task_decision_finalized_row : DataKindMetadata
task_decision_finalized_row = record {
  kind = task_decision_finalized;
  domain = mechanism;
  stage = mechanism_conclusion;
  visibility = public_data;
  signing_authority = "mechanism finality proof or node-exported signed conclusion";
  semantic_authority = "wattswarm mechanism consensus";
  latency_class = hot;
  consistency_class = confirmed_mechanism;
  storage_shape = "task_conclusion_projection";
  identity_fields = "task_id" ∷ "decision_id" ∷ "id" ∷ [];
  payload_version = 1;
  provisional_export_policy = never_before_confirmation;
  retention_policy = forever;
  provenance_fields = default_provenance_fields;
  sla_targets = live_mechanism_sla;
  primary_source = wattswarm;
  fallback_source = some wattetheria;
  ingest_mode = event_push;
  ui_delivery_mode = ws_stream;
  hybrid_subtype = none;
  game_client_stable = true;
  pull_only_fallback_data = false;
}
