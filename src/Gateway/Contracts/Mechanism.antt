-- ===== src/Gateway/Contracts/Mechanism.antt =====
-- The rows of governance, of oracles, of settlement and of rankings in `data_kind_metadata`
-- (crates/gateway/src/contracts.rs).
use watt_gateway.Prelude.{Bool, true, false, none, some, [], ◌∷◌, if◌then◌else◌}
use watt_gateway.Gateway.Contracts.Kinds.{
  DataKind, DataKindMetadata, aggregated_summary, confirmed_mechanism, event_push, forever,
  governance, governance_decision, governance_proposal, governance_vote, hot, input, local_commit,
  mechanism, mechanism_conclusion, mechanism_process, never_before_confirmation, oracle_feed_update,
  overwrite_latest, product, projection_after_confirmation, provisional_with_downgrade, public_data,
  pull_only, ranking_projection, rest_poll, rest_snapshot_bootstrap, rolling_n_days, snapshot_push,
  warm, wattetheria, wattswarm, ws_stream,
}
use watt_gateway.Gateway.Contracts.Constants.{default_provenance_fields, warm_product_sla}

abbrev is_governance_decision : DataKind → Bool
is_governance_decision governance_decision = true
is_governance_decision _ = false

abbrev is_governance_proposal : DataKind → Bool
is_governance_proposal governance_proposal = true
is_governance_proposal _ = false

abbrev is_governance_vote : DataKind → Bool
is_governance_vote governance_vote = true
is_governance_vote _ = false

abbrev pub governance_proposal_row : DataKind → DataKindMetadata
governance_proposal_row kind = record {
  kind = kind;
  domain = governance;
  stage =
      if is_governance_proposal kind
      then input
      else if is_governance_vote kind
      then mechanism_process
      else mechanism_conclusion;
  visibility = public_data;
  signing_authority = "wattetheria node key";
  semantic_authority = "wattetheria governance engine";
  latency_class = if is_governance_decision kind then warm else hot;
  consistency_class = if is_governance_decision kind then confirmed_mechanism else local_commit;
  storage_shape = "task_conclusion_projection";
  identity_fields = "proposal_id" ∷ "vote_id" ∷ "id" ∷ [];
  payload_version = 1;
  provisional_export_policy =
      if is_governance_vote kind then provisional_with_downgrade else never_before_confirmation;
  retention_policy = forever;
  provenance_fields = default_provenance_fields;
  sla_targets = warm_product_sla;
  primary_source = wattetheria;
  fallback_source = none;
  ingest_mode = if is_governance_decision kind then snapshot_push else event_push;
  ui_delivery_mode = if is_governance_decision kind then rest_snapshot_bootstrap else ws_stream;
  hybrid_subtype = none;
  game_client_stable = true;
  pull_only_fallback_data = false;
}

abbrev pub oracle_feed_update_row : DataKindMetadata
oracle_feed_update_row = record {
  kind = oracle_feed_update;
  domain = mechanism;
  stage = mechanism_conclusion;
  visibility = public_data;
  signing_authority = "oracle signer";
  semantic_authority = "oracle feed attestor";
  latency_class = warm;
  consistency_class = confirmed_mechanism;
  storage_shape = "network_projection";
  identity_fields = "feed_id" ∷ "id" ∷ [];
  payload_version = 1;
  provisional_export_policy = never_before_confirmation;
  retention_policy = rolling_n_days;
  provenance_fields = default_provenance_fields;
  sla_targets = warm_product_sla;
  primary_source = wattswarm;
  fallback_source = some wattetheria;
  ingest_mode = pull_only;
  ui_delivery_mode = rest_poll;
  hybrid_subtype = none;
  game_client_stable = true;
  pull_only_fallback_data = false;
}

abbrev pub settlement_event_row : DataKind → DataKindMetadata
settlement_event_row kind = record {
  kind = kind;
  domain = mechanism;
  stage = mechanism_conclusion;
  visibility = public_data;
  signing_authority = "mechanism conclusion signer";
  semantic_authority = "wattswarm settlement and reputation engine";
  latency_class = warm;
  consistency_class = confirmed_mechanism;
  storage_shape = "ranking_projection";
  identity_fields = "settlement_id" ∷ "agent_did" ∷ "id" ∷ [];
  payload_version = 1;
  provisional_export_policy = never_before_confirmation;
  retention_policy = rolling_n_days;
  provenance_fields = default_provenance_fields;
  sla_targets = warm_product_sla;
  primary_source = wattswarm;
  fallback_source = some wattetheria;
  ingest_mode = pull_only;
  ui_delivery_mode = rest_poll;
  hybrid_subtype = none;
  game_client_stable = true;
  pull_only_fallback_data = false;
}

abbrev pub ranking_projection_row : DataKindMetadata
ranking_projection_row = record {
  kind = ranking_projection;
  domain = product;
  stage = aggregated_summary;
  visibility = public_data;
  signing_authority = "wattetheria node key";
  semantic_authority = "wattetheria ranking projection";
  latency_class = warm;
  consistency_class = projection_after_confirmation;
  storage_shape = "ranking_projection";
  identity_fields = "agent_did" ∷ "public_id" ∷ "id" ∷ [];
  payload_version = 1;
  provisional_export_policy = never_before_confirmation;
  retention_policy = overwrite_latest;
  provenance_fields = default_provenance_fields;
  sla_targets = warm_product_sla;
  primary_source = wattetheria;
  fallback_source = some wattswarm;
  ingest_mode = snapshot_push;
  ui_delivery_mode = rest_snapshot_bootstrap;
  hybrid_subtype = none;
  game_client_stable = true;
  pull_only_fallback_data = false;
}
