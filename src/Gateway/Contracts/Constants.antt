-- ===== src/Gateway/Contracts/Constants.antt =====
-- The constants of crates/gateway/src/contracts.rs.
use watt_gateway.Prelude.{String, none, some, List, [], ◌∷◌}
use watt_gateway.Gateway.Contracts.Kinds.{SlaTargets}

abbrev pub default_provenance_fields : List String
default_provenance_fields =
    "identity_key" ∷ "source_kind" ∷ "source_cursor_or_seq" ∷ "ingest_path" ∷ "last_confirmed_at"
    ∷ "last_provisional_at" ∷ []

abbrev pub always_public_sla : SlaTargets
always_public_sla = record { hot_path_target_ms = none; max_staleness_sec = 300 }

abbrev pub live_mechanism_sla : SlaTargets
live_mechanism_sla = record { hot_path_target_ms = some 350; max_staleness_sec = 15 }

abbrev pub warm_product_sla : SlaTargets
warm_product_sla = record { hot_path_target_ms = none; max_staleness_sec = 60 }
