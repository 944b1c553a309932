-- ===== src/Gateway/Ingest/Store/Verified.antt =====
-- Only a verified event is stored (crates/gateway/src/streaming.rs).
use watt_gateway.Prelude.{◌≡◌, ◌⊎◌, String, true, Option, none, some}
use watt_gateway.Gateway.NodeEvent.{SignedNodeEvent}
use watt_gateway.Gateway.Space.Valid.Laws.{IsValid}
use watt_gateway.Gateway.Ingest.{NodeSource, IngestLibraries}

module _ (lib : IngestLibraries) (event : SignedNodeEvent) where
  -- The signature is that of the signer whom the caller expects. Where it names neither a source nor
  -- a signer, the source of the event's node and signer, where there is one, is active, and the
  -- signature is that of the signer whom the source expects.
  abbrev pub IsSigned : Option String → Option String → Type 0
  IsSigned none none =
      ((lib.find_node_source_for_identity event.node_id event.signer_agent_did ≡ none)
        × (lib.signature_holds event none ≡ true))
      ⊎ ((source : NodeSource) × (lib.find_node_source_for_identity event.node_id
              event.signer_agent_did
            ≡ some source)
          × (source.source_status ≡ "active")
          × (lib.signature_holds event source.expected_signer_agent_did ≡ true))
  IsSigned (some source_id) expected_signer = lib.signature_holds event expected_signer ≡ true
  IsSigned none (some signer) = lib.signature_holds event (some signer) ≡ true

  -- The signature is the expected signer's, and the event is valid for its kind.
  abbrev pub IsVerified : Option String → Option String → Type 0
  IsVerified source_id expected_signer =
      IsSigned source_id expected_signer × IsValid lib.space event
