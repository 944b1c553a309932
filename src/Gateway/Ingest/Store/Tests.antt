-- ===== src/Gateway/Ingest/Store/Tests.antt =====
-- An event of an active source, and one of another (crates/gateway/src/streaming.rs).
use watt_gateway.Prelude.{◌≡◌, refl, String, Bool, true, false, Option, none, some, [], err, str_eq}
use watt_gateway.Gateway.Json.{null}
use watt_gateway.Gateway.Contracts.Kinds.{task_round_update, public_data, never_before_confirmation}
use watt_gateway.Gateway.NodeEvent.{SignedNodeEvent}
use watt_gateway.Gateway.Ingest.{
  NodeSource, IngestState, source_inactive, IngestLibraries, check_event,
}
use watt_gateway.Gateway.Ingest.Store.{persist_signed_node_event}

abbrev source_of : String → String → Option NodeSource
source_of node_id signer =
    some
      (record { id = "source"; source_status = node_id; expected_signer_agent_did = some "agent" })

abbrev is_agent : Option String → Bool
is_agent none = false
is_agent (some signer) = str_eq signer "agent"

abbrev libraries : IngestLibraries
libraries = record {
  find_node_source_for_identity = source_of;
  signature_holds = λ event signer. is_agent signer;
  space = record {
    node_presence_from = λ payload. none;
    presence_from = λ payload. none;
    verify_signed_space_presence = λ p. false;
    activity_is_valid = λ p. false;
    announcement_from = λ payload. none;
    trusted_network_authorities = none;
    authority_signature_holds = λ a. false;
    content_from = λ content. none;
  };
  has_gateway_sync = true;
  try_backfill_gap = λ source node_id signer first last st. st;
  world_from = λ payload. none;
  trusted_board_message = λ payload. some payload;
  kind_text = λ kind. "task_round_update";
  visibility_text = λ visibility. "public";
  data_kind_from = λ text. some task_round_update;
  visibility_from = λ text. some public_data;
  outbox_record = λ event. record {
    dedupe_key = event.event_id;
    command_kind = "event";
    payload = event.payload;
  };
  cache_capacity = 8192;
}

-- The source's status is the name of the node.
abbrev event_from : String → SignedNodeEvent
event_from node_id = record {
  event_id = "event";
  node_id = node_id;
  signer_agent_did = "agent";
  data_kind = task_round_update;
  event_kind = "task.round.updated";
  visibility = public_data;
  provisional_policy = never_before_confirmation;
  scope = record { node_id = none; topic_id = none; organization_id = none; task_id = none };
  identity_key = none;
  timestamp = 1;
  seq = 2;
  payload = null;
}

abbrev start : IngestState
start = record {
  store = record {
    space_presence = [];
    space_events = [];
    events = record {
      ui_events = [];
      next_cursor = 1;
      outbox = [];
      next_outbox_id = 1;
      audit = [];
    };
  };
  node_presence = [];
  projections = [];
  hub = record { published = record { event_ids = []; order = [] }; sent = []; filtered = [] };
}

inactive_is_refused :
    persist_signed_node_event libraries (event_from "paused") none none true start
    ≡ (start, err source_inactive)
unfolding persist_signed_node_event check_event
inactive_is_refused = refl
