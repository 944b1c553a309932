-- ===== src/Gateway/Ingest.antt =====
-- The ingest of a signed event: `persist_signed_node_event_with_options` of
-- crates/gateway/src/streaming.rs, over the stored events, the spaces, the projections and the hub.
-- The sources of nodes, the checks of signatures, the reading of payloads and the fetch of a node's
-- snapshot for a gap are arguments. The notices to the bus and to the outbox's worker are left out.
pub mod Store
use watt_gateway.Prelude.{
  ℕ, ◌+◌, ◌-◌, String, Bool, true, false, not, ◌&&◌, ◌||◌, Option, none, some, List, [], ◌∷◌, ltb,
  str_eq, if◌then◌else◌, Result, err, ok, bail_if, map_err, ◌>>=◌, ◌>>◌, Table,
}
use watt_gateway.Gateway.Json.{Value}
use watt_gateway.Gateway.Contracts.Kinds.{
  DataKind, Visibility, ProvisionalExportPolicy, never_before_confirmation, ephemeral_only,
  provisional_with_downgrade, kind_beq, presence, space_presence, world_event, board_activity,
}
use watt_gateway.Gateway.Stream.{GatewayUiEvent}
use watt_gateway.Gateway.Stream.Cache.{Hub, publish}
use watt_gateway.Gateway.UiEvents.{
  UiEventRow, OutboxRecord, EventStore, insert_ui_event, get_ui_event_by_id,
  max_ui_event_source_seq, try_from,
}
use watt_gateway.Gateway.NodeEvent.{SignedNodeEvent}
use watt_gateway.Gateway.Projection.Event.{event_projection, normalized_event_scope}
use watt_gateway.Gateway.Projection.Rows.{
  ProjectionRow, ProjectionKey, materialize_event_projection,
}
use watt_gateway.Gateway.Space.{
  SignedSpacePresence, NodePresence, NodePresenceRow, WorldEvent, Invalid, upsert_node_presence,
}
use watt_gateway.Gateway.Space.Valid.{SpaceLibraries, is_ephemeral, is_heartbeat, validate_event}
use watt_gateway.Gateway.Space.Persist.{SpaceStore, PersistError, persist_event, as_i64}

pub record NodeSource : Type 0 where
  pub id : String
  pub source_status : String
  pub expected_signer_agent_did : Option String

pub record IngestState : Type 0 where
  pub store : SpaceStore
  pub node_presence : Table (String × String) NodePresenceRow
  pub projections : Table ProjectionKey ProjectionRow
  pub hub : Hub

pub data IngestError : Type 0 where
  source_inactive not_verified malformed_payload malformed_row untrusted_board_message : IngestError
  not_valid : Invalid → IngestError
  not_persisted : PersistError → IngestError

-- What is outside of this module.
pub record IngestLibraries : Type 0 where
  pub find_node_source_for_identity : String → String → Option NodeSource
  pub signature_holds : SignedNodeEvent → Option String → Bool
  pub space : SpaceLibraries
  pub has_gateway_sync : Bool
  pub try_backfill_gap :
      Option NodeSource → String → Option String → ℕ → ℕ → IngestState → IngestState
  pub world_from : Value → Option (WorldEvent × String × String)
  pub trusted_board_message : Value → Option Value
  pub kind_text : DataKind → String
  pub visibility_text : Visibility → String
  pub data_kind_from : String → Option DataKind
  pub visibility_from : String → Option Visibility
  pub outbox_record : SignedNodeEvent → OutboxRecord
  pub cache_capacity : ℕ

abbrev pub or_else : Option String → Option String → Option String
or_else none next = next
or_else (some text) next = some text

abbrev pub is_none : Option String → Bool
is_none none = true
is_none (some text) = false

abbrev pub id_of : Option NodeSource → Option String
id_of none = none
id_of (some source) = some source.id

abbrev pub signer_of : Option NodeSource → Option String
signer_of none = none
signer_of (some source) = source.expected_signer_agent_did

abbrev pub is_inactive : Option NodeSource → Bool
is_inactive none = false
is_inactive (some source) = not (str_eq source.source_status "active")

abbrev pub is_provisional : ProvisionalExportPolicy → Bool
is_provisional never_before_confirmation = false
is_provisional ephemeral_only = true
is_provisional provisional_with_downgrade = true

pub is_space_event : SignedNodeEvent → Bool
is_space_event event =
    kind_beq event.data_kind space_presence || kind_beq event.data_kind world_event

abbrev pub keep_events : EventStore → IngestState → IngestState
keep_events events st = record st { store = record st.store { events = events } }

abbrev pub with_projection_payload : SignedNodeEvent → Option (DataKind × Value) → Value
with_projection_payload event none = event.payload
with_projection_payload event (some (kind, payload)) =
    if kind_beq kind event.data_kind then payload else event.payload

module _ (lib : IngestLibraries) (event : SignedNodeEvent) (source_id : Option String)
    (expected_signer : Option String) (announce_p2p : Bool) where
  -- An event is announced where a gateway network runs.
  abbrev pub announces : Bool
  announces = announce_p2p && lib.has_gateway_sync

  -- The source is looked up where the caller names none.
  abbrev pub resolved_source : Option NodeSource
  resolved_source =
      if is_none source_id && is_none expected_signer
      then lib.find_node_source_for_identity event.node_id event.signer_agent_did
      else none

  abbrev pub used_source : Option String
  used_source = or_else source_id (id_of resolved_source)

  abbrev pub used_signer : Option String
  used_signer = or_else expected_signer (signer_of resolved_source)

  pub check_event : Result IngestError (Unit {0})
  check_event =
      bail_if (is_inactive resolved_source) source_inactive
      >> bail_if (not (lib.signature_holds event used_signer)) not_verified
      >> map_err not_valid (validate_event lib.space event)

  abbrev pub backfill_from : Option ℕ → Option ℕ → IngestState → IngestState
  backfill_from (some last) (some current) st =
      if ltb (last + 1) current
      then lib.try_backfill_gap resolved_source event.node_id used_signer (last + 1) (event.seq - 1)
          st
      else st
  backfill_from _ _ st = st

  pub backfill : IngestState → IngestState
  backfill st =
      backfill_from (max_ui_event_source_seq event.node_id used_source st.store.events.ui_events)
        (as_i64 event.seq) st

  abbrev pub live_event : GatewayUiEvent
  live_event = record {
    cursor = 0;
    event_id = event.event_id;
    node_id = event.node_id;
    data_kind = event.data_kind;
    event_kind = event.event_kind;
    visibility = event.visibility;
    provisional = is_provisional event.provisional_policy;
    scope = normalized_event_scope event;
    generated_at = event.timestamp;
    payload = event.payload;
  }

  abbrev pub publish_to_hub : GatewayUiEvent → IngestState → IngestState
  publish_to_hub ui_event st = record st { hub = publish lib.cache_capacity ui_event st.hub }

  abbrev pub heard : Option NodePresence → IngestState → IngestState × Result IngestError (Option ℕ)
  heard none st = (st, err malformed_payload)
  heard (some p) st =
      let (table, accepted) = upsert_node_presence p used_source st.node_presence in
      let next = record st { node_presence = table } in
      (if accepted then publish_to_hub live_event next else next, ok none)

  pub ingest_ephemeral : IngestState → IngestState × Result IngestError (Option ℕ)
  ingest_ephemeral st =
      if is_heartbeat event
      then heard (lib.space.node_presence_from event.payload) st
      else (publish_to_hub live_event st, ok none)

  abbrev pub trusted : Option Value → Result IngestError (Option (DataKind × Value))
  trusted none = err untrusted_board_message
  trusted (some payload) = ok (some (board_activity, payload))

  -- A projection to a board's activity is checked.
  pub projection_of : Option (DataKind × Value) → Result IngestError (Option (DataKind × Value))
  projection_of none = ok none
  projection_of (some (kind, payload)) =
      if kind_beq kind board_activity
      then trusted (lib.trusted_board_message payload)
      else ok (some (kind, payload))
