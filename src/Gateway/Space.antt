-- ===== src/Gateway/Space.antt =====
-- The presences and the world events of spaces: the tables of crates/gateway/src/space.rs with
-- their upserts, the checks of a heartbeat, and the presences that are shown. The records are
-- `SignedSpacePresence`, `NodePresence` and `WorldEvent` of wattetheria_gateway_contract, with the
-- fields that the code reads; times are in milliseconds.
pub mod Newest
pub mod Persist
pub mod Valid
mod Tests
use watt_gateway.Prelude.{
  ℕ, zero, suc, ◌+◌, ◌*◌, String, Bool, true, false, not, ◌&&◌, ◌||◌, Option, none, some, List, [],
  ◌∷◌, ltb, leb, str_eq, if◌then◌else◌, min, any, filter_by, Result, err, ok, bail_if, ◌>>◌, Table,
  lookup, insert, string_eq, pair_eq,
}
use watt_gateway.Gateway.Json.{Value}

pub record SignedSpacePresence : Type 0 where
  pub network_id : String
  pub space_id : String
  pub agent_did : String
  pub seq : ℕ
  pub entered : Bool
  pub updated_at : ℕ
  pub signature : String
  pub space_version : String
  pub destination_place_id : String
  pub path : List ℕ

pub record NodePresence : Type 0 where
  pub node_id : String
  pub agent_did : String
  pub last_heartbeat_ms : ℕ
  pub heartbeat_interval_sec : ℕ

pub record WorldEvent : Type 0 where
  pub space_id : String
  pub place_id : String

-- What a row of each table holds beside its key.
pub record PresenceRow : Type 0 where
  pub seq : ℕ
  pub source_node_id : String
  pub source_id : Option String
  pub payload : SignedSpacePresence

pub record NodePresenceRow : Type 0 where
  pub source_id : Option String
  pub payload : NodePresence

pub record WorldEventRow : Type 0 where
  pub space_id : String
  pub place_id : String
  pub source_node_id : String
  pub source_id : Option String
  pub payload : Value

-- The network, the space and the agent.
abbrev pub PresenceKey : Type 0
PresenceKey = String × (String × String)

abbrev pub presence_key : SignedSpacePresence → PresenceKey
presence_key p = (p.network_id, (p.space_id, p.agent_did))

abbrev pub presence_row : SignedSpacePresence → String → Option String → PresenceRow
presence_row p node_id source_id = record {
  seq = p.seq;
  source_node_id = node_id;
  source_id = source_id;
  payload = p;
}

-- An older row is replaced: the table, and whether the presence is accepted.
abbrev pub is_newer : Option PresenceRow → ℕ → Bool
is_newer none seq = true
is_newer (some row) seq = ltb row.seq seq

pub upsert_presence :
    SignedSpacePresence
    → String
    → Option String
    → Table PresenceKey PresenceRow
    → Table PresenceKey PresenceRow × Bool
upsert_presence p node_id source_id t =
    if is_newer (lookup (presence_key p) t) p.seq
    then (insert (presence_key p) (presence_row p node_id source_id) t, true)
    else (t, false)

abbrev pub is_later : Option NodePresenceRow → ℕ → Bool
is_later none heartbeat = true
is_later (some row) heartbeat = ltb row.payload.last_heartbeat_ms heartbeat

pub upsert_node_presence :
    NodePresence
    → Option String
    → Table (String × String) NodePresenceRow
    → Table (String × String) NodePresenceRow × Bool
upsert_node_presence p source_id t =
    if is_later (lookup (p.node_id, p.agent_did) t) p.last_heartbeat_ms
    then (insert (p.node_id, p.agent_did) (record { source_id = source_id; payload = p }) t, true)
    else (t, false)

abbrev pub world_row : WorldEvent → Value → String → Option String → WorldEventRow
world_row world payload node_id source_id = record {
  space_id = world.space_id;
  place_id = world.place_id;
  source_node_id = node_id;
  source_id = source_id;
  payload = payload;
}

abbrev pub is_free : Option WorldEventRow → Bool
is_free none = true
is_free (some row) = false

-- `on conflict (network_id, announcement_id) do nothing`
pub insert_world_event :
    String × String
    → WorldEventRow
    → Table (String × String) WorldEventRow
    → Table (String × String) WorldEventRow × Bool
insert_world_event key row t =
    if is_free (lookup key t) then (insert key row t, true) else (t, false)

abbrev pub max_i64 : ℕ
max_i64 = 9223372036854775807

-- `saturating_add`
pub heartbeat_is_current : NodePresence → ℕ → Bool
heartbeat_is_current heartbeat now =
    leb now
      (min (heartbeat.last_heartbeat_ms + 3 * heartbeat.heartbeat_interval_sec * 1000) max_i64)

pub data Invalid : Type 0 where
  identity_differs interval_out_of_range not_public_ephemeral not_confirmed_public : Invalid
  malformed unsigned seq_zero activity_invalid identifier_blank path_invalid : Invalid
  no_authorities untrusted_network untrusted_authority event_differs not_after_start : Invalid

pub validate_node_presence : NodePresence → String → String → Result Invalid (Unit {0})
validate_node_presence p node_id agent_did =
    bail_if (not (str_eq p.node_id node_id) || not (str_eq p.agent_did agent_did)) identity_differs
    >> bail_if (not (leb 1 p.heartbeat_interval_sec && leb p.heartbeat_interval_sec 300))
        interval_out_of_range

-- The filter of `presences`: who has entered, and whose node has a current heartbeat.
pub shown :
    ℕ
    → List NodePresence
    → List (SignedSpacePresence × String)
    → List (SignedSpacePresence × String)
shown now node_presences values = filter_by is_shown values
  where
    is_heartbeat_of : SignedSpacePresence × String → NodePresence → Bool
    is_heartbeat_of (p, node) heartbeat =
        str_eq heartbeat.node_id node
        && str_eq heartbeat.agent_did p.agent_did
        && heartbeat_is_current heartbeat now

    is_shown : SignedSpacePresence × String → Bool
    is_shown (p, node) = p.entered && any (is_heartbeat_of (p, node)) node_presences
