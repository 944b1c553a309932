-- ===== src/Gateway/Space/Valid.antt =====
-- `validate_event` of crates/gateway/src/space.rs, with the checks of a presence and of a world
-- event. The readers of payloads, the checks of signatures and of an activity, and the file of the
-- trusted authorities are arguments.
pub mod Laws
use watt_gateway.Prelude.{
  ℕ, String, Bool, true, false, not, ◌&&◌, ◌||◌, Option, List, [], ◌∷◌, ◌==◌, leb, str_eq, is_blank,
  if◌then◌else◌, Result, ok, bail_if, or_bail, ◌>>=◌, ◌>>◌, Table, lookup, string_eq,
}
use watt_gateway.Gateway.Json.{Value}
use watt_gateway.Gateway.Contracts.Kinds.{
  Visibility, public_data, protected_data, ProvisionalExportPolicy, never_before_confirmation,
  ephemeral_only, provisional_with_downgrade, kind_beq, presence, space_presence, world_event,
}
use watt_gateway.Gateway.NodeEvent.{SignedNodeEvent}
use watt_gateway.Gateway.Space.{
  SignedSpacePresence, NodePresence, validate_node_presence, Invalid, not_public_ephemeral,
  not_confirmed_public, malformed, unsigned, seq_zero, activity_invalid, identifier_blank,
  path_invalid, no_authorities, untrusted_network, untrusted_authority, event_differs,
  not_after_start,
}

-- `EventAnnouncementPayload` and the `WorldEvent` of its content, by the fields that are checked.
pub record EventAnnouncement : Type 0 where
  pub announcement_id : String
  pub network_id : String
  pub authority_node_id : String
  pub content : Value

pub record WorldContent : Type 0 where
  pub event_id : String
  pub space_id : String
  pub place_id : String
  pub title : String
  pub starts_at : ℕ
  pub ends_at : ℕ

pub record SpaceLibraries : Type 0 where
  pub node_presence_from : Value → Option NodePresence
  pub presence_from : Value → Option SignedSpacePresence
  pub verify_signed_space_presence : SignedSpacePresence → Bool
  pub activity_is_valid : SignedSpacePresence → Bool
  pub announcement_from : Value → Option EventAnnouncement
  pub trusted_network_authorities : Option (Table String String)
  pub authority_signature_holds : EventAnnouncement → Bool
  pub content_from : Value → Option WorldContent

abbrev pub is_public : Visibility → Bool
is_public public_data = true
is_public protected_data = false

abbrev pub is_ephemeral : ProvisionalExportPolicy → Bool
is_ephemeral never_before_confirmation = false
is_ephemeral ephemeral_only = true
is_ephemeral provisional_with_downgrade = false

abbrev pub is_confirmed : ProvisionalExportPolicy → Bool
is_confirmed never_before_confirmation = true
is_confirmed ephemeral_only = false
is_confirmed provisional_with_downgrade = false

-- The bytes of U, R, D and L.
abbrev pub is_path : List ℕ → Bool
is_path [] = true
is_path (step ∷ steps) = (step == 85 || step == 82 || step == 68 || step == 76) && is_path steps

abbrev pub is_heartbeat : SignedNodeEvent → Bool
is_heartbeat event =
    kind_beq event.data_kind presence && str_eq event.event_kind "node.presence.heartbeat"

module _ (lib : SpaceLibraries) where
  pub validate_presence : SignedSpacePresence → Result Invalid (Unit {0})
  validate_presence p = do
    bail_if (not (lib.verify_signed_space_presence p)) unsigned
    bail_if (p.seq == 0) seq_zero
    bail_if (not (lib.activity_is_valid p)) activity_invalid
    bail_if
        (is_blank p.network_id
          || is_blank p.space_id
          || is_blank p.space_version
          || is_blank p.destination_place_id)
        identifier_blank
    bail_if (not (is_path p.path)) path_invalid

  pub validate_world_event_with_authorities :
      Value → Table String String → Result Invalid (Unit {0})
  validate_world_event_with_authorities payload authorities = do
    announcement ← or_bail (lib.announcement_from payload) malformed
    authority ← or_bail (lookup announcement.network_id authorities) untrusted_network
    bail_if (not (str_eq announcement.authority_node_id authority)) untrusted_authority
    bail_if (not (lib.authority_signature_holds announcement)) unsigned
    world ← or_bail (lib.content_from announcement.content) malformed
    bail_if (is_blank world.event_id || not (str_eq world.event_id announcement.announcement_id))
        event_differs
    bail_if (is_blank world.space_id || is_blank world.place_id) identifier_blank
    bail_if (is_blank world.title) identifier_blank
    bail_if (leb world.ends_at world.starts_at) not_after_start

  pub validate_world_event : Value → Result Invalid (Unit {0})
  validate_world_event payload = do
    authorities ← or_bail lib.trusted_network_authorities no_authorities
    validate_world_event_with_authorities payload authorities

  pub validate_heartbeat : SignedNodeEvent → Result Invalid (Unit {0})
  validate_heartbeat event = do
    bail_if (not (is_public event.visibility) || not (is_ephemeral event.provisional_policy))
        not_public_ephemeral
    p ← or_bail (lib.node_presence_from event.payload) malformed
    validate_node_presence p event.node_id event.signer_agent_did

  pub validate_space_presence : SignedNodeEvent → Result Invalid (Unit {0})
  validate_space_presence event = do
    bail_if (not (is_public event.visibility) || not (is_confirmed event.provisional_policy))
        not_confirmed_public
    p ← or_bail (lib.presence_from event.payload) malformed
    validate_presence p

  pub validate_confirmed_world_event : SignedNodeEvent → Result Invalid (Unit {0})
  validate_confirmed_world_event event = do
    bail_if (not (is_public event.visibility) || not (is_confirmed event.provisional_policy))
        not_confirmed_public
    validate_world_event event.payload

  pub validate_event : SignedNodeEvent → Result Invalid (Unit {0})
  validate_event event =
      if is_heartbeat event
      then validate_heartbeat event
      else if kind_beq event.data_kind space_presence
      then validate_space_presence event
      else if kind_beq event.data_kind world_event
      then validate_confirmed_world_event event
      else ok tt
