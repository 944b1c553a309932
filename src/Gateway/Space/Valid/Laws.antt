-- ===== src/Gateway/Space/Valid/Laws.antt =====
-- What a space event that is valid says (crates/gateway/src/space.rs).
use watt_gateway.Prelude.{
  ◌≡◌, refl, ◌⊎◌, inl, inr, String, true, false, not, ◌||◌, some, Table, Bool-cases, arith, str_eq,
  eq_iff, lookup, string_eq, ok, bail_if, or_bail, >>=-eq-ok, bail_if-false, or_bail-some,
  not-false,
}
use watt_gateway.Gateway.Contracts.Kinds.{
  Visibility, public_data, protected_data, ProvisionalExportPolicy, never_before_confirmation,
  ephemeral_only, provisional_with_downgrade, kind_beq, space_presence, world_event,
}
use watt_gateway.Gateway.NodeEvent.{SignedNodeEvent}
use watt_gateway.Gateway.Space.{
  SignedSpacePresence, NodePresence, validate_node_presence, not_public_ephemeral,
  not_confirmed_public, malformed, unsigned, no_authorities, untrusted_network, untrusted_authority,
  identity_differs,
}
use watt_gateway.Gateway.Space.Valid.{
  EventAnnouncement, SpaceLibraries, is_public, is_ephemeral, is_confirmed, is_heartbeat,
  validate_presence, validate_world_event_with_authorities, validate_world_event,
  validate_heartbeat, validate_space_presence, validate_confirmed_world_event, validate_event,
}

public_is : (v : Visibility) → is_public v ≡ true → v ≡ public_data
public_is public_data h = refl
public_is protected_data h = cc

ephemeral_is : (p : ProvisionalExportPolicy) → is_ephemeral p ≡ true → p ≡ ephemeral_only
ephemeral_is never_before_confirmation h = cc
ephemeral_is ephemeral_only h = refl
ephemeral_is provisional_with_downgrade h = cc

confirmed_is : (p : ProvisionalExportPolicy) → is_confirmed p ≡ true → p ≡ never_before_confirmation
confirmed_is never_before_confirmation h = refl
confirmed_is ephemeral_only h = cc
confirmed_is provisional_with_downgrade h = cc

module _ (lib : SpaceLibraries) (event : SignedNodeEvent) where
  -- A heartbeat is public and ephemeral, and names its event's node and signer.
  abbrev pub IsHeartbeat : Type 0
  IsHeartbeat =
      (event.visibility ≡ public_data)
      × (event.provisional_policy ≡ ephemeral_only)
      × ((p : NodePresence) × (lib.node_presence_from event.payload ≡ some p)
          × (p.node_id ≡ event.node_id)
          × (p.agent_did ≡ event.signer_agent_did))

  -- A presence is public and confirmed, and signed.
  abbrev pub IsSpacePresence : Type 0
  IsSpacePresence =
      (event.visibility ≡ public_data)
      × (event.provisional_policy ≡ never_before_confirmation)
      × ((p : SignedSpacePresence) × (lib.presence_from event.payload ≡ some p)
          × (lib.verify_signed_space_presence p ≡ true))

  -- A world event is public and confirmed, and signed by its network's trusted authority.
  abbrev pub IsWorldEvent : Type 0
  IsWorldEvent =
      (event.visibility ≡ public_data)
      × (event.provisional_policy ≡ never_before_confirmation)
      × ((a : EventAnnouncement) × (authorities : Table String String) × (lib.announcement_from
              event.payload
            ≡ some a)
          × (lib.trusted_network_authorities ≡ some authorities)
          × (lookup a.network_id authorities ≡ some a.authority_node_id)
          × (lib.authority_signature_holds a ≡ true))

  abbrev pub IsValid : Type 0
  IsValid =
      IsHeartbeat
      ⊎ IsSpacePresence
      ⊎ IsWorldEvent
      ⊎ ((is_heartbeat event ≡ false)
          × (kind_beq event.data_kind space_presence ≡ false)
          × (kind_beq event.data_kind world_event ≡ false))

  heartbeat-IsHeartbeat : validate_heartbeat lib event ≡ ok tt → IsHeartbeat
  unfolding validate_heartbeat validate_node_presence
  heartbeat-IsHeartbeat h =
      let (_, public, h1) =
        >>=-eq-ok
          (bail_if (not (is_public event.visibility) || not (is_ephemeral event.provisional_policy))
            not_public_ephemeral)
          _ h in
      let (p, read, h2) =
        >>=-eq-ok (or_bail (lib.node_presence_from event.payload) malformed) _ h1 in
      let (_, same, _) =
        >>=-eq-ok
          (bail_if
            (not (str_eq p.node_id event.node_id)
              || not (str_eq p.agent_did event.signer_agent_did))
            identity_differs)
          _ h2 in
      let test : (not (is_public event.visibility) || not (is_ephemeral event.provisional_policy))
          ≡ false =
        bail_if-false _ not_public_ephemeral public in
      let who : (not (str_eq p.node_id event.node_id)
            || not (str_eq p.agent_did event.signer_agent_did))
          ≡ false =
        bail_if-false _ identity_differs same in
      (
        public_is event.visibility (ground (arith, test)),
        ephemeral_is event.provisional_policy (ground (arith, test)),
        (
          p,
          or_bail-some _ _ read,
          (eq_iff p.node_id event.node_id).0 (ground (arith, who)),
          (eq_iff p.agent_did event.signer_agent_did).0 (ground (arith, who)),
        ),
      )

  presence-IsSpacePresence : validate_space_presence lib event ≡ ok tt → IsSpacePresence
  unfolding validate_space_presence validate_presence
  presence-IsSpacePresence h =
      let (_, public, h1) =
        >>=-eq-ok
          (bail_if (not (is_public event.visibility) || not (is_confirmed event.provisional_policy))
            not_confirmed_public)
          _ h in
      let (p, read, h2) = >>=-eq-ok (or_bail (lib.presence_from event.payload) malformed) _ h1 in
      let (_, signed, _) =
        >>=-eq-ok (bail_if (not (lib.verify_signed_space_presence p)) unsigned) _ h2 in
      let test : (not (is_public event.visibility) || not (is_confirmed event.provisional_policy))
          ≡ false =
        bail_if-false _ not_confirmed_public public in
      (
        public_is event.visibility (ground (arith, test)),
        confirmed_is event.provisional_policy (ground (arith, test)),
        (p, or_bail-some _ _ read, not-false _ (bail_if-false _ _ signed)),
      )

  world-IsWorldEvent : validate_confirmed_world_event lib event ≡ ok tt → IsWorldEvent
  unfolding validate_confirmed_world_event validate_world_event
      validate_world_event_with_authorities
  world-IsWorldEvent h =
      let (_, public, h1) =
        >>=-eq-ok
          (bail_if (not (is_public event.visibility) || not (is_confirmed event.provisional_policy))
            not_confirmed_public)
          _ h in
      let (authorities, trusted, h2) =
        >>=-eq-ok (or_bail lib.trusted_network_authorities no_authorities) _ h1 in
      let (a, read, h3) =
        >>=-eq-ok (or_bail (lib.announcement_from event.payload) malformed) _ h2 in
      let (authority, known, h4) =
        >>=-eq-ok (or_bail (lookup a.network_id authorities) untrusted_network) _ h3 in
      let (_, named, h5) =
        >>=-eq-ok (bail_if (not (str_eq a.authority_node_id authority)) untrusted_authority) _ h4 in
      let (_, signed, _) =
        >>=-eq-ok (bail_if (not (lib.authority_signature_holds a)) unsigned) _ h5 in
      let same = (eq_iff a.authority_node_id authority).0 (not-false _ (bail_if-false _ _ named)) in
      let test : (not (is_public event.visibility) || not (is_confirmed event.provisional_policy))
          ≡ false =
        bail_if-false _ not_confirmed_public public in
      (
        public_is event.visibility (ground (arith, test)),
        confirmed_is event.provisional_policy (ground (arith, test)),
        (
          a,
          authorities,
          or_bail-some _ _ read,
          or_bail-some _ _ trusted,
          rw same (or_bail-some _ _ known),
          not-false _ (bail_if-false _ _ signed),
        ),
      )

  pub validate_event-IsValid : validate_event lib event ≡ ok tt → IsValid
  unfolding validate_event
  validate_event-IsValid h = elim (Bool-cases (is_heartbeat event)) [
    | inl e ↦ inl (heartbeat-IsHeartbeat (rw e at h))
    | inr e ↦ elim (Bool-cases (kind_beq event.data_kind space_presence)) [
      | inl s ↦ inr (inl (presence-IsSpacePresence (rw (e, s) at h)))
      | inr s ↦ elim (Bool-cases (kind_beq event.data_kind world_event)) [
        | inl w ↦ inr (inr (inl (world-IsWorldEvent (rw (e, s, w) at h))))
        | inr w ↦ inr (inr (inr (e, s, w)))
      ]
    ]
  ]
