-- ===== src/Message/Publish/Frame.antt =====
-- `validate_record_frame` of crates/message-gateway/src/service.rs: what a session's frame must be
-- for its payload type.

pub mod Own
pub mod Binds
pub mod Tests
use watt_gateway.Prelude.{
  ℕ, String, Bool, true, false, not, ◌&&◌, ◌||◌, Option, none, some, List, ltb, ◌==◌, str_eq,
  if◌then◌else◌, length, Eq, Result, ok, err, bail_if, or_bail, ◌>>=◌, ◌>>◌,
}
use watt_gateway.Message.Membership.{SwarmScope, global, node}
use watt_gateway.Message.Membership.Mutation.{MembershipMutation, snapshot, principal, scope_of}
use watt_gateway.Message.Publish.{
  PropagationLane, events, messages, rules, checkpoints, summaries, is_messages, scope_beq,
  is_global, is_node, ScopeHint, scope_from_hint, EventPayload, membership_updated,
  feed_subscription_updated, is_public_global_control, Event, RuleAnnouncement,
  CheckpointAnnouncement, SummaryAnnouncement, PublishPayloadType, event_type, message_type,
  rule_type, checkpoint_type, summary_type, is_message_type, EventDeliveryUrgency,
  explicit_recipient, time_sensitive_control, background, PublishFrame, ValidatedFrame,
  PublishError, parse_failed, signature_invalid, identity_mismatch, scope_invalid, route_failed,
  route_mismatch, message_needs_message_lane, global_needs_control, subscriber_is_not_author,
  mutation_scope_mismatch, authority_unsigned, signer_mismatch, serialize_failed, frame_too_large,
  PublishLibraries,
}

pub lane_of_kind : String → PropagationLane
lane_of_kind event_kind = if str_eq event_kind "TopicMessagePosted" then messages else events

pub event_urgency : SwarmScope → Bool → EventDeliveryUrgency
event_urgency (node _) control = explicit_recipient
event_urgency _ control = if control then time_sensitive_control else background

-- `!matches!(scope, Global | Node(_))` and the mutation then
pub subscription_mutation : SwarmScope → String → Bool → String → Option MembershipMutation
subscription_mutation scope subscriber active version =
    if is_global scope || is_node scope
    then none
    else some (principal scope subscriber active version)

pub event_mutation : Event → EventPayload → Result PublishError (Option MembershipMutation)
event_mutation event (membership_updated membership threshold signatures) =
    ok (some (snapshot global membership threshold signatures event.event_id))
event_mutation event (feed_subscription_updated hint subscriber active) = do
  scope_hint ← or_bail hint scope_invalid
  bail_if (not (str_eq subscriber event.author_node_id)) subscriber_is_not_author
  ok (subscription_mutation (scope_from_hint scope_hint) subscriber active event.event_id)
event_mutation event _ = ok none

pub mutation_differs : Option MembershipMutation → SwarmScope → Bool
mutation_differs none scope = false
mutation_differs (some mutation) scope = not (scope_beq (scope_of mutation) scope)

module _ {Route : Type 0} ⦃route : Eq Route⦄ (lib : PublishLibraries Route)
    (principal_id : String) where
  abbrev pub binds_route : Route → PublishFrame Route → Result PublishError (Unit {0})
  binds_route expected frame = bail_if (not (route.beq expected frame.transport)) route_mismatch

  pub announcement_route : SwarmScope → PropagationLane → Bool → Option Route
  announcement_route scope lane control =
      lib.from_kind_label scope lane (lib.lane_as_str lane) control

  pub verify_authority_record :
      Option String → Option String → List ℕ → Result PublishError (Unit {0})
  verify_authority_record (some signer) (some signature) message = do
    bail_if (not (str_eq signer principal_id)) signer_mismatch
    bail_if (not (lib.signature_holds signer message signature)) signature_invalid
  verify_authority_record (some signer) none message = err authority_unsigned
  verify_authority_record none signature message = err authority_unsigned

  -- The check of a Global announcement's author.
  pub check_authority :
      SwarmScope → Option String → Option String → Option (List ℕ) → Result PublishError (Unit {0})
  check_authority global signer signature message = do
    bytes ← or_bail message serialize_failed
    verify_authority_record signer signature bytes
  check_authority _ signer signature message = ok tt

  pub finish_event :
      PublishFrame Route → Event → Bool → Route → Result PublishError (ValidatedFrame Route)
  finish_event frame event control expected = do
    binds_route expected frame
    bail_if (is_message_type frame.payload_type && not (is_messages (lib.lane_of_route expected)))
        message_needs_message_lane
    bail_if (is_global (lib.scope_of_route expected) && not control) global_needs_control
    mutation ← event_mutation event event.payload
    bail_if (mutation_differs mutation (lib.scope_of_route expected)) mutation_scope_mismatch
    ok (record {
      route = expected;
      urgency = event_urgency (lib.scope_of_route expected) control;
      membership_mutation = mutation;
    })

  pub validate_event_frame : PublishFrame Route → Result PublishError (ValidatedFrame Route)
  validate_event_frame frame = do
    event ← or_bail (lib.parse_event frame.payload) parse_failed
    bail_if (not (lib.event_signature_holds event)) signature_invalid
    bail_if
        (not (str_eq event.event_id frame.record_id)
          || not (str_eq event.author_node_id principal_id))
        identity_mismatch
    hint ← or_bail (lib.parse_scope event.swarm_scope) scope_invalid
    let control = is_public_global_control event.payload
    expected ←
        or_bail
          (lib.from_kind_label (scope_from_hint hint) (lane_of_kind event.event_kind)
            event.event_kind control)
          route_failed
    finish_event frame event control expected

  abbrev pub announced : Route → EventDeliveryUrgency → ValidatedFrame Route
  announced expected urgency = record {
    route = expected;
    urgency = urgency;
    membership_mutation = none;
  }

  pub validate_rule_frame : PublishFrame Route → Result PublishError (ValidatedFrame Route)
  validate_rule_frame frame = do
    rule ← or_bail (lib.parse_rule frame.payload) parse_failed
    bail_if (not (str_eq frame.record_id (lib.hash_bytes frame.payload))) identity_mismatch
    check_authority rule.scope rule.authority_signer_node_id rule.authority_signature_hex
        (lib.rule_message rule)
    expected ← or_bail (announcement_route rule.scope rules (is_global rule.scope)) route_failed
    binds_route expected frame
    ok (announced expected time_sensitive_control)

  pub validate_checkpoint_frame : PublishFrame Route → Result PublishError (ValidatedFrame Route)
  validate_checkpoint_frame frame = do
    checkpoint ← or_bail (lib.parse_checkpoint frame.payload) parse_failed
    bail_if (not (str_eq checkpoint.checkpoint_id frame.record_id)) identity_mismatch
    check_authority checkpoint.scope checkpoint.authority_signer_node_id
        checkpoint.authority_signature_hex (lib.checkpoint_message checkpoint)
    expected ←
        or_bail (announcement_route checkpoint.scope checkpoints (is_global checkpoint.scope))
          route_failed
    binds_route expected frame
    ok (announced expected background)

  pub validate_summary_frame : PublishFrame Route → Result PublishError (ValidatedFrame Route)
  validate_summary_frame frame = do
    summary ← or_bail (lib.parse_summary frame.payload) parse_failed
    bail_if
        (not (str_eq summary.summary_id frame.record_id)
          || not (str_eq summary.source_node_id principal_id))
        identity_mismatch
    expected ← or_bail (announcement_route summary.scope summaries false) route_failed
    binds_route expected frame
    ok (announced expected background)

  pub validate_by_type :
      PublishPayloadType → PublishFrame Route → Result PublishError (ValidatedFrame Route)
  validate_by_type event_type frame = validate_event_frame frame
  validate_by_type message_type frame = validate_event_frame frame
  validate_by_type rule_type frame = validate_rule_frame frame
  validate_by_type checkpoint_type frame = validate_checkpoint_frame frame
  validate_by_type summary_type frame = validate_summary_frame frame

  pub validate_record_frame : PublishFrame Route → Result PublishError (ValidatedFrame Route)
  validate_record_frame frame = do
    bail_if (ltb 1048576 (length frame.payload)) frame_too_large
    validate_by_type frame.payload_type frame
