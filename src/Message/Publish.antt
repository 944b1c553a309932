-- ===== src/Message/Publish.antt =====
-- The publish pipeline of crates/message-gateway/src/service.rs: its frames, its records and the
-- state that it writes. A route is a value of wattswarm_network_transport_core that the code
-- compares and reads the scope, the lane and the address of, and so a type with these functions.
pub mod Frame
pub mod Reconcile
pub mod Checks
pub mod Pipeline
pub mod Sample
use watt_gateway.Prelude.{
  ℕ, String, Bool, true, false, Option, none, some, List, str_eq, ◌==◌, ◌&&◌, Eq, Table,
}
use watt_gateway.Message.Bucket.{DeliveryClass, GlobalBuckets, NonGlobalBuckets}
use watt_gateway.Message.Control.{ReceiptRow}
use watt_gateway.Message.Membership.{SwarmScope, global, region, node, group, Db, MembershipError}
use watt_gateway.Message.Membership.Mutation.{
  Membership, SignatureEnvelope, MembershipMutation, MutationError,
}
use watt_gateway.Message.Membership.Quorum.{QuorumError}

-- The lanes that the code names.
pub data PropagationLane : Type 0 where
  events messages rules checkpoints summaries : PropagationLane

abbrev pub is_messages : PropagationLane → Bool
is_messages messages = true
is_messages _ = false

-- `matches!(lane, PropagationLane::Rules | PropagationLane::Checkpoints)`
abbrev pub is_rule_or_checkpoint : PropagationLane → Bool
is_rule_or_checkpoint rules = true
is_rule_or_checkpoint checkpoints = true
is_rule_or_checkpoint _ = false

-- `PartialEq` of a scope.
abbrev pub scope_beq : SwarmScope → SwarmScope → Bool
scope_beq global global = true
scope_beq (region a) (region b) = str_eq a b
scope_beq (node a) (node b) = str_eq a b
scope_beq (group a) (group b) = str_eq a b
scope_beq _ _ = false

abbrev pub is_global : SwarmScope → Bool
is_global global = true
is_global _ = false

abbrev pub is_node : SwarmScope → Bool
is_node (node _) = true
is_node _ = false

-- `matches!(scope, SwarmScope::Group(_) | SwarmScope::Region(_))`
abbrev pub is_shared_non_global : SwarmScope → Bool
is_shared_non_global (group _) = true
is_shared_non_global (region _) = true
is_shared_non_global _ = false

pub data ScopeHint : Type 0 where
  hint_global : ScopeHint
  hint_region hint_node hint_group : String → ScopeHint

pub scope_from_hint : ScopeHint → SwarmScope
scope_from_hint hint_global = global
scope_from_hint (hint_region id) = region id
scope_from_hint (hint_node id) = node id
scope_from_hint (hint_group id) = group id

-- `EventPayload`: the payloads that the code reads or names; `other_payload` is any further one. The
-- scope of a subscription is what its method `scope()` answers.
pub data EventPayload : Type 0 where
  membership_updated : Membership → ℕ → List SignatureEnvelope → EventPayload
  feed_subscription_updated : Option ScopeHint → String → Bool → EventPayload
  policy_tuned network_params_updated checkpoint_created advisory_created advisory_approved :
      EventPayload
  advisory_applied event_revoked summary_revoked node_penalized other_payload : EventPayload

-- `is_public_global_control`
pub is_public_global_control : EventPayload → Bool
is_public_global_control (membership_updated _ _ _) = true
is_public_global_control policy_tuned = true
is_public_global_control network_params_updated = true
is_public_global_control checkpoint_created = true
is_public_global_control advisory_created = true
is_public_global_control advisory_approved = true
is_public_global_control advisory_applied = true
is_public_global_control event_revoked = true
is_public_global_control summary_revoked = true
is_public_global_control node_penalized = true
is_public_global_control _ = false

-- A signed event; its kind is the text that `{:?}` prints.
pub record Event : Type 0 where
  pub event_id : String
  pub author_node_id : String
  pub swarm_scope : String
  pub event_kind : String
  pub payload : EventPayload

-- The announcements, with the fields that the code reads. What a rule or a checkpoint signs is an
-- argument.
pub record RuleAnnouncement : Type 0 where
  pub scope : SwarmScope
  pub rule_set : String
  pub rule_version : ℕ
  pub activation_epoch : ℕ
  pub authority_signer_node_id : Option String
  pub authority_signature_hex : Option String

pub record CheckpointAnnouncement : Type 0 where
  pub checkpoint_id : String
  pub scope : SwarmScope
  pub artifact_path : String
  pub authority_signer_node_id : Option String
  pub authority_signature_hex : Option String

pub record SummaryAnnouncement : Type 0 where
  pub summary_id : String
  pub source_node_id : String
  pub scope : SwarmScope

pub data PublishPayloadType : Type 0 where
  event_type message_type rule_type checkpoint_type summary_type : PublishPayloadType

abbrev pub is_message_type : PublishPayloadType → Bool
is_message_type message_type = true
is_message_type _ = false

pub data EventDeliveryUrgency : Type 0 where
  explicit_recipient time_sensitive_control background : EventDeliveryUrgency

-- `PublishFrame`; `network_id` and `transport` are its `route`.
pub record PublishFrame (Route : Type 0) : Type 0 where
  pub framing_version : String
  pub delivery_policy_version : ℕ
  pub record_id : String
  pub network_id : String
  pub transport : Route
  pub payload_type : PublishPayloadType
  pub payload : List ℕ

pub record ValidatedFrame (Route : Type 0) : Type 0 where
  pub route : Route
  pub urgency : EventDeliveryUrgency
  pub membership_mutation : Option MembershipMutation

pub record PublishAcceptance : Type 0 where
  pub publish_receipt : String
  pub record_id : String
  pub delivery_class : DeliveryClass
  pub delivery_policy_version : ℕ
  pub membership_version : Option String

-- `BrokerRecord`, with the recipient of a direct record.
pub record BrokerRecord (Route : Type 0) : Type 0 where
  pub direct_recipient : Option String
  pub network_id : String
  pub source_principal_id : String
  pub record_id : String
  pub route : Route
  pub record_bytes : List ℕ
  pub membership_version : Option String
  pub delivery_class : DeliveryClass
  pub delivery_policy_version : ℕ
  pub enqueued_at : ℕ
  pub expires_at : ℕ

pub data PublishError : Type 0 where
  framing_mismatch frame_too_large parse_failed signature_invalid identity_mismatch scope_invalid :
      PublishError
  route_failed route_mismatch message_needs_message_lane global_needs_control : PublishError
  subscriber_is_not_author mutation_scope_mismatch authority_unsigned signer_mismatch : PublishError
  not_genesis_authority serialize_failed receipt_mismatch receipt_class_invalid : PublishError
  classification_mismatch fanout_out_of_bounds byte_budget_overflow byte_budget_exceeded :
      PublishError
  non_global_backpressure global_backpressure no_active_version reconcile_failed : PublishError
  broker_failed commit_failed : PublishError
  quorum_refused : QuorumError → PublishError
  not_authorized : MembershipError → PublishError
  mutation_failed : MutationError → PublishError

-- What the pipeline uses of the shared crates, serde and sha2. A message to sign is `none` where
-- serde fails.
pub record PublishLibraries (Route : Type 0) : Type 0 where
  pub scope_of_route : Route → SwarmScope
  pub lane_of_route : Route → PropagationLane
  pub address_of_route : Route → String
  pub from_kind_label : SwarmScope → PropagationLane → String → Bool → Option Route
  pub lane_as_str : PropagationLane → String
  pub label : SwarmScope → Option String
  pub parse_scope : String → Option ScopeHint
  pub parse_event : List ℕ → Option Event
  pub parse_rule : List ℕ → Option RuleAnnouncement
  pub parse_checkpoint : List ℕ → Option CheckpointAnnouncement
  pub parse_summary : List ℕ → Option SummaryAnnouncement
  pub rule_message : RuleAnnouncement → Option (List ℕ)
  pub checkpoint_message : CheckpointAnnouncement → Option (List ℕ)
  pub event_signature_holds : Event → Bool
  pub signature_holds : String → List ℕ → String → Bool
  pub hash_bytes : List ℕ → String
  pub hash_route : Route → Option String
  pub hash_binding : String → String → ℕ → String
  pub delivery_class_for_record : PropagationLane → EventDeliveryUrgency → DeliveryClass
  pub delivery_policy_version : ℕ
  -- of a snapshot's authority: whether a role is the Finalizer's, and the signatures' check at the
  -- message of the membership and the threshold
  pub is_finalizer : String → Bool
  pub quorum_signature_holds : Membership → ℕ → String → String → Bool

-- An entry of `gateway_audit` for a publish, with its record.
pub record AuditRow : Type 0 where
  pub network_id : String
  pub principal_id : String
  pub record_id : String

pub record PublishState (Route : Type 0) : Type 0 where
  pub membership : Db
  pub receipts : Table (String × (String × String)) ReceiptRow
  pub global_buckets : GlobalBuckets
  pub non_global_buckets : NonGlobalBuckets
  pub published : List (BrokerRecord Route)
  pub audit : List AuditRow
