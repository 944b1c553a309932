-- ===== src/Message/Publish/Checks.antt =====
-- The parts of `publish` of crates/message-gateway/src/service.rs that read: the checks of a frame,
-- the receipt that answers it, and the plan of its fanout, which a membership mutation writes in
-- the transaction that `begin_scope_fence` opens.
pub mod Laws
pub mod Stored
pub mod Tests
use Prim.Native.String.{◌++◌ as join}
use watt_gateway.Prelude.{
  ℕ, ◌+◌, ◌-◌, ◌*◌, String, Bool, true, false, not, ◌&&◌, ◌||◌, Option, none, some, List, ltb, leb,
  ◌==◌, str_eq, if◌then◌else◌, length, Eq, string_eq, lookup, Result, ok, err, bail_if, or_bail,
  map_err, ◌>>=◌, ◌>>◌, u64_max,
}
use watt_gateway.Message.Config.{Config, is_some}
use watt_gateway.Message.Bucket.{DeliveryClass, interactive, bulk, class_beq}
use watt_gateway.Message.Control.{ReceiptRow}
use watt_gateway.Message.Membership.{
  SwarmScope, Db, principal_is_global_authority, authorized_scope_version_and_count,
  scope_contains_principal,
}
use watt_gateway.Message.Membership.Mutation.{
  MembershipMutation, snapshot, principal, mutation_version, BrokerCall, apply_membership_mutation,
}
use watt_gateway.Message.Membership.Quorum.{validate_membership_snapshot_authority}
use watt_gateway.Message.Publish.{
  PropagationLane, is_rule_or_checkpoint, is_global, PublishFrame, ValidatedFrame,
  PublishAcceptance, PublishError, framing_mismatch, not_genesis_authority, serialize_failed,
  receipt_mismatch, receipt_class_invalid, classification_mismatch, fanout_out_of_bounds,
  byte_budget_overflow, byte_budget_exceeded, quorum_refused, not_authorized, mutation_failed,
  PublishLibraries,
}
use watt_gateway.Message.Publish.Frame.{validate_record_frame}

-- A frame that passed the checks, with its class and hashes.
pub record Prepared (Route : Type 0) : Type 0 where
  pub validated : ValidatedFrame Route
  pub delivery_class : DeliveryClass
  pub record_hash : String
  pub route_hash : String

abbrev pub class_of : String → Option DeliveryClass
class_of text =
    if str_eq text "interactive"
    then some interactive
    else if str_eq text "bulk"
    then some bulk
    else none

abbrev pub class_text : DeliveryClass → String
class_text interactive = "interactive"
class_text bulk = "bulk"

-- The row of a live receipt as an acceptance.
pub accept_row : String → String → String → ReceiptRow → Result PublishError PublishAcceptance
accept_row record_id record_hash route_hash row = do
  bail_if
      (not (str_eq row.authorized_route_hash route_hash)
        || not (str_eq row.record_hash record_hash))
      receipt_mismatch
  class ← or_bail (class_of row.delivery_class) receipt_class_invalid
  ok (record {
    publish_receipt = join "existing:" record_id;
    record_id = record_id;
    delivery_class = class;
    delivery_policy_version = row.delivery_policy_version;
    membership_version = row.membership_version;
  })

-- `transpose`
abbrev pub some_ok {ℓ κ} : {E : Type ℓ} {A : Type κ} → Result E A → Result E (Option A)
some_ok (err e) = err e
some_ok (ok a) = ok (some a)

unfoldable pub load_confirmed_receipt :
    ℕ
    → String
    → String
    → String
    → Option ReceiptRow
    → Result PublishError (Option PublishAcceptance)
load_confirmed_receipt now record_id record_hash route_hash none = ok none
load_confirmed_receipt now record_id record_hash route_hash (some row) =
    if ltb now row.expires_at
    then some_ok (accept_row record_id record_hash route_hash row)
    else ok none

-- `Some(Principal { principal_id, active: true, .. }) if principal_id == &session.principal_id`
pub allows_member_author : String → Option MembershipMutation → Bool
allows_member_author author (some (principal _ p true _)) = str_eq p author
allows_member_author author _ = false

-- What the fanout of a record is, and the database that the transaction will commit.
pub record Fanout : Type 0 where
  pub db : Db
  pub membership_version : Option String
  pub physical_recipients : ℕ
  pub expected_recipients : ℕ
  pub mutation_applied : Bool

module _ {Route : Type 0} ⦃route : Eq Route⦄ (lib : PublishLibraries Route)
    (network_id author : String) where
  pub check_snapshot : Db → Option MembershipMutation → Result PublishError (Unit {0})
  check_snapshot db (some (snapshot _ membership threshold signatures _)) = map_err quorum_refused (
      validate_membership_snapshot_authority lib.is_finalizer
        (lib.quorum_signature_holds membership threshold) db network_id author threshold signatures)
  check_snapshot db _ = ok tt

  abbrev pub needs_genesis : Route → Bool
  needs_genesis r = is_global (lib.scope_of_route r) && is_rule_or_checkpoint (lib.lane_of_route r)

  pub prepare : PublishFrame Route → Db → Result PublishError (Prepared Route)
  prepare frame db = do
    bail_if
        (not (str_eq frame.framing_version "1")
          || not (frame.delivery_policy_version == lib.delivery_policy_version)
          || not (str_eq frame.network_id network_id))
        framing_mismatch
    validated ← validate_record_frame lib author frame
    check_snapshot db validated.membership_mutation
    bail_if
        (needs_genesis validated.route && not (principal_is_global_authority db network_id author))
        not_genesis_authority
    route_hash ← or_bail (lib.hash_route validated.route) serialize_failed
    ok (record {
      validated = validated;
      delivery_class =
          lib.delivery_class_for_record (lib.lane_of_route validated.route) validated.urgency;
      record_hash = lib.hash_bytes frame.payload;
      route_hash = route_hash;
    })

  -- A receipt whose class or policy differs is refused.
  pub same_classification :
      PublishFrame Route
      → Prepared Route
      → PublishAcceptance
      → Result PublishError PublishAcceptance
  same_classification frame p receipt = do
    bail_if
        (not (class_beq receipt.delivery_class p.delivery_class)
          || not (receipt.delivery_policy_version == frame.delivery_policy_version))
        classification_mismatch
    ok receipt

  module _ (broker : List BrokerCall → Bool) (c : Config) (now elapsed : ℕ) where
    -- The database, the version and the recipients after the mutation, where there is one.
    pub apply_mutation :
        Db
        → Route
        → Option MembershipMutation
        → Option String × ℕ
        → Result PublishError (Db × (Option String × ℕ))
    apply_mutation db r none authorized = ok (db, authorized)
    apply_mutation db r (some mutation) authorized = do
      applied ← map_err mutation_failed (
          apply_membership_mutation broker c now elapsed lib.label network_id mutation
            (some (lib.address_of_route r)) db)
      ok (applied.0, (some (mutation_version mutation), applied.1))

    -- Read outside of the transaction: the rows of the scope, at the version of the record, or the recipient of a direct one.
    abbrev pub projected : Db → Route → Option String → Result PublishError Bool
    projected db r version =
        map_err not_authorized (
          scope_contains_principal lib.label db now network_id (lib.scope_of_route r) author
            version)

    pub author_is_recipient :
        Db → Route → Option String → Option MembershipMutation → Result PublishError Bool
    author_is_recipient db r version (some (snapshot _ membership _ _ _)) =
        ok (is_some (lookup author membership))
    author_is_recipient db r version (some (principal _ p active _)) =
        if str_eq p author then ok active else projected db r version
    author_is_recipient db r version none = projected db r version

    abbrev pub subtract_author : ℕ → Bool → ℕ
    subtract_author recipients true = recipients - 1
    subtract_author recipients false = recipients

    abbrev pub fanout_of : ValidatedFrame Route → Db → Option String → ℕ → Bool → Fanout
    fanout_of v after version recipients is_recipient = record {
      db = after;
      membership_version = version;
      physical_recipients = recipients;
      expected_recipients = subtract_author recipients is_recipient;
      mutation_applied = is_some v.membership_mutation;
    }

    -- The bounds of a fanout, after the mutation.
    pub bound_fanout :
        PublishFrame Route
        → ValidatedFrame Route
        → Db
        → Db
        → Option String
        → ℕ
        → Result PublishError Fanout
    bound_fanout frame v db after version recipients = do
      bail_if (recipients == 0 || ltb c.max_fanout_recipients recipients) fanout_out_of_bounds
      is_recipient ← author_is_recipient db v.route version v.membership_mutation
      bail_if (ltb u64_max (length frame.payload * recipients)) byte_budget_overflow
      bail_if (ltb c.max_fanout_bytes_per_publish (length frame.payload * recipients))
          byte_budget_exceeded
      ok (fanout_of v after version recipients is_recipient)

    abbrev pub authorized : ValidatedFrame Route → Db → Result PublishError (Option String × ℕ)
    authorized v db = map_err not_authorized (
        authorized_scope_version_and_count lib.label db now network_id (lib.scope_of_route v.route)
          author (allows_member_author author v.membership_mutation))

    pub plan_fanout : PublishFrame Route → ValidatedFrame Route → Db → Result PublishError Fanout
    plan_fanout frame v db = do
      scope_label ← or_bail (lib.label (lib.scope_of_route v.route)) serialize_failed
      found ← authorized v db
      (after, (version, recipients)) ← apply_mutation db v.route v.membership_mutation found
      bound_fanout frame v db after version recipients
