-- ===== src/Message/Publish/Pipeline.antt =====
-- `publish` of crates/message-gateway/src/service.rs. The token buckets, the reconciliation and the
-- broker write at once; the membership mutation, the receipt and the audit are one transaction,
-- which an error drops. One clock reading stands for all of a publish, in milliseconds, and the
-- records that the broker confirmed are part of the state.
pub mod Failure
pub mod Success
pub mod Idempotent
mod Tests
use watt_gateway.Prelude.{
  ℕ, ◌+◌, ◌-◌, ◌*◌, String, Bool, true, false, not, Option, none, some, List, [], ◌∷◌, ◌++◌, leb,
  if◌then◌else◌, Eq, string_eq, pair_eq, Table, lookup, insert, Result, ok, err, bail_if,
}
use watt_gateway.Prelude.Stateful.{Stateful, reading, ◌>>=◌, ◌>>◌}
use watt_gateway.Message.Config.{Config}
use watt_gateway.Message.Bucket.{
  DeliveryClass, GlobalLimits, acquire_global_token, acquire_non_global_delivery_tokens,
}
use watt_gateway.Message.Control.{ReceiptRow}
use watt_gateway.Message.Membership.{SwarmScope, node, group, region, global, Db}
use watt_gateway.Message.Membership.Mutation.{BrokerCall}
use watt_gateway.Message.Publish.{
  PublishFrame, PublishAcceptance, BrokerRecord, PublishError, non_global_backpressure,
  global_backpressure, broker_failed, commit_failed, PublishLibraries, AuditRow, PublishState,
}
use watt_gateway.Message.Publish.Checks.{
  Prepared, prepare, load_confirmed_receipt, same_classification, Fanout, plan_fanout, class_text,
}
use watt_gateway.Message.Publish.Reconcile.{RouteCall, reconcile_scope_bindings}

abbrev pub Receipts : Type 0
Receipts = Table (String × (String × String)) ReceiptRow

-- `INSERT … ON CONFLICT … DO UPDATE … WHERE expires_at <= clock_timestamp()`
pub write_row :
    ℕ → String × (String × String) → ReceiptRow → Option ReceiptRow → Receipts → Receipts
write_row now key row none t = insert key row t
write_row now key row (some old) t = if leb old.expires_at now then insert key row t else t

pub upsert_receipt : ℕ → String × (String × String) → ReceiptRow → Receipts → Receipts
upsert_receipt now key row t = write_row now key row (lookup key t) t

pub direct_recipient : SwarmScope → Option String
direct_recipient (node recipient) = some recipient
direct_recipient _ = none

abbrev pub version_or_empty : Option String → String
version_or_empty none = ""
version_or_empty (some version) = version

-- The brokers that a publish calls: for the bindings of a mutation, for those of a reconciliation,
-- and for the record, with whether each was confirmed in time.
pub record Brokers (Route : Type 0) : Type 0 where
  pub mutate : List BrokerCall → Bool
  pub reconcile : List RouteCall → Bool
  pub publish : BrokerRecord Route → Bool

-- A call of `publish`: the session, the configuration, the clock, the time that a mutation takes,
-- the receipt's new identifier, and whether the database takes and commits the receipt, the audit
-- and the mutation.
pub record PublishCall (Route : Type 0) : Type 0 where
  pub brokers : Brokers Route
  pub config : Config
  pub network_id : String
  pub author : String
  pub now : ℕ
  pub elapsed : ℕ
  pub receipt_id : String
  pub persists : Bool

module _ {Route : Type 0} ⦃route : Eq Route⦄ (lib : PublishLibraries Route)
    (call : PublishCall Route) where
  open call use {brokers, config as c, network_id, author, now, elapsed, receipt_id}

  abbrev Run : Type 0 → Type 0
  Run A = Stateful (PublishState Route) PublishError A

  abbrev pub receipt_key : PublishFrame Route → String × (String × String)
  receipt_key frame = (network_id, (author, frame.record_id))

  abbrev pub find_receipt :
      PublishFrame Route
      → Prepared Route
      → PublishState Route
      → Result PublishError (Option PublishAcceptance)
  find_receipt frame p st =
      load_confirmed_receipt now frame.record_id p.record_hash p.route_hash
        (lookup (receipt_key frame) st.receipts)

  -- `acquire_non_global_delivery_tokens`, in the cell of the gateway
  pub take_non_global : ℕ → ℕ → Run (Unit {0})
  take_non_global recipients policy st =
      let (buckets, allowed) =
        acquire_non_global_delivery_tokens network_id "cell-0" recipients
          c.reserved_non_global_deliveries_per_second policy (now * 1000) st.non_global_buckets in
      (record st { non_global_buckets = buckets }, bail_if (not allowed) non_global_backpressure)

  abbrev pub global_limits : ℕ → GlobalLimits
  global_limits policy = record {
    total_rate = c.max_global_publishes_per_second;
    bulk_rate = c.max_global_publishes_per_second - c.global_interactive_reserved_per_second;
    burst = c.global_publish_burst;
    policy_version = policy;
  }

  pub take_global : DeliveryClass → ℕ → Run (Unit {0})
  take_global class policy st =
      let (buckets, allowed) =
        acquire_global_token network_id "cell-0" (global_limits policy) class (now * 1000)
          st.global_buckets in
      (record st { global_buckets = buckets }, bail_if (not allowed) global_backpressure)

  pub take_tokens : SwarmScope → DeliveryClass → ℕ → ℕ → Run (Unit {0})
  take_tokens (group _) class recipients policy = take_non_global recipients policy
  take_tokens (region _) class recipients policy = take_non_global recipients policy
  take_tokens global class recipients policy = take_global class policy
  take_tokens (node _) class recipients policy = λ st. (st, ok tt)

  abbrev pub store_reconciled :
      PublishState Route
      → Result PublishError Db
      → PublishState Route × Result PublishError (Unit {0})
  store_reconciled st (err e) = (st, err e)
  store_reconciled st (ok db) = (record st { membership = db }, ok tt)

  -- The bindings are reconciled where no mutation has just written them.
  pub reconcile_unless : Bool → SwarmScope → String → Run (Unit {0})
  reconcile_unless true scope address st = (st, ok tt)
  reconcile_unless false scope address st =
      store_reconciled st (
        reconcile_scope_bindings brokers.reconcile lib.label network_id scope address st.membership)

  abbrev pub broker_record : PublishFrame Route → Prepared Route → Fanout → BrokerRecord Route
  broker_record frame p fanout = record {
    direct_recipient = direct_recipient (lib.scope_of_route p.validated.route);
    network_id = network_id;
    source_principal_id = author;
    record_id = frame.record_id;
    route = p.validated.route;
    record_bytes = frame.payload;
    membership_version = fanout.membership_version;
    delivery_class = p.delivery_class;
    delivery_policy_version = frame.delivery_policy_version;
    enqueued_at = now;
    expires_at = now + c.mailbox_message_ttl_ms;
  }

  -- The broker's answer to a record.
  abbrev pub confirm : Bool → BrokerRecord Route → Run (Unit {0})
  confirm true r st = (record st { published = st.published ++ r ∷ [] }, ok tt)
  confirm false r st = (st, err broker_failed)

  pub broker_publish : BrokerRecord Route → Run (Unit {0})
  broker_publish r st = confirm (brokers.publish r) r st

  abbrev pub new_receipt : PublishFrame Route → Prepared Route → Fanout → ReceiptRow
  new_receipt frame p fanout = record {
    authorized_route_hash = p.route_hash;
    record_hash = p.record_hash;
    membership_version = fanout.membership_version;
    expected_recipients = fanout.expected_recipients;
    binding_set_hash =
        lib.hash_binding p.route_hash (version_or_empty fanout.membership_version)
          fanout.expected_recipients;
    delivery_class = class_text p.delivery_class;
    delivery_policy_version = frame.delivery_policy_version;
    expires_at = now + 86400000;
  }

  abbrev pub acceptance : PublishFrame Route → Prepared Route → Fanout → PublishAcceptance
  acceptance frame p fanout = record {
    publish_receipt = receipt_id;
    record_id = frame.record_id;
    delivery_class = p.delivery_class;
    delivery_policy_version = frame.delivery_policy_version;
    membership_version = fanout.membership_version;
  }

  -- The transaction's writes, or an error of one of them or of the commit, which drops them all.
  abbrev pub persisted : Bool → PublishFrame Route → Prepared Route → Fanout → Run PublishAcceptance
  persisted false frame p fanout st = (st, err commit_failed)
  persisted true frame p fanout st = (
    record st {
      membership = if fanout.mutation_applied then fanout.db else st.membership;
      receipts = upsert_receipt now (receipt_key frame) (new_receipt frame p fanout) st.receipts;
      audit =
          st.audit
          ++ record { network_id = network_id; principal_id = author; record_id = frame.record_id }
            ∷ [];
    },
    ok (acceptance frame p fanout),
  )

  pub commit : PublishFrame Route → Prepared Route → Fanout → Run PublishAcceptance
  commit frame p fanout = persisted call.persists frame p fanout

  pub send_and_commit : PublishFrame Route → Prepared Route → Fanout → Run PublishAcceptance
  send_and_commit frame p fanout = do
    broker_publish (broker_record frame p fanout)
    commit frame p fanout

  pub reconcile_and_send : PublishFrame Route → Prepared Route → Fanout → Run PublishAcceptance
  reconcile_and_send frame p fanout = do
    reconcile_unless fanout.mutation_applied (lib.scope_of_route p.validated.route)
        (lib.address_of_route p.validated.route)
    send_and_commit frame p fanout

  pub fund_and_send : PublishFrame Route → Prepared Route → Fanout → Run PublishAcceptance
  fund_and_send frame p fanout = do
    take_tokens (lib.scope_of_route p.validated.route) p.delivery_class fanout.physical_recipients
        frame.delivery_policy_version
    reconcile_and_send frame p fanout

  abbrev pub planned :
      PublishFrame Route → Prepared Route → PublishState Route → Result PublishError Fanout
  planned frame p st =
      plan_fanout lib network_id author brokers.mutate c now elapsed frame p.validated st.membership

  -- A record without a live receipt.
  pub publish_new : PublishFrame Route → Prepared Route → Run PublishAcceptance
  publish_new frame p = do fanout ← reading (planned frame p); fund_and_send frame p fanout

  pub answer :
      PublishFrame Route → Prepared Route → Option PublishAcceptance → Run PublishAcceptance
  answer frame p (some receipt) =
      reading (λ st. same_classification lib network_id author frame p receipt)
  answer frame p none = publish_new frame p

  pub publish_prepared : PublishFrame Route → Prepared Route → Run PublishAcceptance
  publish_prepared frame p = do receipt ← reading (find_receipt frame p); answer frame p receipt

  pub publish : PublishFrame Route → Run PublishAcceptance
  publish frame = do
    p ← reading (λ (st : PublishState Route). prepare lib network_id author frame st.membership)
    publish_prepared frame p
