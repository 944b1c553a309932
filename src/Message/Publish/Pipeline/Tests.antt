-- ===== src/Message/Publish/Pipeline/Tests.antt =====
-- The sample frame is published, and what the theorems say of it.
use watt_gateway.Prelude.{
  ◌≡◌, refl, String, true, false, none, [], ◌∷◌, arith, ok, err, lookup, insert, string_eq, pair_eq,
}
use watt_gateway.Message.Membership.Mutation.Tests.{network}
use watt_gateway.Message.Bucket.Tests.{first_buckets, first_token}
use watt_gateway.Message.Control.{ReceiptRow}
use watt_gateway.Message.Publish.{
  PublishAcceptance, PublishState, broker_failed, commit_failed, BrokerRecord,
}
use watt_gateway.Message.Publish.Checks.{load_confirmed_receipt}
use watt_gateway.Message.Publish.Pipeline.{
  publish, publish_prepared, answer, publish_new, fund_and_send, reconcile_and_send,
  send_and_commit, take_tokens, take_global, reconcile_unless, broker_publish, commit,
  upsert_receipt, write_row, direct_recipient, broker_record, new_receipt, acceptance, find_receipt,
}
use watt_gateway.Message.Publish.Pipeline.Failure.{IsLeft, failure_leaves_no_receipt}
use watt_gateway.Message.Publish.Pipeline.Idempotent.{repeated, republish_is_answered}
use watt_gateway.Message.Publish.Sample.{libraries, frame, brokers, call, start, prepared, fanout}
use watt_gateway.Message.Publish.Checks.Tests.{frame_is_prepared, frame_is_planned}
use watt_gateway.Message.Publish.Reconcile.Tests.{reconciled, network_reconciles}

abbrev record_sent : BrokerRecord String
record_sent = broker_record libraries (call true) frame prepared fanout

abbrev row : ReceiptRow
row = new_receipt libraries (call true) frame prepared fanout

abbrev after : PublishState String
after = record {
  membership = reconciled;
  receipts = (("network", ("genesis", "record")), row) ∷ [];
  global_buckets = first_buckets;
  non_global_buckets = [];
  published = record_sent ∷ [];
  audit = record { network_id = "network"; principal_id = "genesis"; record_id = "record" } ∷ [];
}

abbrev accepted : PublishAcceptance
accepted = acceptance libraries (call true) frame prepared fanout

is_sent : publish libraries (call true) frame start ≡ (after, ok accepted)
unfolding publish publish_prepared answer publish_new fund_and_send reconcile_and_send
    send_and_commit take_tokens take_global reconcile_unless broker_publish commit upsert_receipt
    write_row direct_recipient load_confirmed_receipt lookup insert
is_sent = rw (frame_is_prepared, frame_is_planned, first_token, network_reconciles) refl

no_receipt : find_receipt libraries (call true) frame prepared start ≡ ok none
unfolding load_confirmed_receipt lookup
no_receipt = refl

-- The same frame a minute later, on a state where the broker is down.
republish_is_answered_example :
    publish libraries
      (record (call true) {
        brokers = brokers false;
        now = 60001;
        elapsed = 7;
        receipt_id = "other";
      })
      frame
      (record after { membership = network })
    ≡ (record after { membership = network }, ok (repeated "record" accepted))
republish_is_answered_example =
    republish_is_answered libraries (call true) frame start after
      (record after { membership = network }) accepted prepared prepared (brokers false) 60001 7
      "other" frame_is_prepared no_receipt is_sent refl frame_is_prepared (omega arith)

-- The broker refuses the record: the tokens are spent and the bindings are reconciled.
abbrev refused : PublishState String
refused = record start { membership = reconciled; global_buckets = first_buckets }

is_refused : publish libraries (call false) frame start ≡ (refused, err broker_failed)
unfolding publish publish_prepared answer publish_new fund_and_send reconcile_and_send
    send_and_commit take_tokens take_global reconcile_unless broker_publish load_confirmed_receipt
    lookup
is_refused = rw (frame_is_prepared, frame_is_planned, first_token, network_reconciles) refl

-- The broker confirms the record, and the commit fails.
abbrev unstored : PublishState String
unstored = record refused { published = record_sent ∷ [] }

is_unstored :
    publish libraries (record (call true) { persists = false }) frame start
    ≡ (unstored, err commit_failed)
unfolding publish publish_prepared answer publish_new fund_and_send reconcile_and_send
    send_and_commit take_tokens take_global reconcile_unless broker_publish commit direct_recipient
    load_confirmed_receipt lookup
is_unstored = rw (frame_is_prepared, frame_is_planned, first_token, network_reconciles) refl

failure_leaves_no_receipt_example : IsLeft "network" "genesis" frame start unstored commit_failed
failure_leaves_no_receipt_example =
    failure_leaves_no_receipt libraries (record (call true) { persists = false }) frame start
      unstored commit_failed is_unstored
