-- ===== src/Message/Publish/Pipeline/Idempotent.antt =====
-- A record that was sent once is answered from its receipt
-- (crates/message-gateway/src/service.rs).
use Prim.Native.String.{◌++◌ as join}
use watt_gateway.Prelude.{
  ℕ, ◌+◌, ◌<◌, ◌≡◌, refl, sym, ◌⊎◌, inl, inr, true, false, Option, none, some, Eq, arith, ok,
  String, lookup, lookup-insert_self, string_eq, pair_eq, ltb, leb,
}
use watt_gateway.Message.Control.{ReceiptRow}
use watt_gateway.Message.Publish.{PublishFrame, PublishAcceptance, PublishLibraries, PublishState}
use watt_gateway.Message.Publish.Checks.{Prepared, Fanout, prepare, load_confirmed_receipt}
use watt_gateway.Message.Publish.Checks.Laws.{same_classification_accepts, prepare_same}
use watt_gateway.Message.Publish.Checks.Stored.{load_live, load-none}
use watt_gateway.Message.Publish.Pipeline.{
  PublishCall, Brokers, acceptance, Receipts, write_row, upsert_receipt, publish, publish_prepared,
  answer, find_receipt, receipt_key, new_receipt,
}
use watt_gateway.Message.Publish.Pipeline.Success.{publish_sends}

-- Where no receipt is live, the upsert writes the row.
write_row_writes :
    (now : ℕ) (key : String × (String × String)) (row : ReceiptRow) (found : Option ReceiptRow)
    (t : Receipts)
    → ((found ≡ none)
        ⊎ ((old : ReceiptRow) × (found ≡ some old) × (ltb now old.expires_at ≡ false)))
    → lookup key (write_row now key row found t) ≡ some row
unfolding write_row
write_row_writes now key row none t h = lookup-insert_self key row t
write_row_writes now key row (some old) t (inl h) = cc
write_row_writes now key row (some old) t (inr (expired, same, past)) =
    let same_time : expired.expires_at ≡ old.expires_at = ground (same, arith) in
    let replaced : leb old.expires_at now ≡ true = ground (arith, past, same_time) in
    rw replaced (lookup-insert_self key row t)

upsert_writes :
    (now : ℕ) (key : String × (String × String)) (row : ReceiptRow) (t : Receipts)
    (record_id record_hash route_hash : String)
    → load_confirmed_receipt now record_id record_hash route_hash (lookup key t) ≡ ok none
    → lookup key (upsert_receipt now key row t) ≡ some row
unfolding upsert_receipt
upsert_writes now key row t record_id record_hash route_hash h =
    write_row_writes now key row (lookup key t) t
      (load-none now record_id record_hash route_hash (lookup key t) h)

-- The answer of a receipt.
abbrev pub repeated : String → PublishAcceptance → PublishAcceptance
repeated record_id accepted = record {
  publish_receipt = join "existing:" record_id;
  record_id = record_id;
  delivery_class = accepted.delivery_class;
  delivery_policy_version = accepted.delivery_policy_version;
  membership_version = accepted.membership_version;
}

module _ {Route : Type 0} ⦃route : Eq Route⦄ (lib : PublishLibraries Route)
    (call : PublishCall Route) (frame : PublishFrame Route) where
  -- The row that a record was given answers it at a later time.
  row_answers :
      (again : PublishCall Route) (p q : Prepared Route) (fanout : Fanout) (st : PublishState Route)
      → lookup (receipt_key lib again frame) st.receipts
        ≡ some (new_receipt lib call frame p fanout)
      → again.now < call.now + 86400000
      → prepare lib again.network_id again.author frame st.membership ≡ ok q
      → q.record_hash ≡ p.record_hash
      → q.route_hash ≡ p.route_hash
      → q.delivery_class ≡ p.delivery_class
      → publish lib again frame st
        ≡ (st, ok (repeated frame.record_id (acceptance lib call frame p fanout)))
  unfolding publish publish_prepared answer
  row_answers again p q fanout st stored live ready record_is route_is class_is =
      let loaded : find_receipt lib again frame q st
          ≡ ok (some (repeated frame.record_id (acceptance lib call frame p fanout))) =
        rw (stored, record_is, route_is)
          (load_live again.now frame.record_id p.delivery_class
            (new_receipt lib call frame p fanout) live refl) in
      rw
        (
          ready,
          loaded,
          same_classification_accepts lib again.network_id again.author frame q
              (repeated frame.record_id (acceptance lib call frame p fanout)) (sym class_is) refl,
        )
        refl

  -- A record that no live receipt answers and that is accepted is answered by its receipt within a
  -- day, for the same session, whatever the state, the brokers and the clock are then, as long as
  -- the receipts are those of the first publish and the frame still passes its checks: nothing is
  -- sent or written, and the class, the policy and the membership version are the first ones.
  pub republish_is_answered :
      (st after later : PublishState Route) (accepted : PublishAcceptance) (p q : Prepared Route)
      (brokers : Brokers Route) (now elapsed : ℕ) (receipt_id : String)
      → prepare lib call.network_id call.author frame st.membership ≡ ok p
      → find_receipt lib call frame p st ≡ ok none
      → publish lib call frame st ≡ (after, ok accepted)
      → later.receipts ≡ after.receipts
      → prepare lib call.network_id call.author frame later.membership ≡ ok q
      → now < call.now + 86400000
      → publish lib
          (record call { brokers = brokers; now = now; elapsed = elapsed; receipt_id = receipt_id })
          frame
          later
        ≡ (later, ok (repeated frame.record_id accepted))
  republish_is_answered st after later accepted p q brokers now elapsed receipt_id first fresh h
        kept ready live =
      let (p', ready', outcome) = publish_sends lib call frame after accepted st h in
      let same : p' ≡ p = cc in
      elim outcome [
        | inl (_, found) ↦ cc
        | inr (fanout, _, (_, stored, answered)) ↦
            let (record_is, route_is, class_is) =
              prepare_same lib call.network_id call.author frame st.membership later.membership p' q
                ready' ready in
            let row : lookup (receipt_key lib call frame) later.receipts
                ≡ some (new_receipt lib call frame p' fanout) =
              rw (kept, stored)
                (upsert_writes call.now (receipt_key lib call frame)
                  (new_receipt lib call frame p' fanout) st.receipts frame.record_id p'.record_hash
                  p'.route_hash (rw same fresh)) in
            rw answered (
              row_answers
                (record call {
                  brokers = brokers;
                  now = now;
                  elapsed = elapsed;
                  receipt_id = receipt_id;
                })
                p' q fanout later row live ready record_is route_is class_is)
      ]
