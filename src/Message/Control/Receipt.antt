-- ===== src/Message/Control/Receipt.antt =====
-- A control frame is delivered once for its receipt (crates/message-gateway/src/service.rs).
use watt_gateway.Prelude.{
  ℕ, ◌+◌, ◌<◌, String, ◌≡◌, refl, Bool, true, false, none, some, [], ◌∷◌, ◌++◌, arith, ltb,
  str_eq_refl, lookup, insert, lookup-insert_self, string_eq, pair_eq, Result, ok,
}
use watt_gateway.Message.Control.{
  ControlLibraries, ControlFrame, ControlState, ControlAcceptance, ControlError, Prepared,
  prepare_control, receipt_differs, new_receipt, insert_receipt, publish_control, answer_control,
  send_prepared, send_control,
}

module _ (lib : ControlLibraries) (broker : ControlFrame → Bool) (network_id principal_id : String)
    (now : ℕ) (frame : ControlFrame) (p : Prepared) (st : ControlState) where
  abbrev stored : String → ControlState
  stored record_hash = record st {
    receipts =
        insert (network_id, (principal_id, frame.correlation_id))
          (new_receipt lib broker network_id principal_id now p record_hash) st.receipts;
    published = st.published ++ frame ∷ [];
  }

  abbrev acceptance : Result ControlError ControlAcceptance
  acceptance = ok (record { correlation_id = frame.correlation_id; delivery_id = p.delivery_id })

  first_send :
      (record_hash : String)
      → lib.record_hash_default ≡ some record_hash
      → prepare_control lib broker network_id principal_id now frame st.membership ≡ ok p
      → lookup (network_id, (principal_id, frame.correlation_id)) st.receipts ≡ none
      → broker frame ≡ true
      → send_control lib broker network_id principal_id now frame st
        ≡ (stored record_hash, acceptance)
  unfolding send_control send_prepared answer_control publish_control insert_receipt
  first_send record_hash d a n k = rw (a, n, k, d, n) refl

  same_receipt :
      (record_hash : String)
      → receipt_differs lib broker network_id principal_id p
          (new_receipt lib broker network_id principal_id now p record_hash)
        ≡ false
  same_receipt record_hash = ground (arith, str_eq_refl p.route_hash, str_eq_refl p.binding_hash)

  second_send :
      (record_hash : String) (later : ℕ)
      → prepare_control lib broker network_id principal_id later frame st.membership ≡ ok p
      → later < now + 86400000
      → send_control lib broker network_id principal_id later frame (stored record_hash)
        ≡ (stored record_hash, acceptance)
  unfolding send_control send_prepared answer_control
  second_send record_hash later b l =
      let found =
        lookup-insert_self (network_id, (principal_id, frame.correlation_id))
          (new_receipt lib broker network_id principal_id now p record_hash) st.receipts in
      let live : ltb later (now + 86400000) ≡ true = ground arith in
      rw (b, found, live, same_receipt record_hash) refl

  -- A frame that no receipt is there for is published once: sending it again within the day of its
  -- receipt returns the same acceptance and publishes nothing, if the frame still passes the checks
  -- with the same hashes. The column `record_hash` has a default here.
  pub resend_publishes_nothing :
      (record_hash : String) (later : ℕ)
      → lib.record_hash_default ≡ some record_hash
      → prepare_control lib broker network_id principal_id now frame st.membership ≡ ok p
      → prepare_control lib broker network_id principal_id later frame st.membership ≡ ok p
      → lookup (network_id, (principal_id, frame.correlation_id)) st.receipts ≡ none
      → broker frame ≡ true
      → later < now + 86400000
      → let first = send_control lib broker network_id principal_id now frame st in
        (first.0.published ≡ st.published ++ frame ∷ [])
        × (first.1
            ≡ ok (record { correlation_id = frame.correlation_id; delivery_id = p.delivery_id }))
        × (send_control lib broker network_id principal_id later frame first.0 ≡ (first.0, first.1))
  resend_publishes_nothing record_hash later d a b n k l =
      rw (first_send record_hash d a n k) (refl, refl, second_send record_hash later b l)
