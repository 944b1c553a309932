-- ===== src/Message/Publish/Pipeline/Success.antt =====
-- What a publish of crates/message-gateway/src/service.rs that succeeds has done.
use watt_gateway.Prelude.{
  ◌<◌, lookup, string_eq, pair_eq, ◌≡◌, sym, ap, ◌∙◌, ◌⊎◌, inl, inr, Bool, true, false, [], ◌∷◌,
  ◌++◌, Option, none, some, Eq, arith, Result, ok, err,
}
use watt_gateway.Prelude.Stateful.{continue, reading-ok}
use watt_gateway.Message.Publish.{
  PublishFrame, PublishAcceptance, PublishError, PublishLibraries, PublishState,
}
use watt_gateway.Message.Publish.Checks.{Prepared, Fanout, prepare}
use watt_gateway.Message.Publish.Checks.Laws.{same_classification-ok, prepare-ok}
use watt_gateway.Message.Publish.Checks.Stored.{load-some}
use watt_gateway.Message.Control.{ReceiptRow}
use watt_gateway.Message.Publish.Pipeline.{
  PublishCall, take_tokens, reconcile_unless, confirm, broker_publish, persisted, commit,
  publish_new, answer, publish, publish_prepared, find_receipt, planned, fund_and_send,
  reconcile_and_send, send_and_commit, broker_record, receipt_key, new_receipt, acceptance,
  upsert_receipt,
}
use watt_gateway.Message.Publish.Pipeline.Failure.{Untouched, tokens_keep, reconcile_keeps_all}

module _ {Route : Type 0} ⦃route : Eq Route⦄ (lib : PublishLibraries Route)
    (call : PublishCall Route) (frame : PublishFrame Route) (after : PublishState Route)
    (accepted : PublishAcceptance) where
  -- The record was confirmed, and its receipt stored.
  abbrev pub IsSent : Prepared Route → Fanout → PublishState Route → Type 0
  IsSent p fanout st =
      (after.published ≡ st.published ++ broker_record lib call frame p fanout ∷ [])
      × (after.receipts
          ≡ upsert_receipt call.now (receipt_key lib call frame)
              (new_receipt lib call frame p fanout) st.receipts)
      × (accepted ≡ acceptance lib call frame p fanout)

  module _ (p : Prepared Route) (fanout : Fanout) where
    IsSent-from :
        (st s : PublishState Route) → Untouched st s → IsSent p fanout s → IsSent p fanout st
    IsSent-from st s (receipts, records, audit, membership) (sent, stored, answered) = (
      sent ∙ ap (λ l. l ++ broker_record lib call frame p fanout ∷ []) records,
      stored
          ∙ ap
              (upsert_receipt call.now (receipt_key lib call frame)
                (new_receipt lib call frame p fanout))
              receipts,
      answered,
    )

    confirmed_sends :
        (confirmed persists : Bool) (st : PublishState Route)
        → continue
            (confirm lib call confirmed (broker_record lib call frame p fanout) st)
            (λ _. persisted lib call persists frame p fanout)
          ≡ (after, ok accepted)
        → IsSent p fanout st
    confirmed_sends true true st h = (
      sym (ap (λ r. r.0.published) h),
      sym (ap (λ r. r.0.receipts) h),
      ground (ap (λ r. r.1) h, arith),
    )
    confirmed_sends true false st h = absurd (ground (h, arith))
    confirmed_sends false persists st h = absurd (ground (h, arith))

    -- A first part that keeps the state, and a rest that sends.
    then_sends :
        (st : PublishState Route) (ran : PublishState Route × Result PublishError (Unit {0}))
        (next : Unit {0}
          → PublishState Route
          → PublishState Route × Result PublishError PublishAcceptance)
        → Untouched st ran.0
        → ((s : PublishState Route) → next tt s ≡ (after, ok accepted) → IsSent p fanout s)
        → continue ran next ≡ (after, ok accepted)
        → IsSent p fanout st
    then_sends st (s, err e) next kept sends h = absurd (ground (ap (λ r. r.1) h, arith))
    then_sends st (s, ok tt) next kept sends h = IsSent-from st s kept (sends s h)

    sending_sends :
        (st : PublishState Route)
        → send_and_commit lib call frame p fanout st ≡ (after, ok accepted)
        → IsSent p fanout st
    unfolding send_and_commit broker_publish commit
    sending_sends st h =
        confirmed_sends (call.brokers.publish (broker_record lib call frame p fanout)) call.persists
          st h

    reconciling_sends :
        (st : PublishState Route)
        → reconcile_and_send lib call frame p fanout st ≡ (after, ok accepted)
        → IsSent p fanout st
    unfolding reconcile_and_send
    reconciling_sends st h =
        let r = p.validated.route in
        then_sends st
          (reconcile_unless lib call fanout.mutation_applied (lib.scope_of_route r)
            (lib.address_of_route r) st)
          (λ _. send_and_commit lib call frame p fanout)
          (reconcile_keeps_all lib call (lib.address_of_route r) (lib.scope_of_route r) st
            fanout.mutation_applied)
          sending_sends h

    funding_sends :
        (st : PublishState Route)
        → fund_and_send lib call frame p fanout st ≡ (after, ok accepted)
        → IsSent p fanout st
    unfolding fund_and_send
    funding_sends st h =
        let scope = lib.scope_of_route p.validated.route in
        then_sends st
          (take_tokens lib call scope p.delivery_class fanout.physical_recipients
            frame.delivery_policy_version st)
          (λ _. reconcile_and_send lib call frame p fanout)
          (tokens_keep lib call scope p.delivery_class fanout.physical_recipients
            frame.delivery_policy_version st)
          reconciling_sends h

  -- What an accepted publish has done: it was a record of a plan, or the answer of a receipt.
  abbrev pub IsNew : Prepared Route → PublishState Route → Type 0
  IsNew p st = (fanout : Fanout) × (planned lib call frame p st ≡ ok fanout) × IsSent p fanout st

  abbrev pub IsRepeat : Prepared Route → PublishState Route → Type 0
  IsRepeat p st = (after ≡ st) × (find_receipt lib call frame p st ≡ ok (some accepted))

  fresh_sends :
      (p : Prepared Route) (st : PublishState Route)
      → publish_new lib call frame p st ≡ (after, ok accepted)
      → IsNew p st
  unfolding publish_new
  fresh_sends p st h =
      let (fanout, plan, h1) =
        reading-ok st (planned lib call frame p st) (fund_and_send lib call frame p) h in
      (fanout, plan, funding_sends p fanout st h1)

  answer_sends :
      (p : Prepared Route) (receipt : Option PublishAcceptance) (st : PublishState Route)
      → find_receipt lib call frame p st ≡ ok receipt
      → answer lib call frame p receipt st ≡ (after, ok accepted)
      → IsRepeat p st ⊎ IsNew p st
  unfolding answer
  answer_sends p none st found h = inr (fresh_sends p st h)
  answer_sends p (some receipt) st found h =
      let (same, class, policy) =
        same_classification-ok lib call.network_id call.author frame p receipt accepted
          (ap (λ r. r.1) h) in
      inl (sym (ap (λ r. r.0) h), found ∙ ap (λ a. ok (some a)) (sym same))

  prepared_sends :
      (p : Prepared Route) (st : PublishState Route)
      → publish_prepared lib call frame p st ≡ (after, ok accepted)
      → IsRepeat p st ⊎ IsNew p st
  unfolding publish_prepared
  prepared_sends p st h =
      let (receipt, found, h1) =
        reading-ok st (find_receipt lib call frame p st) (answer lib call frame p) h in
      answer_sends p receipt st found h1

  pub publish_sends :
      (st : PublishState Route)
      → publish lib call frame st ≡ (after, ok accepted)
      → (p : Prepared Route) × (prepare lib call.network_id call.author frame st.membership ≡ ok p)
        × (IsRepeat p st ⊎ IsNew p st)
  unfolding publish
  publish_sends st h =
      let (p, ready, h1) =
        reading-ok st (prepare lib call.network_id call.author frame st.membership)
          (publish_prepared lib call frame) h in
      (p, ready, prepared_sends p st h1)

  -- A live receipt of the record, with the frame's hashes.
  abbrev pub IsAnswered : Prepared Route → PublishState Route → Type 0
  IsAnswered p st =
      (row : ReceiptRow) × (lookup (receipt_key lib call frame) st.receipts ≡ some row)
      × (call.now < row.expires_at)
      × (row.record_hash ≡ lib.hash_bytes frame.payload)
      × (lib.hash_route p.validated.route ≡ some row.authorized_route_hash)

  answered :
      (p : Prepared Route) (st : PublishState Route)
      → prepare lib call.network_id call.author frame st.membership ≡ ok p
      → find_receipt lib call frame p st ≡ ok (some accepted)
      → IsAnswered p st
  answered p st ready found =
      let (row, there, live, record_is, route_is) =
        load-some call.now frame.record_id p.record_hash p.route_hash
          (lookup (receipt_key lib call frame) st.receipts) accepted found in
      let (hashed, hash_is, _) =
        (prepare-ok lib call.network_id call.author frame st.membership p ready).1 in
      (row, there, live, record_is ∙ hash_is, hashed ∙ ap some (sym route_is))
