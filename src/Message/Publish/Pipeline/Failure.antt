-- ===== src/Message/Publish/Pipeline/Failure.antt =====
-- What a publish of crates/message-gateway/src/service.rs that fails leaves behind.
use watt_gateway.Prelude.{
  ℕ, ◌≡◌, refl, sym, ap, ◌∙◌, ◌⊎◌, inl, inr, [], ◌∷◌, ◌++◌, Bool, true, false, Option, none, some,
  Eq, arith, Result, ok, err, String,
}
use watt_gateway.Prelude.Stateful.{Stateful, continue}
use watt_gateway.Message.Bucket.{DeliveryClass}
use watt_gateway.Message.Membership.{SwarmScope, global, region, node, group, Db}
use watt_gateway.Message.Publish.{
  PublishFrame, PublishAcceptance, PublishError, BrokerRecord, commit_failed, PublishLibraries,
  PublishState,
}
use watt_gateway.Message.Publish.Checks.{Prepared, Fanout, prepare}
use watt_gateway.Message.Publish.Reconcile.{reconcile_scope_bindings}
use watt_gateway.Message.Publish.Reconcile.Laws.{SameScopes}
use watt_gateway.Message.Publish.Reconcile.Exact.{reconcile-keeps}
use watt_gateway.Message.Publish.Pipeline.{
  PublishCall, take_non_global, take_global, take_tokens, reconcile_unless, store_reconciled,
  broker_publish, confirm, persisted, commit, broker_record, publish_new, answer, publish,
  publish_prepared, find_receipt, planned, fund_and_send, reconcile_and_send, send_and_commit,
}

-- All but the token buckets and the projected bindings.
abbrev pub Untouched : {Route : Type 0} → PublishState Route → PublishState Route → Type 0
Untouched st after =
    (after.receipts ≡ st.receipts)
    × (after.published ≡ st.published)
    × (after.audit ≡ st.audit)
    × SameScopes st.membership after.membership

Untouched-refl : {Route : Type 0} (st : PublishState Route) → Untouched st st
Untouched-refl st = (refl, refl, refl, (refl, refl, refl, refl))

Untouched-trans :
    {Route : Type 0} (a b c : PublishState Route) → Untouched a b → Untouched b c → Untouched a c
Untouched-trans a b c (h1, h2, h3, (h4, h5, h6, h7)) (k1, k2, k3, (k4, k5, k6, k7)) =
    (k1 ∙ h1, k2 ∙ h2, k3 ∙ h3, (k4 ∙ h4, k5 ∙ h5, k6 ∙ h6, k7 ∙ h7))

-- A record of the frame.
abbrev pub IsOf :
    {Route : Type 0} → String → String → PublishFrame Route → BrokerRecord Route → Type 0
IsOf network_id author frame r =
    (r.record_id ≡ frame.record_id)
    × (r.record_bytes ≡ frame.payload)
    × (r.network_id ≡ network_id)
    × (r.source_principal_id ≡ author)

-- What a failed publish of a frame leaves: only token buckets and projected bindings are written,
-- and, where the commit fails, the frame's record is confirmed.
abbrev pub IsLeft :
    {Route : Type 0}
    → String
    → String
    → PublishFrame Route
    → PublishState Route
    → PublishState Route
    → PublishError
    → Type 0
IsLeft {Route = Route} network_id author frame st after e =
    (after.receipts ≡ st.receipts)
    × (after.audit ≡ st.audit)
    × SameScopes st.membership after.membership
    × ((after.published ≡ st.published)
        ⊎ ((e ≡ commit_failed)
            × ((r : BrokerRecord Route) × IsOf network_id author frame r
                × (after.published ≡ st.published ++ r ∷ []))))

module _ {Route : Type 0} ⦃route : Eq Route⦄ (lib : PublishLibraries Route)
    (call : PublishCall Route) where
  open call use {brokers, network_id, author}

  pub tokens_keep :
      (scope : SwarmScope) (class : DeliveryClass) (n policy : ℕ) (st : PublishState Route)
      → Untouched st (take_tokens lib call scope class n policy st).0
  unfolding take_tokens take_non_global take_global
  tokens_keep global class n policy st = Untouched-refl st
  tokens_keep (region _) class n policy st = Untouched-refl st
  tokens_keep (node _) class n policy st = Untouched-refl st
  tokens_keep (group _) class n policy st = Untouched-refl st

  module _ (address : String) (scope : SwarmScope) (st : PublishState Route) where
    abbrev reconciled : Bool → PublishState Route × Result PublishError (Unit {0})
    reconciled applied = reconcile_unless lib call applied scope address st

    pub reconcile_keeps_all : (applied : Bool) → Untouched st (reconciled applied).0
    unfolding reconcile_unless
    reconcile_keeps_all true = Untouched-refl st
    reconcile_keeps_all false =
        stored
          (reconcile_scope_bindings brokers.reconcile lib.label network_id scope address
            st.membership)
          (λ after h.
            reconcile-keeps network_id address st.membership brokers.reconcile lib.label scope after
              h)
      where
        stored :
            (r : Result PublishError Db)
            → ((after : Db) → r ≡ ok after → SameScopes st.membership after)
            → Untouched st (store_reconciled lib call st r).0
        stored (err e) keeps = Untouched-refl st
        stored (ok after) keeps = (refl, refl, refl, keeps after refl)

  module _ (frame : PublishFrame Route) where
    abbrev Left : PublishState Route → PublishState Route → PublishError → Type 0
    Left = IsLeft network_id author frame

    Left-here :
        (st after : PublishState Route) (e : PublishError) → Untouched st after → Left st after e
    Left-here st after e (receipts, records, audit, scopes) = (receipts, audit, scopes, inl records)

    Left-after :
        (st s after : PublishState Route) (e : PublishError)
        → Untouched st s
        → Left s after e
        → Left st after e
    Left-after st s after e (h1, h2, h3, (h4, h5, h6, h7)) (k1, k3, (k4, k5, k6, k7), sent) =
        (k1 ∙ h1, k3 ∙ h3, (k4 ∙ h4, k5 ∙ h5, k6 ∙ h6, k7 ∙ h7), before sent)
      where
        before :
            (after.published ≡ s.published)
              ⊎ ((e ≡ commit_failed)
                  × ((r : BrokerRecord Route) × IsOf network_id author frame r
                      × (after.published ≡ s.published ++ r ∷ [])))
            → (after.published ≡ st.published)
              ⊎ ((e ≡ commit_failed)
                  × ((r : BrokerRecord Route) × IsOf network_id author frame r
                      × (after.published ≡ st.published ++ r ∷ [])))
        before (inl same) = inl (same ∙ h2)
        before (inr (is, (r, of, sent))) = inr (is, (r, of, sent ∙ ap (λ l. l ++ r ∷ []) h2))

    -- A run keeps what its first part keeps and a failure of the rest leaves.
    continue_fails :
        {A B : Type 0} (st after : PublishState Route) (e : PublishError)
        (ran : PublishState Route × Result PublishError A)
        (next : A → Stateful (PublishState Route) PublishError B)
        → Untouched st ran.0
        → ((a : A) (s : PublishState Route) → next a s ≡ (after, err e) → Left s after e)
        → continue ran next ≡ (after, err e)
        → Left st after e
    continue_fails st after e (s, err f) next here later h =
        Left-here st after e (rw (sym (ap (λ r. r.0) h)) here)
    continue_fails st after e (s, ok a) next here later h =
        Left-after st s after e here (later a s h)

    confirming_fails :
        (confirmed persists : Bool) (p : Prepared Route) (fanout : Fanout)
        (st after : PublishState Route) (e : PublishError)
        → continue
            (confirm lib call confirmed (broker_record lib call frame p fanout) st)
            (λ _. persisted lib call persists frame p fanout)
          ≡ (after, err e)
        → Left st after e
    confirming_fails true true p fanout st after e h = absurd (ground (h, arith))
    confirming_fails true false p fanout st after e h = rw (sym (ap (λ r. r.0) h)) (
      refl,
      refl,
      (refl, refl, refl, refl),
      inr (
        ground (h, arith),
        (broker_record lib call frame p fanout, (refl, refl, refl, refl), refl),
      ),
    )
    confirming_fails false persists p fanout st after e h =
        Left-here st after e (rw (sym (ap (λ r. r.0) h)) (Untouched-refl st))

    sending_fails :
        (p : Prepared Route) (fanout : Fanout) (st after : PublishState Route) (e : PublishError)
        → send_and_commit lib call frame p fanout st ≡ (after, err e)
        → Left st after e
    unfolding send_and_commit broker_publish commit
    sending_fails p fanout st after e h =
        confirming_fails (brokers.publish (broker_record lib call frame p fanout)) call.persists p
          fanout st after e h

    reconciling_fails :
        (p : Prepared Route) (fanout : Fanout) (st after : PublishState Route) (e : PublishError)
        → reconcile_and_send lib call frame p fanout st ≡ (after, err e)
        → Left st after e
    unfolding reconcile_and_send
    reconciling_fails p fanout st after e h =
        continue_fails st after e
          (reconciled (lib.address_of_route p.validated.route)
            (lib.scope_of_route p.validated.route) st fanout.mutation_applied)
          (λ _. send_and_commit lib call frame p fanout)
          (reconcile_keeps_all (lib.address_of_route p.validated.route)
            (lib.scope_of_route p.validated.route) st fanout.mutation_applied)
          (λ _ s k. sending_fails p fanout s after e k) h

    funding_fails :
        (p : Prepared Route) (fanout : Fanout) (st after : PublishState Route) (e : PublishError)
        → fund_and_send lib call frame p fanout st ≡ (after, err e)
        → Left st after e
    unfolding fund_and_send
    funding_fails p fanout st after e h =
        continue_fails st after e
          (take_tokens lib call (lib.scope_of_route p.validated.route) p.delivery_class
            fanout.physical_recipients frame.delivery_policy_version st)
          (λ _. reconcile_and_send lib call frame p fanout)
          (tokens_keep (lib.scope_of_route p.validated.route) p.delivery_class
            fanout.physical_recipients frame.delivery_policy_version st)
          (λ _ s k. reconciling_fails p fanout s after e k) h

    new_fails :
        (p : Prepared Route) (st after : PublishState Route) (e : PublishError)
        → publish_new lib call frame p st ≡ (after, err e)
        → Left st after e
    unfolding publish_new
    new_fails p st after e h =
        continue_fails st after e (st, planned lib call frame p st) (fund_and_send lib call frame p)
          (Untouched-refl st) (λ fanout s k. funding_fails p fanout s after e k) h

    answer_fails :
        (p : Prepared Route) (receipt : Option PublishAcceptance) (st after : PublishState Route)
        (e : PublishError)
        → answer lib call frame p receipt st ≡ (after, err e)
        → Left st after e
    unfolding answer
    answer_fails p none st after e h = new_fails p st after e h
    answer_fails p (some receipt) st after e h =
        Left-here st after e (rw (sym (ap (λ r. r.0) h)) (Untouched-refl st))

    prepared_fails :
        (p : Prepared Route) (st after : PublishState Route) (e : PublishError)
        → publish_prepared lib call frame p st ≡ (after, err e)
        → Left st after e
    unfolding publish_prepared
    prepared_fails p st after e h =
        continue_fails st after e (st, find_receipt lib call frame p st) (answer lib call frame p)
          (Untouched-refl st) (λ receipt s k. answer_fails p receipt s after e k) h

    -- A publish that fails leaves the receipts and the audit as they were, and of the membership
    -- the grants, the versions, the mutation windows and the authorities. No record was confirmed
    -- either, unless the error is that of the commit: then one may be, the frame's own.
    pub failure_leaves_no_receipt :
        (st after : PublishState Route) (e : PublishError)
        → publish lib call frame st ≡ (after, err e)
        → IsLeft network_id author frame st after e
    unfolding publish
    failure_leaves_no_receipt st after e h =
        continue_fails st after e (st, prepare lib network_id author frame st.membership)
          (publish_prepared lib call frame) (Untouched-refl st)
          (λ p s k. prepared_fails p s after e k) h
