-- ===== src/Message/Publish/Frame/Own.antt =====
-- The membership mutation of a signed event (crates/message-gateway/src/service.rs).
use watt_gateway.Prelude.{
  ◌≡◌, refl, ap, String, Bool, true, not, some, arith, str_eq, eq_iff, ok, bail_if, or_bail,
  >>=-eq-ok, bail_if-false, not-false,
}
use watt_gateway.Message.Membership.{SwarmScope, global, region, node, group}
use watt_gateway.Message.Membership.Mutation.{MembershipMutation, snapshot, principal}
use watt_gateway.Message.Publish.{
  scope_beq, scope_from_hint, EventPayload, membership_updated, feed_subscription_updated, Event,
  scope_invalid, subscriber_is_not_author,
}
use watt_gateway.Message.Publish.Frame.{subscription_mutation, event_mutation}

-- Equal scopes by the test are equal.
pub scope_eq : (a b : SwarmScope) → scope_beq a b ≡ true → a ≡ b
scope_eq global global h = refl
scope_eq (region a) (region b) h = ap region ((eq_iff a b).0 h)
scope_eq (node a) (node b) h = ap node ((eq_iff a b).0 h)
scope_eq (group a) (group b) h = ap group ((eq_iff a b).0 h)
scope_eq _ _ h = cc

-- Who a mutation names and what version it gives.
unfoldable pub IsOwn : Event → MembershipMutation → Type 0
IsOwn event (principal _ p _ version) = (p ≡ event.author_node_id) × (version ≡ event.event_id)
IsOwn event (snapshot _ _ _ _ version) = version ≡ event.event_id

subscription-IsOwn :
    (event : Event) (scope : SwarmScope) (subscriber : String) (active : Bool)
    (mutation : MembershipMutation)
    → subscriber ≡ event.author_node_id
    → subscription_mutation scope subscriber active event.event_id ≡ some mutation
    → IsOwn event mutation
unfolding subscription_mutation IsOwn
subscription-IsOwn event global subscriber active mutation own h = cc
subscription-IsOwn event (node _) subscriber active mutation own h = cc
subscription-IsOwn event (region _) subscriber active (principal _ p _ version) own h =
    (ground (h, own, arith), ground (h, arith))
subscription-IsOwn event (group _) subscriber active (principal _ p _ version) own h =
    (ground (h, own, arith), ground (h, arith))
subscription-IsOwn event (region _) subscriber active (snapshot _ _ _ _ version) own h =
    ground (h, arith)
subscription-IsOwn event (group _) subscriber active (snapshot _ _ _ _ version) own h =
    ground (h, arith)

pub mutation-IsOwn :
    (event : Event) (payload : EventPayload) (mutation : MembershipMutation)
    → event_mutation event payload ≡ ok (some mutation)
    → IsOwn event mutation
unfolding event_mutation IsOwn
mutation-IsOwn event (feed_subscription_updated hint subscriber active) mutation h =
    let (scope, _, h1) = >>=-eq-ok (or_bail hint scope_invalid) _ h in
    let (u, own, h2) =
      >>=-eq-ok (bail_if (not (str_eq subscriber event.author_node_id)) subscriber_is_not_author) _
        h1 in
    subscription-IsOwn event (scope_from_hint scope) subscriber active mutation
      ((eq_iff _ _).0 (not-false _ (bail_if-false _ _ own))) (ground (h2, arith))
mutation-IsOwn event (membership_updated m t signatures) (snapshot _ _ _ _ version) h = cc
mutation-IsOwn event (membership_updated m t signatures) (principal _ _ _ version) h = cc
mutation-IsOwn event _ mutation h = cc
