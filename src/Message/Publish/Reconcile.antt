-- ===== src/Message/Publish/Reconcile.antt =====
-- `reconcile_scope_bindings` of crates/message-gateway/src/service.rs: the bindings of one route are
-- brought to the members of the scope's active version. Its statements run outside a transaction;
-- the broker answers whether all of the calls succeeded in time.
pub mod Laws
pub mod Calls
pub mod Exact
pub mod Tests
use watt_gateway.Prelude.{
  ℕ, String, Bool, true, false, not, ◌&&◌, Option, none, some, List, [], ◌∷◌, ◌++◌, str_eq,
  if◌then◌else◌, string_eq, pair_eq, lookup, Result, ok, err, bail_if, or_bail, ◌>>=◌, ◌>>◌,
}
use watt_gateway.Message.Membership.{
  SwarmScope, node, is_active, binding_active, MemberRow, Members, BindingRow, Db, in_scope,
  version_of,
}
use watt_gateway.Message.Membership.Mutation.{contains, add, route_bindings}
use watt_gateway.Message.Publish.{
  PublishError, no_active_version, serialize_failed, reconcile_failed, is_node,
}

-- The calls of `RabbitAdapter` that a reconciliation makes.
pub data RouteCall : Type 0 where
  bind_member : String → String → String → String → RouteCall
  unbind_member : String → String → String → String → RouteCall

-- The active rows of a scope at a version; the order by principal is left out.
pub members_at : String → String → String → Members → List String
members_at network_id label version [] = []
members_at network_id label version (((n, (l, p)), row) ∷ t) =
    let rest = members_at network_id label version t in
    if in_scope network_id label (n, (l, p))
      && is_active row.state
      && str_eq row.membership_version version
    then p ∷ rest
    else rest

abbrev pub on_route : String → String → String → BindingRow → Bool
on_route network_id label address b =
    str_eq b.network_id network_id && str_eq b.scope_label label && str_eq b.route_address address

-- `SELECT DISTINCT principal_id`
pub bound_on : String → String → String → List BindingRow → List String
bound_on network_id label address [] = []
bound_on network_id label address (b ∷ bs) =
    let rest = bound_on network_id label address bs in
    if on_route network_id label address b then add b.principal_id rest else rest

pub without_route : String → String → String → List BindingRow → List BindingRow
without_route network_id label address [] = []
without_route network_id label address (b ∷ bs) =
    let rest = without_route network_id label address bs in
    if on_route network_id label address b then rest else b ∷ rest

pub bind_members : String → String → String → List String → List RouteCall
bind_members network_id address version [] = []
bind_members network_id address version (p ∷ ps) =
    bind_member network_id p address version ∷ bind_members network_id address version ps

-- `existing.difference(&desired)`
pub unbind_others : String → String → String → List String → List String → List RouteCall
unbind_others network_id address version desired [] = []
unbind_others network_id address version desired (p ∷ ps) =
    let rest = unbind_others network_id address version desired ps in
    if contains p desired then rest else unbind_member network_id p address version ∷ rest

pub mark_bound : String → String → Members → Members
mark_bound network_id label [] = []
mark_bound network_id label ((key, row) ∷ t) =
    let rest = mark_bound network_id label t in
    if in_scope network_id label key && is_active row.state
    then (
      key,
      record row {
        interactive_binding_state = binding_active;
        bulk_binding_state = binding_active;
      },
    )
      ∷ rest
    else (key, row) ∷ rest

-- The calls for a route, at the members and the principals that are bound.
pub reconcile_calls : String → String → String → List String → List String → List RouteCall
reconcile_calls network_id address version desired existing =
    bind_members network_id address version desired
    ++ unbind_others network_id address version desired existing

abbrev pub route_calls : String → String → String → String → Db → List RouteCall
route_calls network_id label address version db =
    reconcile_calls network_id address version (members_at network_id label version db.members)
      (bound_on network_id label address db.bindings)

-- The statements after the broker's answer.
pub write_route : String → String → String → String → List String → Db → Db
write_route network_id label address version members db = record db {
  bindings =
      without_route network_id label address db.bindings
      ++ route_bindings network_id label version address members;
  members = mark_bound network_id label db.members;
}

module _ (broker : List RouteCall → Bool) (label : SwarmScope → Option String) where
  pub reconcile_shared : String → SwarmScope → String → Db → Result PublishError Db
  reconcile_shared network_id scope address db = do
    scope_label ← or_bail (label scope) serialize_failed
    version ← or_bail (version_of (lookup (network_id, scope_label) db.versions)) no_active_version
    bail_if (not (broker (route_calls network_id scope_label address version db))) reconcile_failed
    ok (
        write_route network_id scope_label address version
          (members_at network_id scope_label version db.members) db)

  pub reconcile_scope_bindings : String → SwarmScope → String → Db → Result PublishError Db
  reconcile_scope_bindings network_id scope address db =
      if is_node scope then ok db else reconcile_shared network_id scope address db
