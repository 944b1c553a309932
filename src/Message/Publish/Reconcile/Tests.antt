-- ===== src/Message/Publish/Reconcile/Tests.antt =====
-- The bindings of the sample network's route, reconciled, and what the theorems say of it.
use watt_gateway.Prelude.{
  ◌⊎◌, ◌&&◌, not, false, List, ◌≡◌, refl, true, All, [], ◌∷◌, ok, lookup, string_eq, pair_eq,
}
use watt_gateway.Message.Membership.{global, Db}
use watt_gateway.Message.Membership.Mutation.{active_row}
use watt_gateway.Message.Membership.Mutation.Bindings.{is_bound}
use watt_gateway.Message.Membership.Mutation.Tests.{network, label_of}
use watt_gateway.Message.Publish.Reconcile.Calls.{is_member_at, is_on_route, binds, unbinds}
use watt_gateway.Message.Publish.Reconcile.Exact.{reconciled_exactly, reconcile_idempotent}
use watt_gateway.Message.Publish.Reconcile.{
  RouteCall, on_route, reconcile_scope_bindings, reconcile_shared, members_at, write_route,
}

abbrev pub reconciled : Db
reconciled = write_route "network" "global" "route" "v1" ("genesis" ∷ []) network

pub network_reconciles :
    reconcile_scope_bindings (λ calls. true) label_of "network" global "route" network
    ≡ ok reconciled
unfolding reconcile_scope_bindings reconcile_shared members_at active_row lookup
network_reconciles = refl

reconciled_exactly_example :
    (is_bound "network" "global" "v1" "route" "genesis" true reconciled.bindings
      ≡ is_member_at "network" "global" "v1" "genesis" network.members)
    × All
        (λ b.
          (on_route "network" "global" "route" b ≡ false)
          ⊎ ((b.membership_version ≡ "v1")
              × (is_member_at "network" "global" "v1" b.principal_id network.members ≡ true)))
        reconciled.bindings
    × ((calls : List RouteCall) × (true ≡ true)
        × (binds "network" "route" "v1" "genesis" calls
            ≡ is_member_at "network" "global" "v1" "genesis" network.members)
        × (unbinds "network" "route" "v1" "genesis" calls ≡ (
            is_on_route "network" "global" "route" "genesis" network.bindings
            && not (is_member_at "network" "global" "v1" "genesis" network.members))))
unfolding lookup
reconciled_exactly_example =
    reconciled_exactly "network" "route" network (λ calls. true) label_of global reconciled "global"
      "v1" refl refl refl network_reconciles "genesis" true

reconcile_idempotent_run :
    reconcile_scope_bindings (λ calls. true) label_of "network" global "route" reconciled
    ≡ ok reconciled
unfolding lookup
reconcile_idempotent_run =
    reconcile_idempotent "network" "route" network (λ calls. true) label_of global reconciled
      "global" "v1" refl refl refl network_reconciles (λ calls. true) refl
