-- ===== src/Message/Membership/Quorum/Roles.antt =====
-- What a change of one principal does to the roles of a network
-- (crates/message-gateway/src/service.rs).
use watt_gateway.Prelude.{
  ℕ, String, ◌≡◌, refl, Bool, false, Option, List, [], ◌∷◌, arith, str_eq, insert, string_eq,
  pair_eq, ok, err,
}
use watt_gateway.Message.Config.{Config}
use watt_gateway.Message.Membership.{global, Db, Members, MemberKey}
use watt_gateway.Message.Membership.Mutation.{
  principal, BrokerCall, apply_in_scope, active_row, activate, revoke_scope, roles_of, contains,
}
use watt_gateway.Message.Membership.Mutation.Laws.{members_after}
use watt_gateway.Message.Membership.Quorum.{finalizers, allowed_signers, author_not_finalizer}

module _ (is_finalizer : String → Bool) (network_id version : String) where
  finalizers-revoke_scope :
      (t : Members)
      → finalizers is_finalizer network_id (revoke_scope network_id "global" version t) ≡ []
  unfolding finalizers revoke_scope
  finalizers-revoke_scope [] = refl
  finalizers-revoke_scope (((n, (l, p)), row) ∷ t) = ground (arith, finalizers-revoke_scope t)

  finalizers-insert :
      (key : MemberKey) (t : Members)
      → finalizers is_finalizer network_id t ≡ []
      → finalizers is_finalizer network_id (insert key (active_row version []) t) ≡ []
  unfolding finalizers insert active_row
  finalizers-insert (m, (k, q)) [] h = ground arith
  finalizers-insert (m, (k, q)) (((n, (l, p)), row) ∷ t) h =
      ground (arith, finalizers-insert (m, (k, q)) t)

  finalizers-activate :
      (ps : List String) (t : Members)
      → finalizers is_finalizer network_id t ≡ []
      → finalizers is_finalizer network_id (activate network_id "global" version (λ q. []) ps t)
        ≡ []
  unfolding activate
  finalizers-activate [] t h = h
  finalizers-activate (p ∷ ps) t h =
      finalizers-activate ps _ (finalizers-insert (network_id, ("global", p)) t h)

-- A change of one principal in the Global scope, as every admitted Grant of a new member makes it,
-- leaves the network without a Finalizer: all members lose their roles, and no author but the
-- Genesis may sign a membership snapshot.
pub principal_change_clears_finalizers :
    (is_finalizer : String → Bool) (broker : List BrokerCall → Bool) (c : Config) (now elapsed : ℕ)
    (network_id p version : String) (is_added : Bool) (route : Option String) (db db' : Db) (n : ℕ)
    (author genesis : String)
    → apply_in_scope broker c now elapsed network_id "global"
        (principal global p is_added version)
        route
        db
      ≡ ok (db', n)
    → str_eq author genesis ≡ false
    → (finalizers is_finalizer network_id db'.members ≡ [])
      × (allowed_signers is_finalizer db' network_id author genesis ≡ err author_not_finalizer)
unfolding allowed_signers roles_of contains
principal_change_clears_finalizers is_finalizer broker c now elapsed network_id p version is_added
      route db db' n author genesis h a =
    let none_left : finalizers is_finalizer network_id db'.members ≡ [] =
      rw
        (members_after broker c now elapsed network_id "global"
          (principal global p is_added version) route db db' n h)
        (finalizers-activate is_finalizer network_id version _ _
          (finalizers-revoke_scope is_finalizer network_id version db.members)) in
    (none_left, rw (a, none_left) refl)
