-- ===== src/Message/Publish/Reconcile/Exact.antt =====
-- A reconciliation makes the bindings of a route those of the scope's members, and once is enough
-- (crates/message-gateway/src/service.rs).
use mathlib.Core.List.{append-nil}
use watt_gateway.Prelude.{
  ◌≡◌, refl, sym, ap, ◌∙◌, ◌⊎◌, inl, inr, ◌&&◌, [], ◌∷◌, not-false, bail_if-false, All, All-append,
  String, Bool, true, false, not, if◌then◌else◌, Option, some, List, arith, string_eq, pair_eq,
  lookup, ok, bail_if, or_bail, >>=-eq-ok, or_bail-some,
}
use watt_gateway.Message.Membership.{SwarmScope, BindingRow, Db, version_of}
use watt_gateway.Message.Membership.Mutation.{route_bindings}
use watt_gateway.Message.Membership.Mutation.Bindings.{is_bound}
use watt_gateway.Message.Publish.{is_node, no_active_version, serialize_failed, reconcile_failed}
use watt_gateway.Message.Publish.Reconcile.{
  RouteCall, members_at, on_route, bound_on, without_route, route_calls, write_route,
  reconcile_shared, reconcile_scope_bindings,
}
use watt_gateway.Message.Publish.Reconcile.Calls.{
  is_member_at, is_on_route, binds, unbinds, binds-reconcile_calls, unbinds-reconcile_calls,
  contains-members_at, contains-bound_on,
}
use watt_gateway.Message.Publish.Reconcile.Laws.{
  SameScopes, without_route_idem, without_route-append, own_route_is_dropped, bound-append,
  bound-without_route, bound-route_bindings, mark_bound_idem, members_at-mark_bound, RowMatches,
  kept_rows, own_rows,
}

module _ (network_id address : String) (db : Db) where
  module _ (label version : String) where
    abbrev members : List String
    members = members_at network_id label version db.members

    abbrev written : Db
    written = write_route network_id label address version members db

    write_again :
        write_route network_id label address version
          (members_at network_id label version written.members)
          written
        ≡ written
    unfolding write_route
    write_again =
        rw
          (
            members_at-mark_bound network_id label address version db.members,
            without_route-append network_id label address
                (without_route network_id label address db.bindings)
                (route_bindings network_id label version address members),
            own_route_is_dropped network_id label address version members,
            without_route_idem network_id label address db.bindings,
            mark_bound_idem network_id label address db.members,
          )
          (rw (append-nil (without_route network_id label address db.bindings)) refl)

  module _ (broker : List RouteCall → Bool) (label : SwarmScope → Option String)
      (scope : SwarmScope) (after : Db) where
    abbrev accepted : String → String → Bool
    accepted scope_label version = broker (route_calls network_id scope_label address version db)

    -- A reconciliation of a shared scope that succeeds has written the route's rows.
    shared-ok :
        reconcile_shared broker label network_id scope address db ≡ ok after
        → (scope_label version : String) × (label scope ≡ some scope_label)
          × (version_of (lookup (network_id, scope_label) db.versions) ≡ some version)
          × (after ≡ written scope_label version)
          × (accepted scope_label version ≡ true)
    unfolding reconcile_shared
    shared-ok h =
        let (l, labelled, h1) = >>=-eq-ok (or_bail (label scope) serialize_failed) _ h in
        let (v, versioned, h2) =
          >>=-eq-ok (or_bail (version_of (lookup (network_id, l) db.versions)) no_active_version) _
            h1 in
        let (u, bound, h3) =
          >>=-eq-ok (bail_if (not (accepted l v)) reconcile_failed) (λ _. ok (written l v)) h2 in
        (
          l,
          v,
          or_bail-some _ _ labelled,
          or_bail-some _ _ versioned,
          ground (h3, arith),
          not-false _ (bail_if-false _ reconcile_failed bound),
        )

    keeps_if :
        (is_direct : Bool)
        → (if is_direct then ok db else reconcile_shared broker label network_id scope address db)
          ≡ ok after
        → SameScopes db after
    unfolding write_route
    keeps_if true h = ground (h, arith)
    keeps_if false h =
        let (l, v, labelled, versioned, e, _) = shared-ok h in rw e (refl, refl, refl, refl)

    pub reconcile-keeps :
        reconcile_scope_bindings broker label network_id scope address db ≡ ok after
        → SameScopes db after
    unfolding reconcile_scope_bindings
    reconcile-keeps h = keeps_if (is_node scope) h

    module _ (scope_label version : String) (shared : is_node scope ≡ false)
        (labelled : label scope ≡ some scope_label)
        (versioned : version_of (lookup (network_id, scope_label) db.versions) ≡ some version)
        (h : reconcile_scope_bindings broker label network_id scope address db ≡ ok after) where
      outcome : (after ≡ written scope_label version) × (accepted scope_label version ≡ true)
      unfolding reconcile_scope_bindings
      outcome =
          let (l, v, labelled', versioned', e, done) = shared-ok (ground (h, shared, arith)) in
          let same_label : l ≡ scope_label = cc in
          let same_version : v ≡ version = cc in
          (rw (sym same_label, sym same_version) e, rw (sym same_label, sym same_version) done)

      after_is : after ≡ written scope_label version
      after_is = outcome.0

      -- A reconciliation of a shared scope's route that succeeds has bound the active members of the
      -- scope's version, those with an active row of that version, and no one else. Each has the
      -- route's binding in either delivery class, no other principal has, and every row on the
      -- route is of that version and of such a member. The calls that the broker answered bind
      -- exactly these members, and unbind exactly the principals that had a row on the route and
      -- are not among them.
      pub reconciled_exactly :
          (p : String) (in_bulk : Bool)
          → (is_bound network_id scope_label version address p in_bulk after.bindings
              ≡ is_member_at network_id scope_label version p db.members)
            × All
                (λ b.
                  (on_route network_id scope_label address b ≡ false)
                  ⊎ ((b.membership_version ≡ version)
                      × (is_member_at network_id scope_label version b.principal_id db.members
                          ≡ true)))
                after.bindings
            × ((calls : List RouteCall) × (broker calls ≡ true)
                × (binds network_id address version p calls
                    ≡ is_member_at network_id scope_label version p db.members)
                × (unbinds network_id address version p calls ≡ (
                    is_on_route network_id scope_label address p db.bindings
                    && not (is_member_at network_id scope_label version p db.members))))
      unfolding write_route
      reconciled_exactly p in_bulk =
          let kept = without_route network_id scope_label address db.bindings in
          let ps = members_at network_id scope_label version db.members in
          let bound = bound_on network_id scope_label address db.bindings in
          let member = contains-members_at network_id scope_label p version db.members in
          (
            rw
                (
                  after_is,
                  bound-append network_id scope_label address version p in_bulk kept _,
                  bound-without_route network_id scope_label address version p in_bulk db.bindings,
                  bound-route_bindings network_id scope_label address version p in_bulk ps,
                )
                member,
            rw after_is (
                current_rows _ (
                  All-append _ _ _ (kept_rows network_id scope_label address version ps db.bindings)
                    (own_rows network_id scope_label address version ps ps (λ q member. member)))),
            (
              route_calls network_id scope_label address version db,
              outcome.1,
              binds-reconcile_calls network_id address version p ps bound ∙ member,
              unbinds-reconcile_calls network_id address version p ps bound
                  ∙ rw (member, contains-bound_on network_id scope_label p address db.bindings)
                      refl,
            ),
          )
        where
          current_rows :
              (bs : List BindingRow)
              → All
                  (RowMatches network_id scope_label address version
                    (members_at network_id scope_label version db.members))
                  bs
              → All
                  (λ b.
                    (on_route network_id scope_label address b ≡ false)
                    ⊎ ((b.membership_version ≡ version)
                        × (is_member_at network_id scope_label version b.principal_id db.members
                            ≡ true)))
                  bs
          current_rows [] h = tt
          current_rows (b ∷ bs) (inl other, rest) = (inl other, current_rows bs rest)
          current_rows (b ∷ bs) (inr (same, there), rest) = (
            inr (
              same,
              sym (contains-members_at network_id scope_label b.principal_id version db.members)
                  ∙ there,
            ),
            current_rows bs rest,
          )

      fixed :
          write_route network_id scope_label address version
            (members_at network_id scope_label version after.members)
            after
          ≡ after
      fixed = rw after_is (write_again scope_label version)

      same_version : version_of (lookup (network_id, scope_label) after.versions) ≡ some version
      same_version = rw (reconcile-keeps h).1 versioned

      -- A second reconciliation of the route whose calls the broker answers changes nothing.
      pub reconcile_idempotent :
          (again : List RouteCall → Bool)
          → again (route_calls network_id scope_label address version after) ≡ true
          → reconcile_scope_bindings again label network_id scope address after ≡ ok after
      unfolding reconcile_scope_bindings reconcile_shared
      reconcile_idempotent again answered =
          rw (shared, labelled, same_version, answered) (ap ok fixed)
