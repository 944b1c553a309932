-- ===== src/Message/Publish/Reconcile/Calls.antt =====
-- The calls that a reconciliation makes of the broker, read by principal
-- (crates/message-gateway/src/service.rs).
use watt_gateway.Prelude.{
  ◌≡◌, ◌∙◌, refl, String, Bool, false, not, ◌&&◌, ◌||◌, List, [], ◌∷◌, ◌++◌, arith, str_eq,
  str_eq_refl, str_eq-cases, Bool-cases, inl, inr,
}
use watt_gateway.Message.Membership.{is_active, Members, BindingRow, in_scope}
use watt_gateway.Message.Membership.Mutation.{contains, add}
use watt_gateway.Message.Publish.Reconcile.{
  RouteCall, bind_member, unbind_member, members_at, on_route, bound_on, bind_members,
  unbind_others, reconcile_calls,
}

-- Some row makes the principal an active member of the scope at the version.
abbrev pub is_member_at : String → String → String → String → Members → Bool
is_member_at network_id label version p [] = false
is_member_at network_id label version p (((n, (l, q)), row) ∷ t) =
    (str_eq n network_id
      && str_eq l label
      && str_eq q p
      && is_active row.state
      && str_eq row.membership_version version)
    || is_member_at network_id label version p t

-- Some row binds the principal to the route.
abbrev pub is_on_route : String → String → String → String → List BindingRow → Bool
is_on_route network_id label address p [] = false
is_on_route network_id label address p (b ∷ bs) =
    (str_eq b.network_id network_id
      && str_eq b.scope_label label
      && str_eq b.route_address address
      && str_eq b.principal_id p)
    || is_on_route network_id label address p bs

module _ (network_id address version p : String) where
  abbrev pub binds : List RouteCall → Bool
  binds [] = false
  binds (bind_member n q a v ∷ calls) =
      (str_eq n network_id && str_eq q p && str_eq a address && str_eq v version) || binds calls
  binds (unbind_member n q a v ∷ calls) = binds calls

  abbrev pub unbinds : List RouteCall → Bool
  unbinds [] = false
  unbinds (bind_member n q a v ∷ calls) = unbinds calls
  unbinds (unbind_member n q a v ∷ calls) =
      (str_eq n network_id && str_eq q p && str_eq a address && str_eq v version) || unbinds calls

  binds-append : (xs ys : List RouteCall) → binds (xs ++ ys) ≡ (binds xs || binds ys)
  binds-append [] ys = refl
  binds-append (bind_member n q a v ∷ calls) ys = rw (binds-append calls ys) (ground arith)
  binds-append (unbind_member n q a v ∷ calls) ys = binds-append calls ys

  unbinds-append : (xs ys : List RouteCall) → unbinds (xs ++ ys) ≡ (unbinds xs || unbinds ys)
  unbinds-append [] ys = refl
  unbinds-append (bind_member n q a v ∷ calls) ys = unbinds-append calls ys
  unbinds-append (unbind_member n q a v ∷ calls) ys = rw (unbinds-append calls ys) (ground arith)

  binds-bind_members :
      (ps : List String) → binds (bind_members network_id address version ps) ≡ contains p ps
  unfolding bind_members contains
  binds-bind_members [] = refl
  binds-bind_members (q ∷ qs) =
      rw (str_eq_refl network_id, str_eq_refl address, str_eq_refl version, binds-bind_members qs)
        (ground arith)

  unbinds-bind_members :
      (ps : List String) → unbinds (bind_members network_id address version ps) ≡ false
  unfolding bind_members
  unbinds-bind_members [] = refl
  unbinds-bind_members (q ∷ qs) = unbinds-bind_members qs

  binds-unbind_others :
      (desired ps : List String)
      → binds (unbind_others network_id address version desired ps) ≡ false
  unfolding unbind_others
  binds-unbind_others desired [] = refl
  binds-unbind_others desired (q ∷ qs) = elim (Bool-cases (contains q desired)) [
    | inl e ↦ rw e (binds-unbind_others desired qs)
    | inr e ↦ rw e (binds-unbind_others desired qs)
  ]

  unbinds-unbind_others :
      (desired ps : List String)
      → unbinds (unbind_others network_id address version desired ps)
        ≡ (contains p ps && not (contains p desired))
  unfolding unbind_others contains
  unbinds-unbind_others desired [] = refl
  unbinds-unbind_others desired (q ∷ qs) = elim (str_eq-cases q p) [
    | inl (same, e) ↦ elim (Bool-cases (contains p desired)) [
      | inl there ↦
          rw (same, there, str_eq_refl p)
            (rw (unbinds-unbind_others desired qs, there) (ground arith))
      | inr absent ↦
          rw
            (
              same,
              absent,
              str_eq_refl network_id,
              str_eq_refl address,
              str_eq_refl version,
              str_eq_refl p,
            )
            refl
    ]
    | inr other ↦ elim (Bool-cases (contains q desired)) [
      | inl there ↦ rw (there, other) (unbinds-unbind_others desired qs)
      | inr absent ↦ rw (absent, other) (rw (unbinds-unbind_others desired qs) (ground arith))
    ]
  ]

  pub binds-reconcile_calls :
      (desired existing : List String)
      → binds (reconcile_calls network_id address version desired existing) ≡ contains p desired
  unfolding reconcile_calls
  binds-reconcile_calls desired existing =
      rw
        (
          binds-append (bind_members network_id address version desired)
              (unbind_others network_id address version desired existing),
          binds-bind_members desired,
          binds-unbind_others desired existing,
        )
        (ground arith)

  pub unbinds-reconcile_calls :
      (desired existing : List String)
      → unbinds (reconcile_calls network_id address version desired existing)
        ≡ (contains p existing && not (contains p desired))
  unfolding reconcile_calls
  unbinds-reconcile_calls desired existing =
      rw
        (
          unbinds-append (bind_members network_id address version desired)
              (unbind_others network_id address version desired existing),
          unbinds-bind_members desired,
          unbinds-unbind_others desired existing,
        )
        refl

module _ (network_id label p : String) where
  pub contains-members_at :
      (version : String) (t : Members)
      → contains p (members_at network_id label version t)
        ≡ is_member_at network_id label version p t
  unfolding members_at contains
  contains-members_at version [] = refl
  contains-members_at version (((n, (l, q)), row) ∷ t) =
      let rest = contains-members_at version t in
      elim (Bool-cases (
        in_scope network_id label (n, (l, q))
        && is_active row.state
        && str_eq row.membership_version version)) [
          | inl e ↦ rw e (rw rest (ground (arith, e)))
          | inr e ↦ rw e (rw rest (ground (arith, e)))
        ]

  contains-append : (xs ys : List String) → contains p (xs ++ ys) ≡ (contains p xs || contains p ys)
  unfolding contains
  contains-append [] ys = refl
  contains-append (x ∷ xs) ys = rw (contains-append xs ys) (ground arith)

  contains-add :
      (q : String) (ps : List String) → contains p (add q ps) ≡ (str_eq q p || contains p ps)
  unfolding add contains
  contains-add q ps = elim (Bool-cases (contains q ps)) [
    | inl there ↦ rw there (elim (str_eq-cases q p) [
      | inl (same, e) ↦ rw e (rw same at there)
      | inr other ↦ rw other refl
    ])
    | inr absent ↦ rw (absent, contains-append ps (q ∷ [])) (one_more q ps)
  ]
    where
      one_more :
          (q : String) (ps : List String)
          → (contains p ps || contains p (q ∷ [])) ≡ (str_eq q p || contains p ps)
      one_more q ps = ground arith

  pub contains-bound_on :
      (address : String) (bs : List BindingRow)
      → contains p (bound_on network_id label address bs)
        ≡ is_on_route network_id label address p bs
  unfolding bound_on contains
  contains-bound_on address [] = refl
  contains-bound_on address (b ∷ bs) =
      let rest = contains-bound_on address bs in
      elim (Bool-cases (on_route network_id label address b)) [
        | inl e ↦ rw e (
            contains-add b.principal_id (bound_on network_id label address bs)
            ∙ rw rest (ground (arith, e)))
        | inr e ↦ rw e (rw rest (ground (arith, e)))
      ]
