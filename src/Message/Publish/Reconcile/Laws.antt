-- ===== src/Message/Publish/Reconcile/Laws.antt =====
-- The bindings of a route after a reconciliation (crates/message-gateway/src/service.rs).
use watt_gateway.Prelude.{
  ◌≡◌, refl, ap, ap₂, ◌⊎◌, inl, inr, All, String, Bool, true, false, ◌&&◌, ◌||◌, List, [], ◌∷◌,
  ◌++◌, arith, str_eq_refl, string_eq, pair_eq, Bool-cases,
}
use watt_gateway.Message.Membership.{is_active, Members, BindingRow, Db, in_scope}
use watt_gateway.Message.Membership.Mutation.{contains, route_bindings}
use watt_gateway.Message.Membership.Mutation.Bindings.{is_bound}
use watt_gateway.Message.Publish.Reconcile.{members_at, on_route, without_route, mark_bound}

-- A reconciliation writes only bindings.
abbrev pub SameScopes : Db → Db → Type 0
SameScopes db after =
    (after.grants ≡ db.grants)
    × (after.versions ≡ db.versions)
    × (after.windows ≡ db.windows)
    × (after.authorities ≡ db.authorities)

module _ (network_id label address : String) where
  pub without_route_idem :
      (bs : List BindingRow)
      → without_route network_id label address (without_route network_id label address bs)
        ≡ without_route network_id label address bs
  unfolding without_route
  without_route_idem [] = refl
  without_route_idem (b ∷ bs) = elim (Bool-cases (on_route network_id label address b)) [
    | inl e ↦ rw e (without_route_idem bs)
    | inr e ↦ rw (e, e) (ap (λ (l : List BindingRow). b ∷ l) (without_route_idem bs))
  ]

  pub without_route-append :
      (xs ys : List BindingRow)
      → without_route network_id label address (xs ++ ys)
        ≡ without_route network_id label address xs ++ without_route network_id label address ys
  unfolding without_route
  without_route-append [] ys = refl
  without_route-append (b ∷ bs) ys = elim (Bool-cases (on_route network_id label address b)) [
    | inl e ↦ rw e (without_route-append bs ys)
    | inr e ↦ rw e (ap (λ (l : List BindingRow). b ∷ l) (without_route-append bs ys))
  ]

  pub own_route_is_dropped :
      (version : String) (ps : List String)
      → without_route network_id label address (route_bindings network_id label version address ps)
        ≡ []
  unfolding without_route route_bindings
  own_route_is_dropped version [] = refl
  own_route_is_dropped version (p ∷ ps) =
      rw (str_eq_refl network_id, str_eq_refl label, str_eq_refl address)
        (own_route_is_dropped version ps)

  module _ (version p : String) (in_bulk : Bool) where
    abbrev bound : List BindingRow → Bool
    bound bs = is_bound network_id label version address p in_bulk bs

    pub bound-append : (xs ys : List BindingRow) → bound (xs ++ ys) ≡ (bound xs || bound ys)
    unfolding is_bound
    bound-append [] ys = refl
    bound-append (b ∷ bs) ys = rw (bound-append bs ys) (ground arith)

    pub bound-without_route :
        (bs : List BindingRow) → bound (without_route network_id label address bs) ≡ false
    unfolding is_bound without_route
    bound-without_route [] = refl
    bound-without_route (b ∷ bs) = ground (arith, bound-without_route bs)

    pub bound-route_bindings :
        (ps : List String)
        → bound (route_bindings network_id label version address ps) ≡ contains p ps
    unfolding is_bound route_bindings contains
    bound-route_bindings [] = refl
    bound-route_bindings (q ∷ qs) =
        rw
          (
            str_eq_refl network_id,
            str_eq_refl label,
            str_eq_refl address,
            str_eq_refl version,
            bound-route_bindings qs,
          )
          (ground arith)

  pub mark_bound_idem :
      (t : Members)
      → mark_bound network_id label (mark_bound network_id label t) ≡ mark_bound network_id label t
  unfolding mark_bound
  mark_bound_idem [] = refl
  mark_bound_idem ((key, row) ∷ t) =
      elim (Bool-cases (in_scope network_id label key && is_active row.state)) [
        | inl e ↦ rw (e, e) (ap₂ (λ r (l : Members). r ∷ l) refl (mark_bound_idem t))
        | inr e ↦ rw (e, e) (ap₂ (λ r (l : Members). r ∷ l) refl (mark_bound_idem t))
      ]

  pub members_at-mark_bound :
      (version : String) (t : Members)
      → members_at network_id label version (mark_bound network_id label t)
        ≡ members_at network_id label version t
  unfolding mark_bound members_at
  members_at-mark_bound version [] = refl
  members_at-mark_bound version (((n, (l, p)), row) ∷ t) =
      elim (Bool-cases (in_scope network_id label (n, (l, p)))) [
        | inl e ↦ elim (Bool-cases (is_active row.state)) [
          | inl a ↦ rw (e, a, members_at-mark_bound version t, e, a) refl
          | inr a ↦ rw (e, a, members_at-mark_bound version t, e, a) refl
        ]
        | inr e ↦ rw (e, members_at-mark_bound version t, e) refl
      ]

  -- A row that the route's bindings are for one of the members at the version, or another route's.
  abbrev pub RowMatches : String → List String → BindingRow → Type 0
  RowMatches version members b =
      (on_route network_id label address b ≡ false)
      ⊎ ((b.membership_version ≡ version) × (contains b.principal_id members ≡ true))

  pub kept_rows :
      (version : String) (members : List String) (bs : List BindingRow)
      → All (RowMatches version members) (without_route network_id label address bs)
  unfolding without_route
  kept_rows version members [] = tt
  kept_rows version members (b ∷ bs) = elim (Bool-cases (on_route network_id label address b)) [
    | inl e ↦ rw e (kept_rows version members bs)
    | inr e ↦ rw e (inl e, kept_rows version members bs)
  ]

  abbrev pub Includes : List String → List String → Type 0
  Includes ps qs = (p : String) → contains p ps ≡ true → contains p qs ≡ true

  pub own_rows :
      (version : String) (members ps : List String)
      → Includes ps members
      → All (RowMatches version members) (route_bindings network_id label version address ps)
  unfolding route_bindings contains
  own_rows version members [] sub = tt
  own_rows version members (p ∷ ps) sub = (
    inr (refl, sub p (rw (str_eq_refl p) refl)),
    (
      inr (refl, sub p (rw (str_eq_refl p) refl)),
      own_rows version members ps (λ q h. sub q (ground (arith, h))),
    ),
  )
