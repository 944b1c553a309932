-- ===== src/Message/Membership/Mutation/Bindings.antt =====
-- The route bindings and the version of a scope after a mutation
-- (crates/message-gateway/src/service.rs).
use watt_gateway.Prelude.{
  ℕ, suc, String, ◌≡◌, refl, ap, ap₂, ◌∙◌, ◌⊎◌, inl, inr, All, All-append, Bool, true, false, ◌&&◌,
  ◌||◌, Option, none, some, List, [], ◌∷◌, ◌++◌, arith, str_eq, eq_iff, str_eq_refl, if◌then◌else◌,
  string_eq, pair_eq, lookup, lookup-insert_self, ok, Bool-cases,
}
use watt_gateway.Message.Config.{Config}
use watt_gateway.Message.Membership.{
  active, MemberRow, Members, BindingRow, Db, ScopeVersion, version_of,
}
use watt_gateway.Message.Membership.Mutation.{
  MembershipMutation, mutation_version, BrokerCall, contains, active_members, desired_members,
  active_row, write_membership, apply_in_scope, scope_routes, with_route, next_version,
  without_scope, all_bindings, route_bindings, roles_of,
}
use watt_gateway.Message.Membership.Mutation.Rows.{lookup_member}
use watt_gateway.Message.Membership.Mutation.Laws.{applied, kept, members_after, desired, routes}

-- A binding of the scope is for an active principal, under the version of its row.
abbrev pub BindingAgrees : String → String → Members → BindingRow → Type 0
BindingAgrees network_id label members b =
    ((str_eq b.network_id network_id && str_eq b.scope_label label) ≡ false)
    ⊎ ((row : MemberRow) × (lookup (network_id, (label, b.principal_id)) members ≡ some row)
        × (row.state ≡ active)
        × (row.membership_version ≡ b.membership_version))

-- A principal is bound on a route in a delivery class.
unfoldable pub is_bound : String → String → String → String → String → Bool → List BindingRow → Bool
is_bound network_id label version route p in_bulk [] = false
is_bound network_id label version route p in_bulk (b ∷ bs) =
    (str_eq b.network_id network_id
      && str_eq b.scope_label label
      && str_eq b.membership_version version
      && str_eq b.route_address route
      && str_eq b.principal_id p
      && (if in_bulk then b.in_bulk else if b.in_bulk then false else true))
    || is_bound network_id label version route p in_bulk bs

abbrev pub fence_of : Option ScopeVersion → ℕ
fence_of none = 0
fence_of (some v) = v.routing_fence

module _ (network_id label : String) (members : Members) where
  without_scope_agrees :
      (bs : List BindingRow)
      → All (BindingAgrees network_id label members) (without_scope network_id label bs)
  unfolding without_scope
  without_scope_agrees [] = tt
  without_scope_agrees (b ∷ bs) =
      elim (Bool-cases (str_eq b.network_id network_id && str_eq b.scope_label label)) [
        | inl e ↦ rw e (without_scope_agrees bs)
        | inr e ↦ rw e (inl e, without_scope_agrees bs)
      ]

module _ (network_id label version : String) (roles : String → List String) (members : Members)
    (ps : List String)
    (found : (q : String)
      → contains q ps ≡ true
      → lookup (network_id, (label, q)) members ≡ some (active_row version (roles q))) where
  route_agrees :
      (route : String) (qs : List String)
      → ((q : String) → contains q qs ≡ true → contains q ps ≡ true)
      → All
          (BindingAgrees network_id label members)
          (route_bindings network_id label version route qs)
  unfolding route_bindings active_row contains
  route_agrees route [] sub = tt
  route_agrees route (q ∷ qs) sub =
      let e = found q (sub q (rw (str_eq_refl q))) in
      (
        inr (active_row version (roles q), e, refl, refl),
        (
          inr (active_row version (roles q), e, refl, refl),
          route_agrees route qs (λ p h. sub p (ground arith)),
        ),
      )

  All-agree :
      (rs : List String)
      → All (BindingAgrees network_id label members) (all_bindings network_id label version ps rs)
  unfolding all_bindings
  All-agree [] = tt
  All-agree (route ∷ rs) = All-append _ _ _ (route_agrees route ps (λ q h. h)) (All-agree rs)

-- Every listed route binds every listed principal in both classes.
module _ (network_id label version q : String) (in_bulk : Bool) where
  is_bound-append :
      (route : String) (xs ys : List BindingRow)
      → is_bound network_id label version route q in_bulk (xs ++ ys) ≡ (
          is_bound network_id label version route q in_bulk xs
          || is_bound network_id label version route q in_bulk ys)
  unfolding is_bound
  is_bound-append route [] ys = refl
  is_bound-append route (x ∷ xs) ys = ground (arith, is_bound-append route xs ys)

  route_binds :
      (route : String) (ps : List String)
      → contains q ps ≡ true
      → is_bound network_id label version route q in_bulk
          (route_bindings network_id label version route ps)
        ≡ true
  unfolding is_bound route_bindings contains
  route_binds route [] h = cc
  route_binds route (p ∷ ps) h = ground (
    arith,
    route_binds route ps,
    str_eq_refl network_id,
    str_eq_refl label,
    str_eq_refl version,
    str_eq_refl route,
  )

  all_bind :
      (route : String) (ps rs : List String)
      → contains q ps ≡ true
      → contains route rs ≡ true
      → is_bound network_id label version route q in_bulk
          (all_bindings network_id label version ps rs)
        ≡ true
  unfolding all_bindings contains
  all_bind route ps [] h k = cc
  all_bind route ps (r ∷ rs) h k = ground (
    arith,
    is_bound-append route (route_bindings network_id label version r ps)
        (all_bindings network_id label version ps rs),
    route_binds route ps h,
    all_bind route ps rs h,
    eq_iff r route,
  )

module _ (broker : List BrokerCall → Bool) (c : Config) (now elapsed : ℕ)
    (network_id label : String) (m : MembershipMutation) (route : Option String) (db db' : Db)
    (n : ℕ)
    (h : apply_in_scope broker c now elapsed network_id label m route db ≡ ok (db', n)) where
  abbrev members_wanted : List String
  members_wanted = desired broker c now elapsed network_id label m route db

  abbrev routes_wanted : List String
  routes_wanted = routes broker c now elapsed network_id label m route db

  bindings_after :
      db'.bindings
      ≡ without_scope network_id label db.bindings
        ++ all_bindings network_id label (mutation_version m) members_wanted routes_wanted
  unfolding write_membership
  bindings_after =
      let a = applied broker c now elapsed network_id label m route db db' n h in
      let k = kept broker c now elapsed network_id label m route db db' n h in
      ap (λ (d : Db). d.bindings) a.written
      ∙ ap₂
          (λ (t : Members) (bs : List BindingRow).
            without_scope network_id label bs
            ++ all_bindings network_id label (mutation_version m)
                (desired_members m (active_members network_id label t))
                (with_route route (scope_routes network_id label bs)))
          k.0 k.2

  -- After a mutation that succeeds, each binding of the scope is for an active principal, under the
  -- version of that principal's row.
  pub bindings_agree : All (BindingAgrees network_id label db'.members) db'.bindings
  bindings_agree =
      rw (bindings_after, members_after broker c now elapsed network_id label m route db db' n h)
        (All-append _ _ _ (without_scope_agrees network_id label _ db.bindings) (
          All-agree network_id label (mutation_version m) (roles_of m) _ members_wanted
            (λ q b.
              (lookup_member network_id label (mutation_version m) (roles_of m) q members_wanted
                  db.members).0
                b)
            routes_wanted))

  -- Each principal that the mutation makes active is bound, under its version and in both delivery
  -- classes, on every route that the scope was bound on and on the additional one.
  pub bindings_complete :
      (q r : String) (in_bulk : Bool)
      → contains q members_wanted ≡ true
      → contains r routes_wanted ≡ true
      → is_bound network_id label (mutation_version m) r q in_bulk db'.bindings ≡ true
  bindings_complete q r in_bulk p w =
      rw
        (
          bindings_after,
          is_bound-append network_id label (mutation_version m) q in_bulk r _ _,
          all_bind network_id label (mutation_version m) q in_bulk r members_wanted routes_wanted p
              w,
        )
        (or_true _)
    where
      or_true : (b : Bool) → (b || true) ≡ true
      or_true true = refl
      or_true false = refl

  -- The scope's version is the mutation's, and its routing fence has grown by one: from none to one
  -- for a new scope.
  pub fence_grows :
      (version_of (lookup (network_id, label) db'.versions) ≡ some (mutation_version m))
      × (fence_of (lookup (network_id, label) db'.versions)
          ≡ suc (fence_of (lookup (network_id, label) db.versions)))
  unfolding write_membership next_version
  fence_grows =
      let a = applied broker c now elapsed network_id label m route db db' n h in
      let k = kept broker c now elapsed network_id label m route db db' n h in
      rw
        (
          ap (λ (d : Db). d.versions) a.written,
          k.1,
          lookup-insert_self (network_id, label) _ db.versions,
        )
        (next_fence (lookup (network_id, label) db.versions))
    where
      next_fence :
          (v : Option ScopeVersion)
          → (some (next_version (mutation_version m) v).active_membership_version
              ≡ some (mutation_version m))
            × ((next_version (mutation_version m) v).routing_fence ≡ suc (fence_of v))
      next_fence none = (refl, refl)
      next_fence (some v) = (refl, omega arith)
