-- ===== src/Message/Membership/Mutation/Laws.antt =====
-- What a membership mutation does to the projection (crates/message-gateway/src/service.rs).
use watt_gateway.Prelude.{
  ℕ, ◌≤◌, String, ◌≡◌, refl, ap, ◌∙◌, ◌⊎◌, inl, inr, Bool-cases, Bool, true, false, ◌||◌, Option,
  some, List, arith, str_eq, if◌then◌else◌, length, string_eq, pair_eq, lookup, ok, >>=-eq-ok,
}
use watt_gateway.Message.Config.{Config}
use watt_gateway.Message.Membership.{MemberKey, Members, Db, in_scope, row_is_active}
use watt_gateway.Message.Membership.Mutation.{
  MembershipMutation, snapshot, principal, scope_of, mutation_version, BrokerCall,
  record_membership_mutation, contains, active_members, keys, desired_members, roles_of, active_row,
  admit_scope, write_membership, apply_in_scope, scope_routes, with_route,
}
use watt_gateway.Message.Membership.Mutation.Rows.{
  IsKeyed, contains-add, contains-remove, contains-active_members, activated, members-IsKeyed,
  lookup_member, lookup_elsewhere,
}

-- Who is active after a mutation, from who was.
abbrev pub will_be_active : MembershipMutation → Bool → String → Bool
will_be_active (snapshot _ membership _ _ _) was q = contains q (keys membership)
will_be_active (principal _ p true _) was q = str_eq p q || was
will_be_active (principal _ p false _) was q = if str_eq p q then false else was

pub contains-desired :
    (m : MembershipMutation) (existing : List String) (q : String)
    → contains q (desired_members m existing) ≡ will_be_active m (contains q existing) q
unfolding desired_members
contains-desired (snapshot _ membership _ _ _) existing q = refl
contains-desired (principal _ p true _) existing q = contains-add q p existing
contains-desired (principal _ p false _) existing q = contains-remove q p existing

record_keeps :
    (c : Config) (now : ℕ) (n l v : String) (db db' : Db)
    → record_membership_mutation c now n l v db ≡ ok db'
    → (db'.members ≡ db.members)
      × (db'.versions ≡ db.versions)
      × (db'.bindings ≡ db.bindings)
      × (db'.grants ≡ db.grants)
      × (db'.authorities ≡ db.authorities)
unfolding record_membership_mutation
record_keeps c now n l v db db' h = ground arith

module _ (broker : List BrokerCall → Bool) (c : Config) (now elapsed : ℕ)
    (network_id label : String) (m : MembershipMutation) (route : Option String) where
  abbrev pub desired : Db → List String
  desired db = desired_members m (active_members network_id label db.members)

  abbrev pub routes : Db → List String
  routes db = with_route route (scope_routes network_id label db.bindings)

  -- What a mutation that succeeds has checked and written.
  pub record Applied (db db' : Db) (n : ℕ) : Type 0 where
    pub recorded : Db
    pub counted :
        record_membership_mutation c now network_id label (mutation_version m) db ≡ ok recorded
    pub admitted : admit_scope c (scope_of m) (length (desired recorded)) ≡ ok tt
    pub size : n ≡ length (desired recorded)
    pub in_time : elapsed ≤ c.max_membership_binding_lag
    pub written :
        db'
        ≡ write_membership broker c now elapsed network_id label m
            (desired recorded)
            (routes recorded)
            recorded

  apply-Applied :
      (db db' : Db) (n : ℕ)
      → apply_in_scope broker c now elapsed network_id label m route db ≡ ok (db', n)
      → Applied db db' n
  unfolding apply_in_scope
  apply-Applied db db' n h =
      let (recorded, counted, k) =
        >>=-eq-ok (record_membership_mutation c now network_id label (mutation_version m) db) _ h in
      let (_, admitted, k') =
        >>=-eq-ok (admit_scope c (scope_of m) (length (desired recorded))) _ k in
      record {
        recorded = recorded;
        counted = counted;
        admitted = admitted;
        size = ground arith;
        in_time = ground arith;
        written = ground arith;
      }

  module _ (db db' : Db) (n : ℕ)
      (h : apply_in_scope broker c now elapsed network_id label m route db ≡ ok (db', n)) where
    pub applied : Applied db db' n
    applied = apply-Applied db db' n h

    pub kept :
        (applied.recorded.members ≡ db.members)
        × (applied.recorded.versions ≡ db.versions)
        × (applied.recorded.bindings ≡ db.bindings)
        × (applied.recorded.grants ≡ db.grants)
        × (applied.recorded.authorities ≡ db.authorities)
    kept =
        record_keeps c now network_id label (mutation_version m) db applied.recorded applied.counted

    same_members : applied.recorded.members ≡ db.members
    same_members = kept.0

    pub members_after :
        db'.members
        ≡ activated network_id label (mutation_version m) (roles_of m) (desired db) db.members
    unfolding write_membership
    members_after =
        ap (λ (d : Db). d.members) applied.written
        ∙ ap
            (λ (t : Members).
              activated network_id label (mutation_version m) (roles_of m)
                (desired_members m (active_members network_id label t)) t)
            same_members

    pub apply_sets_membership :
        (q : String)
        → IsKeyed db.members
        → let will =
            will_be_active m (row_is_active (lookup (network_id, (label, q)) db.members)) q in
          let row = lookup (network_id, (label, q)) db'.members in
          (((will ≡ true) × (row ≡ some (active_row (mutation_version m) (roles_of m q))))
            ⊎ ((will ≡ false) × (row_is_active row ≡ false)))
          × IsKeyed db'.members
    apply_sets_membership q k =
        let ps = desired db in
        let w : contains q ps
            ≡ will_be_active m (row_is_active (lookup (network_id, (label, q)) db.members)) q =
          contains-desired m (active_members network_id label db.members) q
          ∙ ap (λ b. will_be_active m b q)
              (contains-active_members network_id label q db.members k) in
        let (yes_row, active_if) =
          lookup_member network_id label (mutation_version m) (roles_of m) q ps db.members in
        (
          rw (members_after, ← w)
              (elim (Bool-cases (contains q ps)) [
                | inl b ↦ inl (b, yes_row b)
                | inr b ↦ inr (b, active_if ∙ b)
              ]),
          rw members_after
              (members-IsKeyed network_id label (mutation_version m) (roles_of m) ps db.members k),
        )

    -- The rows of other scopes and networks, the grants and the authorities stay as they were.
    pub apply_keeps_others :
        (key : MemberKey)
        → in_scope network_id label key ≡ false
        → (lookup key db'.members ≡ lookup key db.members)
          × (db'.grants ≡ db.grants)
          × (db'.authorities ≡ db.authorities)
    unfolding write_membership
    apply_keeps_others key o = (
      rw members_after (
          lookup_elsewhere network_id label (mutation_version m) (roles_of m) key (desired db)
            db.members o),
      ap (λ (d : Db). d.grants) applied.written ∙ kept.3,
      ap (λ (d : Db). d.authorities) applied.written ∙ kept.4,
    )
