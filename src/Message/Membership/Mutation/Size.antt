-- ===== src/Message/Membership/Mutation/Size.antt =====
-- How many members a mutation leaves (crates/message-gateway/src/service.rs).
use watt_gateway.Prelude.{
  ℕ, suc, ◌≤◌, String, ◌≡◌, refl, sym, ap, ◌∙◌, Bool, true, false, Option, List, [], ◌∷◌, ◌++◌,
  arith, eq_iff, str_eq_refl, if◌then◌else◌, length, string_eq, pair_eq, ok,
}
use watt_gateway.Message.Config.{Config}
use watt_gateway.Message.Config.Valid.{HasCapacity}
use watt_gateway.Message.Admission.{validate_proposed_tenant_count}
use watt_gateway.Message.Admission.Laws.{proposed-HasCapacity}
use watt_gateway.Message.Membership.{SwarmScope, global, Members, Db}
use watt_gateway.Message.Membership.Mutation.{
  Membership, MembershipMutation, snapshot, principal, scope_of, mutation_version, roles_of,
  BrokerCall, contains, add, remove, keys, active_members, desired_members, admit_scope,
  apply_in_scope,
}
use watt_gateway.Message.Membership.Mutation.Rows.{
  IsKeyed, contains-remove, contains-append, contains-active_members, members-IsKeyed,
  lookup_member,
}
use watt_gateway.Message.Membership.Mutation.Laws.{Applied, applied, kept, members_after, desired}

-- No text is in the list twice.
abbrev pub Distinct : List String → Type 0
Distinct [] = Unit
Distinct (x ∷ xs) = (contains x xs ≡ false) × Distinct xs

append-Distinct :
    (p : String) (xs : List String) → contains p xs ≡ false → Distinct xs → Distinct (xs ++ p ∷ [])
unfolding contains
append-Distinct p [] h d = (refl, tt)
append-Distinct p (x ∷ xs) h d =
    ground (arith, append-Distinct p xs, contains-append x xs p, eq_iff x p, eq_iff p x)

add-Distinct : (p : String) (xs : List String) → Distinct xs → Distinct (add p xs)
unfolding add
add-Distinct p xs d = ground (arith, append-Distinct p xs)

remove-Distinct : (p : String) (xs : List String) → Distinct xs → Distinct (remove p xs)
unfolding remove
remove-Distinct p [] d = tt
remove-Distinct p (x ∷ xs) d = ground (arith, remove-Distinct p xs d.1, contains-remove x p xs)

length-remove :
    (p : String) (xs : List String)
    → Distinct xs
    → length xs ≡ (if contains p xs then suc (length (remove p xs)) else length (remove p xs))
unfolding contains remove
length-remove p [] d = refl
length-remove p (x ∷ xs) d = ground (arith, length-remove p xs d.1, eq_iff x p)

-- Lists with no text twice and the same texts are equally long.
length_of_same :
    (xs ys : List String)
    → Distinct xs
    → Distinct ys
    → ((q : String) → contains q xs ≡ contains q ys)
    → length xs ≡ length ys
unfolding contains
length_of_same [] [] dx dy h = refl
length_of_same [] (y ∷ ys) dx dy h = ground (arith, h y, str_eq_refl y)
length_of_same (x ∷ xs) ys dx dy h = omega (
  arith,
  length_of_same xs (remove x ys) dx.1 (remove-Distinct x ys dy)
      (λ q. ground (arith, h q, contains-remove q x ys, eq_iff x q, dx.0)),
  length-remove_in x ys dy (ground (arith, h x, str_eq_refl x)),
)
  where
    length-remove_in :
        (p : String) (zs : List String)
        → Distinct zs
        → contains p zs ≡ true
        → length zs ≡ suc (length (remove p zs))
    length-remove_in p zs d e = rw e at (length-remove p zs d)

active_members-Distinct :
    (network_id label : String) (t : Members) → Distinct (active_members network_id label t)
unfolding active_members
active_members-Distinct network_id label [] = tt
active_members-Distinct network_id label (((n, (l, p)), row) ∷ t) =
    let rest = active_members-Distinct network_id label t in
    ground (arith, rest, add-Distinct p (active_members network_id label t) rest)

keys-Distinct : (m : Membership) → Distinct (keys m)
unfolding keys
keys-Distinct [] = tt
keys-Distinct ((p, roles) ∷ m) = add-Distinct p (keys m) (keys-Distinct m)

desired-Distinct :
    (m : MembershipMutation) (existing : List String)
    → Distinct existing
    → Distinct (desired_members m existing)
unfolding desired_members
desired-Distinct (snapshot _ membership _ _ _) existing d = keys-Distinct membership
desired-Distinct (principal _ p true _) existing d = add-Distinct p existing d
desired-Distinct (principal _ p false _) existing d = remove-Distinct p existing d

admit_global :
    (c : Config) (scope : SwarmScope) (n : ℕ)
    → scope ≡ global
    → admit_scope c scope n ≡ ok tt
    → validate_proposed_tenant_count c n ≡ ok tt
unfolding admit_scope
admit_global c scope n e h = ground arith

module _ (broker : List BrokerCall → Bool) (c : Config) (now elapsed : ℕ)
    (network_id label : String) (m : MembershipMutation) (route : Option String) (db db' : Db)
    (n : ℕ)
    (h : apply_in_scope broker c now elapsed network_id label m route db ≡ ok (db', n)) where
  abbrev wanted : List String
  wanted = desired broker c now elapsed network_id label m route db

  abbrev evidence : Applied broker c now elapsed network_id label m route db db' n
  evidence = applied broker c now elapsed network_id label m route db db' n h

  size_wanted :
      length (desired broker c now elapsed network_id label m route evidence.recorded)
      ≡ length wanted
  size_wanted =
      ap (λ (t : Members). length (desired_members m (active_members network_id label t)))
        (kept broker c now elapsed network_id label m route db db' n h).0

  -- The number that a mutation returns is the number of active members that it leaves.
  pub size_is_exact : IsKeyed db.members → n ≡ length (active_members network_id label db'.members)
  size_is_exact k =
      let after = members_after broker c now elapsed network_id label m route db db' n h in
      evidence.size
      ∙ size_wanted
      ∙ rw after (
          length_of_same wanted _
            (desired-Distinct m _ (active_members-Distinct network_id label db.members))
            (active_members-Distinct network_id label _)
            (λ q. sym (
              contains-active_members network_id label q _ (
                members-IsKeyed network_id label (mutation_version m) (roles_of m) wanted db.members
                  k)
              ∙ (lookup_member network_id label (mutation_version m) (roles_of m) q wanted
                  db.members).1)))

  -- A Global mutation that succeeds leaves at most `max_active_tenants` active members, within the
  -- exact queue and delivery budgets of the cell.
  pub global_within_capacity :
      IsKeyed db.members
      → scope_of m ≡ global
      → let count = length (active_members network_id label db'.members) in
        (count ≤ c.max_active_tenants) × HasCapacity c count
  global_within_capacity k g =
      let size = evidence.size in
      let (tenants, _, capacity) =
        proposed-HasCapacity c _ (admit_global c (scope_of m) _ g evidence.admitted) in
      rw (← size_is_exact k, size) (tenants, capacity)
