-- ===== src/Message/Membership/Mutation/Tests.antt =====
-- A network with its Genesis that one principal joins, and what the theorems on mutations say of it.
use watt_gateway.Prelude.{
  ℕ, suc, ◌≡◌, ◌≤◌, ◌+◌, refl, String, Bool, true, false, Option, none, some, List, [], ◌∷◌, arith,
  Result, ok, err, length, All, lookup, insert, string_eq, pair_eq,
}
use watt_gateway.Message.Config.Tests.{sample}
use watt_gateway.Message.Config.Valid.{HasCapacity}
use watt_gateway.Message.Admission.Tests.{two_tenants}
use watt_gateway.Message.Membership.{
  SwarmScope, authorized_scope_version_and_count, shared_scope_version_and_count, is_author,
  count_members, scope_contains_principal, shared_scope_contains, global, active, Db, Grants,
  principal_is_admitted, grant_is_live, version_of,
}
use watt_gateway.Message.Membership.Mutation.{
  MembershipMutation, MutationError, principal, BrokerCall, apply_in_scope, active_row, binding_row,
  active_members, next_window, record_membership_mutation, contains, add, desired_members,
  admit_scope, scope_routes,
}
use watt_gateway.Message.Membership.Mutation.Rows.{IsKeyed}
use watt_gateway.Message.Membership.Mutation.Bindings.{
  BindingAgrees, is_bound, bindings_agree, bindings_complete, fence_of, fence_grows,
}
use watt_gateway.Message.Membership.Mutation.Size.{size_is_exact, global_within_capacity}
use watt_gateway.Message.Membership.Mutation.Window.{record_all, changes, window_limits}

-- The network, with some grants.
abbrev pub network_with : Grants → Db
network_with grants = record {
  members = (("network", ("global", "genesis")), active_row "v1" ("finalizer" ∷ [])) ∷ [];
  grants = grants;
  versions =
      (("network", "global"), record { active_membership_version = "v1"; routing_fence = 4 }) ∷ [];
  windows =
      (
        ("network", "global"),
        record { window_started_at = 0; mutation_count = 3; last_membership_version = "v1" },
      )
      ∷ [];
  bindings = binding_row "network" "global" "v1" "route" "genesis" false ∷ [];
  authorities = (("network", ("genesis", "genesis")), active) ∷ [];
}

abbrev pub network : Db
network = network_with []

abbrev pub healthy : List BrokerCall → Bool
healthy calls = true

abbrev pub joins : MembershipMutation
joins = principal global "alice" true "grant:v2"

abbrev db_or {ℓ} : {A E : Type ℓ} → Db → Result E (Db × A) → Db
db_or db (ok (d, a)) = d
db_or db (err e) = db

abbrev pub joined_with : Grants → Db
joined_with grants =
    db_or (network_with grants)
      (apply_in_scope healthy sample 1 5 "network" "global" joins none (network_with grants))

abbrev joined : Db
joined = joined_with []

pub alice_joins :
    (grants : Grants)
    → apply_in_scope healthy sample 1 5 "network" "global" joins none (network_with grants)
      ≡ ok (joined_with grants, 2)
unfolding apply_in_scope record_membership_mutation next_window desired_members add active_members
    active_row contains lookup admit_scope
alice_joins grants = rw two_tenants refl

pub network-IsKeyed : IsKeyed network.members
unfolding lookup
network-IsKeyed = (refl, tt)

bindings_agree_example : All (BindingAgrees "network" "global" joined.members) joined.bindings
bindings_agree_example =
    bindings_agree healthy sample 1 5 "network" "global" joins none network joined 2
      (alice_joins [])

bindings_complete_run :
    is_bound "network" "global" "grant:v2" "route" "alice" true joined.bindings ≡ true
unfolding contains desired_members active_members add scope_routes active_row
bindings_complete_run =
    bindings_complete healthy sample 1 5 "network" "global" joins none network joined 2
      (alice_joins []) "alice" "route" true refl refl

fence_grows_run :
    (version_of (lookup ("network", "global") joined.versions) ≡ some "grant:v2")
    × (fence_of (lookup ("network", "global") joined.versions)
        ≡ suc (fence_of (lookup ("network", "global") network.versions)))
fence_grows_run =
    fence_grows healthy sample 1 5 "network" "global" joins none network joined 2 (alice_joins [])

size_is_exact_run : 2 ≡ length (active_members "network" "global" joined.members)
size_is_exact_run =
    size_is_exact healthy sample 1 5 "network" "global" joins none network joined 2 (alice_joins [])
      network-IsKeyed

global_within_capacity_example :
    (length (active_members "network" "global" joined.members) ≤ 400)
    × HasCapacity sample (length (active_members "network" "global" joined.members))
global_within_capacity_example =
    global_within_capacity healthy sample 1 5 "network" "global" joins none network joined 2
      (alice_joins []) network-IsKeyed refl

pub genesis_is_admitted : (now : ℕ) → principal_is_admitted network now "network" "genesis" ≡ true
unfolding principal_is_admitted grant_is_live active_row lookup
genesis_is_admitted now = refl

abbrev pub label_of : SwarmScope → Option String
label_of global = some "global"
label_of _ = none

pub genesis_is_author :
    (now : ℕ)
    → authorized_scope_version_and_count label_of network now "network" global "genesis" false
      ≡ ok (some "v1", 1)
unfolding authorized_scope_version_and_count shared_scope_version_and_count is_author count_members
    grant_is_live active_row lookup
genesis_is_author now = refl

pub genesis_is_recipient :
    (now : ℕ)
    → scope_contains_principal label_of network now "network" global "genesis" (some "v1") ≡ ok true
unfolding scope_contains_principal shared_scope_contains grant_is_live active_row lookup
genesis_is_recipient now = refl

-- Two more changes in the window of the network.
abbrev requests : List (ℕ × String)
requests = (10, "v2") ∷ (11, "v2") ∷ (12, "v3") ∷ []

abbrev recorded_or : Db → Result MutationError Db → Db
recorded_or db (ok d) = d
recorded_or db (err e) = db

abbrev after_requests : Db
after_requests = recorded_or network (record_all sample "network" "global" requests network)

requests_pass : record_all sample "network" "global" requests network ≡ ok after_requests
unfolding record_all record_membership_mutation next_window lookup insert
requests_pass = refl

window_limits_run : 3 + changes "v1" requests ≤ 100
unfolding lookup
window_limits_run =
    window_limits sample "network" "global" requests
      (record { window_started_at = 0; mutation_count = 3; last_membership_version = "v1" }) network
      after_requests refl (omega arith) (omega arith, (omega arith, (omega arith, tt)))
      requests_pass
