-- ===== src/Message/Membership/Genesis/Seeds.antt =====
-- What a seeded network has (crates/message-gateway/src/db.rs).
use Prim.Native.String.{◌++◌ as join}
use mathlib.Core.Path.{subst}
use mathlib.Core.Bool.{true≢false}
use watt_gateway.Prelude.{
  ◌≡◌, refl, ap, String, Bool, true, false, Option, none, some, [], ◌∷◌, Result, ok, bail_if,
  >>=-eq-ok, string_eq, pair_eq, lookup, lookup-insert_self,
}
use watt_gateway.Message.Membership.{
  Db, MemberRow, ScopeVersion, active, principal_is_global_authority,
}
use watt_gateway.Message.Membership.Genesis.{
  GenesisError, genesis_conflicts, differs, genesis_of, is_none, genesis_row, genesis_version,
  first_membership, initialize, with_authority, seed_network,
}

-- The first membership of a network: the Genesis is an active member with all four roles, and its
-- row and the scope have the version that the Genesis names.
abbrev pub IsFirstMembership : String → String → Db → Type 0
IsFirstMembership network_id genesis_node_id after =
    (row : MemberRow) × (version : ScopeVersion) × (lookup (network_id, ("global", genesis_node_id))
        after.members
      ≡ some row)
    × (row.state ≡ active)
    × (row.roles ≡ "Proposer" ∷ "Verifier" ∷ "Committer" ∷ "Finalizer" ∷ [])
    × (row.membership_version ≡ join "trusted-genesis:" genesis_node_id)
    × (lookup (network_id, "global") after.versions ≡ some version)
    × (version.active_membership_version ≡ row.membership_version)
    × (version.routing_fence ≡ 1)

-- The Genesis is an authority, the network has a version, and a network without one got the Genesis
-- as its first active member; grants, windows and bindings are those before.
abbrev pub IsSeeded : String → String → Db → Db → Type 0
IsSeeded network_id genesis_node_id before after =
    (principal_is_global_authority after network_id genesis_node_id ≡ true)
    × (is_none (lookup (network_id, "global") after.versions) ≡ false)
    × ((lookup (network_id, "global") before.versions ≡ none)
        → IsFirstMembership network_id genesis_node_id after)
    × (after.grants ≡ before.grants)
    × (after.windows ≡ before.windows)
    × (after.bindings ≡ before.bindings)

authority_seeded :
    (network_id genesis_node_id : String) (db after : Db)
    → after.authorities ≡ (with_authority network_id genesis_node_id db).authorities
    → principal_is_global_authority after network_id genesis_node_id ≡ true
unfolding principal_is_global_authority with_authority
authority_seeded network_id genesis_node_id db after is =
    rw (is, lookup-insert_self (network_id, (genesis_node_id, "genesis")) _ db.authorities) refl

ok_is : (r : Result GenesisError Db) (a b : Db) → r ≡ ok a → r ≡ ok b → a ≡ b
ok_is r a b is h = cc

not_new : {A : Type 0} (o : Option A) → is_none o ≡ false → o ≡ none → ⊥
not_new none h is = absurd (true≢false h)
not_new (some a) h is = cc

initialized :
    (network_id genesis_node_id : String) (db after : Db) (fresh absent : Bool)
    → is_none (lookup (network_id, "global") db.versions) ≡ fresh
    → first_membership fresh absent network_id genesis_node_id
        (with_authority network_id genesis_node_id db)
      ≡ ok after
    → IsSeeded network_id genesis_node_id db after
unfolding with_authority
initialized n g db after false absent is h =
    subst (IsSeeded n g db) (ok_is _ _ after refl h)
      (authority_seeded n g db _ refl, is, λ new. absurd (not_new _ is new), refl, refl, refl)
initialized n g db after true false is h = cc
initialized n g db after true true is h = subst (IsSeeded n g db) (ok_is _ _ after refl h) (
  authority_seeded n g db _ refl,
  ap is_none (lookup-insert_self (n, "global") _ db.versions),
  λ new. (
    genesis_row g,
    record { active_membership_version = genesis_version g; routing_fence = 1 },
    lookup-insert_self (n, ("global", g)) (genesis_row g) db.members,
    refl,
    refl,
    refl,
    lookup-insert_self (n, "global") _ db.versions,
    refl,
    refl,
  ),
  refl,
  refl,
  refl,
)

-- A network whose seeding succeeds has its configured Genesis as an active authority, and a version
-- of its Global scope; where it had none, the Genesis is its active member with the roles Proposer,
-- Verifier, Committer and Finalizer, under the version that it names, with which the scope then
-- begins at fence 1. The grants, the windows and the bindings are untouched.
pub seed_installs_genesis :
    (network_id genesis_node_id : String) (db after : Db)
    → seed_network network_id genesis_node_id db ≡ ok after
    → IsSeeded network_id genesis_node_id db after
unfolding seed_network initialize with_authority
seed_installs_genesis network_id genesis_node_id db after h =
    let (_, _, ran) =
      >>=-eq-ok
        (bail_if (differs genesis_node_id (genesis_of network_id db.authorities)) genesis_conflicts)
        _ h in
    initialized network_id genesis_node_id db after _ _ refl ran
