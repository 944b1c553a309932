-- ===== src/Message/Membership/Genesis.antt =====
-- `seed_trusted_network_genesis` of crates/message-gateway/src/db.rs: each configured network gets
-- its Genesis as an authority, and its first Global membership. A network is a transaction; those
-- before an error stay.
pub mod Seeds
mod Tests
use Prim.Native.String.{◌++◌ as join}
use watt_gateway.Prelude.{
  String, Bool, true, false, not, ◌&&◌, Option, none, some, List, [], ◌∷◌, str_eq, if◌then◌else◌,
  Result, ok, err, bail_if, ◌>>=◌, ◌>>◌, string_eq, pair_eq, lookup, insert,
}
use watt_gateway.Message.Membership.{
  Db, RowState, active, is_active, MemberRow, binding_pending, ScopeVersion, Authorities,
}

pub data GenesisError : Type 0 where
  genesis_conflicts member_exists : GenesisError

-- The active Genesis of a network.
pub genesis_of : String → Authorities → Option String
genesis_of network_id [] = none
genesis_of network_id (((n, (principal_id, kind)), state) ∷ t) =
    if str_eq n network_id && str_eq kind "genesis" && is_active state
    then some principal_id
    else genesis_of network_id t

abbrev pub differs : String → Option String → Bool
differs genesis_node_id none = false
differs genesis_node_id (some value) = not (str_eq value genesis_node_id)

abbrev pub is_none : {A : Type 0} → Option A → Bool
is_none none = true
is_none (some a) = false

abbrev pub genesis_version : String → String
genesis_version genesis_node_id = join "trusted-genesis:" genesis_node_id

abbrev pub genesis_row : String → MemberRow
genesis_row genesis_node_id = record {
  membership_version = genesis_version genesis_node_id;
  state = active;
  interactive_binding_state = binding_pending;
  bulk_binding_state = binding_pending;
  roles = "Proposer" ∷ "Verifier" ∷ "Committer" ∷ "Finalizer" ∷ [];
}

pub with_authority : String → String → Db → Db
with_authority network_id genesis_node_id db = record db {
  authorities = insert (network_id, (genesis_node_id, "genesis")) active db.authorities;
}

-- The first membership of a network without one; a row of the Genesis that is there is an error.
abbrev pub first_membership : Bool → Bool → String → String → Db → Result GenesisError Db
first_membership false absent network_id genesis_node_id db = ok db
first_membership true false network_id genesis_node_id db = err member_exists
first_membership true true network_id genesis_node_id db = ok (record db {
  members =
      insert (network_id, ("global", genesis_node_id)) (genesis_row genesis_node_id) db.members;
  versions =
      insert (network_id, "global")
        (record { active_membership_version = genesis_version genesis_node_id; routing_fence = 1 })
        db.versions;
})

pub initialize : String → String → Db → Result GenesisError Db
initialize network_id genesis_node_id db =
    first_membership (is_none (lookup (network_id, "global") db.versions))
      (is_none (lookup (network_id, ("global", genesis_node_id)) db.members)) network_id
      genesis_node_id db

pub seed_network : String → String → Db → Result GenesisError Db
seed_network network_id genesis_node_id db = do
  bail_if (differs genesis_node_id (genesis_of network_id db.authorities)) genesis_conflicts
  initialize network_id genesis_node_id (with_authority network_id genesis_node_id db)

pub seed_trusted_network_genesis : List (String × String) → Db → Db × Result GenesisError (Unit {0})
seed_trusted_network_genesis [] db = (db, ok tt)
seed_trusted_network_genesis ((network_id, genesis_node_id) ∷ rest) db =
    go_on (seed_network network_id genesis_node_id db) db
      (λ next. seed_trusted_network_genesis rest next)
  where
    go_on :
        Result GenesisError Db
        → Db
        → (Db → Db × Result GenesisError (Unit {0}))
        → Db × Result GenesisError (Unit {0})
    go_on (err e) before next = (before, err e)
    go_on (ok db) before next = next db
