-- ===== src/Message/Membership/Genesis/Tests.antt =====
-- The first seed of a network, and a conflict (crates/message-gateway/src/db.rs).
use watt_gateway.Prelude.{◌≡◌, refl, [], ◌∷◌, ok, err, lookup, insert}
use watt_gateway.Message.Membership.{Db, active}
use watt_gateway.Message.Membership.Genesis.{
  genesis_conflicts, genesis_of, genesis_row, genesis_version, with_authority, initialize,
  seed_network, seed_trusted_network_genesis,
}
use watt_gateway.Message.Membership.Genesis.Seeds.{IsSeeded, seed_installs_genesis}

abbrev nothing : Db
nothing = record {
  members = [];
  grants = [];
  versions = [];
  windows = [];
  bindings = [];
  authorities = [];
}

abbrev first : Db
first = record nothing {
  members = (("network", ("global", "genesis")), genesis_row "genesis") ∷ [];
  versions =
      (
        ("network", "global"),
        record { active_membership_version = genesis_version "genesis"; routing_fence = 1 },
      )
      ∷ [];
  authorities = (("network", ("genesis", "genesis")), active) ∷ [];
}

seeds_first : seed_network "network" "genesis" nothing ≡ ok first
unfolding seed_network initialize with_authority genesis_of lookup insert
seeds_first = refl

-- The networks before the conflict are seeded.
conflict_keeps_first :
    seed_trusted_network_genesis (("network", "genesis") ∷ ("network", "other") ∷ []) nothing
    ≡ (first, err genesis_conflicts)
unfolding seed_trusted_network_genesis seed_network initialize with_authority genesis_of lookup
    insert
conflict_keeps_first = refl

seed_installs_genesis_example : IsSeeded "network" "genesis" nothing first
seed_installs_genesis_example = seed_installs_genesis "network" "genesis" nothing first seeds_first
