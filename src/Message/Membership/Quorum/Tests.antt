-- ===== src/Message/Membership/Quorum/Tests.antt =====
-- A snapshot that the Genesis signs, and one that two finalizers sign.
use watt_gateway.Prelude.{
  ◌≡◌, ◌≤◌, ◌<◌, refl, String, Bool, true, none, some, List, [], ◌∷◌, arith, ok, err, length, All,
  str_eq, saturating_add_u32,
}
use watt_gateway.Message.Membership.{Db, MemberRow, active, binding_active}
use watt_gateway.Message.Membership.Mutation.{SignatureEnvelope, contains, active_row}
use watt_gateway.Message.Membership.Quorum.{
  author_not_finalizer, genesis_of, finalizers, allowed_signers, count_valid,
  validate_membership_snapshot_authority,
}
use watt_gateway.Message.Config.Tests.{sample}
use watt_gateway.Message.Membership.Mutation.Tests.{
  network as sample_network, healthy, joined_with, alice_joins,
}
use watt_gateway.Message.Membership.Quorum.Roles.{principal_change_clears_finalizers}
use watt_gateway.Message.Membership.Quorum.Counting.{
  IsVote, AllNew, IsPickOf, quorum_sound, quorum_complete,
}

abbrev finalizer_row : MemberRow
finalizer_row = record {
  membership_version = "v1";
  state = active;
  interactive_binding_state = binding_active;
  bulk_binding_state = binding_active;
  roles = "finalizer" ∷ [];
}

abbrev network : Db
network = record {
  members =
      (("network", ("global", "ann")), finalizer_row)
      ∷ (("network", ("global", "bob")), finalizer_row)
      ∷ [];
  grants = [];
  versions = [];
  windows = [];
  bindings = [];
  authorities = (("network", ("genesis", "genesis")), active) ∷ [];
}

abbrev is_finalizer : String → Bool
is_finalizer role = str_eq role "finalizer"

abbrev holds : String → String → Bool
holds signer signature = str_eq signature "good"

abbrev signed : String → String → SignatureEnvelope
signed signer signature = record { signer_node_id = signer; signature_hex = signature }

abbrev two_votes : List SignatureEnvelope
two_votes = signed "ann" "good" ∷ signed "bob" "good" ∷ []

-- A repeated signature, one of a stranger and one that does not hold count for nothing.
abbrev padded : List SignatureEnvelope
padded = signed "ann" "good" ∷ signed "ann" "good" ∷ signed "eve" "good" ∷ signed "bob" "bad" ∷ []

one_is_counted : count_valid holds ("ann" ∷ "bob" ∷ []) [] 0 padded ≡ 1
unfolding count_valid contains saturating_add_u32
one_is_counted = refl

two_pass :
    validate_membership_snapshot_authority is_finalizer holds network "network" "ann" 2 two_votes
    ≡ ok tt
unfolding validate_membership_snapshot_authority genesis_of finalizers allowed_signers count_valid
    contains saturating_add_u32
two_pass = refl

quorum_sound_example :
    (genesis : String) × (allowed : List String) × (ws : List SignatureEnvelope) × (genesis_of
        "network" network.authorities
      ≡ some genesis)
    × (allowed_signers is_finalizer network "network" "ann" genesis ≡ ok allowed)
    × (0 < 2)
    × (2 ≤ length ws)
    × All (IsVote holds allowed) ws
    × AllNew holds allowed [] ws
    × IsPickOf ws two_votes
quorum_sound_example = quorum_sound is_finalizer holds network "network" "ann" 2 two_votes two_pass

quorum_complete_example :
    validate_membership_snapshot_authority is_finalizer holds network "network" "ann" 2 two_votes
    ≡ ok tt
unfolding genesis_of finalizers allowed_signers contains
quorum_complete_example =
    quorum_complete is_finalizer holds network "network" "ann" 2 two_votes "genesis"
      ("ann" ∷ "bob" ∷ []) refl refl (omega arith) (omega arith) (omega arith) (refl, (refl, tt))
      ((refl, refl), ((refl, refl), tt))

-- The Genesis of the sample network is its Finalizer, until a principal joins.
genesis_is_finalizer : finalizers is_finalizer "network" sample_network.members ≡ "genesis" ∷ []
unfolding finalizers active_row
genesis_is_finalizer = refl

principal_change_clears_finalizers_example :
    (finalizers is_finalizer "network" (joined_with []).members ≡ [])
    × (allowed_signers is_finalizer (joined_with []) "network" "ann" "genesis"
        ≡ err author_not_finalizer)
principal_change_clears_finalizers_example =
    principal_change_clears_finalizers is_finalizer healthy sample 1 5 "network" "alice" "grant:v2"
      true none sample_network (joined_with []) 2 "ann" "genesis" (alice_joins []) refl
