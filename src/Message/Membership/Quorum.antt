-- ===== src/Message/Membership/Quorum.antt =====
-- `validate_membership_snapshot_authority` of crates/message-gateway/src/service.rs: who may sign a
-- membership snapshot, and how its signatures are counted. `verify_signature`, at the message, and
-- the reading of a role are arguments.
pub mod Counting
pub mod Roles
mod Tests
use watt_gateway.Prelude.{
  ℕ, suc, ◌+◌, String, Bool, true, false, ◌&&◌, ◌||◌, not, Option, none, some, List, [], ◌∷◌, ltb,
  leb, ◌==◌, str_eq, if◌then◌else◌, any, length, min, Table, lookup, Result, ok, err, bail_if,
  or_bail, ◌>>=◌, ◌>>◌, saturating_add_u32, string_eq, pair_eq,
}
use watt_gateway.Message.Membership.{Db, Members, MemberRow, in_scope, is_active, Authorities}
use watt_gateway.Message.Membership.Mutation.{SignatureEnvelope, contains}

pub data QuorumError : Type 0 where
  signatures_insufficient : QuorumError
  genesis_not_projected : QuorumError
  author_not_finalizer : QuorumError
  signatures_invalid : QuorumError

-- `fetch_one`: the principal of the first active Genesis row of the network
pub genesis_of : String → Authorities → Option String
genesis_of network_id [] = none
genesis_of network_id (((n, (p, kind)), state) ∷ t) =
    if str_eq n network_id && str_eq kind "genesis" && is_active state
    then some p
    else genesis_of network_id t

module _ (is_finalizer : String → Bool) where
  -- The active Global members with the role of a Finalizer.
  pub finalizers : String → Members → List String
  finalizers network_id [] = []
  finalizers network_id (((n, (l, p)), row) ∷ t) =
      let rest = finalizers network_id t in
      if in_scope network_id "global" (n, (l, p))
        && is_active row.state
        && any is_finalizer row.roles
      then p ∷ rest
      else rest

  pub allowed_signers : Db → String → String → String → Result QuorumError (List String)
  allowed_signers db network_id author genesis =
      if str_eq author genesis
      then ok (genesis ∷ [])
      else if contains author (finalizers network_id db.members)
      then ok (finalizers network_id db.members)
      else err author_not_finalizer

module _ (verify : String → String → Bool) (allowed : List String) where
  -- The loop over the signatures: `seen` is the set `unique`.
  pub count_valid : List String → ℕ → List SignatureEnvelope → ℕ
  count_valid seen valid [] = valid
  count_valid seen valid (s ∷ rest) =
      count_valid (s.signer_node_id ∷ seen)
        (if not (contains s.signer_node_id seen)
            && contains s.signer_node_id allowed
            && verify s.signer_node_id s.signature_hex
          then saturating_add_u32 valid 1
          else valid)
        rest

module _ (is_finalizer : String → Bool) (verify : String → String → Bool) where
  pub validate_membership_snapshot_authority :
      Db → String → String → ℕ → List SignatureEnvelope → Result QuorumError (Unit {0})
  validate_membership_snapshot_authority db network_id author threshold signatures = do
    bail_if (threshold == 0 || ltb (length signatures) threshold) signatures_insufficient
    genesis ← or_bail (genesis_of network_id db.authorities) genesis_not_projected
    allowed ← allowed_signers is_finalizer db network_id author genesis
    bail_if (ltb (count_valid verify allowed [] 0 signatures) threshold) signatures_invalid
