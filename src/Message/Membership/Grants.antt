-- ===== src/Message/Membership/Grants.antt =====
-- `admit_grant` of crates/message-gateway/src/service.rs with `upsert_network_membership_grant` of
-- crates/message-gateway/src/db.rs. The verification of a grant and the hash that names it are
-- arguments; the broker answers as in a mutation. An error leaves the database as it was.
pub mod Admits
mod Tests
use Prim.Native.String.{◌++◌ as join}
use watt_gateway.Prelude.{
  ℕ, String, Bool, true, false, ◌&&◌, not, Option, none, some, List, [], ◌∷◌, ltb, if◌then◌else◌,
  string_eq, pair_eq, Table, lookup, insert, Result, ok, err, bail_if, or_bail, ◌>>=◌, ◌>>◌,
  i64_max, ◌≡◌,
}
use watt_gateway.Message.Config.{Config}
use watt_gateway.Message.Membership.{
  SwarmScope, global, Db, GrantRow, MemberRow, grant_is_live, row_is_active,
  principal_is_global_authority, expiry_is_ahead,
}
use watt_gateway.Message.Membership.Mutation.{
  MembershipMutation, principal, MutationError, BrokerCall, apply_in_scope,
}

-- `NetworkMembershipGrant`, without its signature, which only the verification reads.
pub record Grant : Type 0 where
  pub network_id : String
  pub principal_id : String
  pub issued_at : ℕ
  pub expires_at : Option ℕ

pub record GrantResponse : Type 0 where
  pub network_id : String
  pub principal_id : String
  pub membership_version : String

pub data GrantError : Type 0 where
  no_trusted_genesis : GrantError
  grant_invalid : GrantError
  genesis_not_active : GrantError
  id_failed : GrantError
  time_exceeds_bigint : GrantError
  mutation_failed : MutationError → GrantError

-- What the gateway uses of wattswarm_crypto: `verify_network_membership_grant` at the clock, which
-- refuses a grant that has expired, and `network_membership_grant_id`.
pub record GrantCrypto : Type 0 where
  pub verify_grant : Grant → String → ℕ → Bool
  pub grant_id : Grant → Option String
  pub verified_is_ahead :
      (g : Grant) (issuer : String) (now : ℕ)
      → verify_grant g issuer now ≡ true
      → expiry_is_ahead now g.expires_at ≡ true

abbrev exceeds : Option ℕ → Bool
exceeds none = false
exceeds (some t) = ltb i64_max t

pub upsert_network_membership_grant : Grant → String → Db → Result GrantError Db
upsert_network_membership_grant g id db = do
  bail_if (ltb i64_max g.issued_at) time_exceeds_bigint
  bail_if (exceeds g.expires_at) time_exceeds_bigint
  ok (record db {
    grants =
        insert (g.network_id, g.principal_id)
          (record { grant_id = id; issued_at_ms = g.issued_at; expires_at_ms = g.expires_at })
          db.grants;
  })

-- The version of the principal's row, where it is active and its grant has not expired.
abbrev pub version_if : Bool → Option MemberRow → Option String
version_if false row = none
version_if true none = none
version_if true (some row) = some row.membership_version

pub active_version : Db → ℕ → String → String → Option String
active_version db now network_id principal_id =
    let row = lookup (network_id, ("global", principal_id)) db.members in
    version_if
      (row_is_active row && grant_is_live now (lookup (network_id, principal_id) db.grants)) row

abbrev pub mutation_error {ℓ} : {A : Type ℓ} → Result MutationError A → Result GrantError A
mutation_error (ok a) = ok a
mutation_error (err e) = err (mutation_failed e)

abbrev pub respond : Grant → String → GrantResponse
respond g version = record {
  network_id = g.network_id;
  principal_id = g.principal_id;
  membership_version = version;
}

module _ (crypto : GrantCrypto) (broker : List BrokerCall → Bool) (c : Config)
    (now elapsed : ℕ) where
  open crypto use {verify_grant, grant_id}

  -- The branch of a principal that is not active yet.
  pub project_grant : Grant → String → Db → Result GrantError (Db × GrantResponse)
  project_grant g version db = do
    applied ← mutation_error (
        apply_in_scope broker c now elapsed g.network_id "global"
          (principal global g.principal_id true version) none db)
    ok (applied.0, respond g version)

  pub finish_grant : Grant → String → Db → Option String → Result GrantError (Db × GrantResponse)
  finish_grant g id db (some version) = ok (db, respond g version)
  finish_grant g id db none = project_grant g (join "grant:" id) db

  pub admit_grant : Grant → Db → Result GrantError (Db × GrantResponse)
  admit_grant g db = do
    expected_genesis ← or_bail (lookup g.network_id c.trusted_network_genesis) no_trusted_genesis
    bail_if (not (verify_grant g expected_genesis now)) grant_invalid
    bail_if (not (principal_is_global_authority db g.network_id expected_genesis))
        genesis_not_active
    id ← or_bail (grant_id g) id_failed
    granted ← upsert_network_membership_grant g id db
    finish_grant g id granted (active_version granted now g.network_id g.principal_id)
