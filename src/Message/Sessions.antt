-- ===== src/Message/Sessions.antt =====
-- crates/message-gateway/src/auth.rs: the challenge that a principal signs and the session that it
-- gets, with `register_principal_instance` of crates/message-gateway/src/db.rs. A UUID is its text;
-- the random ones and the clock, in milliseconds, are arguments. The audit log is left out. An
-- error of `prove_session` leaves the database as it was, since its transaction is dropped.
mod Data
pub mod Binding
pub mod Owner
pub mod Bearer
mod Tests
use Prim.Native.String.{◌++◌ as join}
use watt_gateway.Prelude.{
  ℕ, ◌+◌, String, Bool, true, false, ◌&&◌, ◌||◌, not, Option, none, some, List, [], ◌∷◌, ◌++◌, ltb,
  leb, ◌==◌, str_eq, is_blank, utf8_len, if◌then◌else◌, length, Eq, string_eq, pair_eq, Table,
  lookup, insert, Result, ok, err, bail_if, or_bail, ◌>>=◌, ◌>>◌,
}
use watt_gateway.Message.Config.{Config, is_some, is_some_and}
use watt_gateway.Message.Membership.{Db, principal_is_admitted}
pub use Data.*

abbrev pub instance_id_is_invalid : String → Bool
instance_id_is_invalid value = is_blank value || ltb 128 (utf8_len value)

-- `request.principals.len() != 1`, and the claim
abbrev pub single {ℓ} : {A : Type ℓ} → List A → Option A
single (x ∷ []) = some x
single _ = none

module _ {Json Message : Type 0} (lib : AuthLibraries Json Message) where
  -- `challenge_id` and `nonce` are the random values.
  pub create_challenge :
      ℕ
      → String
      → String
      → ChallengeRequest
      → AuthDb Json
      → Result AuthError (AuthDb Json × ChallengeResponse)
  create_challenge now challenge_id nonce request db = do
    claim ← or_bail (single request.principals) not_one_principal
    bail_if (not (str_eq claim.principal_id claim.public_key_hex)) id_is_not_key
    bail_if (is_some_and instance_id_is_invalid claim.tenant_instance_id) instance_id_invalid
    bail_if (not (principal_is_admitted db.membership now request.network_id claim.principal_id))
        not_active_member
    principals_json ← or_bail (lib.to_value request.principals) serialize_failed
    bail_if (is_some (lookup challenge_id db.challenges)) duplicate_key
    let expires_at = now + 120000
    let row : ChallengeRow Json = record {
      network_id = request.network_id;
      principals_json = principals_json;
      nonce = nonce;
      expires_at = expires_at;
      consumed_at = none;
    }
    ok (
      record db { challenges = insert challenge_id row db.challenges },
      record { challenge_id = challenge_id; nonce = nonce; expires_at = expires_at },
    )

-- The upsert, and the column that it returns.
pub register_principal_instance :
    String
    → String
    → String
    → Table (String × String) InstanceRow
    → Table (String × String) InstanceRow × Bool
register_principal_instance network_id principal_id instance_id t =
    let row = registered instance_id (lookup (network_id, principal_id) t) in
    (insert (network_id, principal_id) row t, row.history_unavailable)
  where
    registered : String → Option InstanceRow → InstanceRow
    registered id none = record { tenant_instance_id = id; history_unavailable = false }
    registered id (some row) = record {
      tenant_instance_id = id;
      history_unavailable = row.history_unavailable || not (str_eq row.tenant_instance_id id);
    }

abbrev history_of : Bool → HistoryStatus
history_of true = history_unavailable
history_of false = current_mailbox_only

abbrev pub register_claim :
    String
    → PrincipalClaim
    → Table (String × String) InstanceRow
    → Table (String × String) InstanceRow × HistoryStatus
register_claim network_id claim t = at claim.tenant_instance_id
  where
    at : Option String → Table (String × String) InstanceRow × HistoryStatus
    at none = (t, current_mailbox_only)
    at (some instance_id) =
        let (t', unavailable) =
          register_principal_instance network_id claim.principal_id instance_id t in
        (t', history_of unavailable)

abbrev pub open_challenge :
    {Json : Type 0} → Option (ChallengeRow Json) → Option (ChallengeRow Json)
open_challenge none = none
open_challenge (some row) = if is_some row.consumed_at then none else some row

-- The primary key and the unique column of `gateway_sessions`.
pub session_is_taken : String → String → List SessionRow → Bool
session_is_taken id hash [] = false
session_is_taken id hash (s ∷ ss) =
    str_eq s.session_id id || str_eq s.token_hash hash || session_is_taken id hash ss

pub principal_is_taken : String → String → List SessionPrincipalRow → Bool
principal_is_taken id p [] = false
principal_is_taken id p (s ∷ ss) =
    (str_eq s.session_id id && str_eq s.principal_id p) || principal_is_taken id p ss

-- The rows of `gateway_session_principals` of a session, at the time.
abbrev pub is_live_principal : ℕ → String → SessionPrincipalRow → Bool
is_live_principal now session_id p = str_eq p.session_id session_id && ltb now p.expires_at

pub live_principal : ℕ → String → List SessionPrincipalRow → Option String
live_principal now session_id [] = none
live_principal now session_id (p ∷ ps) =
    if is_live_principal now session_id p
    then some p.principal_id
    else live_principal now session_id ps

abbrev or_session : Option String → SessionRow → Option VerifiedSession → Option VerifiedSession
or_session none s rest = rest
or_session (some principal_id) s rest =
    some
      (record { session_id = s.session_id; network_id = s.network_id; principal_id = principal_id })

-- `JOIN`, and the first row of it
pub find_session : ℕ → String → List SessionPrincipalRow → List SessionRow → Option VerifiedSession
find_session now hash ps [] = none
find_session now hash ps (s ∷ ss) =
    let rest = find_session now hash ps ss in
    if str_eq s.token_hash hash && ltb now s.expires_at
    then or_session (live_principal now s.session_id ps) s rest
    else rest

module _ {Json Message : Type 0} (lib : AuthLibraries Json Message) where
  abbrev pub binding_fails : ℕ → SessionProofRequest → ChallengeRow Json → Json → Bool
  binding_fails now request row principals_json =
      not (str_eq row.network_id request.network_id)
      || not (lib.json_eq.beq row.principals_json principals_json)
      || leb row.expires_at now

  -- The checks, up to the signature: the challenge and the claim that they are for.
  pub check_proof :
      ℕ
      → SessionProofRequest
      → AuthDb Json
      → Result AuthError (String × (ChallengeRow Json × PrincipalClaim))
  check_proof now request db = do
    claim ← or_bail (single request.principals) not_one_principal
    proof ← or_bail (single request.proofs) not_one_principal
    bail_if (not (request.delivery_policy_version == lib.delivery_policy_version))
        policy_version_mismatch
    challenge_id ← or_bail (lib.parse_uuid request.challenge_id) malformed_id
    row ← or_bail (open_challenge (lookup challenge_id db.challenges)) unknown_or_consumed
    principals_json ← or_bail (lib.to_value request.principals) serialize_failed
    bail_if (binding_fails now request row principals_json) binding_failed
    bail_if (not (str_eq proof.principal_id claim.principal_id)) proof_not_admitted
    bail_if (not (principal_is_admitted db.membership now row.network_id claim.principal_id))
        proof_not_admitted
    message ←
        or_bail
          (lib.session_proof_message row.network_id request.principals (record {
            challenge_id = challenge_id;
            nonce = row.nonce;
            expires_at = row.expires_at;
          }))
          serialize_failed
    bail_if (not (lib.verify_signature claim.public_key_hex message proof.signature_hex))
        signature_invalid
    ok (challenge_id, (row, claim))

  -- The writes: `session_id` and `suffix` are the random UUIDs.
  pub open_session :
      ℕ
      → Config
      → String
      → String
      → SessionProofRequest
      → String
      → ChallengeRow Json
      → PrincipalClaim
      → AuthDb Json
      → Result AuthError (AuthDb Json × SessionResponse)
  open_session now c session_id suffix request challenge_id row claim db = do
    let registered = register_claim row.network_id claim db.instances
    let token = join session_id (join "." suffix)
    bail_if (not (lib.ttl_in_range c.session_ttl)) ttl_out_of_range
    let session_expires = now + c.session_ttl
    bail_if (session_is_taken session_id (lib.hash_token token) db.sessions) duplicate_key
    bail_if (principal_is_taken session_id claim.principal_id db.session_principals) duplicate_key
    let session : SessionRow = record {
      session_id = session_id;
      token_hash = lib.hash_token token;
      network_id = row.network_id;
      expires_at = session_expires;
    }
    let principal : SessionPrincipalRow = record {
      session_id = session_id;
      principal_id = claim.principal_id;
      expires_at = session_expires;
    }
    ok (
      record db {
        challenges = insert challenge_id (record row { consumed_at = some now }) db.challenges;
        sessions = db.sessions ++ session ∷ [];
        session_principals = db.session_principals ++ principal ∷ [];
        instances = registered.0;
      },
      record {
        session_token = token;
        network_id = row.network_id;
        principal_id = claim.principal_id;
        delivery_policy_version = request.delivery_policy_version;
        history_status = registered.1;
        expires_at = session_expires;
      },
    )

  pub prove_session :
      ℕ
      → Config
      → String
      → String
      → SessionProofRequest
      → AuthDb Json
      → Result AuthError (AuthDb Json × SessionResponse)
  prove_session now c session_id suffix request db = do
    checked ← check_proof now request db
    open_session now c session_id suffix request checked.0 checked.1.0 checked.1.1 db

  pub verify_bearer : ℕ → String → AuthDb Json → Result AuthError VerifiedSession
  verify_bearer now token db = do
    bail_if (is_blank token) missing_token
    session ←
        or_bail (find_session now (lib.hash_token token) db.session_principals db.sessions)
          invalid_or_expired
    bail_if (not (principal_is_admitted db.membership now session.network_id session.principal_id))
        not_active_member
    ok session
