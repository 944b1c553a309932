-- ===== src/Message/Sessions/Data.antt =====
-- The data of crates/message-gateway/src/auth.rs: requests, responses, the rows of its tables, and
-- what it uses of other crates.
use watt_gateway.Prelude.{ℕ, String, Bool, Option, List, Eq, Table}
use watt_gateway.Message.Membership.{Db}

-- `PrincipalClaim`, the requests and the responses of wattswarm_network_client_server.
pub record PrincipalClaim : Type 0 where
  pub principal_id : String
  pub public_key_hex : String
  pub tenant_instance_id : Option String

pub record PrincipalProof : Type 0 where
  pub principal_id : String
  pub signature_hex : String

pub record ChallengeRequest : Type 0 where
  pub network_id : String
  pub principals : List PrincipalClaim

pub record ChallengeResponse : Type 0 where
  pub challenge_id : String
  pub nonce : String
  pub expires_at : ℕ

pub record SessionProofRequest : Type 0 where
  pub network_id : String
  pub challenge_id : String
  pub delivery_policy_version : ℕ
  pub principals : List PrincipalClaim
  pub proofs : List PrincipalProof

pub data HistoryStatus : Type 0 where
  current_mailbox_only : HistoryStatus
  history_unavailable : HistoryStatus

pub record SessionResponse : Type 0 where
  pub session_token : String
  pub network_id : String
  pub principal_id : String
  pub delivery_policy_version : ℕ
  pub history_status : HistoryStatus
  pub expires_at : ℕ

pub record VerifiedSession : Type 0 where
  pub session_id : String
  pub network_id : String
  pub principal_id : String

-- A row of `gateway_challenges`.
pub record ChallengeRow (Json : Type 0) : Type 0 where
  pub network_id : String
  pub principals_json : Json
  pub nonce : String
  pub expires_at : ℕ
  pub consumed_at : Option ℕ

-- A row of `gateway_sessions`, and one of `gateway_session_principals`.
pub record SessionRow : Type 0 where
  pub session_id : String
  pub token_hash : String
  pub network_id : String
  pub expires_at : ℕ

pub record SessionPrincipalRow : Type 0 where
  pub session_id : String
  pub principal_id : String
  pub expires_at : ℕ

-- A row of `gateway_principal_instances`.
pub record InstanceRow : Type 0 where
  pub tenant_instance_id : String
  pub history_unavailable : Bool

pub record AuthDb (Json : Type 0) : Type 0 where
  pub challenges : Table String (ChallengeRow Json)
  pub sessions : List SessionRow
  pub session_principals : List SessionPrincipalRow
  pub instances : Table (String × String) InstanceRow
  pub membership : Db

pub data AuthError : Type 0 where
  not_one_principal : AuthError
  id_is_not_key : AuthError
  instance_id_invalid : AuthError
  not_active_member : AuthError
  serialize_failed : AuthError
  duplicate_key : AuthError
  policy_version_mismatch : AuthError
  malformed_id : AuthError
  unknown_or_consumed : AuthError
  binding_failed : AuthError
  proof_not_admitted : AuthError
  signature_invalid : AuthError
  ttl_out_of_range : AuthError
  missing_token : AuthError
  invalid_or_expired : AuthError

-- What the code uses of serde_json, uuid, chrono, sha2, wattswarm_crypto and
-- wattswarm_network_client_server; `Message` is the type of the bytes that are signed.
pub record AuthLibraries (Json Message : Type 0) : Type 0 where
  pub json_eq : Eq Json
  pub to_value : List PrincipalClaim → Option Json
  pub parse_uuid : String → Option String
  pub session_proof_message : String → List PrincipalClaim → ChallengeResponse → Option Message
  pub verify_signature : String → Message → String → Bool
  pub hash_token : String → String
  pub ttl_in_range : ℕ → Bool
  pub delivery_policy_version : ℕ
