-- ===== src/Message/Token.antt =====
-- crates/message-gateway/src/commit_token.rs: the token that lets a client commit a mailbox page.
-- Texts are lists of bytes. HMAC takes a key of any length.
pub mod Laws
mod Tests
use watt_gateway.Prelude.{
  ℕ, Bool, true, false, not, Option, none, some, List, [], ◌∷◌, ◌++◌, leb, ◌==◌, if◌then◌else◌,
  Bytes, bytes_beq, Result, ok, err, bail_if, or_bail, ◌>>=◌, ◌>>◌,
}
use watt_gateway.Message.Bucket.{DeliveryClass}

pub record CommitClaims : Type 0 where
  pub page_id : Bytes
  pub network_id : Bytes
  pub principal_id : Bytes
  pub delivery_class : DeliveryClass
  pub owner_instance_id : Bytes
  pub consumer_epoch : ℕ
  pub expires_at : ℕ

pub data TokenError : Type 0 where
  serialize_failed : TokenError
  token_refused : TokenError
  malformed : TokenError
  hex_invalid : TokenError
  mac_mismatch : TokenError
  claims_invalid : TokenError
  expired : TokenError

-- What the code uses of serde_json, hmac, hex and `OpaqueCommitToken`, which may refuse a text.
pub record TokenLibraries : Type 0 where
  pub to_vec : CommitClaims → Option Bytes
  pub from_slice : Bytes → Option CommitClaims
  pub hmac_sha256 : Bytes → Bytes → Bytes
  pub hex_encode : Bytes → Bytes
  pub hex_decode : Bytes → Option Bytes
  pub token_is_allowed : Bytes → Bool

-- `'.'`
abbrev pub dot : ℕ
dot = 46

abbrev pub with_head : ℕ → Option (Bytes × Bytes) → Option (Bytes × Bytes)
with_head c none = none
with_head c (some (before, after)) = some (c ∷ before, after)

-- `split_once('.')`
pub split_once : Bytes → Option (Bytes × Bytes)
split_once [] = none
split_once (c ∷ cs) =
    let rest = split_once cs in if c == dot then some ([], cs) else with_head c rest

module _ (lib : TokenLibraries) where
  pub issue : Bytes → CommitClaims → Result TokenError Bytes
  issue secret claims = do
    payload ← or_bail (lib.to_vec claims) serialize_failed
    let text = lib.hex_encode payload ++ dot ∷ lib.hex_encode (lib.hmac_sha256 secret payload)
    bail_if (not (lib.token_is_allowed text)) token_refused
    ok text

  pub verify : Bytes → Bytes → ℕ → Result TokenError CommitClaims
  verify secret token now_ms = do
    parts ← or_bail (split_once token) malformed
    payload ← or_bail (lib.hex_decode parts.0) hex_invalid
    signature ← or_bail (lib.hex_decode parts.1) hex_invalid
    bail_if (not (bytes_beq (lib.hmac_sha256 secret payload) signature)) mac_mismatch
    claims ← or_bail (lib.from_slice payload) claims_invalid
    bail_if (leb claims.expires_at now_ms) expired
    ok claims
