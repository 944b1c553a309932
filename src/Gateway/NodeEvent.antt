-- ===== src/Gateway/NodeEvent.antt =====
-- The events that nodes sign (used by crates/gateway/src/streaming.rs and space.rs).
use watt_gateway.Prelude.{ℕ, String, Option}
use watt_gateway.Gateway.Json.{Value}
use watt_gateway.Gateway.Contracts.Kinds.{DataKind, Visibility, ProvisionalExportPolicy}
use watt_gateway.Gateway.Stream.{EventScope}

-- `SignedNodeEvent` of wattetheria_gateway_contract, by the fields that are read.
pub record SignedNodeEvent : Type 0 where
  pub event_id : String
  pub node_id : String
  pub signer_agent_did : String
  pub data_kind : DataKind
  pub event_kind : String
  pub visibility : Visibility
  pub provisional_policy : ProvisionalExportPolicy
  pub scope : EventScope
  pub identity_key : Option String
  pub timestamp : ℕ
  pub seq : ℕ
  pub payload : Value
