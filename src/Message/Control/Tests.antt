-- ===== src/Message/Control/Tests.antt =====
-- A control frame of the sample network, and what the theorems say of it.
use watt_gateway.Prelude.{
  ℕ, ◌≡◌, refl, String, Bool, true, Option, none, some, [], ◌∷◌, arith, Result, ok, err, is_blank,
  is_whitespace, lookup,
}
use watt_gateway.Message.Membership.Mutation.Tests.{network, genesis_is_admitted}
use watt_gateway.Message.Control.{
  ControlLibraries, ControlFrame, ControlState, ControlError, ControlAcceptance, not_null_violated,
  Prepared, prepare_control, send_control, send_prepared, answer_control, publish_control,
  insert_receipt,
}
use watt_gateway.Message.Control.Receipt.{resend_publishes_nothing}

abbrev libraries : Option String → ControlLibraries
libraries record_hash_default = record {
  signature_holds = λ frame. true;
  stable_delivery_id = λ network correlation target. some "delivery";
  route_hash = λ target. some "route";
  binding_hash = λ target kind payload. some "binding";
  delivery_policy_version = 1;
  record_hash_default = record_hash_default;
}

abbrev broker : ControlFrame → Bool
broker frame = true

abbrev frame : ControlFrame
frame = record {
  framing_version = "1";
  network_id = "network";
  source_principal_id = "alice";
  target_principal_id = "genesis";
  correlation_id = "c";
  control_kind = "ping";
  payload = [];
  signature_hex = "signature";
}

abbrev start : ControlState
start = record { receipts = []; published = []; membership = network }

abbrev prepared : Prepared
prepared = record { delivery_id = "delivery"; route_hash = "route"; binding_hash = "binding" }

prepares :
    (d : Option String) (now : ℕ)
    → prepare_control (libraries d) broker "network" "alice" now frame network ≡ ok prepared
unfolding prepare_control is_blank is_whitespace
prepares d now = rw (genesis_is_admitted now) refl

abbrev sent : ControlState × Result ControlError ControlAcceptance
sent = send_control (libraries (some "")) broker "network" "alice" 5 frame start

resend_publishes_nothing_example :
    (sent.0.published ≡ frame ∷ [])
    × (sent.1 ≡ ok (record { correlation_id = "c"; delivery_id = "delivery" }))
    × (send_control (libraries (some "")) broker "network" "alice" 1000 frame sent.0
        ≡ (sent.0, sent.1))
unfolding lookup
resend_publishes_nothing_example =
    resend_publishes_nothing (libraries (some "")) broker "network" "alice" 5 frame prepared start
      "" 1000 refl (prepares (some "") 5) (prepares (some "") 1000) refl refl (omega arith)

-- In a schema that the service creates the column `record_hash` has no default: the broker gets the
-- frame, and the receipt is refused.
without_default :
    send_control (libraries none) broker "network" "alice" 5 frame start
    ≡ (record start { published = frame ∷ [] }, err not_null_violated)
unfolding send_control send_prepared answer_control publish_control insert_receipt lookup
without_default = rw (prepares none 5) refl
