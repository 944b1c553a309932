-- ===== src/Message/Control.antt =====
-- `send_control` of crates/message-gateway/src/service.rs. Its statements run one by one, outside a
-- transaction, so a state comes back with an error too. The broker answers whether a frame was
-- accepted; the frames that it accepted are part of the state.
pub mod Receipt
mod Tests
use watt_gateway.Prelude.{
  ℕ, ◌+◌, String, Bool, true, false, ◌&&◌, ◌||◌, not, Option, none, some, List, [], ◌∷◌, ◌++◌, ltb,
  ◌==◌, str_eq, is_blank, if◌then◌else◌, length, Eq, string_eq, pair_eq, Table, lookup, insert,
  Result, ok, err, bail_if, or_bail, ◌>>=◌, ◌>>◌,
}
use watt_gateway.Message.Config.{is_some}
use watt_gateway.Message.Membership.{Db, principal_is_admitted}

pub record ControlFrame : Type 0 where
  pub framing_version : String
  pub network_id : String
  pub source_principal_id : String
  pub target_principal_id : String
  pub correlation_id : String
  pub control_kind : String
  pub payload : List ℕ
  pub signature_hex : String

pub record ControlAcceptance : Type 0 where
  pub correlation_id : String
  pub delivery_id : String

-- The columns of `gateway_publish_receipts` but for `confirmed_at`; the status is always `confirmed`.
pub record ReceiptRow : Type 0 where
  pub authorized_route_hash : String
  pub record_hash : String
  pub membership_version : Option String
  pub expected_recipients : ℕ
  pub binding_set_hash : String
  pub delivery_class : String
  pub delivery_policy_version : ℕ
  pub expires_at : ℕ

pub data ControlError : Type 0 where
  binding_or_size_invalid : ControlError
  target_not_member : ControlError
  signature_invalid : ControlError
  serialize_failed : ControlError
  correlation_id_reused : ControlError
  broker_failed : ControlError
  not_null_violated : ControlError

-- What the code uses of the shared crates and sha2: the identifier of the delivery, and the hashes
-- of the gap route and of the frame's target, kind and payload. `record_hash_default` is the default
-- of the column `record_hash`, which is NOT NULL: none in a table that `init_schema` of
-- crates/message-gateway/src/db.rs creates, and the empty text where that function adds the column to
-- an older table.
pub record ControlLibraries : Type 0 where
  pub signature_holds : ControlFrame → Bool
  pub stable_delivery_id : String → String → String → Option String
  pub route_hash : String → Option String
  pub binding_hash : String → String → List ℕ → Option String
  pub delivery_policy_version : ℕ
  pub record_hash_default : Option String

pub record ControlState : Type 0 where
  pub receipts : Table (String × (String × String)) ReceiptRow
  pub published : List ControlFrame
  pub membership : Db

pub record Prepared : Type 0 where
  pub delivery_id : String
  pub route_hash : String
  pub binding_hash : String

module _ (lib : ControlLibraries) (broker : ControlFrame → Bool)
    (network_id principal_id : String) where
  abbrev pub frame_is_invalid : ControlFrame → Bool
  frame_is_invalid frame =
      not (str_eq frame.framing_version "1")
      || not (str_eq frame.network_id network_id)
      || not (str_eq frame.source_principal_id principal_id)
      || is_blank frame.correlation_id
      || ltb 1048576 (length frame.payload)

  -- The checks and the hashes, before the receipt is looked up.
  pub prepare_control : ℕ → ControlFrame → Db → Result ControlError Prepared
  prepare_control now frame db = do
    bail_if (frame_is_invalid frame) binding_or_size_invalid
    bail_if (not (principal_is_admitted db now network_id frame.target_principal_id))
        target_not_member
    bail_if (not (lib.signature_holds frame)) signature_invalid
    delivery_id ←
        or_bail (lib.stable_delivery_id network_id frame.correlation_id frame.target_principal_id)
          serialize_failed
    route_hash ← or_bail (lib.route_hash frame.target_principal_id) serialize_failed
    binding_hash ←
        or_bail (lib.binding_hash frame.target_principal_id frame.control_kind frame.payload)
          serialize_failed
    ok (record { delivery_id = delivery_id; route_hash = route_hash; binding_hash = binding_hash })

  abbrev pub receipt_key : ControlFrame → String × (String × String)
  receipt_key frame = (network_id, (principal_id, frame.correlation_id))

  -- `expires_at > clock_timestamp()`
  abbrev pub live_receipt : ℕ → Option ReceiptRow → Option ReceiptRow
  live_receipt now none = none
  live_receipt now (some row) = if ltb now row.expires_at then some row else none

  abbrev pub receipt_differs : Prepared → ReceiptRow → Bool
  receipt_differs p row =
      not (str_eq row.authorized_route_hash p.route_hash)
      || not (str_eq row.binding_set_hash p.binding_hash)
      || not (str_eq row.delivery_class "interactive")
      || not (row.delivery_policy_version == lib.delivery_policy_version)

  abbrev pub accepted : ControlFrame → Prepared → Result ControlError ControlAcceptance
  accepted frame p =
      ok (record { correlation_id = frame.correlation_id; delivery_id = p.delivery_id })

  abbrev pub new_receipt : ℕ → Prepared → String → ReceiptRow
  new_receipt now p record_hash = record {
    authorized_route_hash = p.route_hash;
    record_hash = record_hash;
    membership_version = none;
    expected_recipients = 1;
    binding_set_hash = p.binding_hash;
    delivery_class = "interactive";
    delivery_policy_version = lib.delivery_policy_version;
    expires_at = now + 86400000;
  }

  -- `INSERT … ON CONFLICT DO NOTHING`, which names no `record_hash`.
  pub insert_receipt :
      ℕ
      → ControlFrame
      → Prepared
      → Option String
      → ControlState
      → ControlState × Result ControlError ControlAcceptance
  insert_receipt now frame p none st = (st, err not_null_violated)
  insert_receipt now frame p (some record_hash) st =
      if is_some (lookup (receipt_key frame) st.receipts) then (st, accepted frame p) else (
        record st {
          receipts = insert (receipt_key frame) (new_receipt now p record_hash) st.receipts;
        },
        accepted frame p,
      )

  pub publish_control :
      ℕ
      → ControlFrame
      → Prepared
      → ControlState
      → ControlState × Result ControlError ControlAcceptance
  publish_control now frame p st =
      if broker frame
      then insert_receipt now frame p lib.record_hash_default
          (record st { published = st.published ++ frame ∷ [] })
      else (st, err broker_failed)

  pub answer_control :
      ℕ
      → ControlFrame
      → Prepared
      → Option ReceiptRow
      → ControlState
      → ControlState × Result ControlError ControlAcceptance
  answer_control now frame p (some row) st =
      (st, if receipt_differs p row then err correlation_id_reused else accepted frame p)
  answer_control now frame p none st = publish_control now frame p st

  pub send_prepared :
      ℕ
      → ControlFrame
      → Result ControlError Prepared
      → ControlState
      → ControlState × Result ControlError ControlAcceptance
  send_prepared now frame (err e) st = (st, err e)
  send_prepared now frame (ok p) st =
      answer_control now frame p (live_receipt now (lookup (receipt_key frame) st.receipts)) st

  pub send_control :
      ℕ → ControlFrame → ControlState → ControlState × Result ControlError ControlAcceptance
  send_control now frame st = send_prepared now frame (prepare_control now frame st.membership) st
