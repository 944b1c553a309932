-- ===== src/Gateway/Projection/Rows.antt =====
-- The rows of projections: `materialize_projection_row` of crates/gateway/src/streaming.rs and
-- `upsert_projection_row` of crates/gateway/src/db.rs. A time is in milliseconds once it is stored.
-- The writers of a kind and of a visibility are arguments.
pub mod Newest
mod Tests
use watt_gateway.Prelude.{
  ℕ, String, Bool, true, false, Option, none, some, [], ◌∷◌, leb, if◌then◌else◌, string_eq, pair_eq,
  Table, lookup, insert,
}
use watt_gateway.Gateway.Json.{Value, null, number, string, object, from_map, get}
use watt_gateway.Gateway.Contracts.{projection_identity_key, visibility_for_kind}
use watt_gateway.Gateway.Contracts.Kinds.{DataKind, Visibility}
use watt_gateway.Gateway.NodeEvent.{SignedNodeEvent}
use watt_gateway.Gateway.Projection.{as_text, normalize_generated_at_millis}

pub record ProjectionRow : Type 0 where
  pub source_id : Option String
  pub generated_at : ℕ
  pub visibility : String
  pub payload : Value
  pub provenance : Value

-- The kind, the identity and the node that it comes from.
abbrev pub ProjectionKey : Type 0
ProjectionKey = String × (String × String)

-- `coalesce`
abbrev pub coalesce : Option String → Option String → Option String
coalesce none old = old
coalesce (some source_id) old = some source_id

abbrev pub upsert_over :
    Option ProjectionRow
    → ProjectionKey
    → ProjectionRow
    → Table ProjectionKey ProjectionRow
    → Table ProjectionKey ProjectionRow
upsert_over none key row t = insert key row t
upsert_over (some old) key row t =
    if leb old.generated_at row.generated_at
    then insert key (record row { source_id = coalesce row.source_id old.source_id }) t
    else t

pub upsert_projection_row :
    ProjectionKey
    → ProjectionRow
    → Table ProjectionKey ProjectionRow
    → Table ProjectionKey ProjectionRow
upsert_projection_row key row t = upsert_over (lookup key t) key row t

abbrev pub confirmed_at : Bool → ℕ → Value
confirmed_at true timestamp = null
confirmed_at false timestamp = number timestamp

abbrev pub provisional_at : Bool → ℕ → Value
provisional_at true timestamp = number timestamp
provisional_at false timestamp = null

abbrev pub provenance_of : SignedNodeEvent → Bool → Value
provenance_of event provisional = object (
    from_map (
      ("source_node_id", string event.node_id)
      ∷ ("source_cursor_or_seq", number event.seq)
      ∷ ("ingest_path", string "event_push")
      ∷ ("last_confirmed_at", confirmed_at provisional event.timestamp)
      ∷ ("last_provisional_at", provisional_at provisional event.timestamp)
      ∷ []))

module _ (kind_text : DataKind → String) (visibility_text : Visibility → String) where
  abbrev pub row_of : SignedNodeEvent → Option String → Bool → DataKind → Value → ProjectionRow
  row_of event source_id provisional data_kind payload = record {
    source_id = source_id;
    generated_at = normalize_generated_at_millis event.timestamp;
    visibility = visibility_text (visibility_for_kind data_kind);
    payload = payload;
    provenance = provenance_of event provisional;
  }

  abbrev pub key_of : SignedNodeEvent → DataKind → Value → ProjectionKey
  key_of event data_kind payload = (
    kind_text data_kind,
    (
      projection_identity_key (λ value key. as_text (get key value)) data_kind payload
          event.node_id,
      event.node_id,
    ),
  )

  pub materialize_projection_row :
      SignedNodeEvent
      → Option String
      → Bool
      → DataKind
      → Value
      → Table ProjectionKey ProjectionRow
      → Table ProjectionKey ProjectionRow
  materialize_projection_row event source_id provisional data_kind payload t =
      upsert_projection_row (key_of event data_kind payload)
        (row_of event source_id provisional data_kind payload) t

  -- `materialize_event_projection`
  pub materialize_event_projection :
      SignedNodeEvent
      → Option String
      → Bool
      → Option (DataKind × Value)
      → Table ProjectionKey ProjectionRow
      → Table ProjectionKey ProjectionRow
  materialize_event_projection event source_id provisional none t = t
  materialize_event_projection event source_id provisional (some (data_kind, payload)) t =
      materialize_projection_row event source_id provisional data_kind payload t
