-- ===== src/Gateway/UiEvents.antt =====
-- The stored events, with their times in milliseconds, of crates/gateway/src/db.rs: `insert_ui_event` with its outbox row,
-- `list_ui_events_after`, `earliest_ui_event_cursor` and `max_ui_event_source_seq`. The rows are in
-- the order of their cursors, which a sequence gives, and a source is active or not by an argument.
-- `GatewayUiEvent::try_from` of crates/gateway/src/models.rs reads a row as an event, and
-- `stream_session` is `handle_ws` of crates/gateway/src/streaming.rs on the rows that it queries.
pub mod Order
pub mod Once
mod Tests
use watt_gateway.Prelude.{
  ℕ, zero, suc, ◌+◌, ◌*◌, ◌/◌, leb, i64_max, String, Bool, true, false, not, ◌&&◌, ◌||◌, Option,
  none, some, List, [], ◌∷◌, ◌++◌, ltb, ◌==◌, str_eq, if◌then◌else◌, max, filter_by,
}
use watt_gateway.Gateway.Json.{Value}
use watt_gateway.Gateway.Outbox.{OutboxRow}
use watt_gateway.Gateway.Contracts.Kinds.{DataKind, Visibility}
use watt_gateway.Gateway.Stream.{
  text_matches, EventScope, GatewayUiEvent, UiStreamQuery, Session, Received, handle_ws,
}

pub record UiEventRow : Type 0 where
  pub cursor : ℕ
  pub event_id : String
  pub source_id : Option String
  pub node_id : String
  pub signer_agent_did : String
  pub data_kind : String
  pub event_kind : String
  pub visibility : String
  pub provisional : Bool
  pub topic_id : Option String
  pub organization_id : Option String
  pub task_id : Option String
  pub generated_at : ℕ
  pub payload : Value
  pub ingest_path : String
  pub source_cursor_or_seq : Option ℕ

-- `InsertP2pOutboxRecord`
pub record OutboxRecord : Type 0 where
  pub dedupe_key : String
  pub command_kind : String
  pub payload : Value

-- The tables with their sequences. An audit entry is its kind and the identifier that it names.
pub record EventStore : Type 0 where
  pub ui_events : List UiEventRow
  pub next_cursor : ℕ
  pub outbox : List OutboxRow
  pub next_outbox_id : ℕ
  pub audit : List (String × String)

pub get_ui_event_by_id : String → List UiEventRow → Option UiEventRow
get_ui_event_by_id event_id [] = none
get_ui_event_by_id event_id (row ∷ rows) =
    if str_eq row.event_id event_id then some row else get_ui_event_by_id event_id rows

abbrev pub has_dedupe_key : String → List OutboxRow → Bool
has_dedupe_key key [] = false
has_dedupe_key key (row ∷ rows) = str_eq row.dedupe_key key || has_dedupe_key key rows

abbrev pub outbox_row : ℕ → OutboxRecord → OutboxRow
outbox_row id r = record {
  id = id;
  dedupe_key = r.dedupe_key;
  command_kind = r.command_kind;
  payload = r.payload;
  attempts = 0;
  claimed_until = none;
}

-- `on conflict (dedupe_key) do nothing`; the sequence advances all the same.
pub insert_outbox : Option OutboxRecord → EventStore → EventStore
insert_outbox none st = st
insert_outbox (some r) st = record st {
  next_outbox_id = suc st.next_outbox_id;
  outbox =
      if has_dedupe_key r.dedupe_key st.outbox
      then st.outbox
      else st.outbox ++ outbox_row st.next_outbox_id r ∷ [];
}

abbrev pub with_cursor : ℕ → UiEventRow → UiEventRow
with_cursor cursor row = record row { cursor = cursor }

-- The time in milliseconds that is stored: a value of 1e11 or more is in milliseconds, and a smaller
-- one in seconds.
abbrev pub stored_at : ℕ → ℕ
stored_at generated_at = if leb 100000000000 generated_at then generated_at else generated_at * 1000

abbrev pub stored_row : ℕ → UiEventRow → UiEventRow
stored_row cursor row = record row { cursor = cursor; generated_at = stored_at row.generated_at }

-- The insert at the next cursor: a present event returns no row.
pub insert_absent :
    Option UiEventRow
    → UiEventRow
    → Option OutboxRecord
    → EventStore
    → EventStore × Option UiEventRow
insert_absent (some present) row outbox st = (record st { next_cursor = suc st.next_cursor }, none)
insert_absent none row outbox st = (
  insert_outbox outbox (record st {
    ui_events = st.ui_events ++ stored_row st.next_cursor row ∷ [];
    next_cursor = suc st.next_cursor;
    audit = st.audit ++ ("ui_event_insert", row.event_id) ∷ [];
  }),
  some (stored_row st.next_cursor row),
)

-- `insert_ui_event_inner`; the cursor of `row` is not read, and its time is that to be stored.
pub insert_ui_event : UiEventRow → Option OutboxRecord → EventStore → EventStore × Option UiEventRow
insert_ui_event row outbox st =
    insert_absent (get_ui_event_by_id row.event_id st.ui_events) row outbox st

pub record ListUiEventsQuery : Type 0 where
  pub cursor : ℕ
  pub data_kind : Option String
  pub node_id : Option String
  pub topic_id : Option String
  pub organization_id : Option String
  pub task_id : Option String
  pub limit : ℕ

abbrev pub take : ℕ → List UiEventRow → List UiEventRow
take zero rows = []
take (suc n) [] = []
take (suc n) (row ∷ rows) = row ∷ take n rows

-- The limit is cast from `usize` to `i64`, where one of 2 ^ 63 or more is negative, and is at least 1.
abbrev pub row_limit : ℕ → ℕ
row_limit limit = max (if leb limit i64_max then limit else 0) 1

module _ (source_is_active : String → Bool) where
  abbrev pub is_visible : Option String → Bool
  is_visible none = true
  is_visible (some source_id) = source_is_active source_id

  pub is_listed : ListUiEventsQuery → UiEventRow → Bool
  is_listed q row =
      ltb q.cursor row.cursor
      && (is_visible row.source_id
          && text_matches q.data_kind (some row.data_kind)
          && text_matches q.node_id (some row.node_id)
          && text_matches q.topic_id row.topic_id
          && text_matches q.organization_id row.organization_id
          && text_matches q.task_id row.task_id)

  pub list_ui_events_after : ListUiEventsQuery → List UiEventRow → List UiEventRow
  list_ui_events_after q rows = take (row_limit q.limit) (filter_by (is_listed q) rows)

  pub earliest_ui_event_cursor : List UiEventRow → Option ℕ
  earliest_ui_event_cursor [] = none
  earliest_ui_event_cursor (row ∷ rows) =
      if is_visible row.source_id then some row.cursor else earliest_ui_event_cursor rows

-- The readers of a kind and of a visibility are serde's, and so is the writer of a kind.
module _ (data_kind_from : String → Option DataKind)
    (visibility_from : String → Option Visibility) where
  abbrev pub event_of : UiEventRow → Option DataKind → Option Visibility → Option GatewayUiEvent
  event_of row (some data_kind) (some visibility) = some (record {
    cursor = row.cursor;
    event_id = row.event_id;
    node_id = row.node_id;
    data_kind = data_kind;
    event_kind = row.event_kind;
    visibility = visibility;
    provisional = row.provisional;
    scope = record {
      node_id = none;
      topic_id = row.topic_id;
      organization_id = row.organization_id;
      task_id = row.task_id;
    };
    generated_at = row.generated_at / 1000;
    payload = row.payload;
  })
  event_of row _ _ = none

  pub try_from : UiEventRow → Option GatewayUiEvent
  try_from row = event_of row (data_kind_from row.data_kind) (visibility_from row.visibility)

  pub events : List UiEventRow → List (Option GatewayUiEvent)
  events [] = []
  events (row ∷ rows) = try_from row ∷ events rows

  module _ (source_is_active : String → Bool) (kind_name : DataKind → String) where
    abbrev pub limit_or : ℕ → Option ℕ → ℕ
    limit_or default none = default
    limit_or default (some n) = n

    abbrev pub cursor_or_zero : Option ℕ → ℕ
    cursor_or_zero none = 0
    cursor_or_zero (some cursor) = cursor

    abbrev pub kind_text : Option DataKind → Option String
    kind_text none = none
    kind_text (some kind) = some (kind_name kind)

    -- The replay's query.
    pub replay_query : UiStreamQuery → ListUiEventsQuery
    replay_query query = record {
      cursor = cursor_or_zero query.cursor;
      data_kind = kind_text query.data_kind;
      node_id = query.node_id;
      topic_id = query.topic_id;
      organization_id = query.organization_id;
      task_id = query.task_id;
      limit = limit_or 200 query.limit;
    }

    pub stream_session : UiStreamQuery → Bool → List UiEventRow → ℕ → List Received → Session
    stream_session query allow_protected rows room answers =
        handle_ws query allow_protected (earliest_ui_event_cursor source_is_active rows) room
          (events (list_ui_events_after source_is_active (replay_query query) rows)) answers

abbrev pub same_source : Option String → Option String → Bool
same_source none none = true
same_source (some a) (some b) = str_eq a b
same_source _ _ = false

-- SQL's `max`: a row without a number is passed over.
abbrev pub max_option : Option ℕ → Option ℕ → Option ℕ
max_option none b = b
max_option (some a) none = some a
max_option (some a) (some b) = some (max a b)

pub max_ui_event_source_seq : String → Option String → List UiEventRow → Option ℕ
max_ui_event_source_seq node_id source_id [] = none
max_ui_event_source_seq node_id source_id (row ∷ rows) =
    let rest = max_ui_event_source_seq node_id source_id rows in
    if str_eq row.node_id node_id && same_source row.source_id source_id
    then max_option row.source_cursor_or_seq rest
    else rest
