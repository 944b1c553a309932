-- ===== src/Gateway/UiEvents/Once.antt =====
-- An event is stored once, whoever brings it (crates/gateway/src/db.rs).
use watt_gateway.Prelude.{
  ℕ, true, arith, suc, ◌≡◌, inl, inr, refl, String, Option, none, some, List, [], ◌∷◌, ◌++◌, str_eq,
  str_eq_refl, Bool-cases,
}
use watt_gateway.Gateway.Outbox.{OutboxRow}
use watt_gateway.Gateway.UiEvents.{
  UiEventRow, OutboxRecord, EventStore, get_ui_event_by_id, insert_outbox, stored_row,
  has_dedupe_key, outbox_row, insert_absent, insert_ui_event,
}

abbrev IsStored : String → List UiEventRow → Type 0
IsStored event_id rows = (row : UiEventRow) × (get_ui_event_by_id event_id rows ≡ some row)

-- A row at the end is found, unless one with its identifier stands before it.
found_last : (row : UiEventRow) (rows : List UiEventRow) → IsStored row.event_id (rows ++ row ∷ [])
unfolding get_ui_event_by_id
found_last row [] = (row, rw (str_eq_refl row.event_id) refl)
found_last row (first ∷ rows) = elim (Bool-cases (str_eq first.event_id row.event_id)) [
  | inl e ↦ (first, rw e refl)
  | inr e ↦ let (found, is) = found_last row rows in (found, rw e is)
]

pub outbox-events :
    (outbox : Option OutboxRecord) (st : EventStore)
    → (insert_outbox outbox st).ui_events ≡ st.ui_events
unfolding insert_outbox
outbox-events none st = refl
outbox-events (some r) st = refl

pub outbox-silent : (st : EventStore) → (insert_outbox none st).outbox ≡ st.outbox
unfolding insert_outbox
outbox-silent st = refl

has_last :
    (id : ℕ) (r : OutboxRecord) (rows : List OutboxRow)
    → has_dedupe_key r.dedupe_key (rows ++ outbox_row id r ∷ []) ≡ true
has_last id r [] = rw (str_eq_refl r.dedupe_key) refl
has_last id r (row ∷ rows) = rw (has_last id r rows) (ground arith)

-- The outbox has the record's key after its insert.
pub outbox-has :
    (r : OutboxRecord) (st : EventStore)
    → has_dedupe_key r.dedupe_key (insert_outbox (some r) st).outbox ≡ true
unfolding insert_outbox
outbox-has r st = elim (Bool-cases (has_dedupe_key r.dedupe_key st.outbox)) [
  | inl there ↦ rw there there
  | inr absent ↦ rw absent (has_last st.next_outbox_id r st.outbox)
]

stored :
    (row : UiEventRow) (outbox : Option OutboxRecord) (st : EventStore)
    → IsStored row.event_id (insert_ui_event row outbox st).0.ui_events
unfolding insert_ui_event insert_absent
stored row outbox st = by_present (get_ui_event_by_id row.event_id st.ui_events) refl
  where
    by_present :
        (present : Option UiEventRow)
        → get_ui_event_by_id row.event_id st.ui_events ≡ present
        → IsStored row.event_id (insert_absent present row outbox st).0.ui_events
    by_present (some there) is = (there, is)
    by_present none is =
        rw (outbox-events outbox _) (found_last (stored_row st.next_cursor row) st.ui_events)

-- An event that was brought once is stored once: when any row with its identifier comes again,
-- with whatever outbox record, no row is returned, and of the tables only the sequence of the
-- cursors moves: no event, no row of the outbox and no audit entry is added.
pub insert_is_once :
    (row again : UiEventRow) (outbox other : Option OutboxRecord) (st : EventStore)
    → again.event_id ≡ row.event_id
    → insert_ui_event again other (insert_ui_event row outbox st).0 ≡ (
      record (insert_ui_event row outbox st).0 {
        next_cursor = suc (insert_ui_event row outbox st).0.next_cursor;
      },
      none,
    )
unfolding insert_ui_event insert_absent
insert_is_once row again outbox other st same =
    let (found, is) = stored row outbox st in rw (same, is) refl
