-- ===== src/Gateway/UiEvents/Order.antt =====
-- The order of the stored events, and what a session makes of it (crates/gateway/src/db.rs,
-- crates/gateway/src/streaming.rs).
use mathlib.Core.Path.{subst}
use watt_gateway.Prelude.{
  ℕ, zero, suc, ◌<◌, ◌≤◌, ◌≡◌, ◌⊎◌, inl, inr, refl, String, Bool, true, false, ◌&&◌, Option, none,
  some, List, [], ◌∷◌, ◌++◌, arith, ltb, Bool-cases, filter_by,
}
use watt_gateway.Gateway.Contracts.Kinds.{DataKind, Visibility}
use watt_gateway.Gateway.Stream.{UiStreamQuery, Received, or_zero}
use watt_gateway.Gateway.Stream.Order.{RowsAfter, IsIncreasing, event_cursors, session_is_in_order}
use watt_gateway.Gateway.UiEvents.{
  row_limit, UiEventRow, OutboxRecord, EventStore, get_ui_event_by_id, insert_outbox, stored_row,
  insert_absent, insert_ui_event, ListUiEventsQuery, take, is_listed, list_ui_events_after,
  earliest_ui_event_cursor, event_of, try_from, events, cursor_or_zero, replay_query,
  stream_session,
}

-- The rows have rising cursors from one bound up to another.
abbrev pub IsRising : ℕ → ℕ → List UiEventRow → Type 0
IsRising bound top [] = bound ≤ top
IsRising bound top (row ∷ rows) = (bound ≤ row.cursor) × IsRising (suc row.cursor) top rows

-- The cursors are positive, rise and are under the sequence.
abbrev pub IsOrdered : EventStore → Type 0
IsOrdered st = IsRising 1 st.next_cursor st.ui_events

risen :
    (bound top : ℕ) (rows : List UiEventRow)
    → IsRising bound top rows
    → IsRising bound (suc top) rows
risen bound top [] h = omega (arith, h)
risen bound top (row ∷ rows) (first, rest) = (first, risen (suc row.cursor) top rows rest)

pushed :
    (bound top : ℕ) (rows : List UiEventRow) (row : UiEventRow)
    → IsRising bound top rows
    → IsRising bound (suc top) (rows ++ stored_row top row ∷ [])
pushed bound top [] row h = (h, omega arith)
pushed bound top (first ∷ rows) row (above, rest) =
    (above, pushed (suc first.cursor) top rows row rest)

outbox_keeps_order :
    (outbox : Option OutboxRecord) (st : EventStore)
    → IsOrdered st
    → IsOrdered (insert_outbox outbox st)
unfolding insert_outbox
outbox_keeps_order none st h = h
outbox_keeps_order (some r) st h = h

insert_keeps_order :
    (row : UiEventRow) (outbox : Option OutboxRecord) (st : EventStore)
    → IsOrdered st
    → IsOrdered (insert_ui_event row outbox st).0
unfolding insert_ui_event insert_absent
insert_keeps_order row outbox st h = by_present (get_ui_event_by_id row.event_id st.ui_events)
  where
    by_present : (present : Option UiEventRow) → IsOrdered (insert_absent present row outbox st).0
    by_present (some there) = risen 1 st.next_cursor st.ui_events h
    by_present none = outbox_keeps_order outbox _ (pushed 1 st.next_cursor st.ui_events row h)

-- The stores that inserts lead to.
pub data Reached : EventStore → Type 0 where
  empty :
      (audit : List (String × String))
      → Reached (record {
        ui_events = [];
        next_cursor = 1;
        outbox = [];
        next_outbox_id = 1;
        audit = audit;
      })
  inserted :
      (row : UiEventRow) (outbox : Option OutboxRecord) (st : EventStore)
      → Reached st
      → Reached (insert_ui_event row outbox st).0

pub reached-IsOrdered : (st : EventStore) → Reached st → IsOrdered st
reached-IsOrdered _ (empty audit) = omega arith
reached-IsOrdered _ (inserted row outbox st r) =
    insert_keeps_order row outbox st (reached-IsOrdered st r)

abbrev pub After : ℕ → List UiEventRow → Type 0
After bound [] = Unit
After bound (row ∷ rows) = (bound < row.cursor) × After row.cursor rows

weaker : (low high : ℕ) (rows : List UiEventRow) → low ≤ high → After high rows → After low rows
weaker low high [] h k = tt
weaker low high (row ∷ rows) h (above, rest) = (omega (arith, above, h), rest)

taken-After : (n bound : ℕ) (rows : List UiEventRow) → After bound rows → After bound (take n rows)
taken-After zero bound rows h = tt
taken-After (suc n) bound [] h = tt
taken-After (suc n) bound (row ∷ rows) (above, rest) = (above, taken-After n row.cursor rows rest)

first_true : (a b : Bool) → (a && b) ≡ true → a ≡ true
first_true true b h = refl
first_true false b h = h

below_of : {m n : ℕ} → ltb m n ≡ true → m < n
below_of h = ground (arith, h)

module _ (is_active : String → Bool) where
  listed_above :
      (q : ListUiEventsQuery) (row : UiEventRow) (low bound : ℕ)
      → is_listed is_active q row ≡ true
      → (low ≡ q.cursor) ⊎ (low < bound)
      → bound ≤ row.cursor
      → low < row.cursor
  unfolding is_listed
  listed_above q row low bound e (inl is) above =
      omega (arith, is, below_of (first_true (ltb q.cursor row.cursor) _ e))
  listed_above q row low bound e (inr below) above = omega (arith, below, above)

  -- The rows that a query keeps rise above its cursor.
  listed-After :
      (q : ListUiEventsQuery) (low bound top : ℕ) (rows : List UiEventRow)
      → (low ≡ q.cursor) ⊎ (low < bound)
      → IsRising bound top rows
      → After low (filter_by (is_listed is_active q) rows)
  listed-After q low bound top [] from h = tt
  listed-After q low bound top (row ∷ rows) from (above, rest) =
      elim (Bool-cases (is_listed is_active q row)) [
        | inl e ↦ rw e (
          listed_above q row low bound e from above,
          listed-After q row.cursor (suc row.cursor) top rows (inr (omega arith)) rest,
        )
        | inr e ↦ rw e (listed-After q low (suc row.cursor) top rows (further from) rest)
      ]
    where
      further : (low ≡ q.cursor) ⊎ (low < bound) → (low ≡ q.cursor) ⊎ (low < suc row.cursor)
      further (inl is) = inl is
      further (inr below) = inr (omega (arith, below, above))

  module _ (data_kind_from : String → Option DataKind)
      (visibility_from : String → Option Visibility) (kind_name : DataKind → String) where
    events-After :
        (bound low : ℕ) (rows : List UiEventRow)
        → low ≤ bound
        → After bound rows
        → RowsAfter low (events data_kind_from visibility_from rows)
    unfolding events try_from
    events-After bound low [] k h = tt
    events-After bound low (row ∷ rows) k (above, rest) =
        by_kinds (λ from below. events-After row.cursor from rows below rest)
          (data_kind_from row.data_kind) (visibility_from row.visibility)
      where
        by_kinds :
            ((from : ℕ)
              → from ≤ row.cursor
              → RowsAfter from (events data_kind_from visibility_from rows))
            → (kind : Option DataKind) (visibility : Option Visibility)
            → RowsAfter low (
                event_of data_kind_from visibility_from row kind visibility
                ∷ events data_kind_from visibility_from rows)
        by_kinds after none _ = after low (omega (arith, above, k))
        by_kinds after (some kind) none = after low (omega (arith, above, k))
        by_kinds after (some kind) (some visibility) =
            (omega (arith, above, k), after row.cursor (omega arith))

    same_cursor :
        (query : UiStreamQuery) (allow : Bool) (earliest cursor : Option ℕ)
        → or_zero query allow earliest cursor
          ≡ cursor_or_zero data_kind_from visibility_from is_active kind_name cursor
    same_cursor query allow earliest none = refl
    same_cursor query allow earliest (some n) = refl

    -- A client of a table that only inserts have filled gets the stored events in the strict order of
    -- their cursors, all after the one that it asked for: the replay of the table is in order, and
    -- what the channel repeats is passed over. The query, the sources that are active, the room of
    -- the socket and the channel's answers are any.
    pub stored_session_is_in_order :
        (query : UiStreamQuery) (allow_protected : Bool) (st : EventStore) (room : ℕ)
        (answers : List Received)
        → Reached st
        → IsIncreasing
            (cursor_or_zero data_kind_from visibility_from is_active kind_name query.cursor)
            (event_cursors
              (stream_session data_kind_from visibility_from is_active kind_name query
                allow_protected st.ui_events room answers).frames)
    unfolding stream_session list_ui_events_after replay_query
    stored_session_is_in_order query allow_protected st room answers r =
        let earliest = earliest_ui_event_cursor is_active st.ui_events in
        let q = replay_query data_kind_from visibility_from is_active kind_name query in
        let same = same_cursor query allow_protected earliest query.cursor in
        subst
          (λ cursor. IsIncreasing cursor (
            event_cursors
              (stream_session data_kind_from visibility_from is_active kind_name query
                allow_protected st.ui_events room answers).frames))
          same
          (session_is_in_order query allow_protected earliest room _ answers (
            events-After q.cursor _ _ (omega (arith, same)) (
              taken-After (row_limit q.limit) q.cursor _ (
                listed-After q q.cursor 1 st.next_cursor st.ui_events (inl refl)
                  (reached-IsOrdered st r)))))
