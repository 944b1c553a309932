-- ===== src/Gateway/Space/Persist/Atomic.antt =====
-- A space event is stored in all its tables or in none (crates/gateway/src/space.rs).
use watt_gateway.Prelude.{
  ◌≡◌, ◌⊎◌, inl, inr, refl, sym, ap, ◌∙◌, String, Bool, true, false, Option, none, some, [], ◌∷◌,
  ◌++◌, Result, err, ok, Bool-cases, lookup, lookup-insert, lookup-insert_self, string_eq, pair_eq,
}
use watt_gateway.Gateway.Json.{Value}
use watt_gateway.Gateway.Contracts.Kinds.{DataKind, space_presence, world_event, kind_beq}
use watt_gateway.Gateway.UiEvents.{
  UiEventRow, OutboxRecord, EventStore, has_dedupe_key, get_ui_event_by_id, insert_outbox,
  with_cursor,
}
use watt_gateway.Gateway.UiEvents.Once.{outbox-events, outbox-has, outbox-silent}
use watt_gateway.Gateway.NodeEvent.{SignedNodeEvent}
use watt_gateway.Gateway.Space.{
  SignedSpacePresence, WorldEvent, PresenceRow, PresenceKey, WorldEventRow, presence_key,
  presence_row, is_newer, upsert_presence, world_row, is_free, insert_world_event,
}
use watt_gateway.Gateway.Space.Persist.{
  SpaceStore, PersistError, skip_cursor, with_presence, with_world, accept, finish, persist_event,
  event_row, insert_event, announced,
}

module _ (presence_from : Value → Option SignedSpacePresence)
    (world_from : Value → Option (WorldEvent × String × String)) (kind_text : DataKind → String)
    (outbox_record : SignedNodeEvent → OutboxRecord) (event : SignedNodeEvent)
    (source_id : Option String) (announce_p2p : Bool) where
  -- The row of the presence is written under its network, space and agent, and no other.
  abbrev pub HasPresence : SignedSpacePresence → SpaceStore → SpaceStore → Type 0
  HasPresence p before after =
      ((row : PresenceRow) × (lookup (p.network_id, (p.space_id, p.agent_did)) after.space_presence
          ≡ some row)
        × (row.seq ≡ p.seq)
        × (row.source_node_id ≡ event.node_id)
        × (row.source_id ≡ source_id)
        × (row.payload ≡ p))
      × ((key : PresenceKey)
          → pair_eq.beq (p.network_id, (p.space_id, p.agent_did)) key ≡ false
          → lookup key after.space_presence ≡ lookup key before.space_presence)
      × (after.space_events ≡ before.space_events)

  -- The row of the world event is written under its network and announcement, and no other.
  abbrev pub HasWorldEvent : WorldEvent → String × String → SpaceStore → SpaceStore → Type 0
  HasWorldEvent world key before after =
      ((row : WorldEventRow) × (lookup key after.space_events ≡ some row)
        × (row.space_id ≡ world.space_id)
        × (row.place_id ≡ world.place_id)
        × (row.source_node_id ≡ event.node_id)
        × (row.source_id ≡ source_id)
        × (row.payload ≡ event.payload))
      × ((other : String × String)
          → pair_eq.beq key other ≡ false
          → lookup other after.space_events ≡ lookup other before.space_events)
      × (after.space_presence ≡ before.space_presence)

  -- The record of the event's kind is stored.
  abbrev pub IsRecorded : SpaceStore → SpaceStore → Type 0
  IsRecorded before after =
      ((kind_beq event.data_kind space_presence ≡ true)
        × ((p : SignedSpacePresence) × (presence_from event.payload ≡ some p)
            × HasPresence p before after))
      ⊎ ((kind_beq event.data_kind world_event ≡ true)
          × ((world : WorldEvent) × (network_id announcement_id : String) × (world_from
                  event.payload
                ≡ some (world, network_id, announcement_id))
              × HasWorldEvent world (network_id, announcement_id) before after))

  -- The outbox has a row of the event where it is to be announced, and is as before where not.
  abbrev pub IsAnnounced : Bool → EventStore → EventStore → Type 0
  IsAnnounced true before after =
      has_dedupe_key (outbox_record event).dedupe_key after.outbox ≡ true
  IsAnnounced false before after = after.outbox ≡ before.outbox

  -- With a row, the event was not stored before, the row is the last one now, its record is stored,
  -- and the outbox has it to announce. Without, the tables are those before, and at most a cursor is
  -- spent.
  abbrev pub IsOutcome : SpaceStore → SpaceStore → Result PersistError (Option UiEventRow) → Type 0
  IsOutcome before after (ok (some row)) =
      (get_ui_event_by_id event.event_id before.events.ui_events ≡ none)
      × (after.events.ui_events ≡ before.events.ui_events ++ row ∷ [])
      × (row.event_id ≡ event.event_id)
      × (row.cursor ≡ before.events.next_cursor)
      × IsRecorded before after
      × IsAnnounced announce_p2p before.events after.events
  IsOutcome before after (ok none) = (after ≡ before) ⊎ (after ≡ skip_cursor before)
  IsOutcome before after (err e) = after ≡ before

  -- A record's upsert leaves the stored events, and stores the record that it accepts.
  abbrev Accepts : SpaceStore → Result PersistError (SpaceStore × Bool) → Type 0
  Accepts before (err e) = Unit
  Accepts before (ok (st, false)) = Unit
  Accepts before (ok (st, true)) = (st.events ≡ before.events) × IsRecorded before st

  of_presence :
      (p : Option SignedSpacePresence) (st : SpaceStore)
      → kind_beq event.data_kind space_presence ≡ true
      → presence_from event.payload ≡ p
      → Accepts st (
          with_presence presence_from world_from kind_text outbox_record p event.node_id source_id
            st)
  unfolding upsert_presence
  of_presence none st kind read = tt
  of_presence (some p) st kind read =
      elim (Bool-cases (is_newer (lookup (presence_key p) st.space_presence) p.seq)) [
        | inr old ↦ rw old tt
        | inl newer ↦ rw newer (
          refl,
          inl (
            kind,
            (
              p,
              read,
              (
                (
                  presence_row p event.node_id source_id,
                  lookup-insert_self (presence_key p) _ st.space_presence,
                  refl,
                  refl,
                  refl,
                  refl,
                ),
                (λ key other.
                    rw (lookup-insert (presence_key p) key _ st.space_presence, other) refl),
                refl,
              ),
            ),
          ),
        )
      ]

  of_world :
      (w : Option (WorldEvent × String × String)) (st : SpaceStore)
      → kind_beq event.data_kind world_event ≡ true
      → world_from event.payload ≡ w
      → Accepts st (
          with_world presence_from world_from kind_text outbox_record w event.payload event.node_id
            source_id st)
  unfolding insert_world_event
  of_world none st kind read = tt
  of_world (some (world, network_id, announcement_id)) st kind read =
      elim (Bool-cases (is_free (lookup (network_id, announcement_id) st.space_events))) [
        | inr taken ↦ rw taken tt
        | inl free ↦ rw free (
          refl,
          inr (
            kind,
            (
              world,
              network_id,
              announcement_id,
              read,
              (
                (
                  world_row world event.payload event.node_id source_id,
                  lookup-insert_self (network_id, announcement_id) _ st.space_events,
                  refl,
                  refl,
                  refl,
                  refl,
                  refl,
                ),
                (λ key other.
                    rw (lookup-insert (network_id, announcement_id) key _ st.space_events, other)
                      refl),
                refl,
              ),
            ),
          ),
        )
      ]

  accept-Accepts :
      (st : SpaceStore)
      → Accepts st (
          accept presence_from world_from kind_text outbox_record event.data_kind event source_id
            st)
  unfolding accept
  accept-Accepts st = elim (Bool-cases (kind_beq event.data_kind space_presence)) [
    | inl e ↦ rw e (of_presence (presence_from event.payload) st e refl)
    | inr e ↦ rw e (elim (Bool-cases (kind_beq event.data_kind world_event)) [
      | inl w ↦ rw w (of_world (world_from event.payload) st w refl)
      | inr w ↦ rw w tt
    ])
  ]

  announced-IsAnnounced :
      (announce : Bool) (before events : EventStore)
      → events.outbox ≡ before.outbox
      → IsAnnounced announce before (
          insert_outbox
            (announced presence_from world_from kind_text outbox_record announce event)
            events)
  announced-IsAnnounced true before events same = outbox-has (outbox_record event) events
  announced-IsAnnounced false before events same = outbox-silent events ∙ same

  finished :
      (record_result : Result PersistError (SpaceStore × Bool)) (before : SpaceStore)
      → Accepts before record_result
      → let ran =
          finish presence_from world_from kind_text outbox_record record_result event source_id
            announce_p2p before in
        IsOutcome before ran.0 ran.1
  finished (err e) before accepts = refl
  finished (ok (st, false)) before accepts = inl refl
  finished (ok (st, true)) before (keeps, recorded) =
      by_present (get_ui_event_by_id event.event_id st.events.ui_events) (
        ap (λ (events : EventStore). get_ui_event_by_id event.event_id events.ui_events)
          (sym keeps))
    where
      by_present :
          (present : Option UiEventRow)
          → get_ui_event_by_id event.event_id before.events.ui_events ≡ present
          → let inserted =
              insert_event presence_from world_from kind_text outbox_record present event source_id
                announce_p2p before st in
            IsOutcome before inserted.0 (ok inserted.1)
      by_present (some there) is = inr refl
      by_present none is = (
        is,
        outbox-events _ _
            ∙ ap
                (λ (events : EventStore).
                  events.ui_events
                  ++ with_cursor st.events.next_cursor
                      (event_row presence_from world_from kind_text outbox_record event source_id)
                    ∷ [])
                keeps,
        refl,
        ap (λ (events : EventStore). events.next_cursor) keeps,
        recorded,
        announced-IsAnnounced announce_p2p before.events _
            (ap (λ (events : EventStore). events.outbox) keeps),
      )

  -- A space event is stored in whole or not at all. Where the run returns a row, no event with this
  -- identifier was stored, the row has the next cursor and is the one event that was added; the
  -- presence or the world event that the payload reads as has its row, under its key and with the
  -- event's node and the source, and no other key changed; and the outbox has a row with the event's
  -- key if it is to be announced, and is as before if not. Where the run returns none, and on each
  -- error, the tables of presences, of world events, of events, of the outbox and of the audit are
  -- those before, and at most one cursor is spent.
  pub persist_is_atomic :
      (st : SpaceStore)
      → let ran =
          persist_event presence_from world_from kind_text outbox_record event source_id
            announce_p2p st in
        IsOutcome st ran.0 ran.1
  unfolding persist_event
  persist_is_atomic st =
      finished
        (accept presence_from world_from kind_text outbox_record event.data_kind event source_id st)
        st (accept-Accepts st)
