-- ===== src/Gateway/Stream.antt =====
-- The event stream of crates/gateway/src/streaming.rs: its filter, its cursors and a session of a
-- client, with the queries of crates/gateway/src/db.rs that it makes. The channel's answers are a
-- list, and a socket takes some number of frames before it fails. A cursor is positive in the
-- table, so a request below 0 is a request of 0.
pub mod Order
pub mod Access
pub mod Cache
mod Tests
use watt_gateway.Prelude.{
  ℕ, zero, suc, ◌+◌, String, Bool, true, false, not, ◌&&◌, ◌||◌, Option, none, some, List, [], ◌∷◌,
  ◌++◌, ltb, leb, ◌==◌, str_eq, if◌then◌else◌, max, filter_by,
}
use watt_gateway.Gateway.Json.{Value}
use watt_gateway.Gateway.Contracts.{allows_public_stream}
use watt_gateway.Gateway.Contracts.Kinds.{DataKind, Visibility, kind_beq}

-- `EventScope` of wattetheria_gateway_contract.
pub record EventScope : Type 0 where
  pub node_id : Option String
  pub topic_id : Option String
  pub organization_id : Option String
  pub task_id : Option String

pub record GatewayUiEvent : Type 0 where
  pub cursor : ℕ
  pub event_id : String
  pub node_id : String
  pub data_kind : DataKind
  pub event_kind : String
  pub visibility : Visibility
  pub provisional : Bool
  pub scope : EventScope
  pub generated_at : ℕ
  pub payload : Value

pub record UiStreamQuery : Type 0 where
  pub token : Option String
  pub cursor : Option ℕ
  pub limit : Option ℕ
  pub data_kind : Option DataKind
  pub node_id : Option String
  pub topic_id : Option String
  pub organization_id : Option String
  pub task_id : Option String

-- `is_some_and(|expected| found != Some(expected))`, negated
abbrev pub text_matches : Option String → Option String → Bool
text_matches none found = true
text_matches (some expected) none = false
text_matches (some expected) (some found) = str_eq found expected

abbrev pub kind_matches : Option DataKind → DataKind → Bool
kind_matches none kind = true
kind_matches (some expected) kind = kind_beq expected kind

pub event_matches_query : GatewayUiEvent → UiStreamQuery → Bool → Bool
event_matches_query event query allow_protected =
    (allow_protected || allows_public_stream event.data_kind)
    && kind_matches query.data_kind event.data_kind
    && text_matches query.node_id (some event.node_id)
    && text_matches query.topic_id event.scope.topic_id
    && text_matches query.organization_id event.scope.organization_id
    && text_matches query.task_id event.scope.task_id

pub advance_last_sent_cursor : ℕ → ℕ → Bool → ℕ
advance_last_sent_cursor last cursor sent = if sent && ltb 0 cursor then max last cursor else last

pub data Reason : Type 0 where
  cursor_aged_out stream_lagged : Reason

pub resume_rejection_reason : Option ℕ → Option ℕ → Option Reason
resume_rejection_reason (some requested) (some earliest) =
    if ltb 0 requested && ltb requested earliest then some cursor_aged_out else none
resume_rejection_reason _ _ = none

-- The frames of a session.
pub data Frame : Type 0 where
  hello : ℕ → Option ℕ → Bool → Frame
  resume_rejected : Reason → ℕ → Option ℕ → Frame
  event_frame : GatewayUiEvent → Frame

-- What the channel answers.
pub data Received : Type 0 where
  received : GatewayUiEvent → Received
  lagged closed : Received

-- A session: what was sent, the last cursor, how many frames the socket still takes, and whether
-- the session goes on.
pub record Session : Type 0 where
  pub frames : List Frame
  pub last_sent_cursor : ℕ
  pub room : ℕ
  pub is_open : Bool

abbrev pub close : Session → Session
close s = record s { is_open = false }

abbrev pub send_in_room : ℕ → Frame → Session → Session
send_in_room zero frame s = close s
send_in_room (suc room) frame s = record s { frames = s.frames ++ frame ∷ []; room = room }

abbrev pub send : Frame → Session → Session
send frame s = send_in_room s.room frame s

-- A frame that ends the session, whether the socket takes it or not.
abbrev pub send_and_close : Frame → Session → Session
send_and_close frame s = close (send frame s)

-- An event that is sent advances the cursor; one that the socket refuses ends the session.
abbrev pub deliver_in_room : ℕ → GatewayUiEvent → Session → Session
deliver_in_room zero event s = close s
deliver_in_room (suc room) event s = record s {
  frames = s.frames ++ event_frame event ∷ [];
  room = room;
  last_sent_cursor = advance_last_sent_cursor s.last_sent_cursor event.cursor true;
}

pub deliver : GatewayUiEvent → Session → Session
deliver event s = deliver_in_room s.room event s

module _ (query : UiStreamQuery) (allow_protected : Bool) (earliest : Option ℕ) where
  abbrev pub matches : GatewayUiEvent → Bool
  matches event = event_matches_query event query allow_protected

  -- A replayed row: `none` is a row that `GatewayUiEvent::try_from` refuses.
  pub replay_row : Option GatewayUiEvent → Session → Session
  replay_row none s = s
  replay_row (some event) s = if matches event then deliver event s else s

  pub replay : List (Option GatewayUiEvent) → Session → Session
  replay [] s = s
  replay (row ∷ rows) s =
      let next = replay_row row s in
      let rest = replay rows next in if next.is_open then rest else next

  pub forward : GatewayUiEvent → Session → Session
  forward event s =
      if (ltb 0 event.cursor && leb event.cursor s.last_sent_cursor) || not (matches event)
      then s
      else deliver event s

  pub receive : Received → Session → Session
  receive (received event) s = forward event s
  receive lagged s = send_and_close (resume_rejected stream_lagged s.last_sent_cursor earliest) s
  receive closed s = close s

  pub listen : List Received → Session → Session
  listen [] s = s
  listen (answer ∷ answers) s =
      let next = receive answer s in
      let rest = listen answers next in if next.is_open then rest else next

  abbrev pub or_zero : Option ℕ → ℕ
  or_zero none = 0
  or_zero (some n) = n

  abbrev pub opening : ℕ → Session
  opening room =
      send (hello (or_zero query.cursor) earliest allow_protected) (record {
        frames = [];
        last_sent_cursor = or_zero query.cursor;
        room = room;
        is_open = true;
      })

  pub resume : Option Reason → List (Option GatewayUiEvent) → List Received → Session → Session
  resume (some reason) rows answers s =
      send_and_close (resume_rejected reason (or_zero query.cursor) earliest) s
  resume none rows answers s =
      let replayed = replay rows s in if replayed.is_open then listen answers replayed else replayed

  -- `handle_ws`, where `rows` is what the replay query returns, no row where it fails.
  pub handle_ws : ℕ → List (Option GatewayUiEvent) → List Received → Session
  handle_ws room rows answers =
      if (opening room).is_open
      then resume (resume_rejection_reason query.cursor earliest) rows answers (opening room)
      else opening room
