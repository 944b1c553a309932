-- ===== src/Gateway/Stream/Tests.antt =====
-- A session that resumes at a cursor, and the cache of published events, at small inputs.
use watt_gateway.Prelude.{
  ℕ, ◌≡◌, refl, Bool, true, false, ◌||◌, Option, none, some, List, [], ◌∷◌, All, arith,
}
use watt_gateway.Gateway.Json.{null}
use watt_gateway.Gateway.Contracts.Kinds.{DataKind, task_round_update, dm_message, public_data}
use watt_gateway.Gateway.Stream.{
  GatewayUiEvent, UiStreamQuery, hello, resume_rejected, event_frame, Received, received, lagged,
  stream_lagged, handle_ws, resume, replay, replay_row, listen, receive, forward, deliver,
  advance_last_sent_cursor, resume_rejection_reason, event_matches_query,
}
use watt_gateway.Gateway.Stream.Order.{event_cursors, IsIncreasing, session_is_in_order}
use watt_gateway.Gateway.Stream.Access.{IsFor, session_is_allowed}
use watt_gateway.Gateway.Stream.Cache.{PublishedEventCache, remember}
use watt_gateway.Gateway.Stream.Cache.Refines.{Represents, remember_refines}

abbrev event_of : DataKind → ℕ → GatewayUiEvent
event_of kind cursor = record {
  cursor = cursor;
  event_id = "event";
  node_id = "node";
  data_kind = kind;
  event_kind = "task.round.updated";
  visibility = public_data;
  provisional = false;
  scope = record { node_id = none; topic_id = none; organization_id = none; task_id = none };
  generated_at = 1;
  payload = null;
}

abbrev query : UiStreamQuery
query = record {
  token = none;
  cursor = some 4;
  limit = none;
  data_kind = none;
  node_id = none;
  topic_id = none;
  organization_id = none;
  task_id = none;
}

-- The replay has one protected event; the channel repeats a row, and then lags.
abbrev rows : List (Option GatewayUiEvent)
rows =
    some (event_of task_round_update 5)
    ∷ none
    ∷ some (event_of dm_message 6)
    ∷ some (event_of task_round_update 7)
    ∷ []

abbrev answers : List Received
answers =
    received (event_of task_round_update 7)
    ∷ received (event_of task_round_update 0)
    ∷ received (event_of task_round_update 9)
    ∷ received (event_of task_round_update 8)
    ∷ lagged
    ∷ received (event_of task_round_update 10)
    ∷ []

-- A repeated row is not sent twice.
frames_are :
    (handle_ws query true none 9
      (some (event_of task_round_update 5) ∷ [])
      (received (event_of task_round_update 5) ∷ lagged ∷ [])).frames
    ≡ hello 4 none true
      ∷ event_frame (event_of task_round_update 5)
      ∷ resume_rejected stream_lagged 5 none
      ∷ []
unfolding handle_ws resume replay replay_row listen receive forward deliver advance_last_sent_cursor
    resume_rejection_reason event_matches_query
frames_are = refl

session_is_in_order_run :
    IsIncreasing 4 (event_cursors (handle_ws query false (some 1) 100 rows answers).frames)
session_is_in_order_run =
    session_is_in_order query false (some 1) 100 rows answers
      (omega arith, (omega arith, (omega arith, tt)))

session_is_allowed_example :
    All (IsFor query false) (handle_ws query false (some 1) 100 rows answers).frames
session_is_allowed_example = session_is_allowed query false (some 1) 100 rows answers

-- A full cache of two.
abbrev full : PublishedEventCache
full = record { event_ids = "b" ∷ "a" ∷ []; order = "a" ∷ "b" ∷ [] }

swap : (a b : Bool) → (b || (a || false)) ≡ (a || (b || false))
swap true true = refl
swap true false = refl
swap false true = refl
swap false false = refl

remember_refines_example :
    ((remember 2 "c" full).1 ≡ true) × Represents 2 (remember 2 "c" full).0 ("b" ∷ "c" ∷ [])
remember_refines_example =
    remember_refines 2 "c" ("b" ∷ "a" ∷ []) ("a" ∷ "b" ∷ [])
      (refl, λ id. ground arith, (refl, (refl, tt)), omega arith)
