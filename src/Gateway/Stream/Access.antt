-- ===== src/Gateway/Stream/Access.antt =====
-- Which events a session may send (crates/gateway/src/streaming.rs).
use watt_gateway.Prelude.{
  ◌⊎◌, inl, inr, ap, String, eq_iff, ℕ, zero, suc, ◌≡◌, refl, Bool, true, false, not, ◌&&◌, ◌||◌,
  Option, none, some, List, [], ◌∷◌, All, All-append, ltb, leb, if◌then◌else◌,
}
use watt_gateway.Gateway.Contracts.{allows_public_stream}
use watt_gateway.Gateway.Contracts.Kinds.{DataKind, kind_beq}
use watt_gateway.Gateway.Stream.{
  text_matches, kind_matches, GatewayUiEvent, UiStreamQuery, event_matches_query,
  resume_rejection_reason, Reason, stream_lagged, Frame, hello, resume_rejected, event_frame,
  Received, received, lagged, closed, Session, close, send_in_room, deliver_in_room, deliver,
  matches, replay_row, replay, forward, receive, listen, or_zero, opening, resume, handle_ws,
}

module _ (query : UiStreamQuery) (allow : Bool) (earliest : Option ℕ) where
  -- An event among the frames matches the query, under the session's permission.
  abbrev IsAllowed : Frame → Type 0
  IsAllowed (event_frame event) = event_matches_query event query allow ≡ true
  IsAllowed (hello _ _ _) = Unit
  IsAllowed (resume_rejected _ _ _) = Unit

  abbrev Allowed : Session → Type 0
  Allowed s = All IsAllowed s.frames

  choose :
      (a b : Session) (is_open : Bool) → Allowed a → Allowed b → Allowed (if is_open then a else b)
  choose a b true first second = first
  choose a b false first second = second

  delivered :
      (room : ℕ) (event : GatewayUiEvent) (s : Session)
      → Allowed s
      → event_matches_query event query allow ≡ true
      → Allowed (deliver_in_room room event s)
  delivered zero event s h matched = h
  delivered (suc room) event s h matched =
      All-append IsAllowed s.frames (event_frame event ∷ []) h (matched, tt)

  rejected :
      (room : ℕ) (reason : Reason) (cursor : ℕ) (s : Session)
      → Allowed s
      → Allowed (close (send_in_room room (resume_rejected reason cursor earliest) s))
  rejected zero reason cursor s h = h
  rejected (suc room) reason cursor s h =
      All-append IsAllowed s.frames (resume_rejected reason cursor earliest ∷ []) h (tt, tt)

  -- A delivery under a test that implies the match.
  delivered_if :
      (test matched : Bool) (event : GatewayUiEvent) (s : Session)
      → Allowed s
      → event_matches_query event query allow ≡ matched
      → Allowed (if test || not matched then s else deliver event s)
  unfolding deliver
  delivered_if true matched event s h is = h
  delivered_if false false event s h is = h
  delivered_if false true event s h is = delivered s.room event s h is

  replayed_row :
      (row : Option GatewayUiEvent) (s : Session)
      → Allowed s
      → Allowed (replay_row query allow earliest row s)
  unfolding replay_row
  replayed_row none s h = h
  replayed_row (some event) s h = by_match (matches query allow earliest event) refl
    where
      by_match :
          (matched : Bool)
          → event_matches_query event query allow ≡ matched
          → Allowed (if matched then deliver event s else s)
      by_match true is = delivered_if false true event s h is
      by_match false is = h

  replayed :
      (rows : List (Option GatewayUiEvent)) (s : Session)
      → Allowed s
      → Allowed (replay query allow earliest rows s)
  unfolding replay
  replayed [] s h = h
  replayed (row ∷ rows) s h =
      let next = replayed_row row s h in
      choose (replay query allow earliest rows (replay_row query allow earliest row s))
        (replay_row query allow earliest row s) _
        (replayed rows (replay_row query allow earliest row s) next) next

  received_allowed :
      (answer : Received) (s : Session)
      → Allowed s
      → Allowed (receive query allow earliest answer s)
  unfolding receive forward
  received_allowed (received event) s h =
      delivered_if (ltb 0 event.cursor && leb event.cursor s.last_sent_cursor) _ event s h refl
  received_allowed lagged s h = rejected s.room stream_lagged s.last_sent_cursor s h
  received_allowed closed s h = h

  listened :
      (answers : List Received) (s : Session)
      → Allowed s
      → Allowed (listen query allow earliest answers s)
  unfolding listen
  listened [] s h = h
  listened (answer ∷ answers) s h =
      let next = received_allowed answer s h in
      choose (listen query allow earliest answers (receive query allow earliest answer s))
        (receive query allow earliest answer s) _
        (listened answers (receive query allow earliest answer s) next) next

  resumed :
      (reason : Option Reason) (rows : List (Option GatewayUiEvent)) (answers : List Received)
      (s : Session)
      → Allowed s
      → Allowed (resume query allow earliest reason rows answers s)
  unfolding resume
  resumed (some reason) rows answers s h =
      rejected s.room reason (or_zero query allow earliest query.cursor) s h
  resumed none rows answers s h =
      let next = replayed rows s h in
      choose (listen query allow earliest answers (replay query allow earliest rows s))
        (replay query allow earliest rows s) _
        (listened answers (replay query allow earliest rows s) next) next

  session_matches :
      (room : ℕ) (rows : List (Option GatewayUiEvent)) (answers : List Received)
      → All IsAllowed (handle_ws query allow earliest room rows answers).frames
  unfolding handle_ws
  session_matches zero rows answers = tt
  session_matches (suc room) rows answers =
      resumed (resume_rejection_reason query.cursor earliest) rows answers
        (opening query allow earliest (suc room)) (tt, tt)

-- A filter that is set is met by the event's own text.
abbrev pub Agrees : Option String → Option String → Type 0
Agrees none found = Unit
Agrees (some expected) found = found ≡ some expected

abbrev pub KindAgrees : Option DataKind → DataKind → Type 0
KindAgrees none kind = Unit
KindAgrees (some expected) kind = kind_beq expected kind ≡ true

-- Each event among the frames is public on the stream or the client is trusted, and it meets each
-- filter of the query.
abbrev pub IsFor : UiStreamQuery → Bool → Frame → Type 0
IsFor query allow (event_frame event) =
    ((allow ≡ true) ⊎ (allows_public_stream event.data_kind ≡ true))
    × KindAgrees query.data_kind event.data_kind
    × Agrees query.node_id (some event.node_id)
    × Agrees query.topic_id event.scope.topic_id
    × Agrees query.organization_id event.scope.organization_id
    × Agrees query.task_id event.scope.task_id
IsFor query allow (hello _ _ _) = Unit
IsFor query allow (resume_rejected _ _ _) = Unit

both_true : (a b : Bool) → (a && b) ≡ true → (a ≡ true) × (b ≡ true)
both_true true b h = (refl, h)
both_true false b h = cc

one_true : (a b : Bool) → (a || b) ≡ true → (a ≡ true) ⊎ (b ≡ true)
one_true true b h = inl refl
one_true false b h = inr h

text-Agrees :
    (expected found : Option String) → text_matches expected found ≡ true → Agrees expected found
text-Agrees none found h = tt
text-Agrees (some expected) none h = cc
text-Agrees (some expected) (some found) h = ap some ((eq_iff found expected).0 h)

kind-KindAgrees :
    (expected : Option DataKind) (kind : DataKind)
    → kind_matches expected kind ≡ true
    → KindAgrees expected kind
kind-KindAgrees none kind h = tt
kind-KindAgrees (some expected) kind h = h

allowed-IsFor :
    (query : UiStreamQuery) (allow : Bool) (event : GatewayUiEvent)
    → event_matches_query event query allow ≡ true
    → IsFor query allow (event_frame event)
unfolding event_matches_query
allowed-IsFor query allow event h =
    let (five, task) = both_true _ (text_matches query.task_id event.scope.task_id) h in
    let (four, organization) =
      both_true _ (text_matches query.organization_id event.scope.organization_id) five in
    let (three, topic) = both_true _ (text_matches query.topic_id event.scope.topic_id) four in
    let (two, node) = both_true _ (text_matches query.node_id (some event.node_id)) three in
    let (one, kind) = both_true _ (kind_matches query.data_kind event.data_kind) two in
    (
      one_true allow (allows_public_stream event.data_kind) one,
      kind-KindAgrees query.data_kind event.data_kind kind,
      text-Agrees query.node_id (some event.node_id) node,
      text-Agrees query.topic_id event.scope.topic_id topic,
      text-Agrees query.organization_id event.scope.organization_id organization,
      text-Agrees query.task_id event.scope.task_id task,
    )

All-IsFor :
    (query : UiStreamQuery) (allow : Bool) (earliest : Option ℕ) (frames : List Frame)
    → All (IsAllowed query allow earliest) frames
    → All (IsFor query allow) frames
All-IsFor query allow earliest [] h = tt
All-IsFor query allow earliest (event_frame event ∷ frames) (here, there) =
    (allowed-IsFor query allow event here, All-IsFor query allow earliest frames there)
All-IsFor query allow earliest (hello _ _ _ ∷ frames) (here, there) =
    (tt, All-IsFor query allow earliest frames there)
All-IsFor query allow earliest (resume_rejected _ _ _ ∷ frames) (here, there) =
    (tt, All-IsFor query allow earliest frames there)

-- Each event of a session is of a kind that is public on the stream, or the client has the admin
-- token; and it meets each filter that the client's query sets: the kind, the node, the topic, the
-- organization and the task. So it is whatever the replay returns and the channel delivers.
pub session_is_allowed :
    (query : UiStreamQuery) (allow : Bool) (earliest : Option ℕ) (room : ℕ)
    (rows : List (Option GatewayUiEvent)) (answers : List Received)
    → All (IsFor query allow) (handle_ws query allow earliest room rows answers).frames
session_is_allowed query allow earliest room rows answers =
    All-IsFor query allow earliest _ (session_matches query allow earliest room rows answers)
