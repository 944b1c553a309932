-- ===== src/Gateway/Stream/Order.antt =====
-- The cursors of a session's events (crates/gateway/src/streaming.rs).
use mathlib.Core.List.{append-nil}
use watt_gateway.Prelude.{
  ℕ, zero, suc, ◌<◌, ◌≤◌, ◌≡◌, ◌⊎◌, inl, inr, refl, ap, ◌∙◌, Bool, true, false, not, ◌&&◌, ◌||◌,
  Option, none, some, List, [], ◌∷◌, ◌++◌, arith, ltb, leb, if◌then◌else◌,
}
use watt_gateway.Gateway.Stream.{
  GatewayUiEvent, UiStreamQuery, advance_last_sent_cursor, resume_rejection_reason, Reason,
  stream_lagged, Frame, hello, resume_rejected, event_frame, Received, received, lagged, closed,
  Session, close, send_in_room, deliver_in_room, deliver, matches, replay_row, replay, forward,
  receive, listen, or_zero, opening, resume, handle_ws,
}

abbrev push_positive : ℕ → List ℕ → List ℕ
push_positive zero cursors = cursors
push_positive (suc c) cursors = suc c ∷ cursors

-- The cursors of the stored events among the frames: an event that is not stored has the cursor 0.
abbrev pub event_cursors : List Frame → List ℕ
event_cursors [] = []
event_cursors (event_frame event ∷ frames) = push_positive event.cursor (event_cursors frames)
event_cursors (hello _ _ _ ∷ frames) = event_cursors frames
event_cursors (resume_rejected _ _ _ ∷ frames) = event_cursors frames

-- Each is above the one before, and the first above a bound.
abbrev pub IsIncreasing : ℕ → List ℕ → Type 0
IsIncreasing bound [] = Unit
IsIncreasing bound (c ∷ cs) = (bound < c) × IsIncreasing c cs

abbrev last_of : ℕ → List ℕ → ℕ
last_of bound [] = bound
last_of bound (c ∷ cs) = last_of c cs

-- The rows of a replay come by their cursors.
abbrev pub RowsAfter : ℕ → List (Option GatewayUiEvent) → Type 0
RowsAfter bound [] = Unit
RowsAfter bound (none ∷ rows) = RowsAfter bound rows
RowsAfter bound (some event ∷ rows) = (bound < event.cursor) × RowsAfter event.cursor rows

IsIncreasing-push :
    (bound c : ℕ) (cs : List ℕ)
    → IsIncreasing bound cs
    → last_of bound cs < c
    → IsIncreasing bound (cs ++ c ∷ []) × (last_of bound (cs ++ c ∷ []) ≡ c)
IsIncreasing-push bound c [] h above = ((above, tt), refl)
IsIncreasing-push bound c (d ∷ cs) (first, rest) above =
    let (increasing, last) = IsIncreasing-push d c cs rest above in ((first, increasing), last)

push-append : (c : ℕ) (xs ys : List ℕ) → push_positive c (xs ++ ys) ≡ push_positive c xs ++ ys
push-append zero xs ys = refl
push-append (suc c) xs ys = refl

cursors-append :
    (frames : List Frame) (event : GatewayUiEvent)
    → event_cursors (frames ++ event_frame event ∷ [])
      ≡ event_cursors frames ++ push_positive event.cursor []
cursors-append [] event = refl
cursors-append (hello _ _ _ ∷ frames) event = cursors-append frames event
cursors-append (resume_rejected _ _ _ ∷ frames) event = cursors-append frames event
cursors-append (event_frame first ∷ frames) event =
    ap (push_positive first.cursor) (cursors-append frames event)
    ∙ push-append first.cursor (event_cursors frames) (push_positive event.cursor [])

-- A frame that is not an event leaves the cursors.
cursors-append_other :
    (frames : List Frame) (reason : Reason) (cursor : ℕ) (earliest : Option ℕ)
    → event_cursors (frames ++ resume_rejected reason cursor earliest ∷ []) ≡ event_cursors frames
cursors-append_other [] reason cursor earliest = refl
cursors-append_other (hello _ _ _ ∷ frames) reason cursor earliest =
    cursors-append_other frames reason cursor earliest
cursors-append_other (resume_rejected _ _ _ ∷ frames) reason cursor earliest =
    cursors-append_other frames reason cursor earliest
cursors-append_other (event_frame first ∷ frames) reason cursor earliest =
    ap (push_positive first.cursor) (cursors-append_other frames reason cursor earliest)

-- A cursor that is 0, or above all before, keeps the order.
cursor_keeps_order :
    (bound last c : ℕ) (cs : List ℕ)
    → IsIncreasing bound cs
    → last_of bound cs ≡ last
    → (c ≡ 0) ⊎ (last < c)
    → IsIncreasing bound (cs ++ push_positive c [])
      × (last_of bound (cs ++ push_positive c []) ≡ advance_last_sent_cursor last c true)
unfolding advance_last_sent_cursor
cursor_keeps_order bound last zero cs increasing last_is above =
    rw (append-nil cs) (increasing, last_is)
cursor_keeps_order bound last (suc c) cs increasing last_is (inl zero_is) =
    absurd (omega (arith, zero_is))
cursor_keeps_order bound last (suc c) cs increasing last_is (inr above) =
    let (grown, grown_last) =
      IsIncreasing-push bound (suc c) cs increasing (omega (arith, last_is, above)) in
    (grown, grown_last ∙ ground (arith, above))

module _ (bound : ℕ) where
  -- What a session has sent is in order, and its last cursor is the session's.
  abbrev InOrder : Session → Type 0
  InOrder s =
      IsIncreasing bound (event_cursors s.frames)
      × (last_of bound (event_cursors s.frames) ≡ s.last_sent_cursor)

  either :
      (a b : Session) (is_open : Bool) → InOrder a → InOrder b → InOrder (if is_open then a else b)
  either a b true here there = here
  either a b false here there = there

  delivered_in_room :
      (room : ℕ) (event : GatewayUiEvent) (s : Session)
      → InOrder s
      → (event.cursor ≡ 0) ⊎ (s.last_sent_cursor < event.cursor)
      → InOrder (deliver_in_room room event s)
  delivered_in_room zero event s h above = h
  delivered_in_room (suc room) event s (increasing, last_is) above =
      rw (cursors-append s.frames event) (
        cursor_keeps_order bound s.last_sent_cursor event.cursor (event_cursors s.frames) increasing
          last_is above)

  delivered :
      (event : GatewayUiEvent) (s : Session)
      → InOrder s
      → (event.cursor ≡ 0) ⊎ (s.last_sent_cursor < event.cursor)
      → InOrder (deliver event s)
  unfolding deliver
  delivered event s h above = delivered_in_room s.room event s h above

  closed_in_room :
      (room : ℕ) (reason : Reason) (cursor : ℕ) (earliest : Option ℕ) (s : Session)
      → InOrder s
      → InOrder (close (send_in_room room (resume_rejected reason cursor earliest) s))
  closed_in_room zero reason cursor earliest s h = h
  closed_in_room (suc room) reason cursor earliest s h =
      rw (cursors-append_other s.frames reason cursor earliest) h

  -- The cursor does not pass a bound that the event's cursor is under.
  delivered_last :
      (top : ℕ) (event : GatewayUiEvent) (s : Session)
      → s.last_sent_cursor ≤ top
      → event.cursor ≤ top
      → (deliver event s).last_sent_cursor ≤ top
  unfolding deliver advance_last_sent_cursor
  delivered_last top event s h k = by_room s.room
    where
      by_room : (room : ℕ) → (deliver_in_room room event s).last_sent_cursor ≤ top
      by_room zero = h
      by_room (suc room) = ground (arith, h, k)

  module _ (query : UiStreamQuery) (allow : Bool) (earliest : Option ℕ) where
    replayed_row :
        (top : ℕ) (event : GatewayUiEvent) (s : Session)
        → InOrder s
        → s.last_sent_cursor ≤ top
        → top < event.cursor
        → InOrder (replay_row query allow earliest (some event) s)
          × ((replay_row query allow earliest (some event) s).last_sent_cursor ≤ event.cursor)
    unfolding replay_row
    replayed_row top event s h below above = by_match (matches query allow earliest event)
      where
        by_match :
            (matched : Bool)
            → InOrder (if matched then deliver event s else s)
              × ((if matched then deliver event s else s).last_sent_cursor ≤ event.cursor)
        by_match true = (
          delivered event s h (inr (omega (arith, below, above))),
          delivered_last event.cursor event s (omega (arith, below, above)) (omega arith),
        )
        by_match false = (h, omega (arith, below, above))

    replayed :
        (top : ℕ) (rows : List (Option GatewayUiEvent)) (s : Session)
        → InOrder s
        → s.last_sent_cursor ≤ top
        → RowsAfter top rows
        → InOrder (replay query allow earliest rows s)
    unfolding replay replay_row
    replayed top [] s h below after = h
    replayed top (none ∷ rows) s h below after =
        either (replay query allow earliest rows s) s s.is_open (replayed top rows s h below after)
          h
    replayed top (some event ∷ rows) s h below (above, after) =
        let (next, next_below) = replayed_row top event s h below above in
        either (replay query allow earliest rows (replay_row query allow earliest (some event) s))
          (replay_row query allow earliest (some event) s)
          (replay_row query allow earliest (some event) s).is_open
          (replayed event.cursor rows (replay_row query allow earliest (some event) s) next
            next_below after)
          next

    forwarded :
        (event : GatewayUiEvent) (s : Session)
        → InOrder s
        → InOrder (forward query allow earliest event s)
    unfolding forward
    forwarded event s h =
        by_test (ltb 0 event.cursor && leb event.cursor s.last_sent_cursor) refl
          (matches query allow earliest event)
      where
        fresh :
            (event.cursor ≤ 0) ⊎ (s.last_sent_cursor < event.cursor)
            → (event.cursor ≡ 0) ⊎ (s.last_sent_cursor < event.cursor)
        fresh (inl below) = inl (omega arith)
        fresh (inr above) = inr above

        by_test :
            (seen : Bool)
            → (ltb 0 event.cursor && leb event.cursor s.last_sent_cursor) ≡ seen
            → (matched : Bool) → InOrder (if seen || not matched then s else deliver event s)
        by_test true is matched = h
        by_test false is false = h
        by_test false is true = delivered event s h (fresh (ground (arith, is)))

    received_in_order :
        (answer : Received) (s : Session)
        → InOrder s
        → InOrder (receive query allow earliest answer s)
    unfolding receive
    received_in_order (received event) s h = forwarded event s h
    received_in_order lagged s h =
        closed_in_room s.room stream_lagged s.last_sent_cursor earliest s h
    received_in_order closed s h = h

    listened :
        (answers : List Received) (s : Session)
        → InOrder s
        → InOrder (listen query allow earliest answers s)
    unfolding listen
    listened [] s h = h
    listened (answer ∷ answers) s h =
        let next = received_in_order answer s h in
        either (listen query allow earliest answers (receive query allow earliest answer s))
          (receive query allow earliest answer s) (receive query allow earliest answer s).is_open
          (listened answers (receive query allow earliest answer s) next) next

    resumed :
        (reason : Option Reason) (rows : List (Option GatewayUiEvent)) (answers : List Received)
        (s : Session)
        → InOrder s
        → s.last_sent_cursor ≤ bound
        → RowsAfter bound rows
        → InOrder (resume query allow earliest reason rows answers s)
    unfolding resume
    resumed (some reason) rows answers s h below after =
        closed_in_room s.room reason (or_zero query allow earliest query.cursor) earliest s h
    resumed none rows answers s h below after =
        let next = replayed bound rows s h below after in
        either (listen query allow earliest answers (replay query allow earliest rows s))
          (replay query allow earliest rows s) (replay query allow earliest rows s).is_open
          (listened answers (replay query allow earliest rows s) next) next

-- In a session the stored events come in the strict order of their cursors, all after the cursor
-- that the client asked for, so none comes twice: whatever the channel repeats or reorders, as long
-- as the replayed rows come by their cursors, after the requested one.
pub session_is_in_order :
    (query : UiStreamQuery) (allow : Bool) (earliest : Option ℕ) (room : ℕ)
    (rows : List (Option GatewayUiEvent)) (answers : List Received)
    → RowsAfter (or_zero query allow earliest query.cursor) rows
    → IsIncreasing
        (or_zero query allow earliest query.cursor)
        (event_cursors (handle_ws query allow earliest room rows answers).frames)
unfolding handle_ws
session_is_in_order query allow earliest zero rows answers after = tt
session_is_in_order query allow earliest (suc room) rows answers after =
    (resumed (or_zero query allow earliest query.cursor) query allow earliest
      (resume_rejection_reason query.cursor earliest) rows answers
      (opening query allow earliest (suc room)) (tt, refl) (omega arith) after).0
