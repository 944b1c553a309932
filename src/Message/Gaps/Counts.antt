-- ===== src/Message/Gaps/Counts.antt =====
-- What a recorded gap leaves in the table (crates/message-gateway/src/gaps.rs).
use watt_gateway.Prelude.{
  ℕ, suc, ◌+◌, ◌/◌, ◌≤◌, String, ◌≡◌, refl, false, Option, none, some, List, [], ◌∷◌, All, arith,
  inl, inr, Bool-cases, if◌then◌else◌, string_eq, pair_eq, lookup, insert, lookup-insert,
  lookup-insert_self, ok, >>=-eq-ok, or_bail,
}
use watt_gateway.Message.Bucket.{DeliveryClass}
use watt_gateway.Message.Gaps.{
  GapLibraries, GapTable, GapRow, GapKey, MailboxGapReason, record_gap, compressed_gap_id, upserted,
  first_row, or_now, is_open, MailboxGap, contains_id, load_for_page,
}
use watt_gateway.Message.Gaps.Delivery.{ids_of, closed_is_in_no_page}

-- The number of drops that the table tells of.
pub total_count : {Json : Type 0} → GapTable Json → ℕ
total_count [] = 0
total_count ((key, row) ∷ t) = row.approximate_count + total_count t

abbrev count_of : {Json : Type 0} → Option (GapRow Json) → ℕ
count_of none = 0
count_of (some row) = row.approximate_count

total-insert :
    {Json : Type 0} (key : GapKey) (row : GapRow Json) (t : GapTable Json)
    → total_count (insert key row t) + count_of (lookup key t)
      ≡ total_count t + row.approximate_count
unfolding total_count insert lookup
total-insert key row [] = omega arith
total-insert key row ((k, r) ∷ t) = ground (arith, total-insert key row t)

-- Every row under the key is still acknowledged after the row is written again.
closed_rows :
    {Json : Type 0} (network_id principal_id id : String) (done : ℕ) (row new : GapRow Json)
    → row.acknowledged_at ≡ some done
    → new.acknowledged_at ≡ some done
    → (t : GapTable Json) → All (λ x. x.0 ≡ (network_id, (principal_id, id)) → x.1 ≡ row) t
    → All
        (λ x. x.0 ≡ (network_id, (principal_id, id)) → is_open x.1.acknowledged_at ≡ false)
        (insert (network_id, (principal_id, id)) new t)
unfolding insert
closed_rows {Json = Json} n p id done row new a b [] h = ((λ e. rw b refl), tt)
closed_rows {Json = Json} n p id done row new a b ((key, r) ∷ t) (first, rest) =
    elim (Bool-cases (pair_eq.beq key (n, (p, id)))) [
      | inl e ↦ rw e ((λ k. rw b refl), still_closed t rest)
      | inr e ↦ rw e ((λ k. rw (first k, a) refl), closed_rows n p id done row new a b t rest)
    ]
  where
    still_closed :
        (t : GapTable Json)
        → All (λ x. x.0 ≡ (n, (p, id)) → x.1 ≡ row) t
        → All (λ x. x.0 ≡ (n, (p, id)) → is_open x.1.acknowledged_at ≡ false) t
    still_closed [] h = tt
    still_closed (x ∷ t) (first, rest) = ((λ k. rw (first k, a) refl), still_closed t rest)

module _ {R Json : Type 0} (lib : GapLibraries R Json) (now : ℕ) (network_id principal_id : String)
    (class : DeliveryClass) (policy_version : ℕ) (route : R) (reason : MailboxGapReason)
    (affected_at_ms : ℕ) (t t' : GapTable Json) (id : String)
    (h : record_gap lib now network_id principal_id class policy_version route reason affected_at_ms
        t
      ≡ ok (t', id)) where
  abbrev key : GapKey
  key = (network_id, (principal_id, id))

  record_inversion :
      (json : Json) × (lib.to_value route ≡ some json)
      × (compressed_gap_id lib network_id principal_id class policy_version route reason
            (affected_at_ms / 3600000)
          ≡ ok id)
      × (t'
          ≡ insert key
              (upserted lib (lookup key t) (
                first_row lib class policy_version json reason
                  (or_now (lib.timestamp affected_at_ms) now)))
              t)
  unfolding record_gap
  record_inversion =
      let (i, a, h1) =
        >>=-eq-ok
          (compressed_gap_id lib network_id principal_id class policy_version route reason
            (affected_at_ms / 3600000))
          _ h in
      let (json, b, h2) = >>=-eq-ok (or_bail (lib.to_value route) _) _ h1 in
      let same : i ≡ id = ground arith in
      (json, ground arith, rw same at a, rw (← same) (ground arith))

  -- A recorded gap adds one to the number of drops that the table tells of, in the row of its gap,
  -- whose last time is then not before the drop. No other row changes.
  pub record_counts :
      (other : GapKey)
      → (total_count t' ≡ suc (total_count t))
        × ((row : GapRow Json) × (lookup other t'
              ≡ (if pair_eq.beq key other then some row else lookup other t))
            × (row.approximate_count ≡ suc (count_of (lookup key t)))
            × (or_now (lib.timestamp affected_at_ms) now ≤ row.last_affected_at))
  record_counts other =
      let (json, _, _, e) = record_inversion in
      let row = upserted lib (lookup key t) (
        first_row lib class policy_version json reason
          (or_now (lib.timestamp affected_at_ms) now)) in
      let (counted, late) =
        upserted_counts (lookup key t)
          (first_row lib class policy_version json reason
            (or_now (lib.timestamp affected_at_ms) now))
          refl in
      (
        rw e (omega (arith, total-insert key row t, counted)),
        (row, rw e (lookup-insert key other row t), counted, late),
      )
    where
      upserted_counts :
          (old : Option (GapRow Json)) (new : GapRow Json)
          → new.approximate_count ≡ 1
          → ((upserted lib old new).approximate_count ≡ suc (count_of old))
            × (new.last_affected_at ≤ (upserted lib old new).last_affected_at)
      upserted_counts none new e = (omega arith, omega arith)
      upserted_counts (some row) new e = (omega arith, omega arith)

  -- A drop that is recorded in the row of a gap that the mailbox has acknowledged, the one row of its
  -- key, leaves that row acknowledged: the drop is counted, but no page that is loaded from the table
  -- then has the gap, whatever the page's name, its limits and the time of the load.
  pub late_gap_is_lost :
      (row : GapRow Json) (done : ℕ) (page : String) (limit redelivery later : ℕ)
      (gaps : List (MailboxGap R))
      → lookup key t ≡ some row
      → row.acknowledged_at ≡ some done
      → All (λ x. x.0 ≡ key → x.1 ≡ row) t
      → (load_for_page lib network_id principal_id class page limit redelivery later t').1 ≡ ok gaps
      → ((row' : GapRow Json) × (lookup key t' ≡ some row')
          × (row'.approximate_count ≡ suc row.approximate_count)
          × (row'.acknowledged_at ≡ some done))
        × (contains_id id (ids_of gaps) ≡ false)
  late_gap_is_lost row done page limit redelivery later gaps found closed only loaded =
      let (json, _, _, e) = record_inversion in
      let new =
        first_row lib class policy_version json reason
          (or_now (lib.timestamp affected_at_ms) now) in
      let stored : t' ≡ insert key (upserted lib (some row) new) t = rw found at e in
      (
        (upserted lib (some row) new, rw stored (lookup-insert_self key _ t), omega arith, closed),
        closed_is_in_no_page lib network_id principal_id class id page limit redelivery later t'
            gaps
            (rw stored (closed_rows network_id principal_id id done row _ closed closed t only))
            loaded,
      )
