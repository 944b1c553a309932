-- ===== src/Message/Gaps.antt =====
-- crates/message-gateway/src/gaps.rs: the record of mailbox messages that were dropped. The table
-- `gateway_mailbox_gaps` is keyed by network, principal and gap; a time is in milliseconds, and
-- the clock is an argument. A 64-bit value that the table stores as BIGINT and the code reads back
-- keeps its bits, so it is that number here.
pub mod Counts
pub mod Delivery
mod Tests
use watt_gateway.Prelude.{
  ℕ, zero, suc, ◌+◌, ◌/◌, max, String, Bool, true, false, ◌&&◌, ◌||◌, not, Option, none, some, List,
  [], ◌∷◌, ltb, leb, ◌==◌, str_eq, if◌then◌else◌, i64_max, Eq, string_eq, pair_eq, Table, lookup,
  insert, Result, ok, err, bail_if, or_bail, ◌>>=◌, ◌>>◌,
}
use watt_gateway.Message.Bucket.{DeliveryClass, class_eq}

pub data MailboxGapReason : Type 0 where
  expired : MailboxGapReason
  delivery_limit_exceeded : MailboxGapReason
  administrative_removal : MailboxGapReason

pub data GapError : Type 0 where
  serialize_failed : GapError
  deserialize_failed : GapError
  invalid_stored_reason : GapError
  exceeds_bigint : GapError

pub reason_label : MailboxGapReason → String
reason_label expired = "expired"
reason_label delivery_limit_exceeded = "delivery_limit_exceeded"
reason_label administrative_removal = "administrative_removal"

pub parse_reason : String → Result GapError MailboxGapReason
parse_reason reason =
    if str_eq reason "expired"
    then ok expired
    else if str_eq reason "delivery_limit_exceeded"
    then ok delivery_limit_exceeded
    else if str_eq reason "administrative_removal"
    then ok administrative_removal
    else err invalid_stored_reason

-- A row of `gateway_mailbox_gaps`; `Json` is the type of a JSON column.
pub record GapRow (Json : Type 0) : Type 0 where
  pub delivery_class : DeliveryClass
  pub delivery_policy_version : ℕ
  pub route_json : Json
  pub reason : String
  pub first_affected_at : ℕ
  pub last_affected_at : ℕ
  pub approximate_count : ℕ
  pub delivery_page_id : Option String
  pub delivered_at : Option ℕ
  pub acknowledged_at : Option ℕ

abbrev pub GapKey : Type 0
GapKey = String × (String × String)

abbrev pub GapTable : Type 0 → Type 0
GapTable Json = Table GapKey (GapRow Json)

-- `MailboxGap` of wattswarm_network_transport_core.
pub record MailboxGap (R : Type 0) : Type 0 where
  pub gap_id : String
  pub delivery_class : DeliveryClass
  pub delivery_policy_version : ℕ
  pub route : R
  pub reason : MailboxGapReason
  pub first_affected_at : ℕ
  pub last_affected_at : ℕ
  pub approximate_count : ℕ

-- What the code uses of serde_json, sha2, uuid and chrono: `digest_id` is the hash of the JSON of
-- the tuple as a UUID, and `timestamp` is `from_timestamp_millis` on the 64 bits.
pub record GapLibraries (R Json : Type 0) : Type 0 where
  pub to_value : R → Option Json
  pub from_value : Json → Option R
  pub digest_id :
      String × (String × (DeliveryClass × (ℕ × (R × (MailboxGapReason × ℕ))))) → Option String
  pub timestamp : ℕ → Option ℕ
  pub uuid_before : String → String → Bool

abbrev or_now : Option ℕ → ℕ → ℕ
or_now none now = now
or_now (some t) now = t

module _ {R Json : Type 0} (lib : GapLibraries R Json) where
  pub compressed_gap_id :
      String → String → DeliveryClass → ℕ → R → MailboxGapReason → ℕ → Result GapError String
  compressed_gap_id network_id principal_id class policy_version route reason hour_bucket =
      or_bail
        (lib.digest_id
          (network_id, (principal_id, (class, (policy_version, (route, (reason, hour_bucket)))))))
        serialize_failed

  abbrev pub first_row : DeliveryClass → ℕ → Json → MailboxGapReason → ℕ → GapRow Json
  first_row class policy_version route_json reason affected_at = record {
    delivery_class = class;
    delivery_policy_version = policy_version;
    route_json = route_json;
    reason = reason_label reason;
    first_affected_at = affected_at;
    last_affected_at = affected_at;
    approximate_count = 1;
    delivery_page_id = none;
    delivered_at = none;
    acknowledged_at = none;
  }

  -- `ON CONFLICT … DO UPDATE`
  abbrev pub upserted : Option (GapRow Json) → GapRow Json → GapRow Json
  upserted none new = new
  upserted (some row) new = record row {
    last_affected_at = max row.last_affected_at new.last_affected_at;
    approximate_count = row.approximate_count + 1;
  }

  pub record_gap :
      ℕ
      → String
      → String
      → DeliveryClass
      → ℕ
      → R
      → MailboxGapReason
      → ℕ
      → GapTable Json
      → Result GapError (GapTable Json × String)
  record_gap now network_id principal_id class policy_version route reason affected_at_ms t = do
    gap_id ←
        compressed_gap_id network_id principal_id class policy_version route reason
          (affected_at_ms / 3600000)
    let affected_at = or_now (lib.timestamp affected_at_ms) now
    route_json ← or_bail (lib.to_value route) serialize_failed
    let key : GapKey = (network_id, (principal_id, gap_id))
    ok (
      insert key
          (upserted (lookup key t) (first_row class policy_version route_json reason affected_at))
          t,
      gap_id,
    )

abbrev pub is_open {ℓ} : {A : Type ℓ} → Option A → Bool
is_open none = true
is_open (some a) = false

abbrev pub is_page : String → Option String → Bool
is_page page_id none = false
is_page page_id (some p) = str_eq p page_id

-- `delivered_at <= clock_timestamp() - redelivery_after`; NULL does not pass.
abbrev pub is_overdue : ℕ → ℕ → Option ℕ → Bool
is_overdue now redelivery_ms none = false
is_overdue now redelivery_ms (some t) = leb (t + redelivery_ms) now

abbrev pub contains_id : String → List String → Bool
contains_id id [] = false
contains_id id (i ∷ ids) = str_eq i id || contains_id id ids

module _ {Json : Type 0} (network_id principal_id : String) (class : DeliveryClass) where
  abbrev pub of_mailbox : GapKey → GapRow Json → Bool
  of_mailbox (n, (p, id)) row =
      str_eq n network_id && str_eq p principal_id && class_eq.beq row.delivery_class class

  -- The `WHERE` clause of the page.
  abbrev pub is_deliverable : String → ℕ → ℕ → GapKey → GapRow Json → Bool
  is_deliverable page_id redelivery_ms now key row =
      of_mailbox key row
      && is_open row.acknowledged_at
      && (is_open row.delivery_page_id
          || is_page page_id row.delivery_page_id
          || is_overdue now redelivery_ms row.delivered_at)

  pub select_gaps : String → ℕ → ℕ → GapTable Json → GapTable Json
  select_gaps page_id redelivery_ms now [] = []
  select_gaps page_id redelivery_ms now ((key, row) ∷ t) =
      let rest = select_gaps page_id redelivery_ms now t in
      if is_deliverable page_id redelivery_ms now key row then (key, row) ∷ rest else rest

  -- `UPDATE … SET delivery_page_id, delivered_at`
  pub mark_delivered : String → ℕ → List String → GapTable Json → GapTable Json
  mark_delivered page_id now ids [] = []
  mark_delivered page_id now ids (((n, (p, id)), row) ∷ t) =
      let rest = mark_delivered page_id now ids t in
      (if of_mailbox (n, (p, id)) row && is_open row.acknowledged_at && contains_id id ids
        then ((n, (p, id)), record row { delivery_page_id = some page_id; delivered_at = some now })
        else ((n, (p, id)), row))
      ∷ rest

  abbrev pub is_acknowledged_by : String → GapKey → GapRow Json → Bool
  is_acknowledged_by page_id key row =
      of_mailbox key row && is_page page_id row.delivery_page_id && is_open row.acknowledged_at

  -- The table after the update, and `rows_affected`.
  pub acknowledge_page : String → ℕ → GapTable Json → GapTable Json × ℕ
  acknowledge_page page_id now [] = ([], 0)
  acknowledge_page page_id now ((key, row) ∷ t) =
      let (rest, n) = acknowledge_page page_id now t in
      if is_acknowledged_by page_id key row
      then ((key, record row { acknowledged_at = some now }) ∷ rest, n + 1)
      else ((key, row) ∷ rest, n)

-- `ORDER BY first_affected_at, gap_id`, and `LIMIT`
module _ {R Json : Type 0} (lib : GapLibraries R Json) where
  abbrev comes_before : GapKey × GapRow Json → GapKey × GapRow Json → Bool
  comes_before ((n, (p, i)), r) ((m, (q, j)), s) =
      ltb r.first_affected_at s.first_affected_at
      || (r.first_affected_at == s.first_affected_at && lib.uuid_before i j)

  pub insert_ordered : GapKey × GapRow Json → GapTable Json → GapTable Json
  insert_ordered x [] = x ∷ []
  insert_ordered x (y ∷ ys) =
      let rest = insert_ordered x ys in if comes_before y x then y ∷ rest else x ∷ y ∷ ys

  pub order_gaps : GapTable Json → GapTable Json
  order_gaps [] = []
  order_gaps (x ∷ xs) = insert_ordered x (order_gaps xs)

  pub to_gap : DeliveryClass → GapKey × GapRow Json → Result GapError (MailboxGap R)
  to_gap class ((n, (p, id)), row) = do
    route ← or_bail (lib.from_value row.route_json) deserialize_failed
    reason ← parse_reason row.reason
    ok (record {
      gap_id = id;
      delivery_class = class;
      delivery_policy_version = row.delivery_policy_version;
      route = route;
      reason = reason;
      first_affected_at = row.first_affected_at;
      last_affected_at = row.last_affected_at;
      approximate_count = row.approximate_count;
    })

  pub to_gaps : DeliveryClass → GapTable Json → Result GapError (List (MailboxGap R))
  to_gaps class [] = ok []
  to_gaps class (x ∷ xs) = do gap ← to_gap class x; gaps ← to_gaps class xs; ok (gap ∷ gaps)

abbrev pub gap_ids : {Json : Type 0} → GapTable Json → List String
gap_ids [] = []
gap_ids (((n, (p, id)), row) ∷ t) = id ∷ gap_ids t

abbrev pub take {ℓ} : {A : Type ℓ} → ℕ → List A → List A
take zero xs = []
take (suc n) [] = []
take (suc n) (x ∷ xs) = x ∷ take n xs

module _ {R Json : Type 0} (lib : GapLibraries R Json) (network_id principal_id : String)
    (class : DeliveryClass) where
  pub page_rows : String → ℕ → ℕ → ℕ → GapTable Json → GapTable Json
  page_rows page_id limit redelivery_ms now t =
      take limit
        (order_gaps lib (select_gaps network_id principal_id class page_id redelivery_ms now t))

  -- The rows are marked before they are read, so a row that cannot be read is marked all the same.
  -- A limit above the BIGINT range is negative as an `i64`, which the database refuses.
  pub load_for_page :
      String → ℕ → ℕ → ℕ → GapTable Json → GapTable Json × Result GapError (List (MailboxGap R))
  load_for_page page_id limit redelivery_ms now t =
      if ltb i64_max redelivery_ms || ltb i64_max limit
      then (t, err exceeds_bigint)
      else let rows = page_rows page_id limit redelivery_ms now t in
        (
          mark_delivered network_id principal_id class page_id now (gap_ids rows) t,
          to_gaps lib class rows,
        )
