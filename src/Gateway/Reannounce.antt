-- ===== src/Gateway/Reannounce.antt =====
-- The announcements of snapshots to the peer network: `reannounce_local_snapshots` and its
-- schedule, of crates/gateway/src/gateway_sync.rs, with the queries of crates/gateway/src/db.rs
-- that it makes. The database's order of texts, the sources that are active, the size of a batch
-- and what the network takes are arguments. Times are in milliseconds, and one clock reading
-- stands for each run. The rows are in the order of their nodes.
pub mod Pages
pub mod Complete
pub mod Schedule
mod Tests
use watt_gateway.Prelude.{
  ℕ, zero, suc, ◌+◌, String, Bool, true, false, not, ◌&&◌, ◌||◌, Option, none, some, List, [], ◌∷◌,
  ◌++◌, ltb, leb, ◌==◌, if◌then◌else◌, max, min, filter_by, length,
}
use watt_gateway.Gateway.Json.{Value}

pub record SnapshotRow : Type 0 where
  pub source_id : Option String
  pub node_id : String
  pub signer_agent_did : String
  pub public_key : String
  pub generated_at : ℕ
  pub ingested_at : ℕ
  pub payload : Value
  pub signature : String

pub data SnapshotReannounceCursor : Type 0 where
  full : (started_at : ℕ) (node_id : String) → SnapshotReannounceCursor
  incremental : (ingested_at : ℕ) (node_id : String) → SnapshotReannounceCursor

-- The announced rows in their order.
pub record Reannounce : Type 0 where
  pub cursor : Option SnapshotReannounceCursor
  pub announced : List SnapshotRow

abbrev pub take : ℕ → List SnapshotRow → List SnapshotRow
take zero rows = []
take (suc n) [] = []
take (suc n) (row ∷ rows) = row ∷ take n rows

abbrev pub last_of : SnapshotRow → List SnapshotRow → SnapshotRow
last_of row [] = row
last_of row (next ∷ rows) = last_of next rows

abbrev pub is_full : Option SnapshotReannounceCursor → Bool
is_full (some (full started_at node_id)) = true
is_full _ = false

pub next_full_reconcile_cursor : ℕ → Option String → Bool → SnapshotReannounceCursor
next_full_reconcile_cursor started_at (some last_node_id) true = full started_at last_node_id
next_full_reconcile_cursor started_at none true = full started_at ""
next_full_reconcile_cursor started_at last_node_id false = incremental started_at ""

abbrev pub last_node_id : List SnapshotRow → Option String
last_node_id [] = none
last_node_id (row ∷ rows) = some (last_of row rows).node_id

module _ (after : String → String → Bool) (source_is_active : String → Bool) where
  pub is_visible : SnapshotRow → Bool
  is_visible row = by_source row.source_id
    where
      by_source : Option String → Bool
      by_source none = true
      by_source (some source_id) = source_is_active source_id

  abbrev pub visible_after : String → List SnapshotRow → List SnapshotRow
  visible_after node_id rows =
      filter_by (λ row. after row.node_id node_id) (filter_by is_visible rows)

  pub list_visible_snapshots_after_node_id : String → ℕ → List SnapshotRow → List SnapshotRow
  list_visible_snapshots_after_node_id node_id limit rows =
      take (max limit 1) (visible_after node_id rows)

  -- `ingested_at > $1 or (ingested_at = $1 and node_id > coalesce($2, ''))`
  abbrev pub is_updated_after : ℕ → String → SnapshotRow → Bool
  is_updated_after ingested_at node_id row =
      ltb ingested_at row.ingested_at
      || (row.ingested_at == ingested_at && after row.node_id node_id)

  abbrev pub insert_updated : SnapshotRow → List SnapshotRow → List SnapshotRow
  insert_updated row [] = row ∷ []
  insert_updated row (first ∷ rows) =
      let rest = insert_updated row rows in
      if is_updated_after row.ingested_at row.node_id first
      then row ∷ first ∷ rows
      else first ∷ rest

  -- `order by ingested_at asc, node_id asc`
  abbrev pub order_updated : List SnapshotRow → List SnapshotRow
  order_updated [] = []
  order_updated (row ∷ rows) = insert_updated row (order_updated rows)

  pub list_visible_snapshots_updated_after :
      ℕ → Option String → ℕ → List SnapshotRow → List SnapshotRow
  list_visible_snapshots_updated_after ingested_at node_id limit rows = take (max limit 1) (
      order_updated
        (filter_by (is_updated_after ingested_at (or_empty node_id)) (filter_by is_visible rows)))
    where
      or_empty : Option String → String
      or_empty none = ""
      or_empty (some text) = text

  module _ (exports : Bool) (publishes : SnapshotRow → Bool) (batch : ℕ) where
    -- The rows up to the first that the network refuses, and whether it takes all.
    abbrev pub published : List SnapshotRow → List SnapshotRow × Bool
    published [] = ([], true)
    published (row ∷ rows) =
        let (taken, done) = published rows in
        if publishes row then (row ∷ taken, done) else ([], false)

    -- Nothing is exported for no rows.
    pub publish_snapshot_announcements : List SnapshotRow → List SnapshotRow × Bool
    publish_snapshot_announcements [] = ([], true)
    publish_snapshot_announcements (row ∷ rows) =
        if exports then published (row ∷ rows) else ([], false)

    -- An error keeps the cursor, and what was sent is sent.
    abbrev pub announce :
        List SnapshotRow → SnapshotReannounceCursor → Bool → Reannounce → Reannounce × Option Bool
    announce snapshots next has_more s =
        let (taken, done) = publish_snapshot_announcements snapshots in
        if done
        then (record { cursor = some next; announced = s.announced ++ taken }, some has_more)
        else (record s { announced = s.announced ++ taken }, none)

    abbrev pub has_more : List SnapshotRow → Bool
    has_more snapshots = leb batch (length snapshots)

    pub full_page : ℕ → String → List SnapshotRow → Reannounce → Reannounce × Option Bool
    full_page started_at node_id rows s =
        let snapshots = list_visible_snapshots_after_node_id node_id batch rows in
        announce snapshots
          (next_full_reconcile_cursor started_at (last_node_id snapshots) (has_more snapshots))
          (has_more snapshots) s

    pub incremental_page : List SnapshotRow → Reannounce → Reannounce × Option Bool
    incremental_page [] s = (s, some (has_more []))
    incremental_page (row ∷ rows) s =
        let last = last_of row rows in
        announce (row ∷ rows) (incremental last.ingested_at last.node_id) (has_more (row ∷ rows)) s

    pub at_cursor :
        Option SnapshotReannounceCursor → List SnapshotRow → Reannounce → Reannounce × Option Bool
    at_cursor none rows s = (s, some true)
    at_cursor (some (full started_at node_id)) rows s = full_page started_at node_id rows s
    at_cursor (some (incremental ingested_at node_id)) rows s =
        incremental_page
          (list_visible_snapshots_updated_after ingested_at (some node_id) batch rows) s

    abbrev pub start_full_reconcile : ℕ → Bool → Reannounce → Reannounce
    start_full_reconcile now full_reconcile s =
        if full_reconcile && not (is_full s.cursor)
        then record s { cursor = some (full now "") }
        else s

    -- Whether there is more, or `none` for an error.
    pub reannounce_local_snapshots :
        ℕ → Bool → List SnapshotRow → Reannounce → Reannounce × Option Bool
    reannounce_local_snapshots now full_reconcile rows s =
        let started = start_full_reconcile now full_reconcile s in
        at_cursor started.cursor rows started
