-- ===== src/Gateway/Reannounce/Schedule.antt =====
-- The schedule of the periodic work: `run_periodic_sync_work` and `schedule_full_reconcile` of
-- crates/gateway/src/gateway_sync.rs. Whether the outbox drains is an argument.
use watt_gateway.Prelude.{
  ℕ, ◌+◌, String, Bool, true, false, not, ◌&&◌, Option, none, some, List, ltb, leb, if◌then◌else◌,
  min,
}
use watt_gateway.Gateway.Reannounce.{SnapshotRow, Reannounce, reannounce_local_snapshots}

-- The deadlines of the loop, in milliseconds.
pub record Deadlines : Type 0 where
  pub next_snapshot_reannounce : ℕ
  pub next_full_reconcile : ℕ
  pub next_outbox_poll : ℕ

pub schedule_full_reconcile : ℕ → Deadlines → Deadlines
schedule_full_reconcile now d = record d {
  next_snapshot_reannounce = min d.next_snapshot_reannounce now;
  next_full_reconcile = min d.next_full_reconcile now;
}

pub next_snapshot_reannounce_deadline : ℕ → Bool → ℕ
next_snapshot_reannounce_deadline now has_more = now + (if has_more then 100 else 30000)

-- The deadlines after the snapshots' run, whose answer is whether there is more.
pub reschedule : ℕ → Bool → Option Bool → Deadlines → Deadlines × Bool
reschedule now full_reconcile (some has_more) d = (
  record d {
    next_full_reconcile =
        if full_reconcile && not has_more then now + 300000 else d.next_full_reconcile;
    next_snapshot_reannounce = next_snapshot_reannounce_deadline now has_more;
  },
  true,
)
reschedule now full_reconcile none d = (record d { next_snapshot_reannounce = now + 5000 }, false)

abbrev pub outbox_deadline : ℕ → Deadlines → Deadlines
outbox_deadline now d =
    if leb d.next_outbox_poll now then record d { next_outbox_poll = now + 1000 } else d

module _ (after : String → String → Bool) (source_is_active : String → Bool) (exports : Bool)
    (publishes : SnapshotRow → Bool) (batch : ℕ) where
  abbrev pub run_snapshots :
      ℕ → List SnapshotRow → Reannounce → Deadlines → Reannounce × Deadlines × Bool
  run_snapshots now rows s d =
      let full_reconcile = leb d.next_full_reconcile now in
      let (next, answer) =
        reannounce_local_snapshots after source_is_active exports publishes batch now full_reconcile
          rows s in
      let (later, succeeds) = reschedule now full_reconcile answer d in (next, later, succeeds)

  -- The state, the deadlines and whether the work succeeds.
  pub run_periodic_sync_work :
      ℕ → Bool → List SnapshotRow → Reannounce → Deadlines → Reannounce × Deadlines × Bool
  run_periodic_sync_work now drains rows s d =
      let polled = outbox_deadline now d in
      if leb d.next_outbox_poll now && not drains
      then (s, polled, false)
      else if ltb now d.next_snapshot_reannounce
      then (s, polled, true)
      else run_snapshots now rows s polled
