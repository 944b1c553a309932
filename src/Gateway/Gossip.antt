-- ===== src/Gateway/Gossip.antt =====
-- How many snapshot fetches a peer may have waiting: `GossipWorkLimiter::try_admit_snapshot` and the
-- drop of an admission, of crates/gateway/src/gateway_sync.rs. The semaphores, over which the
-- admitted ones wait for each other, are left out.
pub mod Pending
mod Tests
use watt_gateway.Prelude.{
  ℕ, suc, ◌+◌, ◌-◌, ◌/◌, String, Bool, true, false, Option, none, some, leb, ◌==◌, if◌then◌else◌,
  string_eq, Table, lookup, insert, delete,
}

-- The counts of the peers that have an entry.
abbrev pub Peers : Type 0
Peers = Table String ℕ

abbrev pub max_pending_snapshot_fetches_per_peer : ℕ
max_pending_snapshot_fetches_per_peer = 128 / 4

abbrev pub pending_of : Option ℕ → ℕ
pending_of none = 0
pending_of (some pending) = pending

-- A new entry starts at 0; the answer is whether the fetch is admitted.
pub try_admit_snapshot : String → Peers → Peers × Bool
try_admit_snapshot peer_id peers =
    let pending = pending_of (lookup peer_id peers) in
    if leb max_pending_snapshot_fetches_per_peer pending
    then (insert peer_id pending peers, false)
    else (insert peer_id (pending + 1) peers, true)

abbrev pub released : String → Option ℕ → Peers → Peers
released peer_id none peers = peers
released peer_id (some pending) peers =
    if pending - 1 == 0 then delete peer_id peers else insert peer_id (pending - 1) peers

-- `Drop` of an admission
pub drop_admission : String → Peers → Peers
drop_admission peer_id peers = released peer_id (lookup peer_id peers) peers
