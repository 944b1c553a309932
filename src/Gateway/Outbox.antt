-- ===== src/Gateway/Outbox.antt =====
-- The outbox of the peer network: `claim_p2p_outbox`, `ack_p2p_outbox` and `release_p2p_outbox` of
-- crates/gateway/src/db.rs and `drain_p2p_outbox` of crates/gateway/src/gateway_sync.rs. The rows
-- are in the order of their identifiers, times are in milliseconds, and one clock reading stands
-- for a drain. What `outbox_message` makes of a row and whether the network takes it are arguments.
pub mod Attempts
mod Tests
use watt_gateway.Prelude.{
  ℕ, zero, suc, ◌+◌, String, Bool, true, false, not, ◌&&◌, ◌||◌, Option, none, some, List, [], ◌∷◌,
  ◌++◌, ltb, leb, ◌==◌, str_eq, if◌then◌else◌, max, Result, ok, err,
}
use watt_gateway.Gateway.Json.{Value}

pub record OutboxRow : Type 0 where
  pub id : ℕ
  pub dedupe_key : String
  pub command_kind : String
  pub payload : Value
  pub attempts : ℕ
  pub claimed_until : Option ℕ

abbrev pub max_attempts : ℕ
max_attempts = 10

abbrev pub lease_ms : ℕ
lease_ms = 30000

abbrev pub retry_ms : ℕ
retry_ms = 5000

-- `claimed_until is null or claimed_until < now()`
abbrev pub is_claimable : ℕ → Option ℕ → Bool
is_claimable now none = true
is_claimable now (some until) = ltb until now

abbrev pub claimed : ℕ → OutboxRow → OutboxRow
claimed now row = record row { attempts = row.attempts + 1; claimed_until = some (now + lease_ms) }

abbrev pub claim_row :
    Bool
    → OutboxRow
    → ℕ
    → List OutboxRow × List OutboxRow
    → List OutboxRow × List OutboxRow
    → List OutboxRow × List OutboxRow
claim_row true row now taken skipped = (claimed now row ∷ taken.0, claimed now row ∷ taken.1)
claim_row false row now taken skipped = (skipped.0, row ∷ skipped.1)

-- The first claimable rows are claimed: the rows that are returned, and the table.
pub claim_first : ℕ → ℕ → List OutboxRow → List OutboxRow × List OutboxRow
claim_first zero now rows = ([], rows)
claim_first (suc n) now [] = ([], [])
claim_first (suc n) now (row ∷ rows) =
    claim_row (is_claimable now row.claimed_until) row now (claim_first n now rows)
      (claim_first (suc n) now rows)

-- `claim_p2p_outbox`: `limit.max(1)`
pub claim_p2p_outbox : ℕ → ℕ → List OutboxRow → List OutboxRow × List OutboxRow
claim_p2p_outbox limit now rows = claim_first (max limit 1) now rows

pub ack_p2p_outbox : ℕ → List OutboxRow → List OutboxRow
ack_p2p_outbox id [] = []
ack_p2p_outbox id (row ∷ rows) =
    let rest = ack_p2p_outbox id rows in if row.id == id then rest else row ∷ rest

-- The row is deleted at its last attempt, and the answer is whether it was.
pub is_exhausted : ℕ → List OutboxRow → Bool
is_exhausted id [] = false
is_exhausted id (row ∷ rows) =
    (row.id == id && leb max_attempts row.attempts) || is_exhausted id rows

pub delete_exhausted : ℕ → List OutboxRow → List OutboxRow
delete_exhausted id [] = []
delete_exhausted id (row ∷ rows) =
    let rest = delete_exhausted id rows in
    if row.id == id && leb max_attempts row.attempts then rest else row ∷ rest

pub retry_later : ℕ → ℕ → List OutboxRow → List OutboxRow
retry_later id now [] = []
retry_later id now (row ∷ rows) =
    let rest = retry_later id now rows in
    if row.id == id then record row { claimed_until = some (now + retry_ms) } ∷ rest else row ∷ rest

pub release_p2p_outbox : ℕ → ℕ → List OutboxRow → List OutboxRow × Bool
release_p2p_outbox id now rows =
    if is_exhausted id rows
    then (delete_exhausted id rows, true)
    else (retry_later id now rows, false)

abbrev pub has_snapshot : List OutboxRow → Bool
has_snapshot [] = false
has_snapshot (row ∷ rows) = str_eq row.command_kind "snapshot_announce_v1" || has_snapshot rows

pub data DrainError : Type 0 where
  export_failed : DrainError

module _ {Message : Type 0} (outbox_message : OutboxRow → Option Message)
    (publish_sync_summary : Message → Bool) (now : ℕ) where
  pub settle : OutboxRow → Option Message → List OutboxRow → List OutboxRow
  settle row none rows = ack_p2p_outbox row.id rows
  settle row (some message) rows =
      if publish_sync_summary message
      then ack_p2p_outbox row.id rows
      else (release_p2p_outbox row.id now rows).0

  pub settle_all : List OutboxRow → List OutboxRow → List OutboxRow
  settle_all [] rows = rows
  settle_all (row ∷ claimed_rows) rows =
      settle_all claimed_rows (settle row (outbox_message row) rows)

  -- The messages of the claimed rows, in their order.
  pub messages : List OutboxRow → List Message
  messages [] = []
  messages (row ∷ rows) = push (outbox_message row) (messages rows)
    where
      push : Option Message → List Message → List Message
      push none rest = rest
      push (some message) rest = message ∷ rest

  -- The contact is exported where a row of a snapshot is claimed. Where that fails, the drain ends
  -- with the rows claimed; else each row is settled and its message handed to the network.
  pub finish_drain :
      Bool → List OutboxRow → List OutboxRow → List OutboxRow × Result DrainError (List Message)
  finish_drain false taken table = (table, err export_failed)
  finish_drain true taken table = (settle_all taken table, ok (messages taken))

  -- `drain_p2p_outbox`: the table after it, and the messages that it hands to the network. Whether
  -- `export_transport_contact_material` succeeds is an argument.
  pub drain_p2p_outbox :
      Bool → ℕ → List OutboxRow → List OutboxRow × Result DrainError (List Message)
  drain_p2p_outbox exports batch rows =
      let (taken, table) = claim_p2p_outbox batch now rows in
      finish_drain (not (has_snapshot taken) || exports) taken table
