-- ===== src/Gateway/Outbox/Tests.antt =====
-- A drain of an outbox with three rows (crates/gateway/src/gateway_sync.rs).
use watt_gateway.Prelude.{
  ℕ, ◌≡◌, refl, Bool, Option, none, some, List, [], ◌∷◌, All, arith, ◌==◌, true, false, ok, err,
}
use watt_gateway.Gateway.Json.{null}
use watt_gateway.Gateway.Outbox.{
  OutboxRow, export_failed, finish_drain, drain_p2p_outbox, claim_p2p_outbox, claim_first,
  settle_all, settle, messages, ack_p2p_outbox, release_p2p_outbox, is_exhausted, delete_exhausted,
  retry_later,
}
use watt_gateway.Gateway.Outbox.Attempts.{IsFresh, drain_bounds_attempts}

abbrev row_of : ℕ → ℕ → Option ℕ → OutboxRow
row_of id attempts until = record {
  id = id;
  dedupe_key = "key";
  command_kind = "ui_event";
  payload = null;
  attempts = attempts;
  claimed_until = until;
}

-- The second row is claimed by another drain, and the third is tried for the last time.
abbrev rows : List OutboxRow
rows = row_of 1 0 none ∷ row_of 2 3 (some 9000) ∷ row_of 3 9 (some 10) ∷ row_of 4 2 none ∷ []

-- Only the message of the first row is taken.
abbrev message_of : OutboxRow → Option ℕ
message_of row = some row.id

abbrev is_taken : ℕ → Bool
is_taken id = id == 1

drained :
    drain_p2p_outbox message_of is_taken 1000 true 3 rows
    ≡ (row_of 2 3 (some 9000) ∷ row_of 4 3 (some 6000) ∷ [], ok (1 ∷ 3 ∷ 4 ∷ []))
unfolding drain_p2p_outbox finish_drain claim_p2p_outbox claim_first settle_all settle messages
    ack_p2p_outbox release_p2p_outbox is_exhausted delete_exhausted retry_later
drained = refl

-- A failed export leaves the claimed row with one more attempt.
abbrev snapshot : Option ℕ → ℕ → OutboxRow
snapshot until attempts = record (row_of 1 attempts until) { command_kind = "snapshot_announce_v1" }

export_fails :
    drain_p2p_outbox message_of is_taken 1000 false 3 (snapshot none 9 ∷ [])
    ≡ (snapshot (some 31000) 10 ∷ [], err export_failed)
unfolding drain_p2p_outbox finish_drain claim_p2p_outbox claim_first
export_fails = refl

drain_bounds_attempts_example :
    All IsFresh (drain_p2p_outbox message_of is_taken 1000 true 3 rows).0
drain_bounds_attempts_example =
    drain_bounds_attempts message_of is_taken 1000 true 3 rows (1 ∷ 3 ∷ 4 ∷ [])
      (omega arith, (omega arith, (omega arith, (omega arith, tt)))) (rw drained refl)
