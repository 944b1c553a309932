-- ===== src/Gateway/Outbox/Attempts.antt =====
-- How often a row of the outbox is tried (crates/gateway/src/db.rs and gateway_sync.rs).
use watt_gateway.Prelude.{
  ℕ, zero, suc, ◌<◌, ◌≡◌, ◌⊎◌, inl, inr, Bool, true, false, ◌||◌, Option, none, some, List, [], ◌∷◌,
  All, arith, not, ok, leb, ◌==◌, max, Bool-cases,
}
use watt_gateway.Gateway.Outbox.{
  OutboxRow, claimed, is_claimable, claim_row, claim_first, claim_p2p_outbox, ack_p2p_outbox,
  max_attempts, is_exhausted, delete_exhausted, retry_later, release_p2p_outbox, settle, settle_all,
  has_snapshot, finish_drain, drain_p2p_outbox,
}

abbrev has_id : ℕ → List OutboxRow → Bool
has_id id [] = false
has_id id (row ∷ rows) = row.id == id || has_id id rows

abbrev pub IsFresh : OutboxRow → Type 0
IsFresh row = row.attempts < 10

-- A row is below the limit, or is claimed and waits to be settled.
abbrev Waits : List OutboxRow → OutboxRow → Type 0
Waits taken row = IsFresh row ⊎ (has_id row.id taken ≡ true)

abbrev IsTracked : List OutboxRow → List OutboxRow → Type 0
IsTracked taken rows = All (Waits taken) rows

more :
    (first : OutboxRow) (taken rows : List OutboxRow)
    → IsTracked taken rows
    → IsTracked (first ∷ taken) rows
more first taken [] h = tt
more first taken (row ∷ rows) (inl fresh, rest) = (inl fresh, more first taken rows rest)
more first taken (row ∷ rows) (inr there, rest) =
    (inr (ground (arith, there)), more first taken rows rest)

fresh_tracked : (taken rows : List OutboxRow) → All IsFresh rows → IsTracked taken rows
fresh_tracked taken [] h = tt
fresh_tracked taken (row ∷ rows) (fresh, rest) = (inl fresh, fresh_tracked taken rows rest)

claim_tracked :
    (n now : ℕ) (rows : List OutboxRow)
    → All IsFresh rows
    → IsTracked (claim_first n now rows).0 (claim_first n now rows).1
unfolding claim_first
claim_tracked zero now rows h = fresh_tracked [] rows h
claim_tracked (suc n) now [] h = tt
claim_tracked (suc n) now (row ∷ rows) (fresh, rest) =
    by_row (is_claimable now row.claimed_until) (claim_tracked n now rows rest)
      (claim_tracked (suc n) now rows rest)
  where
    by_row :
        (claimable : Bool)
        → IsTracked (claim_first n now rows).0 (claim_first n now rows).1
        → IsTracked (claim_first (suc n) now rows).0 (claim_first (suc n) now rows).1
        → IsTracked
            (claim_row claimable row now (claim_first n now rows) (claim_first (suc n) now rows)).0
            (claim_row claimable row now (claim_first n now rows) (claim_first (suc n) now rows)).1
    by_row true taken skipped = (inr (ground arith), more (claimed now row) _ _ taken)
    by_row false taken skipped = (inl fresh, skipped)

module _ (row : OutboxRow) (taken : List OutboxRow) where
  -- Settling one row is no matter to the rows with other identifiers.
  other : (r : OutboxRow) → Waits (row ∷ taken) r → (r.id == row.id) ≡ false → Waits taken r
  other r (inl fresh) e = inl fresh
  other r (inr there) e = inr (ground (arith, there, e))

  acked :
      (rows : List OutboxRow)
      → IsTracked (row ∷ taken) rows
      → IsTracked taken (ack_p2p_outbox row.id rows)
  unfolding ack_p2p_outbox
  acked [] h = tt
  acked (r ∷ rows) (first, rest) = elim (Bool-cases (r.id == row.id)) [
    | inl e ↦ rw e (acked rows rest)
    | inr e ↦ rw e (other r first e, acked rows rest)
  ]

  deleted :
      (rows : List OutboxRow)
      → IsTracked (row ∷ taken) rows
      → IsTracked taken (delete_exhausted row.id rows)
  unfolding delete_exhausted
  deleted [] h = tt
  deleted (r ∷ rows) (first, rest) = elim (Bool-cases (r.id == row.id)) [
    | inl e ↦ elim (Bool-cases (leb max_attempts r.attempts)) [
      | inl last ↦ rw (e, last) (deleted rows rest)
      | inr early ↦ rw (e, early) (inl (ground (arith, early)), deleted rows rest)
    ]
    | inr e ↦ rw e (other r first e, deleted rows rest)
  ]

  retried :
      (now : ℕ) (rows : List OutboxRow)
      → is_exhausted row.id rows ≡ false
      → IsTracked (row ∷ taken) rows
      → IsTracked taken (retry_later row.id now rows)
  unfolding retry_later is_exhausted
  retried now [] early h = tt
  retried now (r ∷ rows) early (first, rest) = elim (Bool-cases (r.id == row.id)) [
    | inl e ↦ rw e (inl (ground (arith, early, e)), retried now rows (ground (arith, early)) rest)
    | inr e ↦ rw e (other r first e, retried now rows (ground (arith, early)) rest)
  ]

  released :
      (now : ℕ) (rows : List OutboxRow)
      → IsTracked (row ∷ taken) rows
      → IsTracked taken (release_p2p_outbox row.id now rows).0
  unfolding release_p2p_outbox
  released now rows h = elim (Bool-cases (is_exhausted row.id rows)) [
    | inl last ↦ rw last (deleted rows h)
    | inr early ↦ rw early (retried now rows early h)
  ]

none_waits : (rows : List OutboxRow) → IsTracked [] rows → All IsFresh rows
none_waits [] h = tt
none_waits (row ∷ rows) (inl fresh, rest) = (fresh, none_waits rows rest)
none_waits (row ∷ rows) (inr there, rest) = absurd (ground (arith, there))

module _ {Message : Type 0} (outbox_message : OutboxRow → Option Message)
    (publish_sync_summary : Message → Bool) (now : ℕ) where
  settled :
      (row : OutboxRow) (taken rows : List OutboxRow) (message : Option Message)
      → IsTracked (row ∷ taken) rows
      → IsTracked taken (settle outbox_message publish_sync_summary now row message rows)
  unfolding settle
  settled row taken rows none h = acked row taken rows h
  settled row taken rows (some message) h = elim (Bool-cases (publish_sync_summary message)) [
    | inl sent ↦ rw sent (acked row taken rows h)
    | inr lost ↦ rw lost (released row taken now rows h)
  ]

  drained_rows :
      (taken rows : List OutboxRow)
      → IsTracked taken rows
      → All IsFresh (settle_all outbox_message publish_sync_summary now taken rows)
  unfolding settle_all
  drained_rows [] rows h = none_waits rows h
  drained_rows (row ∷ taken) rows h =
      drained_rows taken _ (settled row taken rows (outbox_message row) h)

  -- A drain that is not ended by a failed export of the contact keeps no row with ten attempts or
  -- more: if every row was tried fewer than ten times before it, so is every row that it leaves,
  -- whatever the batch and whichever messages the network takes.
  pub drain_bounds_attempts :
      (exports : Bool) (batch : ℕ) (rows : List OutboxRow) (sent : List Message)
      → All IsFresh rows
      → (drain_p2p_outbox outbox_message publish_sync_summary now exports batch rows).1 ≡ ok sent
      → All IsFresh (drain_p2p_outbox outbox_message publish_sync_summary now exports batch rows).0
  unfolding drain_p2p_outbox claim_p2p_outbox finish_drain
  drain_bounds_attempts exports batch rows sent h ended =
      finished (not (has_snapshot (claim_first (max batch 1) now rows).0) || exports) _ _ sent
        (claim_tracked (max batch 1) now rows h) ended
    where
      finished :
          (go_on : Bool) (taken table : List OutboxRow) (sent : List Message)
          → IsTracked taken table
          → (finish_drain outbox_message publish_sync_summary now go_on taken table).1 ≡ ok sent
          → All IsFresh (finish_drain outbox_message publish_sync_summary now go_on taken table).0
      finished true taken table sent h ended = drained_rows taken table h
      finished false taken table sent h ended = absurd (ground (arith, ended))
