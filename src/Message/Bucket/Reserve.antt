-- ===== src/Message/Bucket/Reserve.antt =====
-- Who the Global limiter of crates/message-gateway/src/db.rs lets through, and when.
use watt_gateway.Prelude.{
  ℕ, ◌+◌, ◌-◌, ◌*◌, ◌≤◌, ◌<◌, ◌≡◌, refl, String, true, false, Option, none, some, List, [], ◌∷◌,
  arith, lookup, string_eq, pair_eq,
}
use watt_gateway.Message.Bucket.{
  token, DeliveryClass, interactive, bulk, GlobalBucket, GlobalLimits, bulk_capacity,
  refilled_total, refilled_bulk, global_allowed, acquire_global_row, GlobalBuckets,
  acquire_global_token,
}
use watt_gateway.Message.Bucket.Global.{Request, tally, lookup_after, allowed_by_row}

mul_mono_left : (d a b : ℕ) → a ≤ b → d * a ≤ d * b
mul_mono_left d a b h = grind arith

-- Every request is in bulk.
abbrev pub AllBulk : List Request → Type 0
AllBulk [] = Unit
AllBulk ((now, class) ∷ rest) = (class ≡ bulk) × AllBulk rest

-- A row that keeps one token above the bulk balance.
abbrev pub IsReserved : Option GlobalBucket → Type 0
IsReserved none = Unit
IsReserved (some b) = b.bulk_tokens + token ≤ b.total_tokens

module _ (l : GlobalLimits) (two : 2 ≤ l.burst) (slower : l.bulk_rate ≤ l.total_rate) where
  row_keeps_reserve :
      (now : ℕ) (row : Option GlobalBucket)
      → IsReserved row
      → IsReserved (some (acquire_global_row l bulk now row).0)
  unfolding acquire_global_row refilled_total refilled_bulk global_allowed bulk_capacity
  row_keeps_reserve now none h = ground arith
  row_keeps_reserve now (some b) h =
      ground (arith, mul_mono_left (now - b.last_refill_at) l.bulk_rate l.total_rate slower)

  row_admits_interactive :
      (now : ℕ) (row : Option GlobalBucket)
      → IsReserved row
      → (acquire_global_row l interactive now row).1 ≡ true
  unfolding acquire_global_row refilled_total refilled_bulk global_allowed
  row_admits_interactive now none h = ground arith
  row_admits_interactive now (some b) h = ground arith

  module _ (network_id cell : String) where
    tally_keeps_reserve :
        (reqs : List Request) (buckets : GlobalBuckets)
        → AllBulk reqs
        → IsReserved (lookup (network_id, cell) buckets)
        → IsReserved (lookup (network_id, cell) (tally network_id cell l reqs buckets).buckets)
    unfolding tally
    tally_keeps_reserve [] buckets a h = h
    tally_keeps_reserve ((now, class) ∷ rest) buckets a h =
        tally_keeps_reserve rest (acquire_global_token network_id cell l class now buckets).0 a.1 (
          rw (lookup_after network_id cell l class now buckets, a.0)
            (row_keeps_reserve now (lookup (network_id, cell) buckets) h))

    -- Bulk traffic never starves interactive traffic: with a burst of two or more, and a bulk rate
    -- that is at most the total rate, an interactive publish is allowed after any number of bulk
    -- publishes at any times, if the row was missing or kept a token above the bulk balance.
    pub bulk_spares_interactive :
        (reqs : List Request) (now : ℕ) (buckets : GlobalBuckets)
        → AllBulk reqs
        → IsReserved (lookup (network_id, cell) buckets)
        → (acquire_global_token network_id cell l interactive now
            (tally network_id cell l reqs buckets).buckets).1
          ≡ true
    bulk_spares_interactive reqs now buckets a h =
        rw (allowed_by_row network_id cell l interactive now _)
          (row_admits_interactive now _ (tally_keeps_reserve reqs buckets a h))

-- Waiting is enough: where the burst is positive, and the time since the last refill earns one
-- token at the rates that apply to the class, the publish is allowed.
pub wait_admits :
    (l : GlobalLimits) (class : DeliveryClass) (now : ℕ) (b : GlobalBucket)
    → 0 < l.burst
    → token ≤ (now - b.last_refill_at) * l.total_rate
    → (class ≡ bulk → token ≤ (now - b.last_refill_at) * l.bulk_rate)
    → (acquire_global_row l class now (some b)).1 ≡ true
unfolding acquire_global_row refilled_total refilled_bulk global_allowed bulk_capacity
wait_admits l interactive now b p h k = ground arith
wait_admits l bulk now b p h k = ground (arith, k refl)

-- With a burst of zero no publish is ever allowed, whatever the rates and the stored row.
pub burst_zero_blocks :
    (network_id cell : String) (l : GlobalLimits) (class : DeliveryClass) (now : ℕ)
    (buckets : GlobalBuckets)
    → l.burst ≡ 0
    → (acquire_global_token network_id cell l class now buckets).1 ≡ false
unfolding acquire_global_token acquire_global_row refilled_total global_allowed
burst_zero_blocks network_id cell l class now buckets z = ground arith
