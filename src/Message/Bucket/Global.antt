-- ===== src/Message/Bucket/Global.antt =====
-- The Global limiter of crates/message-gateway/src/db.rs over any sequence of publishes.
use watt_gateway.Prelude.{
  ℕ, suc, ◌+◌, ◌-◌, ◌*◌, ◌≤◌, ◌≡◌, refl, String, Bool, true, false, Option, none, some, List, [],
  ◌∷◌, arith, if◌then◌else◌, lookup, string_eq, pair_eq, lookup-insert_self,
}
use watt_gateway.Message.Bucket.{
  token, DeliveryClass, is_interactive, GlobalBucket, GlobalLimits, bulk_capacity,
  acquire_global_row, GlobalBuckets, acquire_global_token,
}

abbrev pub Request : Type 0
Request = ℕ × DeliveryClass

-- The requests of one cell, each at its time: how many were allowed, and how many of those in bulk.
pub record Tally : Type 0 where
  pub allowed : ℕ
  pub in_bulk : ℕ
  pub buckets : GlobalBuckets

abbrev count_if : Bool → ℕ → ℕ
count_if true n = suc n
count_if false n = n

module _ (network_id cell : String) (l : GlobalLimits) where
  unfoldable pub tally : List Request → GlobalBuckets → Tally
  tally [] t = record { allowed = 0; in_bulk = 0; buckets = t }
  tally ((now, class) ∷ rest) t =
      let (t', ok) = acquire_global_token network_id cell l class now t in
      let later = tally rest t' in
      record {
        allowed = count_if ok later.allowed;
        in_bulk = if is_interactive class then later.in_bulk else count_if ok later.in_bulk;
        buckets = later.buckets;
      }

-- The times of the requests do not fall, from `t` on.
abbrev pub InOrder : ℕ → List Request → Type 0
InOrder t [] = Unit
InOrder t ((now, class) ∷ rest) = (t ≤ now) × InOrder now rest

abbrev pub last_time : ℕ → List Request → ℕ
last_time t [] = t
last_time t ((now, class) ∷ rest) = last_time now rest

-- The row is missing, or was refilled at `t` and holds at most its capacities.
abbrev pub RowAt : GlobalLimits → ℕ → Option GlobalBucket → Type 0
RowAt l t none = Unit
RowAt l t (some b) =
    (b.last_refill_at ≡ t)
    × (b.total_tokens ≤ l.burst * token)
    × (b.bulk_tokens ≤ bulk_capacity l.burst * token)

abbrev total_balance : GlobalLimits → Option GlobalBucket → ℕ
total_balance l none = l.burst * token
total_balance l (some b) = b.total_tokens

abbrev bulk_balance : GlobalLimits → Option GlobalBucket → ℕ
bulk_balance l none = bulk_capacity l.burst * token
bulk_balance l (some b) = b.bulk_tokens

-- Two stretches of time earn what the whole earns.
pub earned_in_two : (r t u v : ℕ) → t ≤ u → u ≤ v → (u - t) * r + (v - u) * r ≡ (v - t) * r
earned_in_two r t u v h k = grind arith

count_if-add : (b : Bool) (n : ℕ) → count_if b n ≡ count_if b 0 + n
count_if-add true n = omega arith
count_if-add false n = omega arith

module _ (network_id cell : String) (l : GlobalLimits) where
  module _ (class : DeliveryClass) (now : ℕ) (buckets : GlobalBuckets) where
    pub lookup_after :
        lookup (network_id, cell) (acquire_global_token network_id cell l class now buckets).0
        ≡ some (acquire_global_row l class now (lookup (network_id, cell) buckets)).0
    unfolding acquire_global_token
    lookup_after = lookup-insert_self _ _ buckets

    pub allowed_by_row :
        (acquire_global_token network_id cell l class now buckets).1
        ≡ (acquire_global_row l class now (lookup (network_id, cell) buckets)).1
    unfolding acquire_global_token
    allowed_by_row = refl
