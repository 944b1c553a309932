-- ===== src/Message/Bucket.antt =====
-- The two rate limiters of a routing cell, `acquire_global_token`,
-- `acquire_non_global_delivery_tokens` and `ensure_bucket` of
-- crates/message-gateway/src/db.rs. A transaction that holds the row's lock is one step. Times
-- are in microseconds, the database's unit; an amount of tokens (a `f64` there) is counted in
-- millionths, in which a refill at a whole rate per second is exact.
pub mod Global
pub mod Reserve
pub mod NonGlobal
pub mod Tests
use watt_gateway.Prelude.{
  ℕ, ◌+◌, ◌-◌, ◌*◌, ◌≡◌, ◌↔◌, refl, min, max, String, Bool, true, false, ◌&&◌, ◌||◌, Option, none,
  some, ltb, leb, ◌==◌, if◌then◌else◌, Eq, string_eq, pair_eq, Table, lookup, insert,
}

-- One token, in millionths.
abbrev pub token : ℕ
token = 1000000

pub data DeliveryClass : Type 0 where
  interactive bulk : DeliveryClass

abbrev pub is_interactive : DeliveryClass → Bool
is_interactive interactive = true
is_interactive bulk = false

abbrev pub class_beq : DeliveryClass → DeliveryClass → Bool
class_beq interactive interactive = true
class_beq bulk bulk = true
class_beq _ _ = false

pub class_beq_iff : (a b : DeliveryClass) → (class_beq a b ≡ true) ↔ (a ≡ b)
class_beq_iff interactive interactive = (λ h. refl, λ h. refl)
class_beq_iff interactive bulk = (λ h. cc, λ h. cc)
class_beq_iff bulk interactive = (λ h. cc, λ h. cc)
class_beq_iff bulk bulk = (λ h. refl, λ h. refl)

instance abbrev pub class_eq : Eq DeliveryClass
class_eq = record { beq = class_beq; beq_iff = class_beq_iff }

-- A row of `gateway_global_rate_buckets`.
pub record GlobalBucket : Type 0 where
  pub total_tokens : ℕ
  pub bulk_tokens : ℕ
  pub last_refill_at : ℕ
  pub total_rate : ℕ
  pub bulk_rate : ℕ
  pub burst_capacity : ℕ
  pub policy_version : ℕ

-- The arguments that `publish` passes on from the configuration.
pub record GlobalLimits : Type 0 where
  pub total_rate : ℕ
  pub bulk_rate : ℕ
  pub burst : ℕ
  pub policy_version : ℕ

-- `burst.saturating_sub(1).max(1)`
pub bulk_capacity : ℕ → ℕ
bulk_capacity burst = max (burst - 1) 1

-- `ensure_bucket`: a missing row is inserted full, and a present one is left.
pub ensure_bucket : GlobalLimits → ℕ → Option GlobalBucket → GlobalBucket
ensure_bucket l now (some b) = b
ensure_bucket l now none = record {
  total_tokens = l.burst * token;
  bulk_tokens = bulk_capacity l.burst * token;
  last_refill_at = now;
  total_rate = l.total_rate;
  bulk_rate = l.bulk_rate;
  burst_capacity = l.burst;
  policy_version = l.policy_version;
}

-- The balances after the refill: `now - last` is 0 where the clock went back.
pub refilled_total : GlobalLimits → ℕ → GlobalBucket → ℕ
refilled_total l now b =
    min (b.total_tokens + (now - b.last_refill_at) * l.total_rate) (l.burst * token)

pub refilled_bulk : GlobalLimits → ℕ → GlobalBucket → ℕ
refilled_bulk l now b =
    min (b.bulk_tokens + (now - b.last_refill_at) * l.bulk_rate) (bulk_capacity l.burst * token)

pub global_allowed : DeliveryClass → ℕ → ℕ → Bool
global_allowed class total available =
    leb token total && (is_interactive class || leb token available)

pub acquire_global_row :
    GlobalLimits → DeliveryClass → ℕ → Option GlobalBucket → GlobalBucket × Bool
unfolding ensure_bucket
acquire_global_row l class now row =
    let b = ensure_bucket l now row in
    let total = refilled_total l now b in
    let available = refilled_bulk l now b in
    let allowed = global_allowed class total available in
    (
      record {
        total_tokens = if allowed then total - token else total;
        bulk_tokens =
            if allowed
            then (if is_interactive class then available else available - token)
            else available;
        last_refill_at = now;
        total_rate = l.total_rate;
        bulk_rate = l.bulk_rate;
        burst_capacity = l.burst;
        policy_version = l.policy_version;
      },
      allowed,
    )

abbrev pub GlobalBuckets : Type 0
GlobalBuckets = Table (String × String) GlobalBucket

-- `acquire_global_token`, on the table keyed by network and routing cell.
pub acquire_global_token :
    String → String → GlobalLimits → DeliveryClass → ℕ → GlobalBuckets → GlobalBuckets × Bool
acquire_global_token network_id cell l class now t =
    let (b, allowed) = acquire_global_row l class now (lookup (network_id, cell) t) in
    (insert (network_id, cell) b t, allowed)

-- A row of `gateway_non_global_rate_buckets`.
pub record NonGlobalBucket : Type 0 where
  pub tokens : ℕ
  pub last_refill_at : ℕ
  pub rate : ℕ
  pub burst_capacity : ℕ
  pub policy_version : ℕ

-- `on conflict do nothing`
pub ensure_non_global : ℕ → ℕ → ℕ → Option NonGlobalBucket → NonGlobalBucket
ensure_non_global rate policy now (some b) = b
ensure_non_global rate policy now none = record {
  tokens = rate * token;
  last_refill_at = now;
  rate = rate;
  burst_capacity = rate;
  policy_version = policy;
}

pub refilled : ℕ → ℕ → NonGlobalBucket → ℕ
refilled rate now b = min (b.tokens + (now - b.last_refill_at) * rate) (rate * token)

pub acquire_non_global_row : ℕ → ℕ → ℕ → ℕ → Option NonGlobalBucket → NonGlobalBucket × Bool
unfolding ensure_non_global
acquire_non_global_row cost rate policy now row =
    let available = refilled rate now (ensure_non_global rate policy now row) in
    let allowed = leb (cost * token) available in
    (
      record {
        tokens = if allowed then available - cost * token else available;
        last_refill_at = now;
        rate = rate;
        burst_capacity = rate;
        policy_version = policy;
      },
      allowed,
    )

abbrev pub NonGlobalBuckets : Type 0
NonGlobalBuckets = Table (String × String) NonGlobalBucket

-- `acquire_non_global_delivery_tokens`, with its two early returns.
pub acquire_non_global_delivery_tokens :
    String → String → ℕ → ℕ → ℕ → ℕ → NonGlobalBuckets → NonGlobalBuckets × Bool
acquire_non_global_delivery_tokens network_id cell cost rate policy now t =
    if cost == 0
    then (t, true)
    else if (rate == 0 || ltb rate cost)
    then (t, false)
    else (let (b, allowed) =
          acquire_non_global_row cost rate policy now (lookup (network_id, cell) t) in
        (insert (network_id, cell) b t, allowed))
