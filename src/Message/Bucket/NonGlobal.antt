-- ===== src/Message/Bucket/NonGlobal.antt =====
-- The limiter of Group and Region fanout of crates/message-gateway/src/db.rs.
use watt_gateway.Prelude.{
  ℕ, ◌+◌, ◌-◌, ◌*◌, ◌≤◌, ◌<◌, ◌≡◌, String, true, false, ◌||◌, Option, none, some, List, [], ◌∷◌,
  arith, ltb, ◌==◌, if◌then◌else◌, lookup, string_eq, pair_eq, lookup-insert_self, Bool-cases, inl,
  inr,
}
use watt_gateway.Message.Bucket.{
  token, NonGlobalBucket, NonGlobalBuckets, refilled, acquire_non_global_row,
  acquire_non_global_delivery_tokens,
}
use watt_gateway.Message.Bucket.Global.{earned_in_two}

-- A request is its time and its cost, the number of recipients.
abbrev pub Fanout : Type 0
Fanout = ℕ × ℕ

abbrev pub InOrder : ℕ → List Fanout → Type 0
InOrder t [] = Unit
InOrder t ((now, cost) ∷ rest) = (t ≤ now) × InOrder now rest

abbrev pub last_time : ℕ → List Fanout → ℕ
last_time t [] = t
last_time t ((now, cost) ∷ rest) = last_time now rest

last_time-le : (t : ℕ) (reqs : List Fanout) → InOrder t reqs → t ≤ last_time t reqs
last_time-le t [] o = omega arith
last_time-le t ((now, cost) ∷ rest) o = omega (arith, last_time-le now rest o.1)

-- The row is missing, or was refilled no later than `t` and holds at most a second's worth.
abbrev pub RowBy : ℕ → ℕ → Option NonGlobalBucket → Type 0
RowBy rate t none = Unit
RowBy rate t (some b) = (b.last_refill_at ≤ t) × (b.tokens ≤ rate * token)

-- What the row is worth at `t`: its tokens and what it has earned since its last refill.
abbrev pub worth : ℕ → ℕ → Option NonGlobalBucket → ℕ
worth rate t none = rate * token
worth rate t (some b) = b.tokens + (t - b.last_refill_at) * rate

module _ (network_id cell : String) (rate policy : ℕ) where
  -- The deliveries that the requests of one cell are allowed, in all.
  pub delivered : List Fanout → NonGlobalBuckets → ℕ
  delivered [] t = 0
  delivered ((now, cost) ∷ rest) t =
      let (t', ok) = acquire_non_global_delivery_tokens network_id cell cost rate policy now t in
      let later = delivered rest t' in if ok then cost + later else later

module _ (rate policy cost now : ℕ) where
  row_RowBy :
      (row : Option NonGlobalBucket)
      → RowBy rate now (some (acquire_non_global_row cost rate policy now row).0)
  unfolding acquire_non_global_row refilled
  row_RowBy none = (omega arith, ground arith)
  row_RowBy (some b) = (omega arith, ground arith)

  row_spends :
      (row : Option NonGlobalBucket)
      → RowBy rate now row
      → ((if (acquire_non_global_row cost rate policy now row).1 then cost else 0) * token
            + worth rate now (some (acquire_non_global_row cost rate policy now row).0)
          ≤ worth rate now row)
  unfolding acquire_non_global_row refilled
  row_spends none h = ground arith
  row_spends (some b) h = ground arith

worth_later :
    (rate t now : ℕ) (row : Option NonGlobalBucket)
    → t ≤ now
    → RowBy rate t row
    → (worth rate now row ≤ worth rate t row + (now - t) * rate) × RowBy rate now row
worth_later rate t now none o h = (omega arith, tt)
worth_later rate t now (some b) o h =
    (omega (arith, earned_in_two rate b.last_refill_at t now h.0 o), (omega arith, h.1))

second_earns : (d rate : ℕ) → token ≤ d → rate * token ≤ d * rate
second_earns d rate h = grind arith

module _ (network_id cell : String) (rate policy : ℕ) where
  abbrev pub row_of : NonGlobalBuckets → Option NonGlobalBucket
  row_of = lookup (network_id, cell)

  step_spends :
      (cost now : ℕ) (buckets : NonGlobalBuckets)
      → RowBy rate now (row_of buckets)
      → let after =
          acquire_non_global_delivery_tokens network_id cell cost rate policy now buckets in
        RowBy rate now (row_of after.0)
        × ((if after.1 then cost else 0) * token + worth rate now (row_of after.0)
            ≤ worth rate now (row_of buckets))
  unfolding acquire_non_global_delivery_tokens
  step_spends cost now buckets h = elim (Bool-cases (cost == 0)) [
    | inl free ↦ rw free (h, ground arith)
    | inr paid ↦ rw paid (elim (Bool-cases (rate == 0 || ltb rate cost)) [
      | inl refused ↦ rw refused (h, omega arith)
      | inr asked ↦
          rw (asked, lookup-insert_self (network_id, cell) _ buckets)
            (
              row_RowBy rate policy cost now (row_of buckets),
              ground (arith, row_spends rate policy cost now (row_of buckets) h),
            )
    ])
  ]

  -- Over any requests of a cell in the order of their times, the deliveries allowed are at most
  -- one second's worth and what the rate earned since `t`, at or after the last refill.
  pub delivered_bounds :
      (t : ℕ) (reqs : List Fanout) (buckets : NonGlobalBuckets)
      → InOrder t reqs
      → RowBy rate t (row_of buckets)
      → (delivered network_id cell rate policy reqs buckets * token
          ≤ worth rate t (row_of buckets) + (last_time t reqs - t) * rate)
  unfolding delivered
  delivered_bounds t [] buckets o h = omega arith
  delivered_bounds t ((now, cost) ∷ rest) buckets o h =
      let (later, h') = worth_later rate t now (row_of buckets) o.0 h in
      let after = acquire_non_global_delivery_tokens network_id cell cost rate policy now buckets in
      let (h'', spent) = step_spends cost now buckets h' in
      ground (
        arith,
        delivered_bounds now rest after.0 o.1 h'',
        spent,
        later,
        earned_in_two rate t now (last_time now rest) o.0 (last_time-le now rest o.1),
      )

-- A fanout that costs at most the rate is allowed a second after the last refill at the latest.
pub second_admits :
    (network_id cell : String) (cost rate policy now : ℕ) (buckets : NonGlobalBuckets)
    (b : NonGlobalBucket)
    → lookup (network_id, cell) buckets ≡ some b
    → cost ≤ rate
    → b.last_refill_at + token ≤ now
    → (acquire_non_global_delivery_tokens network_id cell cost rate policy now buckets).1 ≡ true
unfolding acquire_non_global_delivery_tokens acquire_non_global_row refilled
second_admits network_id cell cost rate policy now buckets b e h w =
    ground (arith, second_earns (now - b.last_refill_at) rate (omega arith))

-- A fanout that costs more than the rate is refused at any time, and changes no balance.
pub above_rate_refused :
    (network_id cell : String) (cost rate policy now : ℕ) (buckets : NonGlobalBuckets)
    → rate < cost
    → acquire_non_global_delivery_tokens network_id cell cost rate policy now buckets
      ≡ (buckets, false)
unfolding acquire_non_global_delivery_tokens
above_rate_refused network_id cell cost rate policy now buckets h = ground arith
