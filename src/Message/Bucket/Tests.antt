-- ===== src/Message/Bucket/Tests.antt =====
-- The limiters at small inputs.
use watt_gateway.Prelude.{
  ◌+◌, ◌-◌, ◌*◌, ◌≤◌, ◌≡◌, refl, true, false, some, List, [], ◌∷◌, arith, lookup, insert, string_eq,
  pair_eq,
}
use watt_gateway.Message.Bucket.{
  token, interactive, bulk, GlobalBuckets, ensure_bucket, GlobalBucket, GlobalLimits,
  NonGlobalBucket, acquire_global_row, acquire_global_token, acquire_non_global_delivery_tokens,
  refilled_total, refilled_bulk, global_allowed, bulk_capacity,
}
use watt_gateway.Message.Bucket.Global.{Request, tally}
use watt_gateway.Message.Bucket.Reserve.{bulk_spares_interactive, wait_admits, burst_zero_blocks}
use watt_gateway.Message.Bucket.NonGlobal.{
  delivered, delivered_bounds, second_admits, above_rate_refused,
}

abbrev limits : GlobalLimits
limits = record { total_rate = 1; bulk_rate = 1; burst = 2; policy_version = 1 }

-- Two bulk publishes at once and an interactive one: the bulk capacity is one.
abbrev requests : List Request
requests = (5, bulk) ∷ (5, bulk) ∷ (6, interactive) ∷ []

requests-tally :
    ((tally "n" "cell-0" limits requests []).allowed ≡ 2)
    × ((tally "n" "cell-0" limits requests []).in_bulk ≡ 1)
unfolding tally acquire_global_token acquire_global_row refilled_total refilled_bulk global_allowed
    bulk_capacity lookup insert
requests-tally = (refl, refl)

bulk_spares_interactive_run :
    (acquire_global_token "n" "cell-0" limits interactive 6
      (tally "n" "cell-0" limits ((5, bulk) ∷ (5, bulk) ∷ []) []).buckets).1
    ≡ true
unfolding lookup
bulk_spares_interactive_run =
    bulk_spares_interactive limits (omega arith) (omega arith) "n" "cell-0"
      ((5, bulk) ∷ (5, bulk) ∷ []) 6 [] (refl, (refl, tt)) tt

abbrev drained : GlobalBucket
drained = record {
  total_tokens = 0;
  bulk_tokens = 0;
  last_refill_at = 0;
  total_rate = 1;
  bulk_rate = 1;
  burst_capacity = 2;
  policy_version = 1;
}

wait_admits_example : (acquire_global_row limits bulk 1000000 (some drained)).1 ≡ true
wait_admits_example =
    wait_admits limits bulk 1000000 drained (omega arith) (omega arith) (λ _. omega arith)

burst_zero_blocks_example :
    (acquire_global_token "n" "cell-0" (record limits { burst = 0 }) interactive 9 []).1 ≡ false
burst_zero_blocks_example =
    burst_zero_blocks "n" "cell-0" (record limits { burst = 0 }) interactive 9 [] refl

delivered_bounds_run :
    delivered "n" "cell-0" 3 1 ((5, 2) ∷ (5, 2) ∷ []) [] * token ≤ 3 * token + (5 - 0) * 3
unfolding lookup
delivered_bounds_run =
    delivered_bounds "n" "cell-0" 3 1 0 ((5, 2) ∷ (5, 2) ∷ []) [] (omega arith) tt

abbrev spent : NonGlobalBucket
spent = record { tokens = 0; last_refill_at = 0; rate = 3; burst_capacity = 3; policy_version = 1 }

second_of_waiting_is_enough :
    (acquire_non_global_delivery_tokens "n" "cell-0" 3 3 1 1000000
      ((("n", "cell-0"), spent) ∷ [])).1
    ≡ true
unfolding lookup
second_of_waiting_is_enough =
    second_admits "n" "cell-0" 3 3 1 1000000 ((("n", "cell-0"), spent) ∷ []) spent refl
      (omega arith) (omega arith)

big_publish_is_refused : acquire_non_global_delivery_tokens "n" "cell-0" 4 3 1 5 [] ≡ ([], false)
big_publish_is_refused = above_rate_refused "n" "cell-0" 4 3 1 5 [] (omega arith)

-- The first interactive publish of a network, at a rate of 100 and a burst of 20.
abbrev pub first_limits : GlobalLimits
first_limits = record { total_rate = 100; bulk_rate = 90; burst = 20; policy_version = 1 }

abbrev pub first_buckets : GlobalBuckets
first_buckets =
    (
      ("network", "cell-0"),
      record {
        total_tokens = 19000000;
        bulk_tokens = 19000000;
        last_refill_at = 1000;
        total_rate = 100;
        bulk_rate = 90;
        burst_capacity = 20;
        policy_version = 1;
      },
    )
    ∷ []

pub first_token :
    acquire_global_token "network" "cell-0" first_limits interactive 1000 [] ≡ (first_buckets, true)
unfolding acquire_global_token acquire_global_row ensure_bucket refilled_total refilled_bulk
    bulk_capacity global_allowed lookup insert
first_token = refl
