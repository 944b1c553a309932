-- ===== src/Message/Config/Valid.antt =====
-- What `Config::validate` guarantees (crates/message-gateway/src/config.rs), in exact arithmetic.
use text.Mathlib.Text.{starts_with}
use watt_gateway.Prelude.{
  ℕ, ◌+◌, ◌*◌, ◌/◌, ◌≤◌, ◌<◌, String, true, false, not, Option, List, [], ◌∷◌, ◌≡◌, ◌≢◌, refl,
  arith, All, any, length, ok, saturating_add, saturating_mul, is_blank, u64_max, eq_iff, >>=-eq-ok,
}
use watt_gateway.Message.Config.{
  Config, is_some, is_some_and, is_node_id, limits_are_zero, internal_values, forwarding_is_partial,
  genesis_entry_is_invalid, queue_budget, admitted_queues, required_delivery_rate,
  safe_delivery_rate, global_rates_are_invalid, validate_transport, validate_identities,
  validate_capacity, validate,
}

abbrev pub IsHttps : String → Type 0
IsHttps route = starts_with route "https://" ≡ true

abbrev pub IsGenesisEntry : (String → Option (List ℕ)) → String × String → Type 0
IsGenesisEntry hex_decode (network_id, node_id) =
    (is_blank network_id ≡ false) × (is_node_id hex_decode node_id ≡ true)

-- Secrets, sizes and times of a usable configuration.
pub record HasTransport (c : Config) : Type 0 where
  pub amqps : starts_with c.rabbitmq_endpoint "amqps://" ≡ true
  pub password : c.rabbitmq_password ≢ ""
  pub secret : 32 ≤ length c.commit_hmac_secret
  pub page : 0 < c.delivery_page_size
  pub prefetch : 0 < c.rabbitmq_prefetch
  pub object_bytes : 0 < c.max_object_bytes
  pub fanout_bytes : 0 < c.max_fanout_bytes_per_publish
  pub dead_letter_bytes : 0 < c.dead_letter_max_length_bytes
  pub mutations : 0 < c.max_membership_mutations_per_scope_per_window
  pub binding_timeout : 0 < c.membership_binding_timeout
  pub window : 0 < c.membership_mutation_window
  pub binding_lag : 0 < c.max_membership_binding_lag
  pub owner_lease : 0 < c.delivery_owner_lease
  pub forward_timeout : 0 < c.delivery_commit_forward_timeout
  pub cleanup : 0 < c.metadata_cleanup_interval
  pub gap_retention : 0 < c.acknowledged_gap_retention
  pub confirm_timeout : 0 < c.fanout_confirm_timeout

pub record HasIdentities (hex_decode : String → Option (List ℕ)) (c : Config) : Type 0 where
  pub https : (route : String) → c.internal_route ≡ Option.some route → IsHttps route
  -- Owner forwarding is configured whole or not at all.
  pub forwarding_addr : is_some c.internal_route ≡ is_some c.internal_bind_addr
  pub forwarding_identity : is_some c.internal_route ≡ is_some c.internal_mtls_identity_pem
  pub forwarding_ca : is_some c.internal_route ≡ is_some c.internal_mtls_ca_pem
  pub recipients : c.max_active_tenants ≤ c.max_fanout_recipients
  pub genesis : All (IsGenesisEntry hex_decode) c.trusted_network_genesis

-- The budgets of the cell, with no saturation: two queues for each tenant and sixteen more, and
-- a Global publish to each tenant beside the reserve.
pub record HasCapacity (c : Config) (active : ℕ) : Type 0 where
  pub queues : active * 2 + 16 ≤ c.cluster_queue_limit * c.mailbox_shard_admission_percent / 100
  pub deliveries :
      c.max_global_publishes_per_second * active + c.reserved_non_global_deliveries_per_second
      ≤ c.max_fanout_deliveries_per_second * c.fanout_admission_utilization_percent / 100

pub record HasRates (c : Config) : Type 0 where
  pub publishes : 0 < c.max_global_publishes_per_second
  pub reserve : 0 < c.global_interactive_reserved_per_second
  pub reserve_fits : c.global_interactive_reserved_per_second ≤ c.max_global_publishes_per_second
  pub non_global : 0 < c.reserved_non_global_deliveries_per_second

pub record IsValid (hex_decode : String → Option (List ℕ)) (c : Config) : Type 0 where
  pub transport : HasTransport c
  pub identities : HasIdentities hex_decode c
  pub capacity : HasCapacity c c.max_active_tenants
  pub rates : HasRates c

validate_transport-HasTransport : (c : Config) → validate_transport c ≡ ok tt → HasTransport c
unfolding validate_transport limits_are_zero
validate_transport-HasTransport c h = ground (arith, eq_iff c.rabbitmq_password "")

module _ (hex_decode : String → Option (List ℕ)) where
  any-All :
      (l : List (String × String))
      → any (genesis_entry_is_invalid hex_decode) l ≡ false
      → All (IsGenesisEntry hex_decode) l
  unfolding genesis_entry_is_invalid
  any-All [] h = tt
  any-All ((n, g) ∷ l) h = ground (arith, any-All l)

  All-any :
      (l : List (String × String))
      → All (IsGenesisEntry hex_decode) l
      → any (genesis_entry_is_invalid hex_decode) l ≡ false
  unfolding genesis_entry_is_invalid
  All-any [] h = refl
  All-any ((n, g) ∷ l) h = ground (arith, All-any l h.1)

  validate_identities-HasIdentities :
      (c : Config) → validate_identities hex_decode c ≡ ok tt → HasIdentities hex_decode c
  unfolding validate_identities forwarding_is_partial internal_values
  validate_identities-HasIdentities c h = ground (arith, any-All c.trusted_network_genesis)

queues_exact :
    (c : Config) (active : ℕ)
    → queue_budget active ≤ admitted_queues c
    → active * 2 + 16 ≤ c.cluster_queue_limit * c.mailbox_shard_admission_percent / 100
unfolding queue_budget admitted_queues saturating_add saturating_mul
queues_exact c active h = omega arith

deliveries_exact :
    (c : Config) (active : ℕ)
    → required_delivery_rate c active ≤ safe_delivery_rate c
    → c.max_global_publishes_per_second * active + c.reserved_non_global_deliveries_per_second
      ≤ c.max_fanout_deliveries_per_second * c.fanout_admission_utilization_percent / 100
unfolding required_delivery_rate safe_delivery_rate saturating_add saturating_mul
deliveries_exact c active h = omega arith

-- The products on the right of the two budgets fit in a `u64`.
pub record Fits (c : Config) : Type 0 where
  pub queue_product : c.cluster_queue_limit * c.mailbox_shard_admission_percent ≤ u64_max
  pub delivery_product :
      c.max_fanout_deliveries_per_second * c.fanout_admission_utilization_percent ≤ u64_max

-- The two saturated tests are sound for the exact budgets, and complete where the products fit.
pub HasCapacity-of_tests :
    (c : Config) (active : ℕ)
    → queue_budget active ≤ admitted_queues c
    → required_delivery_rate c active ≤ safe_delivery_rate c
    → HasCapacity c active
HasCapacity-of_tests c active h k = record {
  queues = queues_exact c active h;
  deliveries = deliveries_exact c active k;
}

pub queues-le_of_HasCapacity :
    (c : Config) (active : ℕ)
    → Fits c
    → HasCapacity c active
    → queue_budget active ≤ admitted_queues c
unfolding queue_budget admitted_queues saturating_add saturating_mul
queues-le_of_HasCapacity c active f h = omega arith

pub deliveries-le_of_HasCapacity :
    (c : Config) (active : ℕ)
    → Fits c
    → HasCapacity c active
    → required_delivery_rate c active ≤ safe_delivery_rate c
unfolding required_delivery_rate safe_delivery_rate saturating_add saturating_mul
deliveries-le_of_HasCapacity c active f h = omega arith

validate_capacity-HasRates :
    (c : Config) → validate_capacity c ≡ ok tt → HasCapacity c c.max_active_tenants × HasRates c
unfolding validate_capacity global_rates_are_invalid
validate_capacity-HasRates c h = (
  ground (arith, queues_exact c c.max_active_tenants, deliveries_exact c c.max_active_tenants),
  ground arith,
)

validate_transport_of : (c : Config) → HasTransport c → validate_transport c ≡ ok tt
unfolding validate_transport limits_are_zero
validate_transport_of c h = ground (arith, eq_iff c.rabbitmq_password "")

validate_capacity_of :
    (c : Config)
    → Fits c
    → HasCapacity c c.max_active_tenants
    → HasRates c
    → validate_capacity c ≡ ok tt
unfolding validate_capacity global_rates_are_invalid
validate_capacity_of c f h r = ground (
  arith,
  queues-le_of_HasCapacity c c.max_active_tenants f h,
  deliveries-le_of_HasCapacity c c.max_active_tenants f h,
)

module _ (hex_decode : String → Option (List ℕ)) where
  route-IsHttps :
      (o : Option String)
      → ((route : String) → o ≡ Option.some route → IsHttps route)
      → is_some_and (λ route. not (starts_with route "https://")) o ≡ false
  route-IsHttps Option.none h = refl
  route-IsHttps (Option.some route) h = rw (h route refl)

  validate_identities_of :
      (c : Config) → HasIdentities hex_decode c → validate_identities hex_decode c ≡ ok tt
  unfolding validate_identities forwarding_is_partial internal_values
  validate_identities_of c h = ground (
    arith,
    route-IsHttps c.internal_route h.https,
    All-any hex_decode c.trusted_network_genesis h.genesis,
  )

  -- A configuration that passes `validate` has every property of `IsValid`: the secrets, sizes and
  -- times are set, owner forwarding is whole or absent and over HTTPS, the trusted map is well
  -- formed, and the two budgets hold in exact arithmetic, whatever saturated on the way.
  pub validate-IsValid : (c : Config) → validate hex_decode c ≡ ok tt → IsValid hex_decode c
  unfolding validate
  validate-IsValid c h =
      let (_, t, k) = >>=-eq-ok (validate_transport c) _ h in
      let (_, i, m) = >>=-eq-ok (validate_identities hex_decode c) _ k in
      record {
        transport = validate_transport-HasTransport c t;
        identities = validate_identities-HasIdentities hex_decode c i;
        capacity = (validate_capacity-HasRates c m).0;
        rates = (validate_capacity-HasRates c m).1;
      }

  -- Where the products of the budgets fit in a `u64`, `validate` accepts every configuration that
  -- has these properties.
  pub validate_of_IsValid :
      (c : Config) → Fits c → IsValid hex_decode c → validate hex_decode c ≡ ok tt
  unfolding validate
  validate_of_IsValid c f v =
      rw (validate_transport_of c v.transport, validate_identities_of c v.identities)
        (validate_capacity_of c f v.capacity v.rates)

  -- The two saturated budget tests hold at `max_active_tenants`.
  pub passes_budgets :
      (c : Config)
      → validate hex_decode c ≡ ok tt
      → (queue_budget c.max_active_tenants ≤ admitted_queues c)
        × (required_delivery_rate c c.max_active_tenants ≤ safe_delivery_rate c)
  unfolding validate validate_capacity
  passes_budgets c h =
      let (_, _, k) = >>=-eq-ok (validate_transport c) _ h in
      let (_, _, m) = >>=-eq-ok (validate_identities hex_decode c) _ k in
      (ground arith, ground arith)
