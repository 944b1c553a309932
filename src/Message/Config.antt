-- ===== src/Message/Config.antt =====
-- crates/message-gateway/src/config.rs: the configuration and its validation. A `Duration` is its
-- number of milliseconds, an address or a path its text, and `hex::decode` an argument.
pub mod Valid
pub mod Tests
use text.Mathlib.Text.{starts_with}
use watt_gateway.Prelude.{
  ℕ, ◌*◌, ◌/◌, String, Bool, true, false, not, ◌&&◌, ◌||◌, Option, none, some, List, [], ◌∷◌, ltb,
  ◌==◌, str_eq, any, length, Result, ok, err, bail_if, ◌>>=◌, ◌>>◌, saturating_add, saturating_mul,
  is_blank,
}

pub record Config : Type 0 where
  pub bind_addr : String
  pub database_url : String
  pub rabbitmq_endpoint : String
  pub rabbitmq_username : String
  pub rabbitmq_password : String
  pub rabbitmq_prefetch : ℕ
  pub delivery_page_size : ℕ
  pub mailbox_message_ttl_ms : ℕ
  pub mailbox_max_length_bytes : ℕ
  pub dead_letter_max_length_bytes : ℕ
  pub max_delivery_attempts : ℕ
  pub cluster_queue_limit : ℕ
  pub mailbox_shard_admission_percent : ℕ
  pub max_active_tenants : ℕ
  pub max_fanout_recipients : ℕ
  pub max_fanout_deliveries_per_second : ℕ
  pub max_fanout_bytes_per_publish : ℕ
  pub fanout_confirm_timeout : ℕ
  pub max_global_publishes_per_second : ℕ
  pub global_publish_burst : ℕ
  pub global_interactive_reserved_per_second : ℕ
  pub reserved_non_global_deliveries_per_second : ℕ
  pub fanout_admission_utilization_percent : ℕ
  pub commit_hmac_secret : List ℕ
  pub session_ttl : ℕ
  pub object_store_root : Option String
  pub max_object_bytes : ℕ
  pub membership_binding_timeout : ℕ
  pub membership_mutation_window : ℕ
  pub max_membership_mutations_per_scope_per_window : ℕ
  pub max_membership_binding_lag : ℕ
  pub instance_id : String
  pub internal_route : Option String
  pub internal_bind_addr : Option String
  pub internal_mtls_identity_pem : Option (List ℕ)
  pub internal_mtls_ca_pem : Option (List ℕ)
  pub delivery_owner_lease : ℕ
  pub delivery_commit_forward_timeout : ℕ
  pub metadata_cleanup_interval : ℕ
  pub acknowledged_gap_retention : ℕ
  -- `BTreeMap<String, String>`: network id to genesis node id
  pub trusted_network_genesis : List (String × String)

pub data ConfigError : Type 0 where
  endpoint_not_amqps : ConfigError
  secrets_missing : ConfigError
  page_or_prefetch_zero : ConfigError
  object_size_zero : ConfigError
  limits_zero : ConfigError
  route_not_https : ConfigError
  forwarding_incomplete : ConfigError
  recipients_below_tenants : ConfigError
  genesis_entry_invalid : ConfigError
  queue_budget_exceeded : ConfigError
  global_rates_invalid : ConfigError
  delivery_rate_exceeded : ConfigError

abbrev pub is_some {ℓ} : {A : Type ℓ} → Option A → Bool
is_some none = false
is_some (some _) = true

-- `value.as_deref().is_some_and(test)`
abbrev pub is_some_and {ℓ} : {A : Type ℓ} → (A → Bool) → Option A → Bool
is_some_and test none = false
is_some_and test (some a) = test a

-- `matches!(hex::decode(text), Ok(bytes) if bytes.len() == 32)`
pub is_node_id : (String → Option (List ℕ)) → String → Bool
is_node_id hex_decode text = is_some_and (λ bytes. length bytes == 32) (hex_decode text)

pub limits_are_zero : Config → Bool
limits_are_zero c =
    c.max_membership_mutations_per_scope_per_window == 0
    || c.membership_binding_timeout == 0
    || c.membership_mutation_window == 0
    || c.max_membership_binding_lag == 0
    || c.delivery_owner_lease == 0
    || c.delivery_commit_forward_timeout == 0
    || c.metadata_cleanup_interval == 0
    || c.acknowledged_gap_retention == 0
    || c.fanout_confirm_timeout == 0

pub internal_values : Config → List Bool
internal_values c =
    is_some c.internal_route
    ∷ is_some c.internal_bind_addr
    ∷ is_some c.internal_mtls_identity_pem
    ∷ is_some c.internal_mtls_ca_pem
    ∷ []

pub forwarding_is_partial : Config → Bool
unfolding internal_values
forwarding_is_partial c =
    any (λ configured. configured) (internal_values c) && any not (internal_values c)

pub genesis_entry_is_invalid : (String → Option (List ℕ)) → String × String → Bool
genesis_entry_is_invalid hex_decode (network_id, genesis_node_id) =
    is_blank network_id || not (is_node_id hex_decode genesis_node_id)

-- The three budgets of the cell for a number of active tenants, as `validate` computes them.
unfoldable pub queue_budget : ℕ → ℕ
queue_budget active = saturating_add (saturating_mul active 2) 16

unfoldable pub admitted_queues : Config → ℕ
admitted_queues c = saturating_mul c.cluster_queue_limit c.mailbox_shard_admission_percent / 100

unfoldable pub required_delivery_rate : Config → ℕ → ℕ
required_delivery_rate c active =
    saturating_add (saturating_mul c.max_global_publishes_per_second active)
      c.reserved_non_global_deliveries_per_second

unfoldable pub safe_delivery_rate : Config → ℕ
safe_delivery_rate c =
    saturating_mul c.max_fanout_deliveries_per_second c.fanout_admission_utilization_percent / 100

pub global_rates_are_invalid : Config → Bool
global_rates_are_invalid c =
    c.max_global_publishes_per_second == 0
    || c.global_interactive_reserved_per_second == 0
    || ltb c.max_global_publishes_per_second c.global_interactive_reserved_per_second
    || c.reserved_non_global_deliveries_per_second == 0

-- The first five checks of `validate`, and those on the forwarding and the trusted map.
pub validate_transport : Config → Result ConfigError (Unit {0})
validate_transport c = do
  bail_if (not (starts_with c.rabbitmq_endpoint "amqps://")) endpoint_not_amqps
  bail_if (str_eq c.rabbitmq_password "" || ltb (length c.commit_hmac_secret) 32) secrets_missing
  bail_if (c.delivery_page_size == 0 || c.rabbitmq_prefetch == 0) page_or_prefetch_zero
  bail_if
      (c.max_object_bytes == 0
        || c.max_fanout_bytes_per_publish == 0
        || c.dead_letter_max_length_bytes == 0)
      object_size_zero
  bail_if (limits_are_zero c) limits_zero

pub validate_identities : (String → Option (List ℕ)) → Config → Result ConfigError (Unit {0})
validate_identities hex_decode c = do
  bail_if (is_some_and (λ route. not (starts_with route "https://")) c.internal_route)
      route_not_https
  bail_if (forwarding_is_partial c) forwarding_incomplete
  bail_if (ltb c.max_fanout_recipients c.max_active_tenants) recipients_below_tenants
  bail_if (any (genesis_entry_is_invalid hex_decode) c.trusted_network_genesis)
      genesis_entry_invalid

pub validate_capacity : Config → Result ConfigError (Unit {0})
validate_capacity c = do
  bail_if (ltb (admitted_queues c) (queue_budget c.max_active_tenants)) queue_budget_exceeded
  bail_if (global_rates_are_invalid c) global_rates_invalid
  bail_if (ltb (safe_delivery_rate c) (required_delivery_rate c c.max_active_tenants))
      delivery_rate_exceeded

pub validate : (String → Option (List ℕ)) → Config → Result ConfigError (Unit {0})
validate hex_decode c = do
  validate_transport c
  validate_identities hex_decode c
  validate_capacity c
