-- ===== src/Message/Config/Tests.antt =====
-- The configuration of the unit tests of crates/message-gateway/src/config.rs, and what the
-- theorems say of it.
use watt_gateway.Prelude.{
  ℕ, ◌≡◌, refl, String, Option, none, some, List, [], ◌∷◌, arith, ok, err, is_blank, saturating_mul,
  saturating_add,
}
use watt_gateway.Message.Config.{
  Config, validate, delivery_rate_exceeded, forwarding_incomplete, validate_transport,
  limits_are_zero, validate_identities, forwarding_is_partial, internal_values,
  genesis_entry_is_invalid, is_node_id, validate_capacity, admitted_queues, queue_budget,
  global_rates_are_invalid, safe_delivery_rate, required_delivery_rate,
}
use watt_gateway.Message.Config.Valid.{Fits, IsValid, validate-IsValid, validate_of_IsValid}

abbrev secret : List ℕ
secret =
    1 ∷ 1 ∷ 1 ∷ 1 ∷ 1 ∷ 1 ∷ 1 ∷ 1 ∷ 1 ∷ 1 ∷ 1 ∷ 1 ∷ 1 ∷ 1 ∷ 1 ∷ 1 ∷ 1 ∷ 1 ∷ 1 ∷ 1 ∷ 1 ∷ 1 ∷ 1 ∷ 1
    ∷ 1 ∷ 1 ∷ 1 ∷ 1 ∷ 1 ∷ 1 ∷ 1 ∷ 1 ∷ []

abbrev pub sample : Config
sample = record {
  bind_addr = "127.0.0.1:8090";
  database_url = "postgres://secret";
  rabbitmq_endpoint = "amqps://broker/vhost";
  rabbitmq_username = "user";
  rabbitmq_password = "contract-secret-password";
  rabbitmq_prefetch = 128;
  delivery_page_size = 64;
  mailbox_message_ttl_ms = 1000;
  mailbox_max_length_bytes = 1000000;
  dead_letter_max_length_bytes = 1000000;
  max_delivery_attempts = 10;
  cluster_queue_limit = 1100;
  mailbox_shard_admission_percent = 80;
  max_active_tenants = 400;
  max_fanout_recipients = 400;
  max_fanout_deliveries_per_second = 100000;
  max_fanout_bytes_per_publish = 67108864;
  fanout_confirm_timeout = 10000;
  max_global_publishes_per_second = 100;
  global_publish_burst = 20;
  global_interactive_reserved_per_second = 10;
  reserved_non_global_deliveries_per_second = 10000;
  fanout_admission_utilization_percent = 80;
  commit_hmac_secret = secret;
  session_ttl = 900000;
  object_store_root = none;
  max_object_bytes = 67108864;
  membership_binding_timeout = 10000;
  membership_mutation_window = 60000;
  max_membership_mutations_per_scope_per_window = 100;
  max_membership_binding_lag = 30000;
  instance_id = "gateway-test";
  internal_route = none;
  internal_bind_addr = none;
  internal_mtls_identity_pem = none;
  internal_mtls_ca_pem = none;
  delivery_owner_lease = 30000;
  delivery_commit_forward_timeout = 5000;
  metadata_cleanup_interval = 60000;
  acknowledged_gap_retention = 86400000;
  trusted_network_genesis = ("network", "genesis") ∷ [];
}

-- A decoder that reads every text as 32 bytes.
abbrev pub thirty_two : String → Option (List ℕ)
thirty_two _ = some secret

pub sample_passes : validate thirty_two sample ≡ ok tt
unfolding validate validate_transport limits_are_zero validate_identities forwarding_is_partial
    genesis_entry_is_invalid is_blank is_node_id validate_capacity admitted_queues saturating_mul
    queue_budget saturating_add global_rates_are_invalid safe_delivery_rate required_delivery_rate
sample_passes = refl

-- As in the unit tests: ten deliveries a second are too few.
abbrev slow : Config
slow = record sample { max_fanout_deliveries_per_second = 10 }

slow_fails : validate thirty_two slow ≡ err delivery_rate_exceeded
unfolding validate validate_transport limits_are_zero validate_identities forwarding_is_partial
    genesis_entry_is_invalid is_blank is_node_id validate_capacity admitted_queues saturating_mul
    queue_budget saturating_add global_rates_are_invalid safe_delivery_rate required_delivery_rate
slow_fails = refl

-- A route without its listener, identity and authority.
abbrev half_forwarding : Config
half_forwarding = record sample { internal_route = some "https://gateway-a.internal:8443" }

half_forwarding_fails : validate thirty_two half_forwarding ≡ err forwarding_incomplete
unfolding validate validate_transport limits_are_zero validate_identities forwarding_is_partial
    internal_values
half_forwarding_fails = refl

sample-Fits : Fits sample
sample-Fits = omega arith

validate-IsValid_example : IsValid thirty_two sample
validate-IsValid_example = validate-IsValid thirty_two sample sample_passes

validate_of_IsValid_run : validate thirty_two sample ≡ ok tt
validate_of_IsValid_run =
    validate_of_IsValid thirty_two sample sample-Fits
      (validate-IsValid thirty_two sample sample_passes)
