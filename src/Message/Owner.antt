-- ===== src/Message/Owner.antt =====
-- The owner of a mailbox's deliveries: `mailbox_binding_key`, `try_acquire_delivery_owner`,
-- `load_delivery_owner` and `release_delivery_owner` of crates/message-gateway/src/db.rs, and the
-- clean-up of expired owners. A text is its bytes, an epoch (a `Uuid`) a number, a time and a
-- lease are in milliseconds, and `clock_timestamp()` is an argument of each statement.
pub mod Keys
pub mod Lease
mod Tests
use watt_gateway.Prelude.{
  ℕ, ◌+◌, Bool, true, false, ◌&&◌, ◌||◌, Option, none, some, List, [], ◌∷◌, ◌++◌, leb, ltb, ◌==◌,
  if◌then◌else◌, length, Bytes, bytes_beq, decimal, Eq, bytes_eq, pair_eq, Table, lookup, insert,
  delete,
}
use watt_gateway.Message.Bucket.{DeliveryClass, class_eq}

-- `format!("{}:{network_id}{principal_id}", network_id.len())`
pub mailbox_binding_key : Bytes → Bytes → Bytes
mailbox_binding_key network_id principal_id =
    decimal (length network_id) (b':' ∷ network_id ++ principal_id)

-- A row of `gateway_delivery_owners`.
pub record OwnerRow : Type 0 where
  pub owner_instance_id : Bytes
  pub consumer_epoch : ℕ
  pub lease_expires_at : ℕ
  pub owner_route : Bytes

pub record DeliveryOwner : Type 0 where
  pub instance_id : Bytes
  pub consumer_epoch : ℕ
  pub owner_route : Bytes

abbrev pub Key : Type 0
Key = Bytes × DeliveryClass

abbrev pub Owners : Type 0
Owners = Table Key OwnerRow

abbrev pub mailbox : Bytes → Bytes → DeliveryClass → Key
mailbox network_id principal_id class = (mailbox_binding_key network_id principal_id, class)

-- `owner_route.unwrap_or_default()`
abbrev pub route_or_default : Option Bytes → Bytes
route_or_default none = []
route_or_default (some route) = route

-- The `where` of the upsert: a stored row yields to an expired lease or to its own epoch.
pub may_replace : ℕ → ℕ → Option OwnerRow → Bool
may_replace epoch now none = true
may_replace epoch now (some row) = leb row.lease_expires_at now || row.consumer_epoch == epoch

pub try_acquire_delivery_owner : Key → Bytes → ℕ → Option Bytes → ℕ → ℕ → Owners → Owners × Bool
try_acquire_delivery_owner key instance_id epoch route lease now t =
    if may_replace epoch now (lookup key t)
    then (
      insert key
          (record {
            owner_instance_id = instance_id;
            consumer_epoch = epoch;
            lease_expires_at = now + lease;
            owner_route = route_or_default route;
          })
          t,
      true,
    )
    else (t, false)

-- The row's columns, where its lease has not run out.
pub live_owner : ℕ → Option OwnerRow → Option DeliveryOwner
live_owner now none = none
live_owner now (some row) =
    if ltb now row.lease_expires_at
    then some (record {
      instance_id = row.owner_instance_id;
      consumer_epoch = row.consumer_epoch;
      owner_route = row.owner_route;
    })
    else none

pub load_delivery_owner : Key → ℕ → Owners → Option DeliveryOwner
load_delivery_owner key now t = live_owner now (lookup key t)

pub is_held_by : Bytes → ℕ → Option OwnerRow → Bool
is_held_by instance_id epoch none = false
is_held_by instance_id epoch (some row) =
    bytes_beq row.owner_instance_id instance_id && row.consumer_epoch == epoch

pub release_delivery_owner : Key → Bytes → ℕ → Owners → Owners × Bool
release_delivery_owner key instance_id epoch t =
    if is_held_by instance_id epoch (lookup key t) then (delete key t, true) else (t, false)

-- `DELETE … WHERE lease_expires_at <= clock_timestamp()` of `cleanup_expired_metadata`
pub cleanup_owners : ℕ → Owners → Owners
cleanup_owners now [] = []
cleanup_owners now ((key, row) ∷ t) =
    let rest = cleanup_owners now t in
    if leb row.lease_expires_at now then rest else (key, row) ∷ rest
