-- ===== src/Message/Owner/Tests.antt =====
-- Two instances that want the deliveries of one mailbox.
use watt_gateway.Prelude.{
  ℕ, ◌≡◌, ◌≢◌, ◌↔◌, ◌⊎◌, refl, true, false, none, some, List, [], ◌∷◌, ◌++◌, arith, Bytes, lookup,
  insert, bytes_eq, pair_eq,
}
use watt_gateway.Message.Bucket.{interactive, class_eq}
use watt_gateway.Message.Owner.{
  Key, OwnerRow, Owners, may_replace, try_acquire_delivery_owner, load_delivery_owner,
  release_delivery_owner,
}
use watt_gateway.Message.Owner.Keys.{mailbox_binding_key-injective}
use watt_gateway.Message.Owner.Lease.{
  Call, acquire, release, cleanup, run, granted, owner_of, lease_is_exclusive, owner_renews,
  acquire_iff_free, release_lem,
}

abbrev network : Bytes
network = b'n' ∷ []

abbrev key : Key
key = (b'k' ∷ [], interactive)

abbrev gateway_a : Bytes
gateway_a = b'a' ∷ []

abbrev gateway_b : Bytes
gateway_b = b'b' ∷ []

abbrev taken : Owners
taken = (key, granted gateway_a 1 none 30 0) ∷ []

a_takes_it : try_acquire_delivery_owner key gateway_a 1 none 30 0 [] ≡ (taken, true)
unfolding try_acquire_delivery_owner may_replace lookup insert
a_takes_it = refl

-- The second instance tries, fails, releases what it does not hold, and the clean-up runs.
abbrev contenders : List (ℕ × Call)
contenders =
    (10, acquire key gateway_b 2 none 30) ∷ (11, release key gateway_b 2) ∷ (29, cleanup) ∷ []

two≢one : ◌≢◌ {A = ℕ} 2 1
two≢one = omega arith

lease_is_exclusive_example :
    (load_delivery_owner key 29 (run taken contenders) ≡ some (owner_of gateway_a 1 none))
    × ((try_acquire_delivery_owner key gateway_b 2 none 30 29 (run taken contenders)).1 ≡ false)
lease_is_exclusive_example =
    lease_is_exclusive key gateway_a 1 none 30 0 [] taken contenders 29 gateway_b 2 none 30 two≢one
      a_takes_it ((omega arith, two≢one, (omega arith, two≢one, (omega arith, tt, tt))))
      (omega arith)

taken_row : lookup key taken ≡ some (granted gateway_a 1 none 30 0)
unfolding lookup
taken_row = refl

owner_renews_run :
    try_acquire_delivery_owner key gateway_a 1 none 30 20 taken
    ≡ (insert key (granted gateway_a 1 none 30 20) taken, true)
owner_renews_run =
    owner_renews key gateway_a 1 none (granted gateway_a 1 none 30 0) 30 20 taken taken_row refl

acquire_iff_free_run :
    ((try_acquire_delivery_owner key gateway_b 2 none 30 30 taken).1 ≡ true)
    ↔ (load_delivery_owner key 30 taken ≡ none)
acquire_iff_free_run =
    acquire_iff_free key gateway_b 2 none (granted gateway_a 1 none 30 0) 30 30 taken taken_row
      (λ e. two≢one (sym_of e))
  where
    sym_of : ◌≡◌ {A = ℕ} 1 2 → ◌≡◌ {A = ℕ} 2 1
    sym_of e = omega arith

release_lem_run :
    (((release_delivery_owner key gateway_b 2 taken).1 ≡ true) ↔ (
      (row : OwnerRow) × (lookup key taken ≡ some row)
      × (row.owner_instance_id ≡ gateway_b)
      × (row.consumer_epoch ≡ 2)))
    × (((release_delivery_owner key gateway_b 2 taken).1 ≡ false)
        ⊎ (load_delivery_owner key 5 (release_delivery_owner key gateway_b 2 taken).0 ≡ none))
release_lem_run = release_lem key gateway_b 2 none 5 taken

-- "1:nab" has one reading.
mailbox_binding_key-injective_run :
    (network ≡ network) × (gateway_a ++ gateway_b ≡ gateway_a ++ gateway_b)
mailbox_binding_key-injective_run =
    mailbox_binding_key-injective network (gateway_a ++ gateway_b) network (gateway_a ++ gateway_b)
      refl
