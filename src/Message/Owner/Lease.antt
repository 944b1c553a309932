-- ===== src/Message/Owner/Lease.antt =====
-- A lease on a mailbox's deliveries is exclusive until it runs out
-- (crates/message-gateway/src/db.rs).
use watt_gateway.Prelude.{
  ℕ, ◌+◌, ◌<◌, ◌≡◌, ◌≢◌, ◌↔◌, ◌⊎◌, sym, ◌∙◌, true, false, Option, none, some, List, [], ◌∷◌, arith,
  Bytes, bytes_beq_iff, Eq, bytes_eq, pair_eq, lookup, insert, lookup-insert, lookup-delete,
  lookup-insert_self, beq_refl, Option-cases, inl, inr,
}
use watt_gateway.Message.Bucket.{class_eq}
use watt_gateway.Message.Owner.{
  Key, OwnerRow, DeliveryOwner, Owners, route_or_default, may_replace, try_acquire_delivery_owner,
  live_owner, load_delivery_owner, is_held_by, release_delivery_owner, cleanup_owners,
}

-- What the instances and the clean-up task do to the table.
pub data Call : Type 0 where
  acquire : Key → Bytes → ℕ → Option Bytes → ℕ → Call
  release : Key → Bytes → ℕ → Call
  cleanup : Call

pub step : Owners → ℕ × Call → Owners
step t (now, acquire key instance_id epoch route lease) =
    (try_acquire_delivery_owner key instance_id epoch route lease now t).0
step t (now, release key instance_id epoch) = (release_delivery_owner key instance_id epoch t).0
step t (now, cleanup) = cleanup_owners now t

pub run : Owners → List (ℕ × Call) → Owners
run t [] = t
run t (c ∷ cs) = run (step t c) cs

-- A call that does not speak for the epoch.
abbrev IsForeign : ℕ → Call → Type 0
IsForeign epoch (acquire _ _ e _ _) = e ≢ epoch
IsForeign epoch (release _ _ e) = e ≢ epoch
IsForeign epoch cleanup = Unit

abbrev pub AllForeign : ℕ → ℕ → List (ℕ × Call) → Type 0
AllForeign epoch deadline [] = Unit
AllForeign epoch deadline ((now, c) ∷ cs) =
    (now < deadline) × IsForeign epoch c × AllForeign epoch deadline cs

none≢some : (r : OwnerRow) → none ≢ some r
none≢some r e = cc

abbrev key_eq : Eq Key
key_eq = pair_eq

-- The row that an acquisition writes.
abbrev pub granted : Bytes → ℕ → Option Bytes → ℕ → ℕ → OwnerRow
granted instance_id epoch route lease now = record {
  owner_instance_id = instance_id;
  consumer_epoch = epoch;
  lease_expires_at = now + lease;
  owner_route = route_or_default route;
}

module _ (key : Key) (row : OwnerRow) where
  lookup-cleanup :
      (now : ℕ) (t : Owners)
      → lookup key t ≡ some row
      → now < row.lease_expires_at
      → lookup key (cleanup_owners now t) ≡ some row
  unfolding lookup cleanup_owners
  lookup-cleanup now [] h l = h
  lookup-cleanup now ((k, r) ∷ t) h l = ground (arith, lookup-cleanup now t)

  lookup-step :
      (now : ℕ) (c : Call) (t : Owners)
      → lookup key t ≡ some row
      → now < row.lease_expires_at
      → IsForeign row.consumer_epoch c
      → lookup key (step t (now, c)) ≡ some row
  unfolding step try_acquire_delivery_owner release_delivery_owner may_replace is_held_by
  lookup-step now (acquire k i e route lease) t h l f =
      ground (arith, lookup-insert k key (granted i e route lease now) t, key_eq.beq_iff k key)
  lookup-step now (release k i e) t h l f =
      ground (arith, lookup-delete k key t, key_eq.beq_iff k key)
  lookup-step now cleanup t h l f = lookup-cleanup now t h l

  lookup-run :
      (cs : List (ℕ × Call)) (t : Owners)
      → lookup key t ≡ some row
      → AllForeign row.consumer_epoch row.lease_expires_at cs
      → lookup key (run t cs) ≡ some row
  unfolding run
  lookup-run [] t h a = h
  lookup-run ((now, c) ∷ cs) t h a =
      lookup-run cs (step t (now, c)) (lookup-step now c t h a.0 a.1) a.2

abbrev pub owner_of : Bytes → ℕ → Option Bytes → DeliveryOwner
owner_of instance_id epoch route = record {
  instance_id = instance_id;
  consumer_epoch = epoch;
  owner_route = route_or_default route;
}

module _ (key : Key) (instance_id : Bytes) (epoch : ℕ) (route : Option Bytes) where
  -- After an acquisition that succeeds, whatever other epochs acquire or release and however often
  -- the clean-up runs before the lease ends, the mailbox has this owner, and no other epoch can
  -- acquire it.
  pub lease_is_exclusive :
      (lease now : ℕ) (t t' : Owners) (cs : List (ℕ × Call)) (later : ℕ) (i : Bytes) (e : ℕ)
      (r : Option Bytes) (d : ℕ)
      → e ≢ epoch
      → try_acquire_delivery_owner key instance_id epoch route lease now t ≡ (t', true)
      → AllForeign epoch (now + lease) cs
      → later < now + lease
      → (load_delivery_owner key later (run t' cs) ≡ some (owner_of instance_id epoch route))
        × ((try_acquire_delivery_owner key i e r d later (run t' cs)).1 ≡ false)
  unfolding try_acquire_delivery_owner load_delivery_owner live_owner may_replace
  lease_is_exclusive lease now t t' cs later i e r d f h a l =
      let row = granted instance_id epoch route lease now in
      let kept = lookup-run key row cs t' (ground (arith, lookup-insert_self key row t)) a in
      (ground (arith, kept), ground (arith, kept))

  -- The owner renews its lease: the epoch that holds the row acquires it again at any time, and the
  -- new lease counts from then.
  pub owner_renews :
      (row : OwnerRow) (lease now : ℕ) (t : Owners)
      → lookup key t ≡ some row
      → row.consumer_epoch ≡ epoch
      → try_acquire_delivery_owner key instance_id epoch route lease now t
        ≡ (insert key (granted instance_id epoch route lease now) t, true)
  unfolding try_acquire_delivery_owner may_replace
  owner_renews row lease now t h e = ground (arith, h)

  -- An epoch that does not hold the row can acquire the mailbox exactly when no live owner can be
  -- loaded: a lease that has run out is no obstacle, whoever held it.
  pub acquire_iff_free :
      (row : OwnerRow) (lease now : ℕ) (t : Owners)
      → lookup key t ≡ some row
      → row.consumer_epoch ≢ epoch
      → ((try_acquire_delivery_owner key instance_id epoch route lease now t).1 ≡ true)
        ↔ (load_delivery_owner key now t ≡ none)
  unfolding try_acquire_delivery_owner load_delivery_owner live_owner may_replace
  acquire_iff_free row lease now t h f = (λ a. ground (arith, h), λ a. ground (arith, h))

  -- A release succeeds exactly for the instance and epoch that hold the row, and then the mailbox
  -- has no owner.
  pub release_lem :
      (now : ℕ) (t : Owners)
      → (((release_delivery_owner key instance_id epoch t).1 ≡ true) ↔ (
          (row : OwnerRow) × (lookup key t ≡ some row)
          × (row.owner_instance_id ≡ instance_id)
          × (row.consumer_epoch ≡ epoch)))
        × (((release_delivery_owner key instance_id epoch t).1 ≡ false)
            ⊎ (load_delivery_owner key now (release_delivery_owner key instance_id epoch t).0
                ≡ none))
  unfolding release_delivery_owner is_held_by load_delivery_owner live_owner
  release_lem now t = elim (Option-cases (lookup key t)) [
    | inl e ↦ (
      (λ h. ground (arith, e), λ (r, found, _, _). absurd (none≢some r (sym e ∙ found))),
      inl (ground (arith, e)),
    )
    | inr (row, e) ↦ (
      (
        λ h. (
          row,
          e,
          ground (arith, bytes_beq_iff row.owner_instance_id instance_id),
          ground (arith),
        ),
        λ h. ground (arith, e, bytes_beq_iff row.owner_instance_id instance_id, h.1),
      ),
      ground (arith, e, lookup-delete key key t, beq_refl key),
    )
  ]
