-- ===== src/Message/Membership/Quorum/Counting.antt =====
-- A quorum is a number of different, allowed signers whose signatures hold
-- (crates/message-gateway/src/service.rs).
use watt_gateway.Prelude.{
  ℕ, ◌+◌, ◌≤◌, ◌<◌, String, ◌≡◌, Bool, true, false, ◌&&◌, ◌||◌, not, some, List, [], ◌∷◌, arith,
  ltb, ◌==◌, if◌then◌else◌, All, length, map, ok, bail_if, or_bail, >>=-eq-ok, saturating_add_u32,
  u32_max,
}
use watt_gateway.Message.Membership.{Db}
use watt_gateway.Message.Membership.Mutation.{SignatureEnvelope, contains}
use watt_gateway.Message.Membership.Quorum.{
  genesis_of, allowed_signers, count_valid, validate_membership_snapshot_authority,
}

-- Some of the signatures, in their order.
pub data IsPickOf : List SignatureEnvelope → List SignatureEnvelope → Type 0 where
  none_left : IsPickOf [] []
  skip :
      {s : SignatureEnvelope} {ws ss : List SignatureEnvelope}
      → IsPickOf ws ss
      → IsPickOf ws (s ∷ ss)
  pick :
      {s : SignatureEnvelope} {ws ss : List SignatureEnvelope}
      → IsPickOf ws ss
      → IsPickOf (s ∷ ws) (s ∷ ss)

abbrev pub signers : List SignatureEnvelope → List String
signers = map (λ s. s.signer_node_id)

module _ (verify : String → String → Bool) (allowed : List String) where
  -- A signature that holds, by a signer that is allowed.
  abbrev pub IsVote : SignatureEnvelope → Type 0
  IsVote s =
      (contains s.signer_node_id allowed ≡ true) × (verify s.signer_node_id s.signature_hex ≡ true)

  -- No signer is in the list twice, or among those seen.
  abbrev pub AllNew : List String → List SignatureEnvelope → Type 0
  AllNew seen [] = Unit
  AllNew seen (s ∷ ss) =
      (contains s.signer_node_id seen ≡ false) × AllNew (s.signer_node_id ∷ seen) ss

  -- The signatures that the loop counts.
  counted : List String → List SignatureEnvelope → List SignatureEnvelope
  counted seen [] = []
  counted seen (s ∷ rest) =
      let more = counted (s.signer_node_id ∷ seen) rest in
      if not (contains s.signer_node_id seen)
        && contains s.signer_node_id allowed
        && verify s.signer_node_id s.signature_hex
      then s ∷ more
      else more

  count-le :
      (seen : List String) (valid : ℕ) (ss : List SignatureEnvelope)
      → count_valid verify allowed seen valid ss ≤ valid + length (counted seen ss)
  unfolding count_valid counted saturating_add_u32
  count-le seen valid [] = omega arith
  count-le seen valid (s ∷ rest) = ground (
    arith,
    count-le (s.signer_node_id ∷ seen) valid rest,
    count-le (s.signer_node_id ∷ seen) (saturating_add_u32 valid 1) rest,
  )

  counted-IsVote : (seen : List String) (ss : List SignatureEnvelope) → All IsVote (counted seen ss)
  unfolding counted
  counted-IsVote seen [] = tt
  counted-IsVote seen (s ∷ rest) = ground (arith, counted-IsVote (s.signer_node_id ∷ seen) rest)

  AllNew-weaken :
      (xs ys : List String) (ss : List SignatureEnvelope)
      → ((q : String) → contains q ys ≡ true → contains q xs ≡ true)
      → AllNew xs ss
      → AllNew ys ss
  unfolding contains
  AllNew-weaken xs ys [] sub h = tt
  AllNew-weaken xs ys (s ∷ ss) sub h = (
    ground (arith, sub s.signer_node_id),
    AllNew-weaken (s.signer_node_id ∷ xs) (s.signer_node_id ∷ ys) ss
        (λ q k. ground (arith, sub q, k)) h.1,
  )

  counted-AllNew :
      (seen : List String) (ss : List SignatureEnvelope) → AllNew seen (counted seen ss)
  unfolding counted
  counted-AllNew seen [] = tt
  counted-AllNew seen (s ∷ rest) =
      let more = counted-AllNew (s.signer_node_id ∷ seen) rest in
      ground (
        arith,
        more,
        AllNew-weaken (s.signer_node_id ∷ seen) seen (counted (s.signer_node_id ∷ seen) rest)
            (λ q h. unfold contains in ground arith) more,
      )

  counted-IsPickOf :
      (seen : List String) (ss : List SignatureEnvelope) → IsPickOf (counted seen ss) ss
  unfolding counted
  counted-IsPickOf seen [] = none_left
  counted-IsPickOf seen (s ∷ rest) =
      let more = counted-IsPickOf (s.signer_node_id ∷ seen) rest in
      if_pick
        (not (contains s.signer_node_id seen)
          && contains s.signer_node_id allowed
          && verify s.signer_node_id s.signature_hex)
        more
    where
      if_pick :
          (b : Bool) {ws : List SignatureEnvelope}
          → IsPickOf ws rest
          → IsPickOf (if b then s ∷ ws else ws) (s ∷ rest)
      if_pick true p = pick p
      if_pick false p = skip p

  -- Where every signature is a vote of a new signer and the count stays a `u32`, all are counted.
  count-All :
      (seen : List String) (valid : ℕ) (ss : List SignatureEnvelope)
      → AllNew seen ss
      → All IsVote ss
      → valid + length ss ≤ u32_max
      → count_valid verify allowed seen valid ss ≡ valid + length ss
  unfolding count_valid saturating_add_u32
  count-All seen valid [] new votes fits = omega arith
  count-All seen valid (s ∷ rest) new votes fits =
      ground
        (arith, count-All (s.signer_node_id ∷ seen) (saturating_add_u32 valid 1) rest new.1 votes.1)

module _ (is_finalizer : String → Bool) (verify : String → String → Bool) (db : Db)
    (network_id author : String) (threshold : ℕ) (signatures : List SignatureEnvelope) where
  -- An accepted snapshot has a positive threshold and a quorum: among its signatures there are at
  -- least as many as the threshold, all by different signers that the projection allows for this
  -- author, and each of them holds. Repeated or foreign signatures cannot make up the number.
  pub quorum_sound :
      validate_membership_snapshot_authority is_finalizer verify db network_id author threshold
          signatures
        ≡ ok tt
      → (genesis : String) × (allowed : List String) × (ws : List SignatureEnvelope) × (genesis_of
            network_id db.authorities
          ≡ some genesis)
        × (allowed_signers is_finalizer db network_id author genesis ≡ ok allowed)
        × (0 < threshold)
        × (threshold ≤ length ws)
        × All (IsVote verify allowed) ws
        × AllNew verify allowed [] ws
        × IsPickOf ws signatures
  unfolding validate_membership_snapshot_authority
  quorum_sound h =
      let (_, positive, h1) =
        >>=-eq-ok (bail_if (threshold == 0 || ltb (length signatures) threshold) _) _ h in
      let (genesis, found, h2) =
        >>=-eq-ok (or_bail (genesis_of network_id db.authorities) _) _ h1 in
      let (allowed, listed, h3) =
        >>=-eq-ok (allowed_signers is_finalizer db network_id author genesis) _ h2 in
      (
        genesis,
        allowed,
        counted verify allowed [] signatures,
        ground arith,
        listed,
        ground arith,
        ground (arith, count-le verify allowed [] 0 signatures),
        counted-IsVote verify allowed [] signatures,
        counted-AllNew verify allowed [] signatures,
        counted-IsPickOf verify allowed [] signatures,
      )

  -- Different allowed signers whose signatures all hold are a quorum, if they are as many as the
  -- threshold, which is positive, and no more than a `u32` counts.
  pub quorum_complete :
      (genesis : String) (allowed : List String)
      → genesis_of network_id db.authorities ≡ some genesis
      → allowed_signers is_finalizer db network_id author genesis ≡ ok allowed
      → 0 < threshold
      → threshold ≤ length signatures
      → length signatures ≤ u32_max
      → AllNew verify allowed [] signatures
      → All (IsVote verify allowed) signatures
      → validate_membership_snapshot_authority is_finalizer verify db network_id author threshold
          signatures
        ≡ ok tt
  unfolding validate_membership_snapshot_authority
  quorum_complete genesis allowed g a p t u new votes =
      ground (arith, g, a, count-All verify allowed [] 0 signatures new votes)
