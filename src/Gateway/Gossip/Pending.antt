-- ===== src/Gateway/Gossip/Pending.antt =====
-- The count of a peer is that of its admissions (crates/gateway/src/gateway_sync.rs).
use watt_gateway.Prelude.{
  ℕ, ◌+◌, ◌-◌, ◌<◌, ◌≤◌, ◌≡◌, inl, inr, refl, ap, String, true, false, Option, none, some, [], leb,
  ◌==◌, if◌then◌else◌, string_eq, str_eq, str_eq-cases, lookup, insert, lookup-insert,
  lookup-delete, Bool-cases, arith,
}
use watt_gateway.Gateway.Gossip.{
  Peers, max_pending_snapshot_fetches_per_peer, pending_of, try_admit_snapshot, released,
  drop_admission,
}

-- The admissions that are alive, by their peers.
abbrev pub Alive : Type 0
Alive = String → ℕ

abbrev pub one_more : String → Alive → Alive
one_more peer_id alive = λ q. if str_eq peer_id q then alive q + 1 else alive q

abbrev pub one_less : String → Alive → Alive
one_less peer_id alive = λ q. if str_eq peer_id q then alive q - 1 else alive q

-- The limits that calls and drops lead to: an admission that is alive may be dropped.
pub data Reached : Peers → Alive → Type 0 where
  start : Reached [] (λ q. 0)
  admitted :
      (peer_id : String) (peers : Peers) (alive : Alive)
      → Reached peers alive
      → (try_admit_snapshot peer_id peers).1 ≡ true
      → Reached (try_admit_snapshot peer_id peers).0 (one_more peer_id alive)
  refused :
      (peer_id : String) (peers : Peers) (alive : Alive)
      → Reached peers alive
      → (try_admit_snapshot peer_id peers).1 ≡ false
      → Reached (try_admit_snapshot peer_id peers).0 alive
  dropped :
      (peer_id : String) (peers : Peers) (alive : Alive)
      → Reached peers alive
      → 0 < alive peer_id
      → Reached (drop_admission peer_id peers) (one_less peer_id alive)

-- The count is exact, and within the limit.
abbrev pub IsCounted : Peers → Alive → String → Type 0
IsCounted peers alive q =
    (pending_of (lookup q peers) ≡ alive q) × (alive q ≤ max_pending_snapshot_fetches_per_peer)

admit-IsCounted :
    (peer_id : String) (peers : Peers) (alive : Alive) (q : String)
    → IsCounted peers alive q
    → IsCounted peers alive peer_id
    → leb max_pending_snapshot_fetches_per_peer (pending_of (lookup peer_id peers)) ≡ false
    → IsCounted
        (insert peer_id (pending_of (lookup peer_id peers) + 1) peers)
        (one_more peer_id alive)
        q
admit-IsCounted peer_id peers alive q (count, below) (own, own_below) room =
    elim (str_eq-cases peer_id q) [
      | inl (same, e) ↦
          let at : alive peer_id ≡ alive q = ap alive same in
          rw (lookup-insert peer_id q (pending_of (lookup peer_id peers) + 1) peers, e)
            (omega (arith, own, at), ground (arith, room, own, at))
      | inr e ↦
          rw (lookup-insert peer_id q (pending_of (lookup peer_id peers) + 1) peers, e)
            (count, below)
    ]

-- A refused call leaves every count.
refuse-IsCounted :
    (peer_id : String) (peers : Peers) (alive : Alive) (q : String)
    → IsCounted peers alive q
    → IsCounted peers alive peer_id
    → IsCounted (insert peer_id (pending_of (lookup peer_id peers)) peers) alive q
refuse-IsCounted peer_id peers alive q (count, below) (own, own_below) =
    elim (str_eq-cases peer_id q) [
      | inl (same, e) ↦
          let at : alive peer_id ≡ alive q = ap alive same in
          rw (lookup-insert peer_id q (pending_of (lookup peer_id peers)) peers, e)
            (omega (arith, own, at), below)
      | inr e ↦
          rw (lookup-insert peer_id q (pending_of (lookup peer_id peers)) peers, e) (count, below)
    ]

drop-IsCounted :
    (peer_id : String) (peers : Peers) (alive : Alive) (q : String) (pending : Option ℕ)
    → IsCounted peers alive q
    → lookup peer_id peers ≡ pending
    → pending_of pending ≡ alive peer_id
    → 0 < alive peer_id
    → IsCounted (released peer_id pending peers) (one_less peer_id alive) q
drop-IsCounted peer_id peers alive q none h is own some_alive =
    absurd (omega (arith, own, some_alive))
drop-IsCounted peer_id peers alive q (some pending) (count, below) is own some_alive =
    elim (str_eq-cases peer_id q) [
      | inl (same, e) ↦
          let at : alive peer_id ≡ alive q = ap alive same in
          elim (Bool-cases (pending - 1 == 0)) [
            | inl last ↦
                rw (last, lookup-delete peer_id q peers, e)
                  (ground (arith, last, own, at), omega (arith, below))
            | inr more ↦
                rw (more, lookup-insert peer_id q (pending - 1) peers, e)
                  (omega (arith, own, at), omega (arith, below))
          ]
      | inr e ↦ elim (Bool-cases (pending - 1 == 0)) [
        | inl last ↦ rw (last, lookup-delete peer_id q peers, e) (count, below)
        | inr more ↦ rw (more, lookup-insert peer_id q (pending - 1) peers, e) (count, below)
      ]
    ]

-- However fetches are admitted, refused and dropped: the count of each peer is the number of its
-- admissions that are alive, and that is at most the limit.
pub pending_is_exact :
    (peers : Peers) (alive : Alive) (q : String) → Reached peers alive → IsCounted peers alive q
unfolding try_admit_snapshot drop_admission lookup
pending_is_exact _ _ q start = (refl, omega arith)
pending_is_exact _ _ q (admitted peer_id peers alive r is) =
    elim (Bool-cases
      (leb max_pending_snapshot_fetches_per_peer (pending_of (lookup peer_id peers)))) [
        | inl full ↦ absurd (ground (arith, full, is))
        | inr room ↦ rw room (
            admit-IsCounted peer_id peers alive q (pending_is_exact peers alive q r)
              (pending_is_exact peers alive peer_id r) room)
      ]
pending_is_exact _ _ q (refused peer_id peers alive r is) =
    elim (Bool-cases
      (leb max_pending_snapshot_fetches_per_peer (pending_of (lookup peer_id peers)))) [
        | inl full ↦ rw full (
            refuse-IsCounted peer_id peers alive q (pending_is_exact peers alive q r)
              (pending_is_exact peers alive peer_id r))
        | inr room ↦ absurd (ground (arith, room, is))
      ]
pending_is_exact _ _ q (dropped peer_id peers alive r some_alive) =
    drop-IsCounted peer_id peers alive q (lookup peer_id peers) (pending_is_exact peers alive q r)
      refl (pending_is_exact peers alive peer_id r).0 some_alive
