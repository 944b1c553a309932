-- ===== src/Gateway/Space/Newest.antt =====
-- A presence's row is the newest, in whatever order presences come (crates/gateway/src/space.rs).
use watt_gateway.Prelude.{
  ℕ, suc, ◌≡◌, inl, inr, refl, sym, ap, ◌∙◌, String, Bool, true, false, Option, none, some, List,
  [], ◌∷◌, if◌then◌else◌, max, Table, lookup, insert, lookup-insert, string_eq, pair_eq, Bool-cases,
  arith,
}
use watt_gateway.Gateway.Space.{
  SignedSpacePresence, PresenceRow, PresenceKey, presence_key, presence_row, is_newer,
  upsert_presence,
}

-- A presence with the node and the source that bring it.
abbrev pub Brought : Type 0
Brought = SignedSpacePresence × String × Option String

pub upsert_all : List Brought → Table PresenceKey PresenceRow → Table PresenceKey PresenceRow
upsert_all [] t = t
upsert_all ((p, node_id, source_id) ∷ rest) t =
    upsert_all rest (upsert_presence p node_id source_id t).0

-- What a row says of its number, as 1 more, and 0 where there is none.
abbrev rank : Option PresenceRow → ℕ
rank none = 0
rank (some row) = suc row.seq

abbrev pub stored_seq : PresenceKey → Table PresenceKey PresenceRow → ℕ
stored_seq key t = rank (lookup key t)

-- The greatest number for a key, as 1 more.
pub newest : PresenceKey → List Brought → ℕ
newest key [] = 0
newest key ((p, node_id, source_id) ∷ rest) =
    let later = newest key rest in
    if pair_eq.beq (presence_key p) key then max (suc p.seq) later else later

newer_rank :
    (row : Option PresenceRow) (seq : ℕ)
    → is_newer row seq ≡ true
    → suc seq ≡ max (suc seq) (rank row)
newer_rank none seq h = omega arith
newer_rank (some row) seq h = ground (arith, h)

older_rank :
    (row : Option PresenceRow) (seq : ℕ)
    → is_newer row seq ≡ false
    → rank row ≡ max (suc seq) (rank row)
older_rank none seq h = cc
older_rank (some row) seq h = ground (arith, h)

module _ (p : SignedSpacePresence) (node_id : String) (source_id : Option String)
    (key : PresenceKey) (t : Table PresenceKey PresenceRow) where
  -- What a presence leaves under a key.
  left_by : Bool → ℕ
  left_by matches = if matches then max (suc p.seq) (stored_seq key t) else stored_seq key t

  accepted-seq :
      (matches : Bool)
      → pair_eq.beq (presence_key p) key ≡ matches
      → is_newer (lookup (presence_key p) t) p.seq ≡ true
      → stored_seq key (insert (presence_key p) (presence_row p node_id source_id) t)
        ≡ left_by matches
  unfolding left_by
  accepted-seq true same newer =
      let is : presence_key p ≡ key = (pair_eq.beq_iff (presence_key p) key).0 same in
      rw (lookup-insert (presence_key p) key (presence_row p node_id source_id) t, same)
        (newer_rank (lookup key t) p.seq (ap (λ j. is_newer (lookup j t) p.seq) (sym is) ∙ newer))
  accepted-seq false differs newer =
      rw (lookup-insert (presence_key p) key (presence_row p node_id source_id) t, differs) refl

  refused-seq :
      (matches : Bool)
      → pair_eq.beq (presence_key p) key ≡ matches
      → is_newer (lookup (presence_key p) t) p.seq ≡ false
      → stored_seq key t ≡ left_by matches
  unfolding left_by
  refused-seq true same older =
      let is : presence_key p ≡ key = (pair_eq.beq_iff (presence_key p) key).0 same in
      older_rank (lookup key t) p.seq (ap (λ j. is_newer (lookup j t) p.seq) (sym is) ∙ older)
  refused-seq false differs older = refl

  upsert-seq :
      stored_seq key (upsert_presence p node_id source_id t).0
      ≡ left_by (pair_eq.beq (presence_key p) key)
  unfolding upsert_presence
  upsert-seq = elim (Bool-cases (is_newer (lookup (presence_key p) t) p.seq)) [
    | inl newer ↦ rw newer (accepted-seq _ refl newer)
    | inr older ↦ rw older (refused-seq _ refl older)
  ]

max-moves :
    (matches : Bool) (seq later stored : ℕ)
    → max later (if matches then max seq stored else stored)
      ≡ max (if matches then max seq later else later) stored
max-moves true seq later stored = omega arith
max-moves false seq later stored = refl

-- After any run of presences the number stored for a key is the greatest of those that came for it
-- and of the one stored before, where 0 stands for none and a number for 1 more: in whatever order
-- they come, however often each comes, whichever nodes and sources bring them.
pub upsert_keeps_newest :
    (key : PresenceKey) (brought : List Brought) (t : Table PresenceKey PresenceRow)
    → stored_seq key (upsert_all brought t) ≡ max (newest key brought) (stored_seq key t)
unfolding upsert_all newest left_by
upsert_keeps_newest key [] t = omega arith
upsert_keeps_newest key ((p, node_id, source_id) ∷ rest) t =
    upsert_keeps_newest key rest (upsert_presence p node_id source_id t).0
    ∙ ap (max (newest key rest)) (upsert-seq p node_id source_id key t)
    ∙ max-moves (pair_eq.beq (presence_key p) key) (suc p.seq) (newest key rest) (stored_seq key t)
