-- ===== src/Gateway/Projection/Rows/Newest.antt =====
-- A row of a projection is never replaced by an older one (crates/gateway/src/db.rs).

use mathlib.Core.Path.{subst}
use watt_gateway.Prelude.{
  ℕ, ◌≤◌, ◌≡◌, inl, inr, refl, String, Bool, true, false, Option, none, some, List, [], ◌∷◌, leb,
  string_eq, pair_eq, Table, lookup, insert, lookup-insert, Bool-cases, arith,
}
use watt_gateway.Gateway.Projection.Rows.{
  ProjectionRow, ProjectionKey, coalesce, upsert_over, upsert_projection_row,
}

pub upsert_rows :
    List (ProjectionKey × ProjectionRow)
    → Table ProjectionKey ProjectionRow
    → Table ProjectionKey ProjectionRow
upsert_rows [] t = t
upsert_rows ((key, row) ∷ rest) t = upsert_rows rest (upsert_projection_row key row t)

-- A source that is known stays known.
abbrev pub StaysKnown : Option String → Option String → Type 0
StaysKnown none later = Unit
StaysKnown (some source_id) later = (s : String) × (later ≡ some s)

-- The row under a key later on.
abbrev pub LaterRow : ProjectionKey → ProjectionRow → Table ProjectionKey ProjectionRow → Type 0
LaterRow key row t =
    (later : ProjectionRow) × (lookup key t ≡ some later)
    × (row.generated_at ≤ later.generated_at)
    × StaysKnown row.source_id later.source_id

stays_itself : (source : Option String) → StaysKnown source source
stays_itself none = tt
stays_itself (some s) = (s, refl)

stays_coalesced : (new old : Option String) → StaysKnown old (coalesce new old)
stays_coalesced none old = stays_itself old
stays_coalesced (some s) none = tt
stays_coalesced (some s) (some o) = (s, refl)

stays_on : (a b c : Option String) → StaysKnown a b → StaysKnown b c → StaysKnown a c
stays_on none b c f g = tt
stays_on (some s) none c (o, is) g = cc
stays_on (some s) (some b) c f g = g

module _ (at : ProjectionKey) (row : ProjectionRow) (key : ProjectionKey) (old : ProjectionRow)
    (t : Table ProjectionKey ProjectionRow) (there : lookup key t ≡ some old) where
  unchanged : LaterRow key old t
  unchanged = (old, there, omega arith, stays_itself old.source_id)

  inserted :
      (new : ProjectionRow)
      → (at ≡ key → (old.generated_at ≤ new.generated_at) × StaysKnown old.source_id new.source_id)
      → LaterRow key old (insert at new t)
  inserted new later = by_key (pair_eq.beq at key) refl
    where
      by_key : (same : Bool) → pair_eq.beq at key ≡ same → LaterRow key old (insert at new t)
      by_key true e = (
        new,
        rw (lookup-insert at key new t, e) refl,
        (later ((pair_eq.beq_iff at key).0 e)).0,
        (later ((pair_eq.beq_iff at key).0 e)).1,
      )
      by_key false e =
          (old, rw (lookup-insert at key new t, e) there, omega arith, stays_itself old.source_id)

  replaced :
      (first : ProjectionRow) (source_id : Option String) (generated_at : ℕ)
      → first ≡ old
      → first.generated_at ≤ generated_at
      → (old.generated_at ≤ generated_at)
        × StaysKnown old.source_id (coalesce source_id first.source_id)
  replaced first source_id generated_at same below = rw same (
    subst (λ (r : ProjectionRow). r.generated_at ≤ generated_at) same below,
    stays_coalesced source_id old.source_id,
  )

  upserted : LaterRow key old (upsert_projection_row at row t)
  unfolding upsert_projection_row
  upserted = by_row (lookup at t) refl
    where
      by_row :
          (present : Option ProjectionRow)
          → lookup at t ≡ present
          → LaterRow key old (upsert_over present at row t)
      by_row none is = inserted row (λ same. cc)
      by_row (some first) is = elim (Bool-cases (leb first.generated_at row.generated_at)) [
        | inl e ↦ rw e (
            inserted _
              (λ same. replaced first row.source_id row.generated_at (cc) (ground (arith, e))))
        | inr e ↦ rw e unchanged
      ]

-- Whatever projections come, in whatever order: the row under a key is not lost, its time does not
-- go back, and once its source is known it stays known.
pub newest_row_stays :
    (rows : List (ProjectionKey × ProjectionRow)) (key : ProjectionKey) (old : ProjectionRow)
    (t : Table ProjectionKey ProjectionRow)
    → lookup key t ≡ some old
    → LaterRow key old (upsert_rows rows t)
unfolding upsert_rows
newest_row_stays [] key old t there = (old, there, omega arith, stays_itself old.source_id)
newest_row_stays ((at, row) ∷ rest) key old t there =
    let (next, found, newer, known) = upserted at row key old t there in
    let (last, kept, newest, still) =
      newest_row_stays rest key next (upsert_projection_row at row t) found in
    (last, kept, omega (arith, newer, newest), stays_on _ _ _ known still)
