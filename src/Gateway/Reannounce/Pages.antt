-- ===== src/Gateway/Reannounce/Pages.antt =====
-- The pages of an ordered table (crates/gateway/src/db.rs).
use mathlib.Core.Path.{subst}
use watt_gateway.Prelude.{
  ℕ, zero, suc, ◌<◌, ◌≤◌, length, ◌≡◌, inl, inr, refl, sym, ap, ◌∙◌, String, Bool, true, false,
  List, [], ◌∷◌, ◌++◌, filter_by, All, Bool-cases, arith,
}
use watt_gateway.Gateway.Reannounce.{SnapshotRow, take, last_of}

-- A strict order of texts, as a database's order is.
pub record TextOrder : Type 0 where
  pub after : String → String → Bool
  pub irreflexive : (s : String) → after s s ≡ false
  pub transitive : (r s t : String) → after r s ≡ true → after s t ≡ true → after r t ≡ true

pub drop : ℕ → List SnapshotRow → List SnapshotRow
drop zero rows = rows
drop (suc n) [] = []
drop (suc n) (row ∷ rows) = drop n rows

pub take-drop : (n : ℕ) (rows : List SnapshotRow) → take n rows ++ drop n rows ≡ rows
unfolding drop
take-drop zero rows = refl
take-drop (suc n) [] = refl
take-drop (suc n) (row ∷ rows) = ap (λ rest. row ∷ rest) (take-drop n rows)

-- A short page is the last one.
pub drop-short : (n : ℕ) (rows : List SnapshotRow) → length (take n rows) < n → drop n rows ≡ []
unfolding drop
drop-short zero rows h = absurd (omega (arith, h))
drop-short (suc n) [] h = refl
drop-short (suc n) (row ∷ rows) h = drop-short n rows (omega (arith, h))

pub length-drop : (n : ℕ) (rows : List SnapshotRow) → length (drop n rows) ≤ length rows
unfolding drop
length-drop zero rows = omega arith
length-drop (suc n) [] = omega arith
length-drop (suc n) (row ∷ rows) = omega (arith, length-drop n rows)

module _ (order : TextOrder) where
  abbrev pub IsAfter : String → SnapshotRow → Type 0
  IsAfter node_id row = order.after row.node_id node_id ≡ true

  abbrev pub rest_after : String → List SnapshotRow → List SnapshotRow
  rest_after node_id rows = filter_by (λ row. order.after row.node_id node_id) rows

  -- Each row is after all before it.
  abbrev pub IsSorted : List SnapshotRow → Type 0
  IsSorted [] = Unit
  IsSorted (row ∷ rows) = All (IsAfter row.node_id) rows × IsSorted rows

  asymmetric : (r s : String) → order.after r s ≡ true → order.after s r ≡ false
  asymmetric r s h = elim (Bool-cases (order.after s r)) [
    | inl e ↦ absurd (ground (arith, order.transitive r s r h e, order.irreflexive r))
    | inr e ↦ e
  ]

  pub kept_whole :
      (node_id : String) (rows : List SnapshotRow)
      → All (IsAfter node_id) rows
      → rest_after node_id rows ≡ rows
  kept_whole node_id [] h = refl
  kept_whole node_id (row ∷ rows) (here, there) =
      rw here (ap (λ rest. row ∷ rest) (kept_whole node_id rows there))

  last-IsAfter :
      (node_id : String) (row : SnapshotRow) (rows : List SnapshotRow) (n : ℕ)
      → IsAfter node_id row
      → All (IsAfter node_id) rows
      → IsAfter node_id (last_of row (take n rows))
  last-IsAfter node_id row rows zero here there = here
  last-IsAfter node_id row [] (suc n) here there = here
  last-IsAfter node_id row (next ∷ rows) (suc n) here (first, rest) =
      last-IsAfter node_id next rows n first rest

  -- What is after the last row of a page is what the page leaves.
  left_over :
      (row : SnapshotRow) (rows : List SnapshotRow) (n : ℕ)
      → IsSorted (row ∷ rows)
      → rest_after (last_of row (take n rows)).node_id (row ∷ rows) ≡ drop n rows
  unfolding drop
  left_over row rows zero (above, sorted) =
      rw (order.irreflexive row.node_id) (kept_whole row.node_id rows above)
  left_over row [] (suc n) h = rw (order.irreflexive row.node_id) refl
  left_over row (next ∷ rows) (suc n) ((first, above), sorted) =
      rw (asymmetric _ _ (last-IsAfter row.node_id next rows n first above))
        (left_over next rows n sorted)

  kept :
      (low high : String) (row : SnapshotRow) (rows : List SnapshotRow)
      → rest_after high (rest_after low rows) ≡ rest_after high rows
      → rest_after high (row ∷ rest_after low rows) ≡ rest_after high (row ∷ rows)
  kept low high row rows h = elim (Bool-cases (order.after row.node_id high)) [
    | inl e ↦ rw e (ap (λ rest. row ∷ rest) h)
    | inr e ↦ rw e h
  ]

  not_after :
      (low high node_id : String)
      → order.after high low ≡ true
      → order.after node_id low ≡ false
      → order.after node_id high ≡ false
  not_after low high node_id h e = elim (Bool-cases (order.after node_id high)) [
    | inl above ↦ absurd (ground (arith, order.transitive node_id high low above h, e))
    | inr f ↦ f
  ]

  -- A later bound keeps less.
  narrowed :
      (low high : String) (rows : List SnapshotRow)
      → order.after high low ≡ true
      → rest_after high (rest_after low rows) ≡ rest_after high rows
  narrowed low high [] h = refl
  narrowed low high (row ∷ rows) h = elim (Bool-cases (order.after row.node_id low)) [
    | inl e ↦ rw e (kept low high row rows (narrowed low high rows h))
    | inr e ↦ rw (e, not_after low high row.node_id h e) (narrowed low high rows h)
  ]

  pub All-filter :
      (p : SnapshotRow → Bool) (node_id : String) (rows : List SnapshotRow)
      → All (IsAfter node_id) rows
      → All (IsAfter node_id) (filter_by p rows)
  All-filter p node_id [] h = tt
  All-filter p node_id (row ∷ rows) (here, there) = elim (Bool-cases (p row)) [
    | inl e ↦ rw e (here, All-filter p node_id rows there)
    | inr e ↦ rw e (All-filter p node_id rows there)
  ]

  pub filter-IsSorted :
      (p : SnapshotRow → Bool) (rows : List SnapshotRow)
      → IsSorted rows
      → IsSorted (filter_by p rows)
  filter-IsSorted p [] h = tt
  filter-IsSorted p (row ∷ rows) (above, sorted) = elim (Bool-cases (p row)) [
    | inl e ↦ rw e (All-filter p row.node_id rows above, filter-IsSorted p rows sorted)
    | inr e ↦ rw e (filter-IsSorted p rows sorted)
  ]

  rest-All :
      (node_id : String) (rows : List SnapshotRow) → All (IsAfter node_id) (rest_after node_id rows)
  rest-All node_id [] = tt
  rest-All node_id (row ∷ rows) = elim (Bool-cases (order.after row.node_id node_id)) [
    | inl e ↦ rw e (e, rest-All node_id rows)
    | inr e ↦ rw e (rest-All node_id rows)
  ]

  -- The bound of the next page leaves the rows that the page has not taken.
  pub next_rest :
      (node_id : String) (rows : List SnapshotRow) (row : SnapshotRow) (post : List SnapshotRow)
      (n : ℕ)
      → IsSorted rows
      → rest_after node_id rows ≡ row ∷ post
      → rest_after (last_of row (take n post)).node_id rows ≡ drop n post
  next_rest node_id rows row post n sorted is =
      let (here, there) = subst (All (IsAfter node_id)) is (rest-All node_id rows) in
      let high = (last_of row (take n post)).node_id in
      let from_here : rest_after high (row ∷ post) ≡ drop n post =
        left_over row post n
          (subst IsSorted is (filter-IsSorted (λ r. order.after r.node_id node_id) rows sorted)) in
      sym (narrowed node_id high rows (last-IsAfter node_id row post n here there))
      ∙ ap (rest_after high) is
      ∙ from_here
