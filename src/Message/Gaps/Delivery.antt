-- ===== src/Message/Gaps/Delivery.antt =====
-- What a page of gaps owes the mailbox (crates/message-gateway/src/gaps.rs).
use watt_gateway.Prelude.{
  ℕ, zero, suc, ◌+◌, ◌<◌, String, ◌≡◌, refl, inl, inr, false, ◌||◌, List, [], ◌∷◌, arith, ltb,
  str_eq, eq_iff, All, map, ok, >>=-eq-ok, i64_max, Bool-cases,
}
use watt_gateway.Message.Bucket.{DeliveryClass, class_eq}
use watt_gateway.Message.Gaps.{
  GapLibraries, GapTable, GapRow, GapKey, MailboxGap, is_open, is_deliverable, select_gaps,
  contains_id, mark_delivered, acknowledge_page, comes_before, insert_ordered, order_gaps, to_gap,
  to_gaps, gap_ids, take, page_rows, load_for_page,
}

abbrev pub ids_of : {R : Type 0} → List (MailboxGap R) → List String
ids_of = map (λ g. g.gap_id)

abbrev id_of : {Json : Type 0} → GapKey × GapRow Json → String
id_of ((n, (p, id)), row) = id

module _ {A : Type 0} (P : A → Type 0) where
  All-take : (n : ℕ) (xs : List A) → All P xs → All P (take n xs)
  All-take zero xs h = tt
  All-take (suc n) [] h = tt
  All-take (suc n) (x ∷ xs) h = (h.0, All-take n xs h.1)

module _ {R Json : Type 0} (lib : GapLibraries R Json) (P : GapKey × GapRow Json → Type 0) where
  All-insert_ordered :
      (x : GapKey × GapRow Json) (xs : GapTable Json)
      → P x
      → All P xs
      → All P (insert_ordered lib x xs)
  unfolding insert_ordered
  All-insert_ordered x [] p h = (p, tt)
  All-insert_ordered x (y ∷ ys) p h = elim (Bool-cases (comes_before lib y x)) [
    | inl b ↦ rw b (h.0, All-insert_ordered x ys p h.1)
    | inr b ↦ rw b (p, h)
  ]

  All-order_gaps : (xs : GapTable Json) → All P xs → All P (order_gaps lib xs)
  unfolding order_gaps
  All-order_gaps [] h = tt
  All-order_gaps (x ∷ xs) h = All-insert_ordered x _ h.0 (All-order_gaps xs h.1)

module _ {R Json : Type 0} (lib : GapLibraries R Json) (class : DeliveryClass) where
  to_gap_id :
      (x : GapKey × GapRow Json) (g : MailboxGap R) → to_gap lib class x ≡ ok g → g.gap_id ≡ id_of x
  unfolding to_gap
  to_gap_id ((n, (p, id)), row) g h = ground arith

  -- The gaps of a page have the names of its rows.
  to_gaps_ids :
      (rows : GapTable Json) (gaps : List (MailboxGap R))
      → to_gaps lib class rows ≡ ok gaps
      → ids_of gaps ≡ gap_ids rows
  unfolding to_gaps
  to_gaps_ids [] gaps h = ground arith
  to_gaps_ids (x ∷ xs) gaps h =
      let (g, first, h1) = >>=-eq-ok (to_gap lib class x) _ h in
      let (gs, later, h2) = >>=-eq-ok (to_gaps lib class xs) _ h1 in
      let e = to_gap_id x g first in let es = to_gaps_ids xs gs later in ground arith

All-gap_ids :
    {Json : Type 0} (P : String → Type 0) (rows : GapTable Json)
    → All (λ x. P (id_of x)) rows
    → All P (gap_ids rows)
All-gap_ids P [] h = tt
All-gap_ids P (((n, (p, id)), row) ∷ rows) h = (h.0, All-gap_ids P rows h.1)

module _ {Json : Type 0} (network_id principal_id : String) (class : DeliveryClass) where
  -- A marked row is left out of another page until its delivery is overdue.
  marked_is_held :
      (page other : String) (redelivery now later : ℕ) (ids : List String) (t : GapTable Json)
      → str_eq page other ≡ false
      → later < now + redelivery
      → All
          (λ x. contains_id (id_of x) ids ≡ false)
          (select_gaps network_id principal_id class other redelivery later
            (mark_delivered network_id principal_id class page now ids t))
  unfolding select_gaps mark_delivered
  marked_is_held page other redelivery now later ids [] d l = tt
  marked_is_held page other redelivery now later ids (((n, (p, id)), row) ∷ t) d l =
      let rest = marked_is_held page other redelivery now later ids t d l in ground arith

  -- A marked row of an acknowledged page is left out of every page.
  acknowledged_is_closed :
      (page other : String) (redelivery now done later : ℕ) (ids : List String) (t : GapTable Json)
      → All
          (λ x. contains_id (id_of x) ids ≡ false)
          (select_gaps network_id principal_id class other redelivery later
            (acknowledge_page network_id principal_id class page done
              (mark_delivered network_id principal_id class page now ids t)).0)
  unfolding select_gaps mark_delivered acknowledge_page
  acknowledged_is_closed page other redelivery now done later ids [] = tt
  acknowledged_is_closed page other redelivery now done later ids (((n, (p, id)), row) ∷ t) =
      let rest = acknowledged_is_closed page other redelivery now done later ids t in
      ground (arith, eq_iff page page)

  -- A gap whose rows are all acknowledged is in no page.
  closed_is_unselected :
      (id page : String) (redelivery later : ℕ) (t : GapTable Json)
      → All (λ x. x.0 ≡ (network_id, (principal_id, id)) → is_open x.1.acknowledged_at ≡ false) t
      → All
          (λ x. str_eq (id_of x) id ≡ false)
          (select_gaps network_id principal_id class page redelivery later t)
  unfolding select_gaps
  closed_is_unselected id page redelivery later [] h = tt
  closed_is_unselected id page redelivery later (((n, (p, i)), row) ∷ t) (first, rest) =
      elim (Bool-cases
        (is_deliverable network_id principal_id class page redelivery later (n, (p, i)) row)) [
          | inr held ↦ rw held (closed_is_unselected id page redelivery later t rest)
          | inl due ↦ rw due (elim (Bool-cases (str_eq i id)) [
            | inr other ↦ (other, closed_is_unselected id page redelivery later t rest)
            | inl same ↦
                let n_is : n ≡ network_id = (eq_iff n network_id).0 (ground (arith, due)) in
                let p_is : p ≡ principal_id = (eq_iff p principal_id).0 (ground (arith, due)) in
                let i_is : i ≡ id = (eq_iff i id).0 same in
                let closed = first (cc) in absurd (ground (arith, due, closed))
          ])
        ]

not_contained :
    (id : String) (ids : List String)
    → All (λ i. str_eq i id ≡ false) ids
    → contains_id id ids ≡ false
not_contained id [] h = refl
not_contained id (i ∷ ids) (first, rest) = ground (arith, first, not_contained id ids rest)

module _ {R Json : Type 0} (lib : GapLibraries R Json) (network_id principal_id : String)
    (class : DeliveryClass) where
  -- A page's gaps have the names of its rows, which are then marked.
  loaded_ids :
      (page : String) (limit redelivery now : ℕ) (t : GapTable Json) (gaps : List (MailboxGap R))
      → (load_for_page lib network_id principal_id class page limit redelivery now t).1 ≡ ok gaps
      → (ids_of gaps
          ≡ gap_ids (page_rows lib network_id principal_id class page limit redelivery now t))
        × ((load_for_page lib network_id principal_id class page limit redelivery now t).0
            ≡ mark_delivered network_id principal_id class page now (ids_of gaps) t)
  unfolding load_for_page
  loaded_ids page limit redelivery now t gaps h =
      elim (Bool-cases (ltb i64_max redelivery || ltb i64_max limit)) [
        | inl b ↦ absurd (ground arith)
        | inr b ↦
            let e =
              to_gaps_ids lib class
                (page_rows lib network_id principal_id class page limit redelivery now t) gaps
                (ground arith) in
            (e, rw (b, e) refl)
      ]

  All-loaded :
      (P : String → Type 0) (page : String) (limit redelivery now : ℕ) (t : GapTable Json)
      (gaps : List (MailboxGap R))
      → (load_for_page lib network_id principal_id class page limit redelivery now t).1 ≡ ok gaps
      → All (λ x. P (id_of x)) (select_gaps network_id principal_id class page redelivery now t)
      → All P (ids_of gaps)
  unfolding page_rows
  All-loaded P page limit redelivery now t gaps h a =
      rw (loaded_ids page limit redelivery now t gaps h).0 (
        All-gap_ids P _
          (All-take (λ x. P (id_of x)) limit _ (All-order_gaps lib (λ x. P (id_of x)) _ a)))

  pub closed_is_in_no_page :
      (id page : String) (limit redelivery later : ℕ) (t : GapTable Json)
      (gaps : List (MailboxGap R))
      → All (λ x. x.0 ≡ (network_id, (principal_id, id)) → is_open x.1.acknowledged_at ≡ false) t
      → (load_for_page lib network_id principal_id class page limit redelivery later t).1 ≡ ok gaps
      → contains_id id (ids_of gaps) ≡ false
  closed_is_in_no_page id page limit redelivery later t gaps closed h =
      not_contained id (ids_of gaps) (
        All-loaded (λ i. str_eq i id ≡ false) page limit redelivery later t gaps h
          (closed_is_unselected network_id principal_id class id page redelivery later t closed))

  -- A gap that a page has delivered is in no other page until the delivery is overdue: of two pages,
  -- the later one loaded before that time, no gap is in both.
  pub pages_are_disjoint :
      (page other : String) (limit limit' redelivery redelivery' now later : ℕ) (t : GapTable Json)
      (gaps gaps' : List (MailboxGap R))
      → let first = load_for_page lib network_id principal_id class page limit redelivery now t in
        first.1 ≡ ok gaps
        → (load_for_page lib network_id principal_id class other limit' redelivery' later first.0).1
          ≡ ok gaps'
        → str_eq page other ≡ false
        → later < now + redelivery'
        → All (λ id. contains_id id (ids_of gaps) ≡ false) (ids_of gaps')
  pages_are_disjoint page other limit limit' redelivery redelivery' now later t gaps gaps' h k d l =
      let marked = (loaded_ids page limit redelivery now t gaps h).1 in
      All-loaded (λ id. contains_id id (ids_of gaps) ≡ false) other limit' redelivery' later _ gaps'
        k
        (rw marked (
          marked_is_held network_id principal_id class page other redelivery' now later
            (ids_of gaps) t d l))

  -- A gap of a page that is then acknowledged is in no page again, at any time.
  pub acknowledged_never_returns :
      (page other : String) (limit limit' redelivery redelivery' now done later : ℕ)
      (t : GapTable Json) (gaps gaps' : List (MailboxGap R))
      → let first = load_for_page lib network_id principal_id class page limit redelivery now t in
        first.1 ≡ ok gaps
        → let closed = (acknowledge_page network_id principal_id class page done first.0).0 in
          (load_for_page lib network_id principal_id class other limit' redelivery' later closed).1
            ≡ ok gaps'
          → All (λ id. contains_id id (ids_of gaps) ≡ false) (ids_of gaps')
  acknowledged_never_returns page other limit limit' redelivery redelivery' now done later t gaps
        gaps' h k =
      let marked = (loaded_ids page limit redelivery now t gaps h).1 in
      All-loaded (λ id. contains_id id (ids_of gaps) ≡ false) other limit' redelivery' later _ gaps'
        k
        (rw marked (
          acknowledged_is_closed network_id principal_id class page other redelivery' now done later
            (ids_of gaps) t))
