-- ===== src/Message/Gaps/Tests.antt =====
-- A mailbox with dropped messages, and what the theorems say of it.
use watt_gateway.Prelude.{
  ℕ, suc, ◌≡◌, ◌≤◌, refl, String, true, false, Option, none, some, List, [], ◌∷◌, arith, Eq,
  pair_eq, string_eq, if◌then◌else◌, lookup, insert, Result, ok, All,
}
use watt_gateway.Message.Bucket.{interactive}
use watt_gateway.Message.Gaps.{
  GapLibraries, GapTable, GapRow, GapKey, GapError, MailboxGap, expired, compressed_gap_id,
  record_gap, contains_id, acknowledge_page, load_for_page, parse_reason, page_rows, select_gaps,
  order_gaps, insert_ordered, mark_delivered, to_gap, to_gaps,
}
use watt_gateway.Message.Gaps.Counts.{total_count, record_counts, late_gap_is_lost}
use watt_gateway.Message.Gaps.Delivery.{ids_of, pages_are_disjoint, acknowledged_never_returns}

abbrev libraries : GapLibraries String String
libraries = record {
  to_value = λ r. some r;
  from_value = λ j. some j;
  digest_id = λ tuple. some "id";
  timestamp = λ ms. some ms;
  uuid_before = λ i j. true;
}

abbrev gap_key_eq : Eq GapKey
gap_key_eq = pair_eq

abbrev row : Option ℕ → GapRow String
row acknowledged_at = record {
  delivery_class = interactive;
  delivery_policy_version = 1;
  route_json = "route";
  reason = "expired";
  first_affected_at = 5;
  last_affected_at = 7;
  approximate_count = 2;
  delivery_page_id = none;
  delivered_at = none;
  acknowledged_at = acknowledged_at;
}

abbrev table : Option ℕ → GapTable String
table acknowledged_at = (("network", ("alice", "id")), row acknowledged_at) ∷ []

abbrev recorded : Option ℕ → GapTable String
recorded acknowledged_at =
    (
      ("network", ("alice", "id")),
      record (row acknowledged_at) { last_affected_at = 9; approximate_count = 3 },
    )
    ∷ []

recorded_again :
    (acknowledged_at : Option ℕ)
    → record_gap libraries 100 "network" "alice" interactive 1 "route" expired 9
        (table acknowledged_at)
      ≡ ok (recorded acknowledged_at, "id")
unfolding record_gap compressed_gap_id lookup insert
recorded_again acknowledged_at = refl

record_counts_run :
    (total_count (recorded none) ≡ suc (total_count (table none)))
    × ((new : GapRow String) × (lookup ⦃e = pair_eq⦄ ("network", ("alice", "other")) (recorded none)
          ≡ (if (gap_key_eq).beq ("network", ("alice", "id")) ("network", ("alice", "other"))
              then some new
              else lookup ⦃e = pair_eq⦄ ("network", ("alice", "other")) (table none)))
        × (new.approximate_count ≡ 3)
        × (9 ≤ new.last_affected_at))
unfolding lookup
record_counts_run =
    record_counts libraries 100 "network" "alice" interactive 1 "route" expired 9 (table none)
      (recorded none) "id" (recorded_again none) ("network", ("alice", "other"))

later_page_is_empty :
    (load_for_page libraries "network" "alice" interactive "page" 10 10 1000 (recorded (some 8))).1
    ≡ ok []
unfolding load_for_page page_rows select_gaps order_gaps insert_ordered to_gaps to_gap
later_page_is_empty = refl

late_gap_is_lost_example :
    ((new : GapRow String) × (lookup ⦃e = pair_eq⦄ ("network", ("alice", "id")) (recorded (some 8))
        ≡ some new)
      × (new.approximate_count ≡ 3)
      × (new.acknowledged_at ≡ some 8))
    × (contains_id "id" (ids_of {R = String} []) ≡ false)
unfolding lookup
late_gap_is_lost_example =
    late_gap_is_lost libraries 100 "network" "alice" interactive 1 "route" expired 9
      (table (some 8)) (recorded (some 8)) "id" (recorded_again (some 8)) (row (some 8)) 8 "page" 10
      10 1000 [] refl refl ((λ same. refl), tt) later_page_is_empty

-- Another gap that began later.
abbrev two_gaps : GapTable String
two_gaps =
    (("network", ("alice", "later")), record (row none) { first_affected_at = 6 }) ∷ table none

abbrev gap : String → ℕ → MailboxGap String
gap id first_affected_at = record {
  gap_id = id;
  delivery_class = interactive;
  delivery_policy_version = 1;
  route = "route";
  reason = expired;
  first_affected_at = first_affected_at;
  last_affected_at = 7;
  approximate_count = 2;
}

abbrev first_page : GapTable String × Result GapError (List (MailboxGap String))
first_page = load_for_page libraries "network" "alice" interactive "page" 1 100 20 two_gaps

first_page_loads : first_page.1 ≡ ok (gap "id" 5 ∷ [])
unfolding load_for_page page_rows select_gaps order_gaps insert_ordered to_gaps to_gap parse_reason
first_page_loads = refl

second_page_loads :
    (load_for_page libraries "network" "alice" interactive "other" 10 100 30 first_page.0).1
    ≡ ok (gap "later" 6 ∷ [])
unfolding load_for_page page_rows select_gaps order_gaps insert_ordered to_gaps to_gap parse_reason
    mark_delivered
second_page_loads = refl

pages_are_disjoint_run :
    All (λ id. contains_id id (ids_of (gap "id" 5 ∷ [])) ≡ false) (ids_of (gap "later" 6 ∷ []))
pages_are_disjoint_run =
    pages_are_disjoint libraries "network" "alice" interactive "page" "other" 1 10 100 100 20 30
      two_gaps (gap "id" 5 ∷ []) (gap "later" 6 ∷ []) first_page_loads second_page_loads refl
      (omega arith)

page_after_acknowledgement :
    (load_for_page libraries "network" "alice" interactive "page" 10 100 500
      (acknowledge_page "network" "alice" interactive "page" 25 first_page.0).0).1
    ≡ ok (gap "later" 6 ∷ [])
unfolding load_for_page page_rows select_gaps order_gaps insert_ordered to_gaps to_gap parse_reason
    mark_delivered acknowledge_page
page_after_acknowledgement = refl

acknowledged_never_returns_example :
    All (λ id. contains_id id (ids_of (gap "id" 5 ∷ [])) ≡ false) (ids_of (gap "later" 6 ∷ []))
acknowledged_never_returns_example =
    acknowledged_never_returns libraries "network" "alice" interactive "page" "page" 1 10 100 100 20
      25 500 two_gaps (gap "id" 5 ∷ []) (gap "later" 6 ∷ []) first_page_loads
      page_after_acknowledgement
