-- ===== src/Gateway/Reannounce/Tests.antt =====
-- A full reconcile of three rows in pages of two (crates/gateway/src/gateway_sync.rs).
use watt_gateway.Prelude.{
  ℕ, suc, ◌≡◌, refl, String, Bool, true, false, Option, none, some, List, [], ◌∷◌, ◌++◌, length,
  filter_by, arith, ltb, str_eq, if◌then◌else◌,
}
use watt_gateway.Gateway.Json.{null}
use watt_gateway.Gateway.Reannounce.{
  SnapshotRow, incremental, Reannounce, is_visible, reannounce_local_snapshots, at_cursor,
  full_page, list_visible_snapshots_after_node_id, publish_snapshot_announcements,
  next_full_reconcile_cursor,
}
use watt_gateway.Gateway.Reannounce.Pages.{TextOrder}
use watt_gateway.Gateway.Reannounce.Complete.{reconcile, full_reconcile_is_complete}

abbrev rank : String → ℕ
rank name =
    if str_eq name "a" then 1 else if str_eq name "b" then 2 else if str_eq name "c" then 3 else 0

below_itself : (n : ℕ) → ltb n n ≡ false
below_itself n = ground arith

below_below : (m n k : ℕ) → ltb m n ≡ true → ltb k m ≡ true → ltb k n ≡ true
below_below m n k h e = ground (arith, h, e)

abbrev by_rank : TextOrder
by_rank = record {
  after = λ name than. ltb (rank than) (rank name);
  irreflexive = λ name. below_itself (rank name);
  transitive = λ r s t h e. below_below (rank s) (rank r) (rank t) h e;
}

abbrev row_of : String → Option String → SnapshotRow
row_of node_id source_id = record {
  source_id = source_id;
  node_id = node_id;
  signer_agent_did = "did";
  public_key = "key";
  generated_at = 1;
  ingested_at = 2;
  payload = null;
  signature = "signature";
}

-- The source of the second row is not active.
abbrev rows : List SnapshotRow
rows = row_of "a" none ∷ row_of "b" (some "old") ∷ row_of "c" (some "active") ∷ []

abbrev is_active : String → Bool
is_active source_id = str_eq source_id "active"

abbrev start : Reannounce
start = record { cursor = none; announced = [] }

abbrev one_page : Reannounce × Option Bool
one_page =
    reannounce_local_snapshots by_rank.after is_active true (λ row. str_eq row.node_id "a") 2 7 true
      rows start

-- A row that the network refuses is not announced, and the reconcile is not done.
refused : (one_page.0.announced ≡ row_of "a" none ∷ []) × (one_page.1 ≡ none)
unfolding reannounce_local_snapshots at_cursor full_page list_visible_snapshots_after_node_id
    publish_snapshot_announcements next_full_reconcile_cursor is_visible
refused = (refl, refl)

full_reconcile_is_complete_example :
    reconcile by_rank is_active true
      (λ row. true)
      0
      (suc (length (filter_by (is_visible by_rank.after is_active) rows)))
      7
      rows
      start
    ≡ (
      record {
        cursor = some (incremental 7 "");
        announced = [] ++ filter_by (is_visible by_rank.after is_active) rows;
      },
      some false,
    )
full_reconcile_is_complete_example =
    full_reconcile_is_complete by_rank is_active true (λ row. true) 0 refl (λ row. refl) 7 rows
      start ((refl, (refl, tt)), ((refl, tt), (tt, tt))) (refl, (refl, (refl, tt))) refl
