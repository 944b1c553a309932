-- ===== src/Gateway/Reannounce/Complete.antt =====
-- A full reconcile announces every snapshot (crates/gateway/src/gateway_sync.rs).
use mathlib.Core.List.{append_assoc, append-nil}
use watt_gateway.Prelude.{
  ℕ, zero, suc, ◌<◌, ◌≡◌, inl, inr, refl, sym, ap, ◌∙◌, String, Bool, true, false, Option, some,
  List, [], ◌∷◌, ◌++◌, filter_by, All, Bool-cases, arith, length, leb, max,
}
use watt_gateway.Gateway.Reannounce.{
  SnapshotRow, full, incremental, Reannounce, take, last_of, is_full, is_visible,
  next_full_reconcile_cursor, list_visible_snapshots_after_node_id, publish_snapshot_announcements,
  published, full_page, at_cursor, reannounce_local_snapshots,
}
use watt_gateway.Gateway.Reannounce.Pages.{
  TextOrder, IsAfter, rest_after, IsSorted, drop, take-drop, drop-short, length-drop,
  filter-IsSorted, All-filter, kept_whole, next_rest,
}

at_least_one : (n : ℕ) → max (suc n) 1 ≡ suc n
at_least_one n = omega arith

none_left : (n : ℕ) → leb (suc n) 0 ≡ false
none_left n = ground arith

joined :
    (n : ℕ) (announced : List SnapshotRow) (row : SnapshotRow) (post : List SnapshotRow)
    → (announced ++ row ∷ take n post) ++ drop n post ≡ announced ++ row ∷ post
joined n announced row post =
    append_assoc announced (row ∷ take n post) (drop n post)
    ∙ ap (λ rest. announced ++ row ∷ rest) (take-drop n post)

short_page : (n : ℕ) (rows : List SnapshotRow) → length (take n rows) < n → take n rows ≡ rows
short_page n rows h =
    sym (append-nil (take n rows))
    ∙ ap (λ rest. take n rows ++ rest) (sym (drop-short n rows h))
    ∙ take-drop n rows

module _ (order : TextOrder) (source_is_active : String → Bool) (exports : Bool)
    (publishes : SnapshotRow → Bool) (more : ℕ) where
  abbrev run_once : ℕ → List SnapshotRow → Reannounce → Reannounce × Option Bool
  run_once now rows s =
      reannounce_local_snapshots order.after source_is_active exports publishes (suc more) now true
        rows s

  -- The runs of a full reconcile, until one says that there is no more or fails.
  pub reconcile : ℕ → ℕ → List SnapshotRow → Reannounce → Reannounce × Option Bool
  reconcile zero now rows s = (s, some true)
  reconcile (suc runs) now rows s =
      let (next, answer) = run_once now rows s in go_on answer next (reconcile runs now rows next)
    where
      go_on : Option Bool → Reannounce → Reannounce × Option Bool → Reannounce × Option Bool
      go_on (some true) next rest = rest
      go_on answer next rest = (next, answer)

  module _ (works : exports ≡ true) (taken : (row : SnapshotRow) → publishes row ≡ true) where
    all_published :
        (rows : List SnapshotRow)
        → published order.after source_is_active exports publishes (suc more) rows ≡ (rows, true)
    all_published [] = refl
    all_published (row ∷ rows) = rw (taken row, all_published rows) refl

    all_announced :
        (rows : List SnapshotRow)
        → publish_snapshot_announcements order.after source_is_active exports publishes
            (suc more)
            rows
          ≡ (rows, true)
    unfolding publish_snapshot_announcements
    all_announced [] = refl
    all_announced (row ∷ rows) = rw works (all_published (row ∷ rows))

    full_state : ℕ → String → List SnapshotRow → Reannounce
    full_state started_at node_id announced = record {
      cursor = some (full started_at node_id);
      announced = announced;
    }

    done_state : ℕ → List SnapshotRow → Reannounce
    done_state started_at announced = record {
      cursor = some (incremental started_at "");
      announced = announced;
    }

    module _ (now started_at : ℕ) (rows : List SnapshotRow) where
      visible : List SnapshotRow
      visible = filter_by (is_visible order.after source_is_active) rows

      last_page :
          (node_id : String) (announced : List SnapshotRow)
          → rest_after order node_id visible ≡ []
          → run_once now rows (full_state started_at node_id announced)
            ≡ (done_state started_at announced, some false)
      unfolding reannounce_local_snapshots at_cursor full_page list_visible_snapshots_after_node_id
          next_full_reconcile_cursor visible full_state done_state
      last_page node_id announced is =
          rw (is, at_least_one more, all_announced [], append-nil announced, none_left more) refl

      page :
          (node_id : String) (announced : List SnapshotRow) (row : SnapshotRow)
          (post : List SnapshotRow) (has_more : Bool)
          → rest_after order node_id visible ≡ row ∷ post
          → leb (suc more) (length (row ∷ take more post)) ≡ has_more
          → run_once now rows (full_state started_at node_id announced) ≡ (
            record {
              cursor = some (
                  next_full_reconcile_cursor started_at
                    (some (last_of row (take more post)).node_id)
                    has_more);
              announced = announced ++ row ∷ take more post;
            },
            some has_more,
          )
      unfolding reannounce_local_snapshots at_cursor full_page list_visible_snapshots_after_node_id
          visible full_state
      page node_id announced row post has_more is size =
          rw (is, at_least_one more, all_announced (row ∷ take more post), size) refl

      module _ (sorted : IsSorted order visible) where
        completed :
            (runs : ℕ) (node_id : String) (announced post : List SnapshotRow)
            → rest_after order node_id visible ≡ post
            → length post < runs
            → reconcile runs now rows (full_state started_at node_id announced)
              ≡ (done_state started_at (announced ++ post), some false)
        unfolding reconcile next_full_reconcile_cursor full_state done_state
        completed zero node_id announced post is size = absurd (omega (arith, size))
        completed (suc runs) node_id announced [] is size =
            rw (last_page node_id announced is, append-nil announced) refl
        completed (suc runs) node_id announced (row ∷ post) is size =
            elim (Bool-cases (leb (suc more) (length (row ∷ take more post)))) [
              | inl e ↦ rw (page node_id announced row post true is e) (
                  completed runs (last_of row (take more post)).node_id
                    (announced ++ row ∷ take more post) (drop more post)
                    (next_rest order node_id visible row post more sorted is)
                    (omega (arith, size, length-drop more post))
                  ∙ ap (λ all. (done_state started_at all, some false))
                      (joined more announced row post))
              | inr e ↦ rw (page node_id announced row post false is e) (
                  ap (λ all. (done_state started_at (announced ++ row ∷ all), some false))
                    (short_page more post (ground (arith, e))))
            ]

    -- A full reconcile ends, and announces each visible snapshot once: from a cursor that is in no
    -- full reconcile, with a table in the strict order of its nodes, whose names are after the empty
    -- one, and a network that takes what it is given, as many runs as there are visible rows and one
    -- more announce these rows in their order, say that there is no more, and leave the cursor of the
    -- changes since the first run. The size of a page is any but 0.
    pub full_reconcile_is_complete :
        (now : ℕ) (rows : List SnapshotRow) (s : Reannounce)
        → IsSorted order rows
        → All (IsAfter order "") rows
        → is_full s.cursor ≡ false
        → let visible = filter_by (is_visible order.after source_is_active) rows in
          reconcile (suc (length visible)) now rows s ≡ (
            record { cursor = some (incremental now ""); announced = s.announced ++ visible },
            some false,
          )
    unfolding reconcile reannounce_local_snapshots visible full_state done_state
    full_reconcile_is_complete now rows s sorted named fresh =
        let all_named = All-filter order (is_visible order.after source_is_active) "" rows named in
        let ran =
          completed now now rows (filter-IsSorted order _ rows sorted)
            (suc (length (visible now now rows))) "" s.announced (visible now now rows)
            (kept_whole order "" _ all_named) (omega arith) in
        rw fresh ran
