-- ===== src/Gateway/Projection/Rows/Tests.antt =====
-- Projections that come out of order (crates/gateway/src/db.rs).
use watt_gateway.Prelude.{ℕ, refl, String, Option, none, some, List, [], ◌∷◌, lookup}
use watt_gateway.Gateway.Json.{null}
use watt_gateway.Gateway.Projection.Rows.{ProjectionRow, ProjectionKey}
use watt_gateway.Gateway.Projection.Rows.Newest.{upsert_rows, LaterRow, newest_row_stays}

abbrev row_at : ℕ → Option String → ProjectionRow
row_at generated_at source_id = record {
  source_id = source_id;
  generated_at = generated_at;
  visibility = "public";
  payload = null;
  provenance = null;
}

abbrev key : ProjectionKey
key = ("task_summary", ("m", "node"))

abbrev later : List (ProjectionKey × ProjectionRow)
later = (key, row_at 3 none) ∷ (key, row_at 9 none) ∷ (("hive", ("h", "node")), row_at 1 none) ∷ []

newest_row_stays_example :
    LaterRow key
      (row_at 5 (some "source"))
      (upsert_rows later ((key, row_at 5 (some "source")) ∷ []))
unfolding lookup
newest_row_stays_example =
    newest_row_stays later key (row_at 5 (some "source")) ((key, row_at 5 (some "source")) ∷ [])
      refl
