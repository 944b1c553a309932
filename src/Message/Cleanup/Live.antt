-- ===== src/Message/Cleanup/Live.antt =====
-- A cleanup leaves what is live (crates/message-gateway/src/db.rs).
use watt_gateway.Prelude.{ℕ, ◌<◌, ◌≡◌, String, none, some, string_eq, pair_eq, lookup, bytes_eq}
use watt_gateway.Message.Sessions.{ChallengeRow}
use watt_gateway.Message.Control.{ReceiptRow}
use watt_gateway.Message.Bucket.{class_eq}
use watt_gateway.Message.Owner.{OwnerRow, Key}
use watt_gateway.Message.Gaps.{GapRow, GapKey}
use watt_gateway.Message.Cleanup.{Metadata}

-- What is live after a cleanup as before it.
abbrev pub IsLive : {Json : Type 0} → ℕ → Metadata Json → Metadata Json → Type 0
IsLive {Json} now m m' =
    ((id : String) (row : ChallengeRow Json)
      → lookup id m.challenges ≡ some row
      → now < row.expires_at
      → lookup id m'.challenges ≡ some row)
    × ((key : String × (String × String)) (row : ReceiptRow)
        → lookup key m.receipts ≡ some row
        → now < row.expires_at
        → lookup key m'.receipts ≡ some row)
    × ((key : Key) (row : OwnerRow)
        → lookup key m.owners ≡ some row
        → now < row.lease_expires_at
        → lookup key m'.owners ≡ some row)
    × ((key : GapKey) (row : GapRow Json)
        → lookup key m.gaps ≡ some row
        → row.acknowledged_at ≡ none
        → lookup key m'.gaps ≡ some row)
