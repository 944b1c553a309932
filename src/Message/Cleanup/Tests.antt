-- ===== src/Message/Cleanup/Tests.antt =====
-- A cleanup of small tables (crates/message-gateway/src/db.rs).
use watt_gateway.Prelude.{ℕ, String, Option, none, some, [], ◌∷◌}
use watt_gateway.Message.Bucket.{interactive}
use watt_gateway.Message.Sessions.{ChallengeRow, SessionRow, SessionPrincipalRow}
use watt_gateway.Message.Gaps.{GapRow}
use watt_gateway.Message.Cleanup.{Metadata}

abbrev challenge_until : ℕ → ChallengeRow String
challenge_until expires_at = record {
  network_id = "network";
  principals_json = "[]";
  nonce = "nonce";
  expires_at = expires_at;
  consumed_at = none;
}

abbrev gap : Option ℕ → GapRow String
gap acknowledged_at = record {
  delivery_class = interactive;
  delivery_policy_version = 1;
  route_json = "route";
  reason = "expired";
  first_affected_at = 5;
  last_affected_at = 7;
  approximate_count = 2;
  delivery_page_id = none;
  delivered_at = none;
  acknowledged_at = acknowledged_at;
}

abbrev session_of : String → ℕ → SessionRow
session_of id expires_at = record {
  session_id = id;
  token_hash = id;
  network_id = "network";
  expires_at = expires_at;
}

abbrev principal_of : String → SessionPrincipalRow
principal_of id = record { session_id = id; principal_id = "alice"; expires_at = 900 }

abbrev tables : Metadata String
tables = record {
  challenges = ("old", challenge_until 100) ∷ ("new", challenge_until 101) ∷ [];
  sessions = session_of "old" 99 ∷ session_of "new" 200 ∷ [];
  session_principals = principal_of "old" ∷ principal_of "new" ∷ [];
  receipts = [];
  owners = [];
  gaps =
      (("network", ("alice", "kept")), gap (some 60))
      ∷ (("network", ("alice", "gone")), gap (some 50))
      ∷ (("network", ("alice", "open")), gap none)
      ∷ [];
}

abbrev after_cleanup : Metadata String
after_cleanup = record {
  challenges = ("new", challenge_until 101) ∷ [];
  sessions = session_of "new" 200 ∷ [];
  session_principals = principal_of "new" ∷ [];
  receipts = [];
  owners = [];
  gaps =
      (("network", ("alice", "kept")), gap (some 60))
      ∷ (("network", ("alice", "open")), gap none)
      ∷ [];
}
