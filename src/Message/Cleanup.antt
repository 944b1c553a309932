-- ===== src/Message/Cleanup.antt =====
-- `cleanup_expired_metadata` of crates/message-gateway/src/db.rs: the rows whose time has passed.
-- The audit log, which is no table of the model, is left out, and one clock reading stands for all
-- statements.
pub mod Live
mod Tests
use watt_gateway.Prelude.{
  ℕ, suc, ◌+◌, String, Bool, true, false, Option, none, some, List, [], ◌∷◌, ◌||◌, leb, str_eq,
  if◌then◌else◌, i64_max, Result, err, ok, Table, string_eq, pair_eq, min,
}
use watt_gateway.Message.Sessions.{ChallengeRow, SessionRow, SessionPrincipalRow}
use watt_gateway.Message.Control.{ReceiptRow}
use watt_gateway.Message.Owner.{OwnerRow, Owners}
use watt_gateway.Message.Gaps.{GapRow, GapKey, GapTable}

module _ {K V : Type 0} (is_past : V → Bool) where
  -- `DELETE … WHERE`: the rows that stay, and how many went.
  pub delete_where : Table K V → Table K V × ℕ
  delete_where [] = ([], 0)
  delete_where ((key, row) ∷ t) =
      let (rest, removed) = delete_where t in
      if is_past row then (rest, suc removed) else ((key, row) ∷ rest, removed)

-- The same of the table of sessions, which is a list of its rows.
pub delete_sessions : ℕ → List SessionRow → List SessionRow × ℕ
delete_sessions now [] = ([], 0)
delete_sessions now (row ∷ rows) =
    let (rest, removed) = delete_sessions now rows in
    if leb row.expires_at now then (rest, suc removed) else (row ∷ rest, removed)

abbrev pub has_session : String → List SessionRow → Bool
has_session session_id [] = false
has_session session_id (row ∷ rows) =
    str_eq row.session_id session_id || has_session session_id rows

-- `ON DELETE CASCADE`
pub cascade : List SessionRow → List SessionPrincipalRow → List SessionPrincipalRow
cascade sessions [] = []
cascade sessions (row ∷ rows) =
    let rest = cascade sessions rows in
    if has_session row.session_id sessions then row ∷ rest else rest

pub record Metadata (Json : Type 0) : Type 0 where
  pub challenges : Table String (ChallengeRow Json)
  pub sessions : List SessionRow
  pub session_principals : List SessionPrincipalRow
  pub receipts : Table (String × (String × String)) ReceiptRow
  pub owners : Owners
  pub gaps : GapTable Json

pub data CleanupError : Type 0 where
  retention_too_large : CleanupError

module _ (now retention_ms : ℕ) where
  abbrev pub challenge_is_past : {Json : Type 0} → ChallengeRow Json → Bool
  challenge_is_past row = leb row.expires_at now

  abbrev pub receipt_is_past : ReceiptRow → Bool
  receipt_is_past row = leb row.expires_at now

  abbrev pub lease_is_past : OwnerRow → Bool
  lease_is_past row = leb row.lease_expires_at now

  abbrev pub acknowledged_before : Option ℕ → Bool
  acknowledged_before none = false
  acknowledged_before (some at) = leb (at + retention_ms) now

  abbrev pub gap_is_past : {Json : Type 0} → GapRow Json → Bool
  gap_is_past row = acknowledged_before row.acknowledged_at

  -- What the statements leave, and the rows that they took.
  pub cleaned : {Json : Type 0} → Metadata Json → Metadata Json × ℕ
  cleaned m =
      let (challenges, c) = delete_where challenge_is_past m.challenges in
      let (sessions, s) = delete_sessions now m.sessions in
      let (receipts, r) = delete_where receipt_is_past m.receipts in
      let (owners, o) = delete_where lease_is_past m.owners in
      let (gaps, g) = delete_where gap_is_past m.gaps in
      (
        record {
          challenges = challenges;
          sessions = sessions;
          session_principals = cascade sessions m.session_principals;
          receipts = receipts;
          owners = owners;
          gaps = gaps;
        },
        c + s + r + o + g,
      )

  pub cleanup_expired_metadata :
      {Json : Type 0} → Metadata Json → Result CleanupError (Metadata Json × ℕ)
  cleanup_expired_metadata m =
      if leb retention_ms i64_max then ok (cleaned m) else err retention_too_large
