-- ===== src/Message/Membership/Mutation/Window.antt =====
-- The mutation window of a scope: `record_membership_mutation` of
-- crates/message-gateway/src/db.rs over many mutations.
use watt_gateway.Prelude.{
  ℕ, suc, ◌+◌, ◌≤◌, ◌<◌, String, ◌≡◌, Option, some, List, [], ◌∷◌, arith, str_eq, if◌then◌else◌,
  string_eq, pair_eq, lookup, lookup-insert_self, Result, ok, ◌>>=◌, >>=-eq-ok,
}
use watt_gateway.Message.Config.{Config}
use watt_gateway.Message.Membership.{Db, WindowRow}
use watt_gateway.Message.Membership.Mutation.{
  MutationError, next_window, record_membership_mutation,
}

-- The mutations of a scope, each at its time and with its version; the first refusal ends the run.
unfoldable pub record_all :
    Config → String → String → List (ℕ × String) → Db → Result MutationError Db
record_all c network_id label [] db = ok db
record_all c network_id label ((now, version) ∷ rest) db = do
  db' ← record_membership_mutation c now network_id label version db
  record_all c network_id label rest db'

-- How often the version differs from the one before.
pub changes : String → List (ℕ × String) → ℕ
changes last [] = 0
changes last ((now, version) ∷ rest) =
    let more = changes version rest in if str_eq last version then more else suc more

abbrev pub AllBefore : ℕ → List (ℕ × String) → Type 0
AllBefore deadline [] = Unit
AllBefore deadline ((now, version) ∷ rest) = (now < deadline) × AllBefore deadline rest

module _ (c : Config) (network_id label : String) where
  abbrev limit : ℕ
  limit = c.max_membership_mutations_per_scope_per_window

  record_row :
      (now : ℕ) (version : String) (row : Option WindowRow) (db db' : Db)
      → lookup (network_id, label) db.windows ≡ row
      → record_membership_mutation c now network_id label version db ≡ ok db'
      → (lookup (network_id, label) db'.windows
          ≡ some (next_window c.membership_mutation_window now version row))
        × ((next_window c.membership_mutation_window now version row).mutation_count ≤ limit)
  unfolding record_membership_mutation
  record_row now version row db db' e h = ground (
    arith,
    lookup-insert_self (network_id, label)
        (next_window c.membership_mutation_window now version
          (lookup (network_id, label) db.windows))
        db.windows,
  )

  -- Within one window no run of mutations that are all accepted changes the version more often than
  -- the limit has left; a mutation that repeats the version before it costs nothing.
  pub window_limits :
      (reqs : List (ℕ × String)) (row : WindowRow) (db db' : Db)
      → lookup (network_id, label) db.windows ≡ some row
      → row.mutation_count ≤ limit
      → AllBefore (row.window_started_at + c.membership_mutation_window) reqs
      → record_all c network_id label reqs db ≡ ok db'
      → row.mutation_count + changes row.last_membership_version reqs ≤ limit
  unfolding record_all changes next_window
  window_limits [] row db db' e l a h = omega arith
  window_limits ((now, version) ∷ rest) row db db' e l a h =
      let (mid, first, later) =
        >>=-eq-ok (record_membership_mutation c now network_id label version db) _ h in
      let (found, counted) = record_row now version (some row) db mid e first in
      let next = next_window c.membership_mutation_window now version (some row) in
      let same : next.window_started_at ≡ row.window_started_at = ground arith in
      ground (arith, window_limits rest next mid db' found counted (rw same a.1) later, counted)
