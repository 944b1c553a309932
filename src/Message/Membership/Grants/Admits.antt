-- ===== src/Message/Membership/Grants/Admits.antt =====
-- What an accepted Grant does (crates/message-gateway/src/service.rs).
use Prim.Native.String.{◌++◌ as join}
use watt_gateway.Prelude.{
  ℕ, String, ◌≡◌, refl, sym, ap, ap₂, ◌∙◌, inl, inr, Bool, true, false, ◌&&◌, ◌||◌, not, Option,
  none, some, List, [], arith, str_eq_refl, string_eq, pair_eq, lookup, lookup-insert_self, Result,
  ok, err, bail_if, or_bail, ◌>>=◌, >>=-eq-ok,
}
use watt_gateway.Message.Config.{Config}
use watt_gateway.Message.Membership.{
  global, Db, GrantRow, MemberRow, active, is_active, grant_is_live, row_is_active,
  principal_is_admitted, principal_is_global_authority, expiry_is_ahead, in_scope,
}
use watt_gateway.Message.Membership.Mutation.{
  principal, MutationError, BrokerCall, apply_in_scope, active_row, roles_of,
}
use watt_gateway.Message.Membership.Mutation.Rows.{IsKeyed}
use watt_gateway.Message.Membership.Mutation.Laws.{apply_sets_membership, apply_keeps_others}
use watt_gateway.Message.Membership.Grants.{
  Grant, GrantResponse, GrantCrypto, upsert_network_membership_grant, active_version, respond,
  version_if, mutation_error, project_grant, finish_grant, admit_grant,
}

-- The member's row is active, and has the version that the response names.
abbrev pub IsProjected : Db → Grant → GrantResponse → Type 0
IsProjected db g r =
    (row : MemberRow) × (lookup (g.network_id, ("global", g.principal_id)) db.members ≡ some row)
    × (row.state ≡ active)
    × (row.membership_version ≡ r.membership_version)

upsert_keeps :
    (g : Grant) (id : String) (db db' : Db)
    → upsert_network_membership_grant g id db ≡ ok db'
    → (db'.members ≡ db.members)
      × (db'.authorities ≡ db.authorities)
      × (lookup (g.network_id, g.principal_id) db'.grants
          ≡ some
              (record { grant_id = id; issued_at_ms = g.issued_at; expires_at_ms = g.expires_at }))
unfolding upsert_network_membership_grant
upsert_keeps g id db db' h = ground (
  arith,
  lookup-insert_self (g.network_id, g.principal_id)
      (record { grant_id = id; issued_at_ms = g.issued_at; expires_at_ms = g.expires_at })
      db.grants,
)

admitted_by_rows :
    (db : Db) (now : ℕ) (network_id principal_id : String) (row : MemberRow) (grant : GrantRow)
    → lookup (network_id, ("global", principal_id)) db.members ≡ some row
    → row.state ≡ active
    → lookup (network_id, principal_id) db.grants ≡ some grant
    → expiry_is_ahead now grant.expires_at_ms ≡ true
    → principal_is_admitted db now network_id principal_id ≡ true
unfolding principal_is_admitted grant_is_live
admitted_by_rows db now network_id principal_id row grant e f g h =
    ap₂ (λ r s. row_is_active r && grant_is_live now s) e g ∙ ap₂ (λ s b. is_active s && b) f h

version_if_inversion :
    (live : Bool) (row : Option MemberRow) (version : String)
    → (live ≡ true → row_is_active row ≡ true)
    → version_if live row ≡ some version
    → (found : MemberRow) × (row ≡ some found)
      × (found.state ≡ active)
      × (found.membership_version ≡ version)
version_if_inversion false row version on h = absurd (cc)
version_if_inversion true none version on h = absurd (cc)
version_if_inversion true (some found) version on h =
    let e = on refl in (found, refl, ground arith, ground arith)

project_inversion :
    (g : Grant) (version : String) (x : Result MutationError (Db × ℕ)) (db' : Db)
    (r : GrantResponse)
    → ◌>>=◌ {B = Db × GrantResponse}
        (mutation_error x)
        (λ applied. ok (applied.0, respond g version))
      ≡ ok (db', r)
    → (n : ℕ) × (x ≡ ok (db', n)) × (respond g version ≡ r)
project_inversion g version (ok (d, n)) db' r h = (n, ground arith, ground arith)
project_inversion g version (err e) db' r h = absurd (cc)

module _ (crypto : GrantCrypto) (broker : List BrokerCall → Bool) (c : Config) (now elapsed : ℕ)
    (g : Grant) where
  -- The membership half of the projection, at the mutation that a Grant makes.
  mutation-IsProjected :
      (version : String) (db db' : Db) (n : ℕ)
      → IsKeyed db.members
      → apply_in_scope broker c now elapsed g.network_id "global"
          (principal global g.principal_id true version)
          none
          db
        ≡ ok (db', n)
      → IsProjected db' g (respond g version)
  unfolding active_row roles_of
  mutation-IsProjected version db db' n k h =
      elim (apply_sets_membership broker c now elapsed g.network_id "global"
        (principal global g.principal_id true version) none db db' n h g.principal_id k).0 [
          | inl (_, e) ↦ (active_row version [], e, refl, refl)
          | inr (no_longer, _) ↦ absurd (true_first _ _ (str_eq_refl g.principal_id) no_longer)
        ]
    where
      true_first : (a b : Bool) → a ≡ true → (a || b) ≡ false → ⊥
      true_first a b e f = ground arith

  project-IsProjected :
      (version : String) (db db' : Db) (r : GrantResponse)
      → IsKeyed db.members
      → project_grant crypto broker c now elapsed g version db ≡ ok (db', r)
      → IsProjected db' g r × (db'.grants ≡ db.grants) × (db'.authorities ≡ db.authorities)
  unfolding project_grant
  project-IsProjected version db db' r k h =
      let (n, e, f) = project_inversion g version _ db' r h in
      let (_, grants, authorities) =
        apply_keeps_others broker c now elapsed g.network_id "global"
          (principal global g.principal_id true version) none db db' n e ("", ("", ""))
          (out_of_scope g.network_id) in
      let (row, found, is_on, named) = mutation-IsProjected version db db' n k e in
      ((row, found, is_on, named ∙ ap (λ x. x.membership_version) f), grants, authorities)
    where
      out_of_scope : (n : String) → in_scope n "global" ("", ("", "")) ≡ false
      out_of_scope n = ground arith

  finish-IsProjected :
      (id : String) (db db' : Db) (r : GrantResponse) (found : Option String)
      → IsKeyed db.members
      → active_version db now g.network_id g.principal_id ≡ found
      → finish_grant crypto broker c now elapsed g id db found ≡ ok (db', r)
      → IsProjected db' g r × (db'.grants ≡ db.grants) × (db'.authorities ≡ db.authorities)
  unfolding active_version finish_grant
  finish-IsProjected id db db' r (some version) k e h =
      let (row, at_row, is_on, named) =
        version_if_inversion _ (lookup (g.network_id, ("global", g.principal_id)) db.members)
          version (ground arith) e in
      ((row, ground arith, is_on, named ∙ ground arith), ground arith, ground arith)
  finish-IsProjected id db db' r none k e h = project-IsProjected (join "grant:" id) db db' r k h

  admit_inversion :
      (db db' : Db) (r : GrantResponse)
      → admit_grant crypto broker c now elapsed g db ≡ ok (db', r)
      → (genesis : String) × (id : String) × (granted : Db) × (lookup g.network_id
            c.trusted_network_genesis
          ≡ some genesis)
        × (crypto.verify_grant g genesis now ≡ true)
        × (principal_is_global_authority db g.network_id genesis ≡ true)
        × (upsert_network_membership_grant g id db ≡ ok granted)
        × (finish_grant crypto broker c now elapsed g id granted
              (active_version granted now g.network_id g.principal_id)
            ≡ ok (db', r))
  unfolding admit_grant
  admit_inversion db db' r h =
      let (genesis, a, h1) =
        >>=-eq-ok (or_bail (lookup g.network_id c.trusted_network_genesis) _) _ h in
      let (_, b, h2) = >>=-eq-ok (bail_if (not (crypto.verify_grant g genesis now)) _) _ h1 in
      let (_, d, h3) =
        >>=-eq-ok (bail_if (not (principal_is_global_authority db g.network_id genesis)) _) _ h2 in
      let (id, e, h4) = >>=-eq-ok (or_bail (crypto.grant_id g) _) _ h3 in
      let (granted, f, h5) = >>=-eq-ok (upsert_network_membership_grant g id db) _ h4 in
      (genesis, id, granted, ground arith, ground arith, ground arith, f, h5)

  -- An accepted Grant admits its principal, whose row is active under the version that the response
  -- names. The network has a configured Genesis, which the Grant verifies against and which the
  -- projection holds as the active authority. The rows of the member table have different keys.
  pub admit_admits :
      (db db' : Db) (r : GrantResponse)
      → IsKeyed db.members
      → admit_grant crypto broker c now elapsed g db ≡ ok (db', r)
      → (principal_is_admitted db' now g.network_id g.principal_id ≡ true)
        × IsProjected db' g r
        × ((genesis : String) × (lookup g.network_id c.trusted_network_genesis ≡ some genesis)
            × (crypto.verify_grant g genesis now ≡ true)
            × (principal_is_global_authority db g.network_id genesis ≡ true))
  admit_admits db db' r k h =
      let (genesis, id, granted, a, b, d, e, f) = admit_inversion db db' r h in
      let (members, _, stored) = upsert_keeps g id db granted e in
      let (projected, grants, _) =
        finish-IsProjected id granted db' r (active_version granted now g.network_id g.principal_id)
          (rw (sym members) at k) refl f in
      let (row, at_row, is_on, _) = projected in
      let ahead = crypto.verified_is_ahead g genesis now b in
      (
        admitted_by_rows db' now g.network_id g.principal_id row _ at_row is_on
            (ap (lookup (g.network_id, g.principal_id)) grants ∙ stored) ahead,
        projected,
        (genesis, a, b, d),
      )
