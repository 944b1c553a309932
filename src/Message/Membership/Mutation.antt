-- ===== src/Message/Membership/Mutation.antt =====
-- `apply_membership_mutation` of crates/message-gateway/src/service.rs, with
-- `record_membership_mutation` of crates/message-gateway/src/db.rs: one transaction. An error
-- leaves the database as it was, since the caller drops the transaction. The broker answers
-- whether all of a list of calls succeeded in time; the elapsed time is an argument.
pub mod Rows
pub mod Laws
pub mod Bindings
pub mod Size
pub mod Window
pub mod Tests
use watt_gateway.Prelude.{
  ℕ, suc, ◌+◌, String, Bool, true, false, not, ◌&&◌, ◌||◌, Option, none, some, List, [], ◌∷◌, ◌++◌,
  ltb, leb, ◌==◌, str_eq, if◌then◌else◌, length, string_eq, pair_eq, Table, lookup, insert, Result,
  ok, err, bail_if, ◌>>=◌, ◌>>◌, or_bail,
}
use watt_gateway.Message.Config.{Config}
use watt_gateway.Message.Admission.{AdmissionError, validate_proposed_tenant_count}
use watt_gateway.Message.Membership.{
  SwarmScope, global, active, revoked, is_active, binding_active, binding_revoked, MemberRow,
  MemberKey, Members, ScopeVersion, WindowRow, BindingRow, Db, in_scope,
}

-- A signature of the quorum.
pub record SignatureEnvelope : Type 0 where
  pub signer_node_id : String
  pub signature_hex : String

-- `Membership`: the roles of each member.
abbrev pub Membership : Type 0
Membership = Table String (List String)

pub data MembershipMutation : Type 0 where
  snapshot : SwarmScope → Membership → ℕ → List SignatureEnvelope → String → MembershipMutation
  principal : SwarmScope → String → Bool → String → MembershipMutation

abbrev pub scope_of : MembershipMutation → SwarmScope
scope_of (snapshot scope _ _ _ _) = scope
scope_of (principal scope _ _ _) = scope

abbrev pub mutation_version : MembershipMutation → String
mutation_version (snapshot _ _ _ _ version) = version
mutation_version (principal _ _ _ version) = version

pub data MutationError : Type 0 where
  no_label : MutationError
  window_limit_exceeded : MutationError
  not_admitted : AdmissionError → MutationError
  binding_failed : MutationError
  lag_exceeded : MutationError

-- The calls of `RabbitAdapter` that a mutation makes.
pub data BrokerCall : Type 0 where
  bind_scope_member : String → String → String → String → BrokerCall
  ensure_tenant_mailboxes : String → String → BrokerCall

-- `mutation_count` and `window_started_at` after the upsert.
pub next_window : ℕ → ℕ → String → Option WindowRow → WindowRow
next_window window_ms now version none = record {
  window_started_at = now;
  mutation_count = 1;
  last_membership_version = version;
}
next_window window_ms now version (some row) =
    let expired = leb (row.window_started_at + window_ms) now in
    record {
      window_started_at = if expired then now else row.window_started_at;
      mutation_count =
          if expired
          then 1
          else if str_eq row.last_membership_version version
          then row.mutation_count
          else row.mutation_count + 1;
      last_membership_version = version;
    }

pub record_membership_mutation :
    Config → ℕ → String → String → String → Db → Result MutationError Db
record_membership_mutation c now network_id label version db =
    let row =
      next_window c.membership_mutation_window now version
        (lookup (network_id, label) db.windows) in
    if ltb c.max_membership_mutations_per_scope_per_window row.mutation_count
    then err window_limit_exceeded
    else ok (record db { windows = insert (network_id, label) row db.windows })

-- `set.contains`, `set.insert`, `set.remove`; the order of a `BTreeSet` is left out.
unfoldable pub contains : String → List String → Bool
contains p [] = false
contains p (q ∷ qs) = str_eq q p || contains p qs

unfoldable pub add : String → List String → List String
add p qs = if contains p qs then qs else qs ++ p ∷ []

pub remove : String → List String → List String
remove p [] = []
remove p (q ∷ qs) = let rest = remove p qs in if str_eq q p then rest else q ∷ rest

-- The principals of the active rows of a scope.
pub active_members : String → String → Members → List String
active_members network_id label [] = []
active_members network_id label (((n, (l, p)), row) ∷ t) =
    let rest = active_members network_id label t in
    if in_scope network_id label (n, (l, p)) && is_active row.state then add p rest else rest

pub keys : Membership → List String
keys [] = []
keys ((p, roles) ∷ m) = add p (keys m)

pub desired_members : MembershipMutation → List String → List String
desired_members (snapshot _ membership _ _ _) existing = keys membership
desired_members (principal _ p true _) existing = add p existing
desired_members (principal _ p false _) existing = remove p existing

abbrev roles_or_default : Option (List String) → List String
roles_or_default none = []
roles_or_default (some roles) = roles

unfoldable pub roles_of : MembershipMutation → String → List String
roles_of (snapshot _ membership _ _ _) p = roles_or_default (lookup p membership)
roles_of (principal _ _ _ _) p = []

-- `UPDATE … SET state = 'revoked'` on every row of the scope
unfoldable pub revoke_scope : String → String → String → Members → Members
revoke_scope network_id label version [] = []
revoke_scope network_id label version ((key, row) ∷ t) =
    let rest = revoke_scope network_id label version t in
    if in_scope network_id label key
    then (
      key,
      record row {
        membership_version = version;
        state = revoked;
        interactive_binding_state = binding_revoked;
        bulk_binding_state = binding_revoked;
      },
    )
      ∷ rest
    else (key, row) ∷ rest

unfoldable pub active_row : String → List String → MemberRow
active_row version roles = record {
  membership_version = version;
  state = active;
  interactive_binding_state = binding_active;
  bulk_binding_state = binding_active;
  roles = roles;
}

-- The upserts of the desired members.
unfoldable pub activate :
    String → String → String → (String → List String) → List String → Members → Members
activate network_id label version roles [] t = t
activate network_id label version roles (p ∷ ps) t =
    activate network_id label version roles ps
      (insert (network_id, (label, p)) (active_row version (roles p)) t)

-- The routes that the scope's bindings use.
pub scope_routes : String → String → List BindingRow → List String
scope_routes network_id label [] = []
scope_routes network_id label (b ∷ bs) =
    let rest = scope_routes network_id label bs in
    if str_eq b.network_id network_id && str_eq b.scope_label label
    then add b.route_address rest
    else rest

abbrev pub with_route : Option String → List String → List String
with_route none routes = routes
with_route (some route) routes = add route routes

pub without_scope : String → String → List BindingRow → List BindingRow
without_scope network_id label [] = []
without_scope network_id label (b ∷ bs) =
    let rest = without_scope network_id label bs in
    if str_eq b.network_id network_id && str_eq b.scope_label label then rest else b ∷ rest

abbrev pub binding_row : String → String → String → String → String → Bool → BindingRow
binding_row network_id label version route p in_bulk = record {
  network_id = network_id;
  scope_label = label;
  route_address = route;
  principal_id = p;
  in_bulk = in_bulk;
  membership_version = version;
}

-- The bindings of one route: each member, in both delivery classes.
unfoldable pub route_bindings : String → String → String → String → List String → List BindingRow
route_bindings network_id label version route [] = []
route_bindings network_id label version route (p ∷ ps) =
    binding_row network_id label version route p false
    ∷ binding_row network_id label version route p true
    ∷ route_bindings network_id label version route ps

pub all_bindings : String → String → String → List String → List String → List BindingRow
all_bindings network_id label version members [] = []
all_bindings network_id label version members (route ∷ routes) =
    route_bindings network_id label version route members
    ++ all_bindings network_id label version members routes

pub bind_route_calls : String → String → String → List String → List BrokerCall
bind_route_calls network_id version route [] = []
bind_route_calls network_id version route (p ∷ ps) =
    bind_scope_member network_id p route version ∷ bind_route_calls network_id version route ps

pub bind_calls : String → String → List String → List String → List BrokerCall
bind_calls network_id version [] members = []
bind_calls network_id version (route ∷ routes) members =
    bind_route_calls network_id version route members
    ++ bind_calls network_id version routes members

-- `desired.difference(&existing)`
pub mailbox_calls : String → List String → List String → List BrokerCall
mailbox_calls network_id existing [] = []
mailbox_calls network_id existing (p ∷ ps) =
    let rest = mailbox_calls network_id existing ps in
    if contains p existing then rest else ensure_tenant_mailboxes network_id p ∷ rest

-- `routing_fence + 1`, or the first row of the scope
pub next_version : String → Option ScopeVersion → ScopeVersion
next_version version none = record { active_membership_version = version; routing_fence = 1 }
next_version version (some row) = record {
  active_membership_version = version;
  routing_fence = row.routing_fence + 1;
}

abbrev admission_error : Result AdmissionError (Unit {0}) → Result MutationError (Unit {0})
admission_error (ok u) = ok u
admission_error (err e) = err (not_admitted e)

pub admit_scope : Config → SwarmScope → ℕ → Result MutationError (Unit {0})
admit_scope c global n = admission_error (validate_proposed_tenant_count c n)
admit_scope c _ n = ok tt

module _ (broker : List BrokerCall → Bool) (c : Config) (now elapsed : ℕ) where
  -- The writes, once the broker has the bindings.
  pub write_membership : String → String → MembershipMutation → List String → List String → Db → Db
  write_membership network_id label mutation desired routes db =
      let version = mutation_version mutation in
      record db {
        members =
            activate network_id label version (roles_of mutation) desired
              (revoke_scope network_id label version db.members);
        bindings =
            without_scope network_id label db.bindings
            ++ all_bindings network_id label version desired routes;
        versions =
            insert (network_id, label)
              (next_version version (lookup (network_id, label) db.versions)) db.versions;
      }

  pub apply_in_scope :
      String → String → MembershipMutation → Option String → Db → Result MutationError (Db × ℕ)
  apply_in_scope network_id label mutation additional_route db = do
    let version = mutation_version mutation
    recorded ← record_membership_mutation c now network_id label version db
    let existing = active_members network_id label recorded.members
    let desired = desired_members mutation existing
    admit_scope c (scope_of mutation) (length desired)
    let routes = with_route additional_route (scope_routes network_id label recorded.bindings)
    bail_if
        (not (
          broker (
            bind_calls network_id version routes desired
            ++ mailbox_calls network_id existing desired)))
        binding_failed
    bail_if (ltb c.max_membership_binding_lag elapsed) lag_exceeded
    ok (write_membership network_id label mutation desired routes recorded, length desired)

  pub apply_membership_mutation :
      (SwarmScope → Option String)
      → String
      → MembershipMutation
      → Option String
      → Db
      → Result MutationError (Db × ℕ)
  apply_membership_mutation label network_id mutation additional_route db = do
    scope_label ← or_bail (label (scope_of mutation)) no_label
    apply_in_scope network_id scope_label mutation additional_route db
