-- ===== src/Message/Membership.antt =====
-- The projected membership of a network: the tables that crates/message-gateway/src/db.rs reads
-- for admission, and its queries. `clock_timestamp()` is an argument, in milliseconds. The columns
-- that only record a time are left out; a role is its name.
pub mod Mutation
pub mod Quorum
pub mod Grants
pub mod Genesis
use watt_gateway.Prelude.{
  ℕ, suc, ◌+◌, String, Bool, true, false, ◌&&◌, ◌||◌, Option, none, some, List, [], ◌∷◌, ltb, leb,
  ◌==◌, str_eq, if◌then◌else◌, length, Eq, string_eq, pair_eq, Table, lookup, insert, Result, ok,
  err, bail_if, ◌>>=◌, ◌>>◌,
}

-- `SwarmScope` of wattswarm_network_transport_core.
pub data SwarmScope : Type 0 where
  global : SwarmScope
  region node group : String → SwarmScope

pub data RowState : Type 0 where
  active revoked : RowState

abbrev pub is_active : RowState → Bool
is_active active = true
is_active revoked = false

pub data BindingState : Type 0 where
  binding_pending binding_active binding_revoked : BindingState

-- A row of `gateway_scope_memberships`, keyed by network, scope label and principal.
pub record MemberRow : Type 0 where
  pub membership_version : String
  pub state : RowState
  pub interactive_binding_state : BindingState
  pub bulk_binding_state : BindingState
  pub roles : List String

abbrev pub MemberKey : Type 0
MemberKey = String × (String × String)

abbrev pub Members : Type 0
Members = Table MemberKey MemberRow

-- A row of `gateway_network_membership_grants`, keyed by network and principal.
pub record GrantRow : Type 0 where
  pub grant_id : String
  pub issued_at_ms : ℕ
  pub expires_at_ms : Option ℕ

abbrev pub Grants : Type 0
Grants = Table (String × String) GrantRow

-- A row of `gateway_scope_versions`.
pub record ScopeVersion : Type 0 where
  pub active_membership_version : String
  pub routing_fence : ℕ

-- A row of `gateway_scope_mutation_windows`.
pub record WindowRow : Type 0 where
  pub window_started_at : ℕ
  pub mutation_count : ℕ
  pub last_membership_version : String

-- A row of `gateway_scope_route_bindings`; its state is always `active`.
pub record BindingRow : Type 0 where
  pub network_id : String
  pub scope_label : String
  pub route_address : String
  pub principal_id : String
  pub in_bulk : Bool
  pub membership_version : String

-- `gateway_network_authorities`, keyed by network, principal and kind: the state of the row.
abbrev pub Authorities : Type 0
Authorities = Table (String × (String × String)) RowState

pub record Db : Type 0 where
  pub members : Members
  pub grants : Grants
  pub versions : Table (String × String) ScopeVersion
  pub windows : Table (String × String) WindowRow
  pub bindings : List BindingRow
  pub authorities : Authorities

-- The `left join` on the grant: no grant and a grant without an expiry pass.
abbrev expiry_is_ahead : ℕ → Option ℕ → Bool
expiry_is_ahead now none = true
expiry_is_ahead now (some expires_at_ms) = ltb now expires_at_ms

pub grant_is_live : ℕ → Option GrantRow → Bool
grant_is_live now none = true
grant_is_live now (some row) = expiry_is_ahead now row.expires_at_ms

abbrev pub row_is_active : Option MemberRow → Bool
row_is_active none = false
row_is_active (some row) = is_active row.state

-- `membership_version = $4`, where a version is asked for
abbrev pub has_version : Option String → Option MemberRow → Bool
has_version none row = true
has_version (some version) none = false
has_version (some version) (some row) = str_eq row.membership_version version

pub principal_is_admitted : Db → ℕ → String → String → Bool
principal_is_admitted db now network_id principal_id =
    row_is_active (lookup (network_id, ("global", principal_id)) db.members)
    && grant_is_live now (lookup (network_id, principal_id) db.grants)

abbrev pub authority_is_active : Option RowState → Bool
authority_is_active none = false
authority_is_active (some state) = is_active state

pub principal_is_global_authority : Db → String → String → Bool
principal_is_global_authority db network_id principal_id =
    authority_is_active (lookup (network_id, (principal_id, "genesis")) db.authorities)

-- The test of a row in a scope of a network.
abbrev pub in_scope : String → String → MemberKey → Bool
in_scope network_id label (n, (l, p)) = str_eq n network_id && str_eq l label

module _ (db : Db) (now : ℕ) (network_id label : String) (version : Option String) where
  abbrev counts : MemberKey → MemberRow → Bool
  counts (n, (l, p)) row =
      in_scope network_id label (n, (l, p))
      && is_active row.state
      && grant_is_live now (lookup (n, p) db.grants)
      && has_version version (some row)

  pub count_members : Members → ℕ
  count_members [] = 0
  count_members ((key, row) ∷ t) =
      let rest = count_members t in if counts key row then suc rest else rest

-- The principal is the key of its rows in a scope, so the distinct ones are counted by rows.
pub active_tenant_count : Db → ℕ → String → ℕ
active_tenant_count db now network_id = count_members db now network_id "global" none db.members

pub data MembershipError : Type 0 where
  direct_route_not_admitted : MembershipError
  principal_not_authorized : MembershipError
  scope_has_no_label : MembershipError

pub is_author : Db → ℕ → String → String → String → Bool → Bool
is_author db now network_id label principal_id allow_network_member =
    (row_is_active (lookup (network_id, (label, principal_id)) db.members)
      || (allow_network_member
          && row_is_active (lookup (network_id, ("global", principal_id)) db.members)))
    && grant_is_live now (lookup (network_id, principal_id) db.grants)

abbrev pub version_of : Option ScopeVersion → Option String
version_of none = none
version_of (some row) = some row.active_membership_version

module _ (label : SwarmScope → Option String) where
  shared_scope_version_and_count :
      Db → ℕ → String → Option String → String → Bool → Result MembershipError (Option String × ℕ)
  shared_scope_version_and_count db now network_id none principal_id allow = err scope_has_no_label
  shared_scope_version_and_count db now network_id (some scope_label) principal_id allow =
      let version = version_of (lookup (network_id, scope_label) db.versions) in
      if is_author db now network_id scope_label principal_id allow
      then ok (version, count_members db now network_id scope_label version db.members)
      else err principal_not_authorized

  pub authorized_scope_version_and_count :
      Db → ℕ → String → SwarmScope → String → Bool → Result MembershipError (Option String × ℕ)
  unfolding shared_scope_version_and_count
  authorized_scope_version_and_count db now network_id (node recipient) principal_id allow =
      if principal_is_admitted db now network_id principal_id
        && principal_is_admitted db now network_id recipient
      then ok (none, 1)
      else err direct_route_not_admitted
  authorized_scope_version_and_count db now network_id scope principal_id allow =
      shared_scope_version_and_count db now network_id (label scope) principal_id allow

  shared_scope_contains :
      Db → ℕ → String → Option String → String → Option String → Result MembershipError Bool
  shared_scope_contains db now network_id none principal_id version = err scope_has_no_label
  shared_scope_contains db now network_id (some scope_label) principal_id version =
      let row = lookup (network_id, (scope_label, principal_id)) db.members in
      ok (
        row_is_active row
        && grant_is_live now (lookup (network_id, principal_id) db.grants)
        && has_version version row)

  pub scope_contains_principal :
      Db → ℕ → String → SwarmScope → String → Option String → Result MembershipError Bool
  unfolding shared_scope_contains
  scope_contains_principal db now network_id (node recipient) principal_id version =
      ok (str_eq recipient principal_id)
  scope_contains_principal db now network_id scope principal_id version =
      shared_scope_contains db now network_id (label scope) principal_id version
