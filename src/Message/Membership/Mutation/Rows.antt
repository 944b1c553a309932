-- ===== src/Message/Membership/Mutation/Rows.antt =====
-- The rows of a scope under the statements of a mutation
-- (crates/message-gateway/src/service.rs).
use watt_gateway.Prelude.{
  String, ◌≡◌, refl, ◌∙◌, Bool, true, false, ◌||◌, Option, none, some, List, [], ◌∷◌, ◌++◌, arith,
  str_eq, eq_iff, str_eq_refl, if◌then◌else◌, string_eq, pair_eq, Eq, lookup, insert, lookup-insert,
}
use watt_gateway.Message.Membership.{
  revoked, binding_revoked, MemberRow, MemberKey, Members, in_scope, row_is_active,
}
use watt_gateway.Message.Membership.Mutation.{
  contains, add, remove, active_members, revoke_scope, active_row, activate,
}

abbrev pub key_eq : Eq MemberKey
key_eq = pair_eq

-- The rows of a table have different keys.
abbrev pub IsKeyed : Members → Type 0
IsKeyed [] = Unit
IsKeyed ((key, row) ∷ t) = (lookup key t ≡ none) × IsKeyed t

pub contains-append :
    (q : String) (xs : List String) (p : String)
    → contains q (xs ++ p ∷ []) ≡ (contains q xs || str_eq p q)
unfolding contains
contains-append q [] p = ground arith
contains-append q (x ∷ xs) p = ground (arith, contains-append q xs p)

pub contains-add :
    (q p : String) (xs : List String) → contains q (add p xs) ≡ (str_eq p q || contains q xs)
unfolding add
contains-add q p xs = ground (arith, contains-append q xs p, eq_iff p q)

pub contains-remove :
    (q p : String) (xs : List String)
    → contains q (remove p xs) ≡ (if str_eq p q then false else contains q xs)
unfolding contains remove
contains-remove q p [] = ground arith
contains-remove q p (x ∷ xs) =
    ground (arith, contains-remove q p xs, eq_iff p q, eq_iff x p, eq_iff x q)

module _ (network_id label version : String) where
  revoke : MemberRow → MemberRow
  revoke row = record row {
    membership_version = version;
    state = revoked;
    interactive_binding_state = binding_revoked;
    bulk_binding_state = binding_revoked;
  }

  lookup-revoke_out :
      (key : MemberKey) (t : Members)
      → in_scope network_id label key ≡ false
      → lookup key (revoke_scope network_id label version t) ≡ lookup key t
  unfolding lookup revoke_scope
  lookup-revoke_out key [] h = refl
  lookup-revoke_out key ((k, row) ∷ t) h =
      ground (arith, lookup-revoke_out key t h, key_eq.beq_iff k key)

  revoked_in_scope :
      (key : MemberKey) (t : Members)
      → in_scope network_id label key ≡ true
      → row_is_active (lookup key (revoke_scope network_id label version t)) ≡ false
  unfolding lookup revoke_scope
  revoked_in_scope key [] h = refl
  revoked_in_scope key ((k, row) ∷ t) h =
      ground (arith, revoked_in_scope key t h, key_eq.beq_iff k key)

  module _ (roles : String → List String) where
    lookup-activate_out :
        (key : MemberKey) (ps : List String) (t : Members)
        → in_scope network_id label key ≡ false
        → lookup key (activate network_id label version roles ps t) ≡ lookup key t
    unfolding activate
    lookup-activate_out key [] t h = refl
    lookup-activate_out (n, (l, q)) (p ∷ ps) t h =
        lookup-activate_out (n, (l, q)) ps _ h
        ∙ ground (
          arith,
          lookup-insert (network_id, (label, p)) (n, (l, q)) (active_row version (roles p)) t,
          eq_iff network_id n,
          eq_iff n network_id,
          eq_iff label l,
          eq_iff l label,
        )

    lookup-activate :
        (q : String) (ps : List String) (t : Members)
        → lookup (network_id, (label, q)) (activate network_id label version roles ps t) ≡ (
            if contains q ps
            then some (active_row version (roles q))
            else lookup (network_id, (label, q)) t)
    unfolding activate contains
    lookup-activate q [] t = refl
    lookup-activate q (p ∷ ps) t =
        lookup-activate q ps _
        ∙ ground (
          arith,
          lookup-insert (network_id, (label, p)) (network_id, (label, q))
              (active_row version (roles p)) t,
          str_eq_refl network_id,
          str_eq_refl label,
          eq_iff p q,
        )

-- Keys stay different under the statements of a mutation.
insert-IsKeyed :
    (key : MemberKey) (row : MemberRow) (t : Members) → IsKeyed t → IsKeyed (insert key row t)
unfolding insert lookup
insert-IsKeyed key row [] h = (refl, tt)
insert-IsKeyed key row ((k, r) ∷ t) h = ground (
  arith,
  insert-IsKeyed key row t h.1,
  lookup-insert key k row t,
  key_eq.beq_iff k key,
  key_eq.beq_iff key k,
)

-- The active principals of a scope are those that the queries find active.
pub contains-active_members :
    (network_id label q : String) (t : Members)
    → IsKeyed t
    → contains q (active_members network_id label t)
      ≡ row_is_active (lookup (network_id, (label, q)) t)
unfolding active_members lookup contains
contains-active_members network_id label q [] h = refl
contains-active_members network_id label q (((n, (l, p)), row) ∷ t) h = ground (
  arith,
  contains-active_members network_id label q t h.1,
  contains-add q p (active_members network_id label t),
  eq_iff n network_id,
  eq_iff l label,
  eq_iff p q,
)

module _ (network_id label version : String) where
  lookup-revoke_none :
      (key : MemberKey) (t : Members)
      → lookup key t ≡ none
      → lookup key (revoke_scope network_id label version t) ≡ none
  unfolding lookup revoke_scope
  lookup-revoke_none key [] h = refl
  lookup-revoke_none key ((k, row) ∷ t) h = ground (arith, lookup-revoke_none key t)

  revoke_scope-IsKeyed :
      (t : Members) → IsKeyed t → IsKeyed (revoke_scope network_id label version t)
  unfolding revoke_scope
  revoke_scope-IsKeyed [] h = tt
  revoke_scope-IsKeyed ((k, row) ∷ t) h =
      ground (arith, lookup-revoke_none k t h.0, revoke_scope-IsKeyed t h.1)

  activate-IsKeyed :
      (roles : String → List String) (ps : List String) (t : Members)
      → IsKeyed t
      → IsKeyed (activate network_id label version roles ps t)
  unfolding activate
  activate-IsKeyed roles [] t h = h
  activate-IsKeyed roles (p ∷ ps) t h =
      activate-IsKeyed roles ps _ (insert-IsKeyed _ (active_row version (roles p)) t h)

  -- The members that the statements of a mutation leave.
  abbrev pub activated : (String → List String) → List String → Members → Members
  activated roles ps t =
      activate network_id label version roles ps (revoke_scope network_id label version t)

  pub members-IsKeyed :
      (roles : String → List String) (ps : List String) (t : Members)
      → IsKeyed t
      → IsKeyed
          (activate network_id label version roles ps (revoke_scope network_id label version t))
  members-IsKeyed roles ps t h = activate-IsKeyed roles ps _ (revoke_scope-IsKeyed t h)

  -- The row of a principal after a mutation: the written row, or one that is not active.
  pub lookup_member :
      (roles : String → List String) (q : String) (ps : List String) (t : Members)
      → let row =
          lookup
            (network_id, (label, q))
            (activate network_id label version roles ps
              (revoke_scope network_id label version t)) in
        (contains q ps ≡ true → row ≡ some (active_row version (roles q)))
        × (row_is_active row ≡ contains q ps)
  unfolding active_row
  lookup_member roles q ps t =
      let e =
        lookup-activate network_id label version roles q ps
          (revoke_scope network_id label version t) in
      let r =
        revoked_in_scope network_id label version (network_id, (label, q)) t
          (rw (str_eq_refl network_id, str_eq_refl label)) in
      (λ h. e ∙ rw h, rw e (after_if (contains q ps) (roles q) _ r))
    where
      after_if :
          (b : Bool) (rs : List String) (row : Option MemberRow)
          → row_is_active row ≡ false
          → row_is_active (if b then some (active_row version rs) else row) ≡ b
      after_if true rs row h = refl
      after_if false rs row h = h

  pub lookup_elsewhere :
      (roles : String → List String) (key : MemberKey) (ps : List String) (t : Members)
      → in_scope network_id label key ≡ false
      → lookup key
          (activate network_id label version roles ps (revoke_scope network_id label version t))
        ≡ lookup key t
  lookup_elsewhere roles key ps t h =
      lookup-activate_out network_id label version roles key ps _ h
      ∙ lookup-revoke_out network_id label version key t h
